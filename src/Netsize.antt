-- ===== src/Netsize.antt =====
-- netsize/netsize.go: the measurements of the network size estimator, their window in time and in number, and
-- the cached estimate. Distances and weights are kept as they are given, so that a number stands for a
-- float; the linear fit is a parameter.
pub mod Windows
mod Tests
use go_libp2p_kad_dht.Prelude.{
  ℕ, zero, suc, ◌==◌, ◌+◌, ◌-◌, ltb, if◌then◌else◌, Option, none, some, List, [], ◌∷◌, ◌++◌, Bool,
  true, false, length, drop, ℤ, pos, negsuc,
}

pub record Measurement : Type 0 where
  pub distance : ℕ
  pub weight : ℕ
  pub timestamp : ℕ

-- The bucket size, MaxMeasurementAge, MaxMeasurementsThreshold and MinMeasurementsThreshold, and the fit of
-- the estimate to the measurements.
pub record Limits : Type 0 where
  pub bucket_size : ℕ
  pub max_age : ℕ
  pub max_measurements : ℕ
  pub min_measurements : ℕ
  pub fit : (ℕ → List Measurement) → ℤ

-- invalidEstimate, -1: the cache is empty.
abbrev pub invalid_estimate : ℤ
invalid_estimate = negsuc 0

pub record Estimator : Type 0 where
  pub measurements : ℕ → List Measurement
  pub net_size_cache : ℤ

abbrev pub new_estimator : Estimator
new_estimator = record { measurements = λ i. []; net_size_cache = invalid_estimate }

-- `timestamp.After(now.Add(-MaxMeasurementAge))`
abbrev pub is_recent : Limits → ℕ → Measurement → Bool
is_recent c now m = ltb now (m.timestamp + c.max_age)

-- sort.Search on a test that is false on a first part and true on the rest: where the rest begins.
unfoldable pub search : (Measurement → Bool) → List Measurement → ℕ
search test [] = 0
search test (m ∷ ms) = let later = search test ms in if test m then 0 else suc later

unfoldable pub drop_old : Limits → ℕ → List Measurement → List Measurement
drop_old c now ms = drop (search (is_recent c now) ms) ms

unfoldable pub strip : Limits → List Measurement → List Measurement
strip c ms =
    if ltb c.max_measurements (length ms) then drop (length ms - c.max_measurements) ms else ms

-- The calls of the loop of Track for the index i.
abbrev pub track_at : Limits → ℕ → List Measurement → Measurement → List Measurement
track_at c now ms m = strip c (drop_old c now (ms ++ m ∷ []))

-- Track, for `count` peers with these distances: whether it has an error, and the estimator.
unfoldable pub track : Limits → ℕ → Estimator → ℕ → (ℕ → ℕ) → ℕ → Bool × Estimator
track c now e count distances weight =
    if count == c.bucket_size
    then (
      false,
      record {
        measurements = λ i.
            if ltb i c.bucket_size
            then track_at c now (e.measurements i)
                (record { distance = distances i; weight = weight; timestamp = now })
            else e.measurements i;
        net_size_cache = invalid_estimate;
      },
    )
    else (true, e)

unfoldable pub garbage_collect : Limits → ℕ → Estimator → Estimator
garbage_collect c now e = record e {
  measurements =
      λ i. if ltb i c.bucket_size then drop_old c now (e.measurements i) else e.measurements i;
}

-- Whether an index below the given one has too few measurements.
unfoldable pub lacks_data : Limits → Estimator → ℕ → Bool
lacks_data c e zero = false
lacks_data c e (suc i) =
    if ltb (length (e.measurements i)) c.min_measurements then true else lacks_data c e i

-- NetworkSize: the estimate, or `none` for ErrNotEnoughData.
abbrev pub fitted : Limits → Estimator → Option ℤ × Estimator
fitted c e =
    if lacks_data c e c.bucket_size
    then (none, e)
    else (some (c.fit e.measurements), record e { net_size_cache = c.fit e.measurements })

-- By the cached estimate: all but invalidEstimate are returned.
abbrev pub cached_or : ℤ → Limits → ℕ → Estimator → Option ℤ × Estimator
cached_or (pos n) c now e = (some (pos n), e)
cached_or (negsuc (suc n)) c now e = (some (negsuc (suc n)), e)
cached_or (negsuc zero) c now e = fitted c (garbage_collect c now e)

unfoldable pub network_size : Limits → ℕ → Estimator → Option ℤ × Estimator
network_size c now e = cached_or e.net_size_cache c now e

-- The calls of the two operations, each with the time since the one before.
pub data EstimatorUse : Type 0 where
  tracks : ℕ → ℕ → (ℕ → ℕ) → ℕ → EstimatorUse
  asks : ℕ → EstimatorUse

unfoldable pub use_once : Limits → ℕ × Estimator → EstimatorUse → ℕ × Estimator
use_once c (now, e) (tracks d count distances weight) =
    (now + d, (track c (now + d) e count distances weight).1)
use_once c (now, e) (asks d) = (now + d, (network_size c (now + d) e).1)

unfoldable pub uses : Limits → ℕ × Estimator → List EstimatorUse → ℕ × Estimator
uses c s [] = s
uses c s (u ∷ us) = uses c (use_once c s u) us
