-- ===== src/Netsize/Windows.antt =====
-- netsize/netsize.go: the measurements stay in the order of time, so that Track keeps the recent ones.
use go_libp2p_kad_dht.Prelude.{
  ℕ, zero, suc, ◌==◌, ◌+◌, ◌-◌, ◌≤◌, ◌<◌, ltb, min, ℤ, pos, negsuc, List, [], ◌∷◌, ◌++◌, true, ◌≡◌,
  refl, sym, ap, inl, inr, arith, length, drop, All, All-append, select, Bool-cases,
}
use go_libp2p_kad_dht.Netsize.{
  Measurement, Limits, Estimator, new_estimator, is_recent, search, drop_old, strip, track,
  garbage_collect, lacks_data, cached_or, network_size, EstimatorUse, tracks, asks, use_once, uses,
}

-- No measurement is older than the one before it, or younger than the clock.
abbrev pub IsOrdered : ℕ → List Measurement → Type 0
IsOrdered now [] = Unit
IsOrdered now (m ∷ ms) =
    All (λ (x : Measurement). m.timestamp ≤ x.timestamp) ms × (m.timestamp ≤ now) × IsOrdered now ms

IsOrdered-append :
    (now later : ℕ) (ms : List Measurement) (m : Measurement)
    → now ≤ later
    → m.timestamp ≡ later
    → IsOrdered now ms
    → IsOrdered later (ms ++ m ∷ [])
IsOrdered-append now later [] m le e h = (tt, omega (arith, e), tt)
IsOrdered-append now later (x ∷ ms) m le e h = (
  All-append (λ (y : Measurement). x.timestamp ≤ y.timestamp) ms (m ∷ []) h.0
      (omega (arith, h.1, e, le), tt),
  omega (arith, h.1, le),
  IsOrdered-append now later ms m le e h.2,
)

IsOrdered-later :
    (now later : ℕ) (ms : List Measurement) → now ≤ later → IsOrdered now ms → IsOrdered later ms
IsOrdered-later now later [] le h = tt
IsOrdered-later now later (x ∷ ms) le h =
    (h.0, omega (arith, h.1, le), IsOrdered-later now later ms le h.2)

drop-IsOrdered : (now k : ℕ) (ms : List Measurement) → IsOrdered now ms → IsOrdered now (drop k ms)
drop-IsOrdered now zero ms h = h
drop-IsOrdered now (suc k) [] h = tt
drop-IsOrdered now (suc k) (x ∷ ms) h = drop-IsOrdered now k ms h.2

-- All that follows a recent measurement is recent.
all_recent :
    (c : Limits) (now : ℕ) (m : Measurement) (ms : List Measurement)
    → is_recent c now m ≡ true
    → All (λ (x : Measurement). m.timestamp ≤ x.timestamp) ms
    → select (is_recent c now) ms ≡ ms
all_recent c now m [] r h = refl
all_recent c now m (x ∷ ms) r h =
    let e : is_recent c now x ≡ true = ground (arith, h.0) in
    simp e (ap (λ l. x ∷ l) (all_recent c now m ms r h.1))

drop_old-select :
    (c : Limits) (now t : ℕ) (ms : List Measurement)
    → IsOrdered t ms
    → drop_old c now ms ≡ select (is_recent c now) ms
unfolding drop_old search
drop_old-select c now t [] h = refl
drop_old-select c now t (m ∷ ms) h = elim (Bool-cases (is_recent c now m)) [
  | inl e ↦ simp e (ap (λ l. m ∷ l) (sym (all_recent c now m ms e h.0)))
  | inr e ↦ simp e (drop_old-select c now t ms h.2)
]

strip-IsOrdered :
    (c : Limits) (now : ℕ) (ms : List Measurement) → IsOrdered now ms → IsOrdered now (strip c ms)
unfolding strip
strip-IsOrdered c now ms h = elim (Bool-cases (ltb c.max_measurements (length ms))) [
  | inl e ↦ simp e (drop-IsOrdered now _ ms h)
  | inr e ↦ simp e h
]

length-drop : (k : ℕ) (ms : List Measurement) → k ≤ length ms → length (drop k ms) + k ≡ length ms
length-drop zero ms h = omega arith
length-drop (suc k) [] h = absurd (omega arith)
length-drop (suc k) (x ∷ ms) h = omega (arith, length-drop k ms (omega arith))

drop_suffix :
    (k : ℕ) (ms : List Measurement) → (front : List Measurement) × (front ++ drop k ms ≡ ms)
drop_suffix zero ms = ([], refl)
drop_suffix (suc k) [] = ([], refl)
drop_suffix (suc k) (x ∷ ms) = let (front, e) = drop_suffix k ms in (x ∷ front, ap (λ l. x ∷ l) e)

-- The last measurements remain, as many as there are up to the maximal number.
strip_suffix :
    (c : Limits) (ms : List Measurement)
    → ((front : List Measurement) × (front ++ strip c ms ≡ ms))
      × (length (strip c ms) ≡ min c.max_measurements (length ms))
unfolding strip
strip_suffix c ms = elim (Bool-cases (ltb c.max_measurements (length ms))) [
  | inl e ↦
      simp e (drop_suffix _ ms, ground (arith, length-drop (length ms - c.max_measurements) ms))
  | inr e ↦ simp e (([], refl), ground arith)
]

abbrev AllOrdered : ℕ × Estimator → Type 0
AllOrdered s = (i : ℕ) → IsOrdered s.0 (s.1.measurements i)

track-AllOrdered :
    (c : Limits) (now d : ℕ) (e : Estimator) (count : ℕ) (distances : ℕ → ℕ) (weight : ℕ)
    → AllOrdered (now, e)
    → AllOrdered (now + d, (track c (now + d) e count distances weight).1)
unfolding track drop_old
track-AllOrdered c now d e count distances weight h = elim (Bool-cases (count == c.bucket_size)) [
  | inr b ↦ simp b (λ i. IsOrdered-later now (now + d) (e.measurements i) (omega arith) (h i))
  | inl b ↦ simp b (λ i. elim (Bool-cases (ltb i c.bucket_size)) [
    | inr o ↦ simp o (IsOrdered-later now (now + d) (e.measurements i) (omega arith) (h i))
    | inl o ↦
        let m : Measurement = record {
          distance = distances i;
          weight = weight;
          timestamp = now + d;
        } in
        simp o (
          strip-IsOrdered c (now + d) _ (
            drop-IsOrdered (now + d) _ (e.measurements i ++ m ∷ [])
              (IsOrdered-append now (now + d) (e.measurements i) m (omega arith) refl (h i))))
  ])
]

network_size-AllOrdered :
    (c : Limits) (now d : ℕ) (e : Estimator)
    → AllOrdered (now, e)
    → AllOrdered (now + d, (network_size c (now + d) e).1)
unfolding network_size garbage_collect drop_old
network_size-AllOrdered c now d e h = by_cache e.net_size_cache
  where
    kept : (i : ℕ) → IsOrdered (now + d) (e.measurements i)
    kept i = IsOrdered-later now (now + d) (e.measurements i) (omega arith) (h i)

    collected : (i : ℕ) → IsOrdered (now + d) ((garbage_collect c (now + d) e).measurements i)
    collected i = elim (Bool-cases (ltb i c.bucket_size)) [
      | inl o ↦ simp o (drop-IsOrdered (now + d) _ (e.measurements i) (kept i))
      | inr o ↦ simp o (kept i)
    ]

    by_cache : (o : ℤ) → AllOrdered (now + d, (cached_or o c (now + d) e).1)
    by_cache (pos n) = kept
    by_cache (negsuc (suc n)) = kept
    by_cache (negsuc zero) =
        elim (Bool-cases (lacks_data c (garbage_collect c (now + d) e) c.bucket_size)) [
          | inl l ↦ simp l collected
          | inr l ↦ simp l collected
        ]

use_once-AllOrdered :
    (c : Limits) (s : ℕ × Estimator) (u : EstimatorUse) → AllOrdered s → AllOrdered (use_once c s u)
unfolding use_once
use_once-AllOrdered c (now, e) (tracks d count distances weight) h =
    track-AllOrdered c now d e count distances weight h
use_once-AllOrdered c (now, e) (asks d) h = network_size-AllOrdered c now d e h

uses-AllOrdered :
    (c : Limits) (s : ℕ × Estimator) (us : List EstimatorUse)
    → AllOrdered s
    → AllOrdered (uses c s us)
unfolding uses
uses-AllOrdered c s [] h = h
uses-AllOrdered c s (u ∷ us) h = uses-AllOrdered c (use_once c s u) us (use_once-AllOrdered c s u h)

-- After any uses of a new estimator, a call of Track with the right number of peers leaves at an index below
-- the bucket size, of the measurements there and the new one, those that are recent, in their order, without
-- the first ones when they are more than the maximal number, of which then as many remain.
pub track-select :
    (c : Limits) (us : List EstimatorUse) (d : ℕ) (distances : ℕ → ℕ) (weight i : ℕ)
    → i < c.bucket_size
    → let (now, e) = uses c (0, new_estimator) us in
      let m : Measurement = record {
        distance = distances i;
        weight = weight;
        timestamp = now + d;
      } in
      let recent = select (is_recent c (now + d)) (e.measurements i ++ m ∷ []) in
      let ms = (track c (now + d) e c.bucket_size distances weight).1.measurements i in
      ((front : List Measurement) × (front ++ ms ≡ recent))
      × (length ms ≡ min c.max_measurements (length recent))
unfolding track
track-select c us d distances weight i below =
    let s = uses c (0, new_estimator) us in
    let now = s.0 in
    let e = s.1 in
    let m : Measurement = record { distance = distances i; weight = weight; timestamp = now + d } in
    let ordered =
      IsOrdered-append now (now + d) (e.measurements i) m (omega arith) refl
        (uses-AllOrdered c (0, new_estimator) us (λ j. tt) i) in
    let right : (c.bucket_size == c.bucket_size) ≡ true = ground arith in
    let inside : ltb i c.bucket_size ≡ true = ground arith in
    simp (right, inside)
      (rw (drop_old-select c (now + d) (now + d) (e.measurements i ++ m ∷ []) ordered)
        (strip_suffix c (select (is_recent c (now + d)) (e.measurements i ++ m ∷ []))))
