-- ===== src/Netsize/Tests.antt =====
-- Runs of the estimator, and the theorem at one.
use go_libp2p_kad_dht.Prelude.{
  ◌+◌, min, pos, some, List, [], ◌∷◌, ◌++◌, ◌≡◌, refl, arith, length, select,
}
use go_libp2p_kad_dht.Netsize.{
  Measurement, Limits, new_estimator, is_recent, search, drop_old, strip, track, garbage_collect,
  lacks_data, network_size, EstimatorUse, tracks, asks, use_once, uses,
}
use go_libp2p_kad_dht.Netsize.Windows.{track-select}

abbrev limits : Limits
limits = record {
  bucket_size = 1;
  max_age = 10;
  max_measurements = 2;
  min_measurements = 2;
  fit = λ ms. pos (length (ms 0));
}

-- Two calls of Track, of which the first is too old at the third.
abbrev two_tracks : List EstimatorUse
two_tracks = tracks 1 1 (λ i. 7) 1 ∷ asks 1 ∷ tracks 5 1 (λ i. 8) 1 ∷ []

track_run :
    (let (now, e) = uses limits (0, new_estimator) two_tracks in
      (track limits (now + 6) e 1 (λ i. 9) 1).1.measurements 0)
    ≡ record { distance = 8; weight = 1; timestamp = 7 }
      ∷ record { distance = 9; weight = 1; timestamp = 13 }
      ∷ []
unfolding uses use_once track network_size garbage_collect lacks_data drop_old search strip
track_run = refl

size_run : (network_size limits 8 (uses limits (0, new_estimator) two_tracks).1).0 ≡ some (pos 2)
unfolding uses use_once track network_size garbage_collect lacks_data drop_old search strip
size_run = refl

track-select_example :
    let (now, e) = uses limits (0, new_estimator) two_tracks in
    let m : Measurement = record { distance = 9; weight = 1; timestamp = now + 6 } in
    let recent = select (is_recent limits (now + 6)) (e.measurements 0 ++ m ∷ []) in
    let ms = (track limits (now + 6) e 1 (λ i. 9) 1).1.measurements 0 in
    ((front : List Measurement) × (front ++ ms ≡ recent)) × (length ms ≡ min 2 (length recent))
track-select_example = track-select limits two_tracks 6 (λ i. 9) 1 0 (omega arith)
