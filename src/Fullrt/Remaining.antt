-- ===== src/Fullrt/Remaining.antt =====
-- bulkMessageSend of fullrt/dht.go: the moves that are left, and that one is possible as long as there are any.
use go_libp2p_kad_dht.Prelude.{
  ℕ, zero, suc, ◌+◌, ◌*◌, ◌<◌, ◌≤◌, ◌==◌, ltb, List, [], ◌∷◌, true, false, ◌≡◌, refl, ◌⊎◌, inl, inr,
  arith, length, ap, Bool-cases, leb, ◌&&◌,
}
use go_libp2p_kad_dht.Qpeerset.{PeerId}
use go_libp2p_kad_dht.Fullrt.Sending.{
  BulkWorker, idle, handling, calling, BulkState, BulkMove, receives, tests, returns, put_worker,
  receive_message, test_report, report_call, bulk_move,
}

abbrev queue_work : List (PeerId × List ℕ) → ℕ
queue_work [] = 0
queue_work ((p, ks) ∷ queue) = 2 * length ks + 2 + queue_work queue

abbrev worker_work : BulkWorker → ℕ
worker_work idle = 0
worker_work (handling p ks) = 2 * length ks + 1
worker_work (calling p k ks) = 2 * length ks + 2

abbrev workers_work : (ℕ → BulkWorker) → ℕ → ℕ
workers_work workers zero = 0
workers_work workers (suc n) = workers_work workers n + worker_work (workers n)

-- How many moves at most are left to the workers.
abbrev pub remaining : ℕ → BulkState → ℕ
remaining parallelism s = queue_work s.queue + workers_work s.workers parallelism

-- The queue is empty, and every worker waits.
abbrev pub IsFinished : ℕ → BulkState → Type 0
IsFinished parallelism s = (s.queue ≡ []) × ((i : ℕ) → i < parallelism → s.workers i ≡ idle)

workers_work-beyond :
    (workers : ℕ → BulkWorker) (i n : ℕ) (w : BulkWorker)
    → n ≤ i
    → workers_work (put_worker i w workers) n ≡ workers_work workers n
workers_work-beyond workers i zero w h = refl
workers_work-beyond workers i (suc n) w h =
    let other : (n == i) ≡ false = ground arith in
    rw other (omega (arith, workers_work-beyond workers i n w (omega arith)))

workers_work-put :
    (workers : ℕ → BulkWorker) (i n : ℕ) (w : BulkWorker)
    → i < n
    → workers_work (put_worker i w workers) n + worker_work (workers i)
      ≡ workers_work workers n + worker_work w
workers_work-put workers i zero w h = absurd (omega arith)
workers_work-put workers i (suc n) w h = elim (Bool-cases (n == i)) [
  | inl e ↦
      let same : n ≡ i = ground arith in
      let at = ap (λ j. worker_work (workers j)) same in
      rw e (omega (arith, at, workers_work-beyond workers i n w (omega (arith, same))))
  | inr e ↦ rw e (omega (arith, workers_work-put workers i n w (ground arith)))
]

some_busy :
    (workers : ℕ → BulkWorker) (n : ℕ)
    → ((i : ℕ) → i < n → workers i ≡ idle) ⊎ ((i : ℕ) × (i < n) × (0 < worker_work (workers i)))
some_busy workers zero = inl (λ i h. absurd (omega arith))
some_busy workers (suc n) = elim (some_busy workers n) [
  | inr (i, h, w) ↦ inr (i, omega arith, w)
  | inl all ↦ last (workers n) refl all
]
  where
    last :
        (w : BulkWorker)
        → workers n ≡ w
        → ((i : ℕ) → i < n → workers i ≡ idle)
        → ((i : ℕ) → i < suc n → workers i ≡ idle)
          ⊎ ((i : ℕ) × (i < suc n) × (0 < worker_work (workers i)))
    last idle e all = inl (λ i h. elim (Bool-cases (i == n)) [
      | inl s ↦ let same : i ≡ n = ground arith in rw same e
      | inr s ↦ all i (ground arith)
    ])
    last (handling p ks) e all = inr (n, omega arith, rw e (omega arith))
    last (calling p k ks) e all = inr (n, omega arith, rw e (omega arith))

module _ (parallelism enough : ℕ) where
  -- A move that leaves fewer moves.
  abbrev pub CanMove : BulkState → Type 0
  CanMove s =
      (m : BulkMove) × (remaining parallelism (bulk_move parallelism enough s m)
        < remaining parallelism s)

  busy_moves :
      (s : BulkState) (i : ℕ) (w : BulkWorker)
      → s.workers i ≡ w
      → i < parallelism
      → 0 < worker_work w
      → CanMove s
  unfolding bulk_move test_report report_call
  busy_moves s i idle e h b = absurd (omega arith)
  busy_moves s i (handling p []) e h b =
      let size = ap worker_work e in
      (tests i false, rw e (omega (arith, size, workers_work-put s.workers i parallelism idle h)))
  busy_moves s i (handling p (k ∷ ks)) e h b =
      let size = ap worker_work e in
      let never : (leb enough (s.successes k) && false) ≡ false = ground arith in
      (
        tests i false,
        rw e (
            rw never
              (omega (arith, size, workers_work-put s.workers i parallelism (calling p k ks) h))),
      )
  busy_moves s i (calling p k ks) e h b =
      let size = ap worker_work e in
      (
        returns i true,
        rw e (omega (arith, size, workers_work-put s.workers i parallelism (handling p ks) h)),
      )

  queued_moves :
      (s : BulkState) (queue : List (PeerId × List ℕ))
      → s.queue ≡ queue
      → 0 < parallelism
      → ((i : ℕ) → i < parallelism → s.workers i ≡ idle)
      → IsFinished parallelism s ⊎ CanMove s
  unfolding bulk_move receive_message
  queued_moves s [] q h all = inl (q, all)
  queued_moves s ((p, ks) ∷ queue) q h all =
      let first : ltb 0 parallelism ≡ true = ground arith in
      let waits : s.workers 0 ≡ idle = all 0 h in
      let size = ap worker_work waits in
      let long = ap queue_work q in
      inr (
        receives 0 true,
        rw first (
            rw (waits, q)
              (omega
                (arith, size, long, workers_work-put s.workers 0 parallelism (handling p ks) h))),
      )

  pub can_move : (s : BulkState) → 0 < parallelism → IsFinished parallelism s ⊎ CanMove s
  can_move s h = elim (some_busy s.workers parallelism) [
    | inr (i, below, b) ↦ inr (busy_moves s i (s.workers i) refl below b)
    | inl all ↦ queued_moves s s.queue refl h all
  ]
