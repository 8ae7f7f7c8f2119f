-- ===== src/Fullrt/Kept.antt =====
-- bulkMessageSend of fullrt/dht.go: every move of its goroutines keeps the invariant.
use go_libp2p_kad_dht.Prelude.{
  ℕ, ◌+◌, ◌==◌, ltb, leb, if◌then◌else◌, List, [], ◌∷◌, Bool, true, false, ◌&&◌, ◌≡◌, refl, ◌∙◌,
  sym, ap, ◌⊎◌, inl, inr, arith, contains, Bool-cases,
}
use go_libp2p_kad_dht.Qpeerset.{PeerId}
use go_libp2p_kad_dht.Fullrt.Bulk.{pending}
use go_libp2p_kad_dht.Fullrt.Sending.{
  BulkWorker, idle, handling, calling, BulkState, bulk_start, BulkMove, ends, breaks, receives,
  tests, returns, put_worker, count_up, receive_message, test_report, report_call, bulk_move,
  bulk_moves,
}
use go_libp2p_kad_dht.Fullrt.Sound.{busy, Settled, Sound, workers_planned, worker_stays, put_busy}

module _ (planned : PeerId → ℕ → Bool) (enough : ℕ) where
  receive_message-Sound :
      (s : BulkState) (i : ℕ) (connected : Bool) (w : BulkWorker) (queue : List (PeerId × List ℕ))
      → s.workers i ≡ w
      → s.queue ≡ queue
      → Sound planned enough s
      → Sound planned enough (receive_message s i connected w queue)
  unfolding receive_message
  receive_message-Sound s i connected idle [] we qe v = v
  receive_message-Sound s i connected (handling p ks) queue we qe v = v
  receive_message-Sound s i connected (calling p k ks) queue we qe v = v
  receive_message-Sound s i true idle ((r, ks) ∷ queue) we qe v =
      let split =
        λ (p : PeerId). λ (k : ℕ). ap (λ (m : List (PeerId × List ℕ)). pending m p k) qe in
      record {
        in_queue = λ p k h. v.in_queue p k (ground (arith, split p k));
        in_workers =
            workers_planned planned s.workers i (handling r ks) v.in_workers
              (λ p k h. v.in_queue p k (ground (arith, split p k)));
        in_calls = v.in_calls;
        counted = v.counted;
        covered = λ p k e h. elim (v.covered p k e h) [
          | inl f ↦ elim (Bool-cases ((r == p) && contains ks k)) [
            | inl here ↦ inr (inl (put_busy s.workers i (handling r ks) p k here))
            | inr away ↦ inl (ground (arith, split p k))
          ]
          | inr (inl b) ↦ elim (worker_stays s.workers i (handling r ks) p k b) [
            | inl stays ↦ inr (inl stays)
            | inr had ↦ absurd (let had' = (rw we at had) in ground arith)
          ]
          | inr (inr f) ↦ inr (inr f)
        ];
      }
  receive_message-Sound s i false idle ((r, ks) ∷ queue) we qe v =
      let split =
        λ (p : PeerId). λ (k : ℕ). ap (λ (m : List (PeerId × List ℕ)). pending m p k) qe in
      record {
        in_queue = λ p k h. v.in_queue p k (ground (arith, split p k));
        in_workers = v.in_workers;
        in_calls = v.in_calls;
        counted = v.counted;
        covered = λ p k e h. elim (v.covered p k e h) [
          | inl f ↦ elim (Bool-cases ((r == p) && contains ks k)) [
            | inl here ↦ inr (inr (inr (inl (ground arith))))
            | inr away ↦ inl (ground (arith, split p k))
          ]
          | inr (inl b) ↦ inr (inl b)
          | inr (inr (inl f)) ↦ inr (inr (inl f))
          | inr (inr (inr (inl f))) ↦ inr (inr (inr (inl (ground arith))))
          | inr (inr (inr (inr f))) ↦ inr (inr (inr (inr f)))
        ];
      }

  -- A worker that changes only by what it may drop, because that is settled.
  drop-Sound :
      (s : BulkState) (i : ℕ) (w : BulkWorker)
      → Sound planned enough s
      → ((p : PeerId) (k : ℕ) → busy w p k ≡ true → busy (s.workers i) p k ≡ true)
      → ((p : PeerId) (k : ℕ)
          → busy (s.workers i) p k ≡ true
          → (busy w p k ≡ true) ⊎ Settled enough s p k)
      → Sound planned enough (record s { workers = put_worker i w s.workers })
  drop-Sound s i w v less kept = record {
    in_queue = v.in_queue;
    in_workers =
        workers_planned planned s.workers i w v.in_workers
          (λ p k h. v.in_workers i p k (less p k h));
    in_calls = v.in_calls;
    counted = v.counted;
    covered = λ p k e h. elim (v.covered p k e h) [
      | inl f ↦ inl f
      | inr (inl b) ↦ elim (worker_stays s.workers i w p k b) [
        | inl stays ↦ inr (inl stays)
        | inr had ↦ elim (kept p k had) [
          | inl still ↦ inr (inl (put_busy s.workers i w p k still))
          | inr f ↦ inr (inr f)
        ]
      ]
      | inr (inr f) ↦ inr (inr f)
    ];
  }

  test_report-Sound :
      (s : BulkState) (i : ℕ) (late : Bool) (w : BulkWorker)
      → s.workers i ≡ w
      → Sound planned enough s
      → Sound planned enough (test_report enough s i late w)
  unfolding test_report
  test_report-Sound s i late idle we v = v
  test_report-Sound s i late (calling p k ks) we v = v
  test_report-Sound s i late (handling q []) we v =
      let had = λ (p : PeerId). λ (k : ℕ). ap (λ (x : BulkWorker). busy x p k) we in
      drop-Sound s i idle v (λ p k h. absurd (cc)) (λ p k h. absurd (ground (arith, had p k)))
  test_report-Sound s i late (handling q (j ∷ ks)) we v =
      let had = λ (p : PeerId). λ (k : ℕ). ap (λ (x : BulkWorker). busy x p k) we in
      elim (Bool-cases (leb enough (s.successes j) && late)) [
        | inr e ↦ rw e (
            drop-Sound s i (calling q j ks) v (λ p k h. ground (arith, had p k))
              (λ p k h. inl (ground (arith, had p k))))
        | inl e ↦ rw e (
            drop-Sound s i (handling q ks) v (λ p k h. ground (arith, had p k))
              (λ p k h. elim (Bool-cases (j == k)) [
                | inr other ↦ inl (ground (arith, had p k))
                | inl same ↦
                    let eq : j ≡ k = ground arith in
                    inr (inr (inr (ground (arith, ap s.successes eq))))
              ]))
      ]

  -- After a call the worker has the keys behind it, unless the context has ended.
  call-Sound :
      (s : BulkState) (i : ℕ) (q : PeerId) (j : ℕ) (ks left : List ℕ) (success : Bool)
      (counts fails : ℕ → ℕ)
      → s.workers i ≡ calling q j ks
      → ((k : ℕ) → contains left k ≡ true → contains ks k ≡ true)
      → (s.ended ≡ false → left ≡ ks)
      → ((k : ℕ) → counts k ≡ (if (j == k) && success then 1 else 0) + s.successes k)
      → Sound planned enough s
      → Sound planned enough (record s {
        workers = put_worker i (handling q left) s.workers;
        successes = counts;
        failures = fails;
        calls = record { peer = q; key = j; success = success } ∷ s.calls;
      })
  call-Sound s i q j ks left success counts fails we less whole count v =
      let had = λ (p : PeerId). λ (k : ℕ). ap (λ (x : BulkWorker). busy x p k) we in
      record {
        in_queue = v.in_queue;
        in_workers =
            workers_planned planned s.workers i (handling q left) v.in_workers
              (λ p k h. v.in_workers i p k (ground (arith, had p k, less k)));
        in_calls = λ p k h. elim (Bool-cases ((q == p) && (j == k))) [
          | inl this ↦ v.in_workers i p k (ground (arith, had p k))
          | inr other ↦ v.in_calls p k (ground arith)
        ];
        counted = λ k. omega (arith, count k, v.counted k);
        covered = λ p k e h. elim (v.covered p k e h) [
          | inl f ↦ inl f
          | inr (inl b) ↦ elim (worker_stays s.workers i (handling q left) p k b) [
            | inl stays ↦ inr (inl stays)
            | inr b' ↦ elim (Bool-cases ((q == p) && (j == k))) [
              | inl this ↦ inr (inr (inl (ground arith)))
              | inr other ↦
                  let same = ap (λ (l : List ℕ). contains l k) (whole e) in
                  inr (
                    inl
                      (put_busy s.workers i (handling q left) p k (ground (arith, had p k, same))))
            ]
          ]
          | inr (inr (inl f)) ↦ inr (inr (inl (ground arith)))
          | inr (inr (inr (inl f))) ↦ inr (inr (inr (inl f)))
          | inr (inr (inr (inr f))) ↦ inr (inr (inr (inr (omega (arith, f, count k)))))
        ];
      }

  report_call-Sound :
      (s : BulkState) (i : ℕ) (success : Bool) (w : BulkWorker)
      → s.workers i ≡ w
      → Sound planned enough s
      → Sound planned enough (report_call s i success w)
  unfolding report_call
  report_call-Sound s i success idle we v = v
  report_call-Sound s i success (handling p ks) we v = v
  report_call-Sound s i true (calling q j ks) we v =
      call-Sound s i q j ks ks true (count_up j s.successes) s.failures we (λ k h. h) (λ e. refl)
        (λ k. ground arith) v
  report_call-Sound s i false (calling q j ks) we v =
      call-Sound s i q j ks (if s.ended then [] else ks) false s.successes (count_up j s.failures)
        we (λ k h. ground arith) (λ e. rw e refl) (λ k. ground arith) v

  bulk_move-Sound :
      (parallelism : ℕ) (s : BulkState) (m : BulkMove)
      → Sound planned enough s
      → Sound planned enough (bulk_move parallelism enough s m)
  unfolding bulk_move
  bulk_move-Sound parallelism s ends v = record {
    in_queue = v.in_queue;
    in_workers = v.in_workers;
    in_calls = v.in_calls;
    counted = v.counted;
    covered = λ p k e h. absurd (cc);
  }
  bulk_move-Sound parallelism s breaks v = elim (Bool-cases s.ended) [
    | inr e ↦ simp e v
    | inl e ↦ simp e (record {
      in_queue = λ p k h. absurd (cc);
      in_workers = v.in_workers;
      in_calls = v.in_calls;
      counted = v.counted;
      covered = λ p k f h. absurd (cc);
    })
  ]
  bulk_move-Sound parallelism s (receives i connected) v = elim (Bool-cases (ltb i parallelism)) [
    | inl e ↦ rw e (receive_message-Sound s i connected (s.workers i) s.queue refl refl v)
    | inr e ↦ rw e v
  ]
  bulk_move-Sound parallelism s (tests i late) v = test_report-Sound s i late (s.workers i) refl v
  bulk_move-Sound parallelism s (returns i success) v =
      report_call-Sound s i success (s.workers i) refl v

  pub bulk_moves-Sound :
      (parallelism : ℕ) (s : BulkState) (ms : List BulkMove)
      → Sound planned enough s
      → Sound planned enough (bulk_moves parallelism enough s ms)
  unfolding bulk_moves
  bulk_moves-Sound parallelism s [] v = v
  bulk_moves-Sound parallelism s (m ∷ ms) v =
      bulk_moves-Sound parallelism (bulk_move parallelism enough s m) ms
        (bulk_move-Sound parallelism s m v)

  pub bulk_start-Sound :
      (messages : List (PeerId × List ℕ))
      → ((p : PeerId) (k : ℕ) → pending messages p k ≡ planned p k)
      → Sound planned enough (bulk_start messages)
  bulk_start-Sound messages same = record {
    in_queue = λ p k h. sym (same p k) ∙ h;
    in_workers = λ i p k h. absurd (cc);
    in_calls = λ p k h. absurd (cc);
    counted = λ k. refl;
    covered = λ p k e h. inl (same p k ∙ h);
  }
