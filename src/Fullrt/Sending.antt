-- ===== src/Fullrt/Sending.antt =====
-- The goroutines of bulkMessageSend of fullrt/dht.go: the producer offers the work messages, and each of the
-- workers connects to a peer and sends it its keys. What the network, the clock and the scheduler do is
-- the list of moves: a run takes them one after the other, and one that is not possible changes nothing.
use go_libp2p_kad_dht.Prelude.{
  ℕ, ◌==◌, ◌+◌, ltb, leb, if◌then◌else◌, List, [], ◌∷◌, Bool, true, false, ◌&&◌,
}
use go_libp2p_kad_dht.Qpeerset.{PeerId}

-- A worker waits for a message, is between two keys of a peer, or in the call of `fn` for a key.
pub data BulkWorker : Type 0 where
  idle : BulkWorker
  handling : PeerId → List ℕ → BulkWorker
  calling : PeerId → ℕ → List ℕ → BulkWorker

-- A call of `fn` that has returned.
pub record KeyCall : Type 0 where
  pub peer : PeerId
  pub key : ℕ
  pub success : Bool

-- `queue`: the messages that no worker has; `successes` and `failures`: the reports of the keys;
-- `skipped`: the peers that numSkipped counts.
pub record BulkState : Type 0 where
  pub queue : List (PeerId × List ℕ)
  pub workers : ℕ → BulkWorker
  pub ended : Bool
  pub successes : ℕ → ℕ
  pub failures : ℕ → ℕ
  pub skipped : List PeerId
  pub calls : List KeyCall

abbrev pub bulk_start : List (PeerId × List ℕ) → BulkState
bulk_start messages = record {
  queue = messages;
  workers = λ i. idle;
  ended = false;
  successes = λ k. 0;
  failures = λ k. 0;
  skipped = [];
  calls = [];
}

-- The context ends; the producer sees that; a worker receives a message and connects or not; a worker tests
-- the report of its next key (`late`: the last success is more than 500 ms ago); `fn` returns.
pub data BulkMove : Type 0 where
  ends breaks : BulkMove
  receives : ℕ → Bool → BulkMove
  tests : ℕ → Bool → BulkMove
  returns : ℕ → Bool → BulkMove

abbrev pub put_worker : ℕ → BulkWorker → (ℕ → BulkWorker) → ℕ → BulkWorker
put_worker i w workers j = if j == i then w else workers j

abbrev pub count_up : ℕ → (ℕ → ℕ) → ℕ → ℕ
count_up k counts j = if j == k then counts j + 1 else counts j

-- `for wmsg := range workCh`, and Connect.
unfoldable pub receive_message :
    BulkState → ℕ → Bool → BulkWorker → List (PeerId × List ℕ) → BulkState
receive_message s i connected idle [] = s
receive_message s i connected idle ((p, ks) ∷ queue) =
    if connected
    then record s { queue = queue; workers = put_worker i (handling p ks) s.workers }
    else record s { queue = queue; skipped = p ∷ s.skipped }
receive_message s i connected (handling p ks) queue = s
receive_message s i connected (calling p k ks) queue = s

-- The test of the report of the next key.
unfoldable pub test_report : ℕ → BulkState → ℕ → Bool → BulkWorker → BulkState
test_report enough s i late idle = s
test_report enough s i late (handling p []) = record s { workers = put_worker i idle s.workers }
test_report enough s i late (handling p (k ∷ ks)) =
    if leb enough (s.successes k) && late
    then record s { workers = put_worker i (handling p ks) s.workers }
    else record s { workers = put_worker i (calling p k ks) s.workers }
test_report enough s i late (calling p k ks) = s

-- What follows the call of `fn`; after an error the end of the context ends the loop over the keys.
unfoldable pub report_call : BulkState → ℕ → Bool → BulkWorker → BulkState
report_call s i success idle = s
report_call s i success (handling p ks) = s
report_call s i true (calling p k ks) = record s {
  workers = put_worker i (handling p ks) s.workers;
  successes = count_up k s.successes;
  calls = record { peer = p; key = k; success = true } ∷ s.calls;
}
report_call s i false (calling p k ks) = record s {
  workers = put_worker i (handling p (if s.ended then [] else ks)) s.workers;
  failures = count_up k s.failures;
  calls = record { peer = p; key = k; success = false } ∷ s.calls;
}

-- `parallelism` is bulkSendParallelism, `enough` numSuccessfulToWaitFor.
unfoldable pub bulk_move : ℕ → ℕ → BulkState → BulkMove → BulkState
bulk_move parallelism enough s ends = record s { ended = true }
bulk_move parallelism enough s breaks = if s.ended then record s { queue = [] } else s
bulk_move parallelism enough s (receives i connected) =
    if ltb i parallelism then receive_message s i connected (s.workers i) s.queue else s
bulk_move parallelism enough s (tests i late) = test_report enough s i late (s.workers i)
bulk_move parallelism enough s (returns i success) = report_call s i success (s.workers i)

unfoldable pub bulk_moves : ℕ → ℕ → BulkState → List BulkMove → BulkState
bulk_moves parallelism enough s [] = s
bulk_moves parallelism enough s (m ∷ ms) =
    bulk_moves parallelism enough (bulk_move parallelism enough s m) ms
