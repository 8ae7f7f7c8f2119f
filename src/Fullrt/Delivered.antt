-- ===== src/Fullrt/Delivered.antt =====
-- bulkMessageSend of fullrt/dht.go: what its workers send, in any order of their moves.
use go_libp2p_kad_dht.Prelude.{
  ◌==◌, arith, ℕ, some, List, true, false, ◌&&◌, ◌≡◌, ◌∙◌, ◌⊎◌, inl, inr, tally, contains,
  Bool-cases,
}
use go_libp2p_kad_dht.Qpeerset.{PeerId}
use go_libp2p_kad_dht.Fullrt.{planned_messages}
use go_libp2p_kad_dht.Fullrt.Bulk.{pending, flat, planned_messages-flat}
use go_libp2p_kad_dht.Fullrt.Sending.{bulk_start, BulkMove, bulk_moves}
use go_libp2p_kad_dht.Fullrt.Remaining.{IsFinished, CanMove, can_move}
use go_libp2p_kad_dht.Fullrt.Sound.{called, succeeded, Covered}
use go_libp2p_kad_dht.Fullrt.Kept.{bulk_moves-Sound, bulk_start-Sound}

-- Whatever the moves of the producer and the workers, and in whatever order the messages of the plan are
-- offered: `fn` is only called for a key that is to be sent and a peer that GetClosestPeers yields for it;
-- the successes of a key are its calls that succeeded; and as long as the context does not end, no such
-- key and peer is lost: they are still in the queue or with a worker, or `fn` was called for them, or
-- Connect failed for the peer, or the key has as many successes as are waited for. With at least one
-- worker, unless the queue is empty and every worker waits, some move leaves fewer moves to the workers.
pub bulk_moves_covers :
    (closest : ℕ → List PeerId) (bucket_size n parallelism enough : ℕ) (keys : List ℕ)
    (plan : List (List (PeerId × List ℕ))) (messages : List (PeerId × List ℕ))
    (moves : List BulkMove) (p : PeerId) (j : ℕ)
    → planned_messages closest bucket_size n keys ≡ some plan
    → ((q : PeerId) (k : ℕ) → pending messages q k ≡ pending (flat plan) q k)
    → let s = bulk_moves parallelism enough (bulk_start messages) moves in
      ((called s.calls p j ≡ false) ⊎ ((contains keys j && contains (closest j) p) ≡ true))
      × (s.successes j ≡ tally (succeeded j) s.calls)
      × ((s.ended ≡ true)
          ⊎ ((contains keys j && contains (closest j) p) ≡ false)
          ⊎ Covered enough s p j)
      × ((parallelism ≡ 0) ⊎ IsFinished parallelism s ⊎ CanMove parallelism enough s)
bulk_moves_covers closest bucket_size n parallelism enough keys plan messages moves p j h same =
    let asked = λ (q : PeerId). λ (k : ℕ). contains keys k && contains (closest k) q in
    let s = bulk_moves parallelism enough (bulk_start messages) moves in
    let v = bulk_moves-Sound asked enough parallelism (bulk_start messages) moves (
      bulk_start-Sound asked enough messages
        (λ q k. same q k ∙ planned_messages-flat closest bucket_size n keys plan q k h)) in
    (
      elim (Bool-cases (called s.calls p j)) [ inl c ↦ inr (v.in_calls p j c) | inr c ↦ inl c ],
      v.counted j,
      elim (Bool-cases s.ended) [
        | inl e ↦ inl e
        | inr e ↦ elim (Bool-cases (asked p j)) [
          | inl a ↦ inr (inr (v.covered p j e a))
          | inr a ↦ inr (inl a)
        ]
      ],
      elim (Bool-cases (parallelism == 0)) [
        | inl z ↦ inl (ground arith)
        | inr z ↦ inr (can_move parallelism enough s (ground arith))
      ],
    )
