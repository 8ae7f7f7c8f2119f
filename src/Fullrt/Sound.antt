-- ===== src/Fullrt/Sound.antt =====
-- bulkMessageSend of fullrt/dht.go: the invariant of its goroutines.
use go_libp2p_kad_dht.Prelude.{
  ℕ, ◌==◌, ◌≤◌, List, [], ◌∷◌, Bool, true, false, ◌&&◌, ◌||◌, ◌≡◌, ◌⊎◌, inl, inr, arith, tally,
  contains, Bool-cases,
}
use go_libp2p_kad_dht.Qpeerset.{PeerId}
use go_libp2p_kad_dht.Fullrt.Bulk.{pending}
use go_libp2p_kad_dht.Fullrt.Sending.{
  BulkWorker, idle, handling, calling, KeyCall, BulkState, put_worker,
}

-- The worker has the key still to send to the peer, or is sending it.
abbrev pub busy : BulkWorker → PeerId → ℕ → Bool
busy idle p k = false
busy (handling q ks) p k = (q == p) && contains ks k
busy (calling q j ks) p k = (q == p) && ((j == k) || contains ks k)

abbrev pub called : List KeyCall → PeerId → ℕ → Bool
called [] p k = false
called (c ∷ cs) p k = ((c.peer == p) && (c.key == k)) || called cs p k

abbrev pub succeeded : ℕ → KeyCall → Bool
succeeded k c = (c.key == k) && c.success

-- The key was sent to the peer, or Connect failed for the peer, or the key has successes enough.
abbrev pub Settled : ℕ → BulkState → PeerId → ℕ → Type 0
Settled enough s p k =
    (called s.calls p k ≡ true) ⊎ (contains s.skipped p ≡ true) ⊎ (enough ≤ s.successes k)

abbrev pub Covered : ℕ → BulkState → PeerId → ℕ → Type 0
Covered enough s p k =
    (pending s.queue p k ≡ true)
    ⊎ ((i : ℕ) × (busy (s.workers i) p k ≡ true))
    ⊎ Settled enough s p k

-- Only planned sends are under way or done, the reports count the calls, and no planned send is lost.
pub record Sound (planned : PeerId → ℕ → Bool) (enough : ℕ) (s : BulkState) : Type 0 where
  pub in_queue : (p : PeerId) (k : ℕ) → pending s.queue p k ≡ true → planned p k ≡ true
  pub in_workers : (i : ℕ) (p : PeerId) (k : ℕ) → busy (s.workers i) p k ≡ true → planned p k ≡ true
  pub in_calls : (p : PeerId) (k : ℕ) → called s.calls p k ≡ true → planned p k ≡ true
  pub counted : (k : ℕ) → s.successes k ≡ tally (succeeded k) s.calls
  pub covered : (p : PeerId) (k : ℕ) → s.ended ≡ false → planned p k ≡ true → Covered enough s p k

pub workers_planned :
    (planned : PeerId → ℕ → Bool) (workers : ℕ → BulkWorker) (i : ℕ) (w : BulkWorker)
    → ((j : ℕ) (p : PeerId) (k : ℕ) → busy (workers j) p k ≡ true → planned p k ≡ true)
    → ((p : PeerId) (k : ℕ) → busy w p k ≡ true → planned p k ≡ true)
    → (j : ℕ) (p : PeerId) (k : ℕ) → busy (put_worker i w workers j) p k ≡ true
    → planned p k ≡ true
workers_planned planned workers i w old new j p k h = elim (Bool-cases (j == i)) [
  | inl e ↦ new p k (rw e at h)
  | inr e ↦ old j p k (rw e at h)
]

-- What a worker has, it still has, unless it is the one that is changed.
pub worker_stays :
    (workers : ℕ → BulkWorker) (i : ℕ) (w : BulkWorker) (p : PeerId) (k : ℕ)
    → ((j : ℕ) × (busy (workers j) p k ≡ true))
    → ((j : ℕ) × (busy (put_worker i w workers j) p k ≡ true)) ⊎ (busy (workers i) p k ≡ true)
worker_stays workers i w p k (j, h) = elim (Bool-cases (j == i)) [
  | inl e ↦ let same : j ≡ i = ground arith in inr (rw same at h)
  | inr e ↦ inl (j, rw e h)
]

pub put_busy :
    (workers : ℕ → BulkWorker) (i : ℕ) (w : BulkWorker) (p : PeerId) (k : ℕ)
    → busy w p k ≡ true
    → (j : ℕ) × (busy (put_worker i w workers j) p k ≡ true)
put_busy workers i w p k h = let same : (i == i) ≡ true = ground arith in (i, rw same h)
