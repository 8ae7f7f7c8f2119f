-- ===== src/Fullrt/Bulk.antt =====
-- bulkMessageSend of fullrt/dht.go: which keys its work messages have for which peers.
use go_libp2p_kad_dht.Prelude.{
  ℕ, zero, suc, sym, some_inj, ◌==◌, ◌*◌, ◌/◌, if◌then◌else◌, none, some, ◌>>=◌, List, [], ◌∷◌,
  ◌++◌, map, Bool, false, ◌&&◌, ◌||◌, ◌≡◌, refl, ◌∙◌, ap, inl, inr, arith, length, contains,
  contains-append, Bool-cases, if_false,
}
use go_libp2p_kad_dht.Prelude.Maps.{lookup, insert}
use go_libp2p_kad_dht.Qpeerset.{PeerId}
use go_libp2p_kad_dht.Fullrt.{
  or_empty_keys, add_key, keys_per_peer, chunk_size_for, divide_by_chunk_size, planned_messages,
}
use go_libp2p_kad_dht.Fullrt.Division.{concat, divide_by_chunk_size-IsDivision}

-- Whether some message has the key for the peer.
abbrev pub pending : List (PeerId × List ℕ) → PeerId → ℕ → Bool
pending [] p k = false
pending ((q, ks) ∷ ms) p k = ((q == p) && contains ks k) || pending ms p k

abbrev pub flat : List (List (PeerId × List ℕ)) → List (PeerId × List ℕ)
flat [] = []
flat (m ∷ ms) = m ++ flat ms

pending-append :
    (ms ns : List (PeerId × List ℕ)) (p : PeerId) (k : ℕ)
    → pending (ms ++ ns) p k ≡ (pending ms p k || pending ns p k)
pending-append [] ns p k = refl
pending-append ((q, ks) ∷ ms) ns p k = ground (arith, pending-append ms ns p k)

pending-insert :
    (m : List (PeerId × List ℕ)) (p q : PeerId) (v : List ℕ) (k j : ℕ)
    → contains v j ≡ (contains (or_empty_keys (lookup p m)) j || (k == j))
    → pending (insert p v m) q j ≡ (((p == q) && (k == j)) || pending m q j)
unfolding lookup insert
pending-insert [] p q v k j h = ground arith
pending-insert ((r, ks) ∷ m) p q v k j h = elim (Bool-cases (r == p)) [
  | inl e ↦
      let same : r ≡ p = ground arith in
      let grown : contains v j ≡ (contains ks j || (k == j)) = (rw e at h) in
      rw e (rw same (ground arith))
  | inr e ↦ let rest = pending-insert m p q v k j (rw e at h) in rw e (ground arith)
]

pending-add_key :
    (m : List (PeerId × List ℕ)) (ps : List PeerId) (q : PeerId) (k j : ℕ)
    → pending (add_key k m ps) q j ≡ (((k == j) && contains ps q) || pending m q j)
unfolding add_key
pending-add_key m [] q k j = ground arith
pending-add_key m (p ∷ ps) q k j =
    let m' = insert p (or_empty_keys (lookup p m) ++ k ∷ []) m in
    let grown = contains-append (or_empty_keys (lookup p m)) (k ∷ []) j in
    ground (
      arith,
      pending-add_key m' ps q k j,
      pending-insert m p q (or_empty_keys (lookup p m) ++ k ∷ []) k j (grown ∙ ground arith),
    )

pending-keys_per_peer :
    (closest : ℕ → List PeerId) (m : List (PeerId × List ℕ)) (ks : List ℕ) (q : PeerId) (j : ℕ)
    → pending (keys_per_peer closest m ks) q j
      ≡ ((contains ks j && contains (closest j) q) || pending m q j)
unfolding keys_per_peer
pending-keys_per_peer closest m [] q j = refl
pending-keys_per_peer closest m (k ∷ ks) q j =
    let ih = pending-keys_per_peer closest (add_key k m (closest k)) ks q j in
    elim (Bool-cases (k == j)) [
      | inl e ↦
          let same : k ≡ j = ground arith in
          let here = ap (λ i. contains (closest i) q) same in
          ground (arith, ih, here, pending-add_key m (closest k) q k j)
      | inr e ↦ ground (arith, ih, pending-add_key m (closest k) q k j)
    ]

pending-flat :
    (closest : ℕ → List PeerId) (groups : List (List ℕ)) (q : PeerId) (j : ℕ)
    → pending (flat (map (keys_per_peer closest []) groups)) q j
      ≡ (contains (concat groups) j && contains (closest j) q)
pending-flat closest [] q j = refl
pending-flat closest (g ∷ groups) q j = ground (
  arith,
  pending-append (keys_per_peer closest [] g) (flat (map (keys_per_peer closest []) groups)) q j,
  pending-flat closest groups q j,
  pending-keys_per_peer closest [] g q j,
  contains-append g (concat groups) j,
)

bulk_runs :
    (closest : ℕ → List PeerId) (bucket_size n size k : ℕ) (keys : List ℕ) (groups : List (List ℕ))
    → chunk_size_for (length (k ∷ keys)) bucket_size n ≡ some size
    → divide_by_chunk_size (k ∷ keys) size ≡ some groups
    → planned_messages closest bucket_size n (k ∷ keys)
      ≡ some (map (keys_per_peer closest []) groups)
unfolding planned_messages
bulk_runs closest bucket_size n size k keys groups h d =
    let not_empty : (length (k ∷ keys) == 0) ≡ false = ground arith in
    if_false _ _ _ not_empty
    ∙ (ap
          (λ o. o >>= λ s.
            divide_by_chunk_size (k ∷ keys) s >>= λ gs. some (map (keys_per_peer closest []) gs))
          h
        ∙ ap (λ o. o >>= λ gs. some (map (keys_per_peer closest []) gs)) d)

chunk_size_for-suc :
    (l bucket_size n : ℕ)
    → chunk_size_for l bucket_size (suc n)
      ≡ some (if (((l * bucket_size * 2) / suc n) == 0) then 1 else ((l * bucket_size * 2) / suc n))
unfolding chunk_size_for
chunk_size_for-suc l bucket_size n = if_false (suc n == 0) _ _ (ground arith)

-- With no peers in the table the plan panics (a division by 0); with at least one it is made, and has a key
-- for a peer exactly when the key is one of those to send and the peer is one of those that GetClosestPeers
-- yields for it.
pub planned_messages_lem :
    (closest : ℕ → List PeerId) (bucket_size n k : ℕ) (keys : List ℕ)
    → (planned_messages closest bucket_size 0 (k ∷ keys) ≡ none)
      × ((plan : List (List (PeerId × List ℕ))) × (planned_messages closest bucket_size
              (suc n)
              (k ∷ keys)
            ≡ some plan)
          × ((p : PeerId) (j : ℕ)
              → pending (flat plan) p j ≡ (contains (k ∷ keys) j && contains (closest j) p)))
unfolding planned_messages chunk_size_for
planned_messages_lem closest bucket_size n k keys =
    let size = (length (k ∷ keys) * bucket_size * 2) / suc n in
    let used = if size == 0 then 1 else size in
    let (chunks, e, d) = divide_by_chunk_size-IsDivision (k ∷ keys) used (ground arith) in
    (
      ground arith,
      (
        map (keys_per_peer closest []) chunks,
        bulk_runs closest bucket_size (suc n) used k keys chunks
            (chunk_size_for-suc (length (k ∷ keys)) bucket_size n) e,
        λ p j.
            pending-flat closest chunks p j
            ∙ ap (λ l. contains l j && contains (closest j) p) d.holds,
      ),
    )

pub planned_messages-flat :
    (closest : ℕ → List PeerId) (bucket_size n : ℕ) (keys : List ℕ)
    (plan : List (List (PeerId × List ℕ))) (p : PeerId) (j : ℕ)
    → planned_messages closest bucket_size n keys ≡ some plan
    → pending (flat plan) p j ≡ (contains keys j && contains (closest j) p)
unfolding planned_messages
planned_messages-flat closest bucket_size n [] plan p j h =
    let empty : plan ≡ [] = ground arith in rw empty refl
planned_messages-flat closest bucket_size zero (k ∷ keys) plan p j h =
    absurd (let h' = sym (planned_messages_lem closest bucket_size 0 k keys).0 ∙ h in ground arith)
planned_messages-flat closest bucket_size (suc n) (k ∷ keys) plan p j h =
    let (made, e, l) = (planned_messages_lem closest bucket_size n k keys).1 in
    let same : plan ≡ made = some_inj plan made (sym h ∙ e) in rw same (l p j)
