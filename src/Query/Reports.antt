-- ===== src/Query/Reports.antt =====
-- What queryPeer of query.go reports: the updates that the loop's theorems are about.
use go_libp2p_kad_dht.Prelude.{
  ℕ, ◌==◌, if◌then◌else◌, Option, none, some, List, [], ◌∷◌, Bool, true, false, ◌||◌, ◌&&◌, ◌≡◌,
  refl, inl, inr, arith, Bool-cases, Option-cases, contains, if_true, ◌∙◌, ap,
}
use go_libp2p_kad_dht.Qpeerset.{PeerId}
use go_libp2p_kad_dht.Network.{AddrInfo}
use go_libp2p_kad_dht.Query.{Config, QueryUpdate}
use go_libp2p_kad_dht.Query.Rounds.{Outcome, answered, failed, report}
use go_libp2p_kad_dht.Query.Worker.{
  Surroundings, Call, peer_stopped_dht, dial_peer, unreachable_update, is_kept, process_new_peers,
  queried_update, diverse, ask_peer, query_peer,
}

-- Whatever its calls yield, the goroutine reports its own peer, as answered or as failed.
pub query_peer-reports :
    (c : Config) (key : ℕ) (s : Surroundings) (p : PeerId)
    → (o : Outcome) × ((query_peer c key s p).0 ≡ report p o)
unfolding query_peer ask_peer report queried_update unreachable_update
query_peer-reports c key s p = elim (Bool-cases (dial_peer s)) [
  | inl d ↦ elim (Option-cases s.answer) [
    | inl e ↦ (failed, rw (d, e))
    | inr (xs, e) ↦ (answered (process_new_peers c key s (diverse s xs)).0 s.duration, rw (d, e))
  ]
  | inr d ↦ (failed, rw d)
]

-- An answer came.
abbrev is_some {ℓ} : {A : Type ℓ} → Option A → Bool
is_some none = false
is_some (some a) = true

-- The list has the peer, in an entry that is kept.
abbrev pub keeps : Config → ℕ → Surroundings → PeerId → List AddrInfo → Bool
keeps c key s p [] = false
keeps c key s p (x ∷ xs) = ((x.id == p) && is_kept c key s x) || keeps c key s p xs

saw_iff :
    (c : Config) (key : ℕ) (s : Surroundings) (xs : List AddrInfo) (p : PeerId)
    → contains (process_new_peers c key s xs).0 p ≡ keeps c key s p xs
unfolding process_new_peers
saw_iff c key s [] p = refl
saw_iff c key s (x ∷ xs) p = elim (Bool-cases (is_kept c key s x)) [
  | inl e ↦ rw e (ground (arith, saw_iff c key s xs p))
  | inr e ↦ rw e (ground (arith, saw_iff c key s xs p))
]

self_not_kept :
    (c : Config) (key : ℕ) (s : Surroundings) (xs : List AddrInfo) → keeps c key s c.self xs ≡ false
self_not_kept c key s [] = refl
self_not_kept c key s (x ∷ xs) = ground (arith, self_not_kept c key s xs)

answered_call :
    (c : Config) (key : ℕ) (s : Surroundings) (p : PeerId) (a : Option (List AddrInfo))
    → dial_peer s ≡ true
    → s.answer ≡ a
    → query_peer c key s p ≡ ask_peer c key s p a
unfolding query_peer
answered_call c key s p a d e = if_true _ _ _ d ∙ ap (ask_peer c key s p) e

-- After a successful dial and an answer the goroutine hears of exactly the peers that stand in the
-- answer, thinned out by the diversity filter, in an entry that is the target or passes the query
-- filter; it never hears of this node.
pub query_peer_hears :
    (c : Config) (key : ℕ) (s : Surroundings) (p r : PeerId) (xs : List AddrInfo)
    → dial_peer s ≡ true
    → s.answer ≡ some xs
    → (contains (query_peer c key s p).0.heard_peers r ≡ keeps c key s r (diverse s xs))
      × (contains (query_peer c key s p).0.heard_peers c.self ≡ false)
unfolding ask_peer queried_update
query_peer_hears c key s p r xs d e =
    let q = answered_call c key s p (some xs) d e in
    (
      ap (λ (u : QueryUpdate × List Call). contains u.0.heard_peers r) q
          ∙ saw_iff c key s (diverse s xs) r,
      ap (λ (u : QueryUpdate × List Call). contains u.0.heard_peers c.self) q
          ∙ (saw_iff c key s (diverse s xs) c.self ∙ self_not_kept c key s (diverse s xs)),
    )

-- The peer answered.
abbrev pub answers : Surroundings → Bool
answers s = dial_peer s && is_some s.answer

-- The context of the step that failed has ended.
abbrev pub gave_up : Surroundings → Bool
gave_up s = if dial_peer s then s.query_context_ended else s.dial_context_ended

-- When the dial or the query fails the goroutine reports its peer as unreachable, and it removes the peer
-- from the routing table exactly when the context of the failed step has not ended; it makes no other
-- call.
pub query_peer_evicts :
    (c : Config) (key : ℕ) (s : Surroundings) (p : PeerId)
    → answers s ≡ false
    → query_peer c key s p
      ≡ (unreachable_update p, if gave_up s then [] else peer_stopped_dht p ∷ [])
unfolding query_peer ask_peer
query_peer_evicts c key s p h = elim (Bool-cases (dial_peer s)) [
  | inl d ↦ elim (Option-cases s.answer) [
    | inl e ↦ simp (d, e)
    | inr (xs, e) ↦ absurd (let h' = (rw (d, e) at h) in ground arith)
  ]
  | inr d ↦ simp d
]
