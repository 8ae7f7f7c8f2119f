-- ===== src/Crawler/Asking.antt =====
-- queryPeer of crawler/crawler.go: it ends without a panic, with one result for the peer.
use go_libp2p_kad_dht.Prelude.{
  ℕ, zero, suc, ◌==◌, ◌+◌, ◌≤◌, Option, none, some, List, [], ◌∷◌, ◌++◌, false, ◌≡◌, refl, sym, ◌∙◌,
  ap, inl, inr, arith, tally, tally-append, Bool-cases,
}
use go_libp2p_kad_dht.Qpeerset.{PeerId}
use go_libp2p_kad_dht.Network.{AddrInfo}
use go_libp2p_kad_dht.Crawler.{
  QueryResult, Net, Reply, answered, refused, result_of, checked, query_peer, ask_from, add_local,
  has_id, after_reply,
}

-- GenRandPeerID has no error for a common prefix length of at most 15.
abbrev pub GeneratesKeys : Net → Type 0
GeneratesKeys net =
    (p : PeerId) (cpl : ℕ) → cpl ≤ 15 → (key : ℕ) × (net.gen_rand_peer_id p cpl ≡ some key)

abbrev listed : PeerId → List AddrInfo → ℕ
listed p xs = tally (λ (x : AddrInfo). x.id == p) xs

abbrev pub OnceEach : List AddrInfo → Type 0
OnceEach xs = (p : PeerId) → listed p xs ≤ 1

absent : (xs : List AddrInfo) (p : PeerId) → has_id xs p ≡ false → listed p xs ≡ 0
absent [] p h = refl
absent (x ∷ xs) p h = ground (arith, absent xs p)

add_local-OnceEach : (local xs : List AddrInfo) → OnceEach local → OnceEach (add_local local xs)
unfolding add_local
add_local-OnceEach local [] h = h
add_local-OnceEach local (x ∷ xs) h = elim (Bool-cases (has_id local x.id)) [
  | inl e ↦ simp e (add_local-OnceEach local xs h)
  | inr e ↦ simp e (
      add_local-OnceEach (local ++ x ∷ []) xs (λ p.
        let sum = tally-append (λ (y : AddrInfo). y.id == p) local (x ∷ []) in
        elim (Bool-cases (x.id == p)) [
          | inl same ↦
              let eq : x.id ≡ p = ground arith in
              let none_yet = absent local p (ap (has_id local) (sym eq) ∙ e) in
              ground (arith, sum, none_yet)
          | inr other ↦ ground (arith, sum, h p)
        ]))
]

-- A reply is an error, or peers, none twice.
abbrev GoodReply : Reply → Type 0
GoodReply (answered xs) = OnceEach xs
GoodReply (refused e) = Unit

ask_from-GoodReply :
    (net : Net) (p : PeerId) (rounds cpl : ℕ) (local : List AddrInfo)
    → GeneratesKeys net
    → cpl + rounds ≤ 16
    → OnceEach local
    → (a : Reply) × (ask_from net p rounds cpl local ≡ some a) × GoodReply a
unfolding ask_from
ask_from-GoodReply net p zero cpl local keys few h = (answered local, refl, h)
ask_from-GoodReply net p (suc rounds) cpl local keys few h =
    let (key, e) = keys p cpl (omega arith) in
    rw e (
      by_reply (net.get_closest_peers p key)
        (λ more good. ask_from-GoodReply net p rounds (cpl + 1) more keys (omega arith) good))
  where
    by_reply :
        (a : Reply)
        → ((more : List AddrInfo)
            → OnceEach more
            → (b : Reply) × (ask_from net p rounds (cpl + 1) more ≡ some b) × GoodReply b)
        → (b : Reply) × (after_reply (λ grown. ask_from net p rounds (cpl + 1) grown) local a
            ≡ some b)
          × GoodReply b
    by_reply (refused e) rest = (refused e, refl, tt)
    by_reply (answered xs) rest = rest (add_local local xs) (add_local-OnceEach local xs h)

-- If GenRandPeerID has no error up to the length 15, queryPeer does not panic; its result is for the peer
-- that it was given, lists no peer twice, and has peers only without an error.
pub query_peer_returns :
    (net : Net) (x : AddrInfo)
    → GeneratesKeys net
    → (r : QueryResult) × (query_peer net x ≡ some r)
      × (r.peer ≡ x.id)
      × OnceEach r.data'
      × ((e : ℕ) → r.err ≡ some e → r.data' ≡ [])
unfolding query_peer
query_peer_returns net x keys =
    let (a, e, good) = ask_from-GoodReply net x.id 16 0 [] keys (omega arith) (λ p. omega arith) in
    rw e (by_calls (net.new_routing_table x.id) (net.connect x) a good)
  where
    by_calls :
        (o c : Option ℕ) (a : Reply)
        → GoodReply a
        → (r : QueryResult) × (checked o x.id (checked c x.id (some (result_of x.id a))) ≡ some r)
          × (r.peer ≡ x.id)
          × OnceEach r.data'
          × ((e : ℕ) → r.err ≡ some e → r.data' ≡ [])
    by_calls (some e) c a good =
        (result_of x.id (refused e), refl, refl, (λ p. omega arith), λ d h. refl)
    by_calls none (some e) a good =
        (result_of x.id (refused e), refl, refl, (λ p. omega arith), λ d h. refl)
    by_calls none none (refused e) good =
        (result_of x.id (refused e), refl, refl, (λ p. omega arith), λ d h. refl)
    by_calls none none (answered xs) good =
        (result_of x.id (answered xs), refl, refl, good, λ d h. absurd (cc))
