-- ===== src/Crawler/Once.antt =====
-- Run of crawler/crawler.go: where each peer is, from the first time that it is seen.
use go_libp2p_kad_dht.Prelude.{
  ℕ, zero, suc, ◌==◌, ◌+◌, ◌≤◌, if◌then◌else◌, Option, none, some, some_inj, ◌>>=◌, List, [], ◌∷◌,
  ◌++◌, Bool, false, ◌⊎◌, ◌≡◌, refl, sym, ◌∙◌, ap, inl, inr, arith, length, contains,
  contains-append, tally, tally-append, Bool-cases, if_true,
}
use go_libp2p_kad_dht.Qpeerset.{PeerId}
use go_libp2p_kad_dht.Network.{Addr, AddrInfo}
use go_libp2p_kad_dht.Crawler.{
  QueryResult, Net, Reply, answered, refused, result_of, checked, query_peer, peer_info, Callback,
  success, failure, Crawl, no_crawl, start_one, start_with, Learned, learn_one, learn, receive,
  dispatch, ask_from,
}
use go_libp2p_kad_dht.Crawler.System.{
  Worker, idle, querying, sending, System, idle_workers, new_system, Step, dispatched, taken, asked,
  reported, received, Run, ended, onward,
}

abbrev pub bit : Bool → ℕ
bit b = if b then 1 else 0

abbrev pub times : PeerId → List PeerId → ℕ
times p l = tally (λ q. q == p) l

abbrev pub call_peer : Callback → PeerId
call_peer (success q peers) = q
call_peer (failure q err) = q

-- The number of times that a callback was called for the peer.
abbrev pub calls_for : PeerId → List Callback → ℕ
calls_for p cs = tally (λ c. call_peer c == p) cs

abbrev pub holds : PeerId → Worker → Bool
holds p idle = false
holds p (querying x) = x.id == p
holds p (sending r) = r.peer == p

abbrev pub job_bit : PeerId → Option PeerId → ℕ
job_bit p none = 0
job_bit p (some q) = bit (q == p)

abbrev pub result_bit : PeerId → Option QueryResult → ℕ
result_bit p none = 0
result_bit p (some r) = bit (r.peer == p)

-- All the places where the peer is.
abbrev pub places : PeerId → System → ℕ
places p s =
    times p s.main.to_dial
    + job_bit p s.jobs
    + tally (holds p) s.workers
    + result_bit p s.results
    + calls_for p s.main.calls

abbrev pub Placed : System → Type 0
Placed s = (p : PeerId) → places p s ≡ bit (contains s.main.peers_seen p)

learn_one-places :
    (queried : List PeerId) (l : Learned) (x : AddrInfo) (p : PeerId)
    → times p (learn_one queried l x).to_visit + bit (contains l.seen p)
      ≡ times p l.to_visit + bit (contains (learn_one queried l x).seen p)
learn_one-places queried l x p = elim (Bool-cases (contains l.seen x.id)) [
  | inl e ↦ simp e
  | inr e ↦
      let seen = contains-append l.seen (x.id ∷ []) p in
      let visits = tally-append (λ q. q == p) l.to_visit (x.id ∷ []) in
      simp e (elim (Bool-cases (x.id == p)) [
        | inl same ↦
            let eq : x.id ≡ p = ground arith in
            let fresh : contains l.seen p ≡ false = ap (contains l.seen) (sym eq) ∙ e in
            ground (arith, seen, visits)
        | inr other ↦ ground (arith, seen, visits)
      ])
]

learn-places :
    (queried : List PeerId) (l : Learned) (xs : List AddrInfo) (p : PeerId)
    → times p (learn queried l xs).to_visit + bit (contains l.seen p)
      ≡ times p l.to_visit + bit (contains (learn queried l xs).seen p)
unfolding learn
learn-places queried l [] p = refl
learn-places queried l (x ∷ xs) p =
    omega (arith, learn_one-places queried l x p, learn-places queried (learn_one queried l x) xs p)

receive-places :
    (c : Crawl) (r : QueryResult) (p : PeerId)
    → times p (receive c r).to_dial
        + calls_for p (receive c r).calls
        + bit (contains c.peers_seen p)
      ≡ times p c.to_dial
        + calls_for p c.calls
        + bit (r.peer == p)
        + bit (contains (receive c r).peers_seen p)
unfolding receive
receive-places c r p = elim (Bool-cases (length r.data' == 0)) [
  | inl e ↦
      let called = tally-append (λ c. call_peer c == p) c.calls (failure r.peer r.err ∷ []) in
      simp e (omega (arith, called))
  | inr e ↦
      let called = tally-append (λ c. call_peer c == p) c.calls (success r.peer r.data' ∷ []) in
      let start : Learned = record { seen = c.peers_seen; to_visit = c.to_dial; updates = [] } in
      simp e (omega (arith, called, learn-places c.peers_queried start r.data' p))
]

-- The result of a query carries the peer that was asked.
result_of-peer : (p : PeerId) (a : Reply) → (result_of p a).peer ≡ p
result_of-peer p (answered peers) = refl
result_of-peer p (refused e) = refl

some_peer : (p : PeerId) (q r : QueryResult) → q.peer ≡ p → some q ≡ some r → r.peer ≡ p
some_peer p q r e h = sym (ap (λ (y : QueryResult). y.peer) (some_inj q r h)) ∙ e

query_peer-peer :
    (net : Net) (x : AddrInfo) (r : QueryResult) → query_peer net x ≡ some r → r.peer ≡ x.id
unfolding query_peer
query_peer-peer net x r h =
    two (net.new_routing_table x.id) (net.connect x) (ask_from net x.id 16 0 []) h
  where
    two :
        (a b : Option ℕ) (o : Option Reply)
        → checked a x.id (checked b x.id (o >>= λ reply. some (result_of x.id reply))) ≡ some r
        → r.peer ≡ x.id
    two (some e) b o h =
        some_peer x.id (result_of x.id (refused e)) r (result_of-peer x.id (refused e)) h
    two none (some e) o h =
        some_peer x.id (result_of x.id (refused e)) r (result_of-peer x.id (refused e)) h
    two none none none h = absurd (cc)
    two none none (some a) h = some_peer x.id (result_of x.id a) r (result_of-peer x.id a) h

tally-swap :
    (p : PeerId) (before : List Worker) (old now : Worker) (after ws : List Worker)
    → ws ≡ before ++ old ∷ after
    → tally (holds p) (before ++ now ∷ after) + bit (holds p old)
      ≡ tally (holds p) ws + bit (holds p now)
tally-swap p before old now after ws h = rw h (
    omega (
      arith,
      tally-append (holds p) before (old ∷ after),
      tally-append (holds p) before (now ∷ after),
    ))

step-Placed : (net : Net) (s t : System) → Step net s t → Placed s → Placed t
unfolding dispatch peer_info
step-Placed net _ _ (dispatched s p rest e j) h =
    λ q. let before = h q in omega (arith, before, ap (times q) e, ap (job_bit q) j)
step-Placed net _ _ (taken s p before after j w) h = λ q.
    let moved =
      tally-swap q before idle (querying (peer_info s.main.peer_addrs p)) after s.workers w in
    omega (arith, h q, moved, ap (job_bit q) j)
step-Placed net _ _ (asked s x r before after w a) h = λ q.
    let moved = tally-swap q before (querying x) (sending r) after s.workers w in
    let same = ap (λ z. bit (z == q)) (query_peer-peer net x r a) in omega (arith, h q, moved, same)
step-Placed net _ _ (reported s r before after w n) h = λ q.
    let moved = tally-swap q before (sending r) idle after s.workers w in
    omega (arith, h q, moved, ap (result_bit q) n)
step-Placed net _ _ (received s r e) h =
    λ q. omega (arith, h q, receive-places s.main r q, ap (result_bit q) e)

-- How often the peer is among the starting peers.
abbrev pub started : PeerId → List AddrInfo → ℕ
started p xs = tally (λ (x : AddrInfo). x.id == p) xs

pub start_one-to_dial :
    (peerstore : PeerId → List Addr) (c : Crawl) (x : AddrInfo)
    → start_one peerstore c x ≡ c
      ⊎ (((start_one peerstore c x).to_dial ≡ c.to_dial ++ x.id ∷ [])
          × ((start_one peerstore c x).peers_seen ≡ c.peers_seen ++ x.id ∷ [])
          × ((start_one peerstore c x).calls ≡ c.calls)
          × ((start_one peerstore c x).outstanding ≡ c.outstanding))
start_one-to_dial peerstore c x = elim (Bool-cases (length (peerstore x.id ++ x.addrs) == 0)) [
  | inl e ↦ inl (if_true _ _ _ e)
  | inr e ↦ inr (rw e (refl, refl, refl, refl))
]

pub start_with-Placed :
    (peerstore : PeerId → List Addr) (xs : List AddrInfo) (c : Crawl) (p : PeerId)
    → times p c.to_dial ≡ bit (contains c.peers_seen p)
    → bit (contains c.peers_seen p) + started p xs ≤ 1
    → (times p (start_with peerstore c xs).to_dial
        ≡ bit (contains (start_with peerstore c xs).peers_seen p))
      × ((start_with peerstore c xs).calls ≡ c.calls)
unfolding start_with
start_with-Placed peerstore [] c p h few = (h, refl)
start_with-Placed peerstore (x ∷ xs) c p h few = elim (start_one-to_dial peerstore c x) [
  | inl e ↦
      let c' = start_one peerstore c x in
      let dial' = ap (λ (d : Crawl). times p d.to_dial) e in
      let seen' = ap (λ (d : Crawl). bit (contains d.peers_seen p)) e in
      let (a, b) =
        start_with-Placed peerstore xs c' p (omega (arith, dial', seen', h))
          (omega (arith, few, seen')) in
      (a, b ∙ ap (λ (d : Crawl). d.calls) e)
  | inr (dial, seen, called, out) ↦
      let c' = start_one peerstore c x in
      let seen' = ap (λ l. bit (contains l p)) seen in
      let dial' = ap (times p) dial in
      let more = contains-append c.peers_seen (x.id ∷ []) p in
      let visits = tally-append (λ q. q == p) c.to_dial (x.id ∷ []) in
      let (a, b) = start_with-Placed peerstore xs c' p (ground arith) (ground arith) in
      (a, b ∙ called)
]

pub tally-idle_workers :
    (test : Worker → Bool) (n : ℕ) → test idle ≡ false → tally test (idle_workers n) ≡ 0
unfolding idle_workers
tally-idle_workers test zero h = refl
tally-idle_workers test (suc n) h = ground (arith, tally-idle_workers test n h)

pub new_system-Placed :
    (peerstore : PeerId → List Addr) (parallelism : ℕ) (starts : List AddrInfo)
    → ((p : PeerId) → started p starts ≤ 1)
    → Placed (new_system peerstore parallelism starts)
unfolding new_system
new_system-Placed peerstore parallelism starts few = λ p.
    let (a, b) = start_with-Placed peerstore starts no_crawl p refl (omega (arith, few p)) in
    omega (arith, a, ap (calls_for p) b, tally-idle_workers (holds p) parallelism refl)

pub Run-Placed : (net : Net) (n : ℕ) (s t : System) → Run net n s t → Placed s → Placed t
Run-Placed net _ s _ (ended _) h = h
Run-Placed net _ s u (onward n _ t _ one more) h =
    Run-Placed net n t u more (step-Placed net s t one h)
