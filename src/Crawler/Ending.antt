-- ===== src/Crawler/Ending.antt =====
-- Run of crawler/crawler.go: the callbacks of a crawl that has ended.
use go_libp2p_kad_dht.Prelude.{
  ℕ, ◌==◌, ◌+◌, ◌≤◌, if◌then◌else◌, Option, none, some, List, [], ◌∷◌, true, ◌≡◌, refl, inl, inr,
  arith, length, contains, contains-append, All, All-map, All-append, tally, Bool-cases,
}
use go_libp2p_kad_dht.Qpeerset.{PeerId}
use go_libp2p_kad_dht.Network.{Addr, AddrInfo}
use go_libp2p_kad_dht.Crawler.{
  QueryResult, Net, Callback, success, failure, Crawl, no_crawl, Learned, learn_one, learn, receive,
  dispatch,
}
use go_libp2p_kad_dht.Crawler.System.{
  Worker, idle, querying, sending, System, new_system, Step, dispatched, taken, asked, reported,
  received, Run, ended, onward,
}
use go_libp2p_kad_dht.Crawler.Once.{
  calls_for, started, Placed, holds, times, job_bit, result_bit, new_system-Placed, Run-Placed,
  start_with-Placed,
}
use go_libp2p_kad_dht.Crawler.Progress.{
  is_busy, held, Accounted, new_system-Accounted, Run-Accounted,
}

-- Every peer that the success names is in the list.
abbrev pub Knows : List PeerId → List AddrInfo → Type 0
Knows seen xs = All (λ (x : AddrInfo). contains seen x.id ≡ true) xs

abbrev pub named : Callback → List AddrInfo
named (success p peers) = peers
named (failure p err) = []

abbrev Told : Crawl → Type 0
Told c = All (λ call. Knows c.peers_seen (named call)) c.calls

abbrev Grows : List PeerId → List PeerId → Type 0
Grows seen now = (p : PeerId) → contains seen p ≡ true → contains now p ≡ true

Knows-Grows :
    (seen now : List PeerId) (xs : List AddrInfo) → Grows seen now → Knows seen xs → Knows now xs
Knows-Grows seen now xs g k = All-map xs (λ x h. g x.id h) k

learn_one-Grows :
    (queried : List PeerId) (l : Learned) (x : AddrInfo) → Grows l.seen (learn_one queried l x).seen
learn_one-Grows queried l x p h = elim (Bool-cases (contains l.seen x.id)) [
  | inl e ↦ simp e h
  | inr e ↦ simp e (ground (arith, contains-append l.seen (x.id ∷ []) p))
]

learn_one-seen :
    (queried : List PeerId) (l : Learned) (x : AddrInfo)
    → contains (learn_one queried l x).seen x.id ≡ true
learn_one-seen queried l x = elim (Bool-cases (contains l.seen x.id)) [
  | inl e ↦ simp e
  | inr e ↦ simp e (ground (arith, contains-append l.seen (x.id ∷ []) x.id))
]

learn-Knows :
    (queried : List PeerId) (l : Learned) (xs : List AddrInfo)
    → Grows l.seen (learn queried l xs).seen × Knows (learn queried l xs).seen xs
unfolding learn
learn-Knows queried l [] = ((λ p h. h), tt)
learn-Knows queried l (x ∷ xs) =
    let (g, k) = learn-Knows queried (learn_one queried l x) xs in
    ((λ p h. g p (learn_one-Grows queried l x p h)), (g x.id (learn_one-seen queried l x), k))

receive-Told : (c : Crawl) (r : QueryResult) → Told c → Told (receive c r)
unfolding receive
receive-Told c r h = elim (Bool-cases (length r.data' == 0)) [
  | inl e ↦ simp e (All-append (λ call. Knows c.peers_seen (named call)) c.calls _ h (tt, tt))
  | inr e ↦
      let start : Learned = record { seen = c.peers_seen; to_visit = c.to_dial; updates = [] } in
      let (g, k) = learn-Knows c.peers_queried start r.data' in
      let now = (learn c.peers_queried start r.data').seen in
      simp e (
        All-append (λ call. Knows now (named call)) c.calls _
          (All-map c.calls (λ call. Knows-Grows c.peers_seen now (named call) g) h) (k, tt))
]

step-Told : (net : Net) (s t : System) → Step net s t → Told s.main → Told t.main
unfolding dispatch
step-Told net _ _ (dispatched s p rest e j) h = h
step-Told net _ _ (taken s p before after j w) h = h
step-Told net _ _ (asked s x r before after w a) h = h
step-Told net _ _ (reported s r before after w n) h = h
step-Told net _ _ (received s r e) h = receive-Told s.main r h

Run-Told : (net : Net) (n : ℕ) (s t : System) → Run net n s t → Told s.main → Told t.main
Run-Told net _ s _ (ended _) h = h
Run-Told net _ s u (onward n _ t _ one more) h = Run-Told net n t u more (step-Told net s t one h)

new_system-Told :
    (peerstore : PeerId → List Addr) (parallelism : ℕ) (starts : List AddrInfo)
    → ((p : PeerId) → started p starts ≤ 1)
    → Told (new_system peerstore parallelism starts).main
unfolding new_system
new_system-Told peerstore parallelism starts few =
    let (placed, none_called) =
      start_with-Placed peerstore starts no_crawl 0 refl (omega (arith, few 0)) in
    rw none_called tt

holds-le-busy : (p : PeerId) (ws : List Worker) → tally (holds p) ws ≤ tally is_busy ws
holds-le-busy p [] = omega arith
holds-le-busy p (idle ∷ ws) = omega (arith, holds-le-busy p ws)
holds-le-busy p (querying x ∷ ws) = ground (arith, holds-le-busy p ws)
holds-le-busy p (sending r ∷ ws) = ground (arith, holds-le-busy p ws)

job-le-held : (p : PeerId) (o : Option PeerId) → job_bit p o ≤ held o
job-le-held p none = omega arith
job-le-held p (some q) = ground arith

result-le-held : (p : PeerId) (o : Option QueryResult) → result_bit p o ≤ held o
result-le-held p none = omega arith
result-le-held p (some r) = ground arith

times-le-length : (p : PeerId) (l : List PeerId) → times p l ≤ length l
times-le-length p [] = omega arith
times-le-length p (q ∷ l) = ground (arith, times-le-length p l)

-- When the main loop ends, all of a peer's places are callbacks.
calls_at_end :
    (s : System) (p : PeerId)
    → Placed s
    → Accounted s
    → length s.main.to_dial + s.main.outstanding ≡ 0
    → calls_for p s.main.calls ≡ (if contains s.main.peers_seen p then 1 else 0)
calls_at_end s p placed counted done = omega (
  arith,
  placed p,
  counted,
  done,
  holds-le-busy p s.workers,
  job-le-held p s.jobs,
  result-le-held p s.results,
  times-le-length p s.main.to_dial,
)

-- If no peer is twice among the starting peers, then a crawl that has ended, whatever the order of the
-- moves was, has called exactly one of the callbacks, once, for each peer that was seen, and none for any
-- other; and each peer that a success has named was seen.
pub Run-calls_once :
    (net : Net) (peerstore : PeerId → List Addr) (parallelism n : ℕ) (starts : List AddrInfo)
    (s : System)
    → ((p : PeerId) → started p starts ≤ 1)
    → Run net n (new_system peerstore parallelism starts) s
    → length s.main.to_dial + s.main.outstanding ≡ 0
    → ((p : PeerId) → calls_for p s.main.calls ≡ (if contains s.main.peers_seen p then 1 else 0))
      × All (λ call. Knows s.main.peers_seen (named call)) s.main.calls
Run-calls_once net peerstore parallelism n starts s few run done =
    let start = new_system peerstore parallelism starts in
    let placed =
      Run-Placed net n start s run (new_system-Placed peerstore parallelism starts few) in
    let counted =
      Run-Accounted net n start s run (new_system-Accounted peerstore parallelism starts) in
    (
      (λ p. calls_at_end s p placed counted done),
      Run-Told net n start s run (new_system-Told peerstore parallelism starts few),
    )
