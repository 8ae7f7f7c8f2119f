-- ===== src/Crawler/Bounded.antt =====
-- Run of crawler/crawler.go: a crawl of a finite network ends.
use go_libp2p_kad_dht.Prelude.{
  ℕ, zero, suc, ◌==◌, ◌+◌, ◌*◌, ◌≤◌, Option, none, some, List, [], ◌∷◌, ◌++◌, true, false, not, ◌≡◌,
  refl, ◌∙◌, ap, subst, inl, inr, arith, length, length-append, contains, contains-append, tally,
  tally-le-length, Bool-cases,
}
use go_libp2p_kad_dht.Qpeerset.{PeerId}
use go_libp2p_kad_dht.Network.{Addr, AddrInfo}
use go_libp2p_kad_dht.Crawler.{
  QueryResult, Net, query_peer, Crawl, no_crawl, start_one, start_with, Learned, learn_one, learn,
  receive, dispatch,
}
use go_libp2p_kad_dht.Crawler.System.{
  Worker, idle, querying, sending, System, idle_workers, new_system, Step, dispatched, taken, asked,
  reported, received, Run, ended, onward,
}
use go_libp2p_kad_dht.Crawler.Ending.{Knows}

-- Every peer that a query finds is in the list.
abbrev pub IsWithin : List PeerId → Net → Type 0
IsWithin everyone net =
    (x : AddrInfo) (r : QueryResult) → query_peer net x ≡ some r → Knows everyone r.data'

abbrev unseen : List PeerId → List PeerId → ℕ
unseen everyone seen = tally (λ p. not (contains seen p)) everyone

-- What is left to do, counted in steps.
abbrev worker_steps : Worker → ℕ
worker_steps idle = 0
worker_steps (querying x) = 3
worker_steps (sending r) = 2

abbrev steps_of : List Worker → ℕ
steps_of [] = 0
steps_of (w ∷ ws) = worker_steps w + steps_of ws

abbrev job_steps : Option PeerId → ℕ
job_steps none = 0
job_steps (some p) = 4

abbrev result_steps : Option QueryResult → ℕ
result_steps none = 0
result_steps (some r) = 1

abbrev measure : List PeerId → System → ℕ
measure everyone s =
    6 * unseen everyone s.main.peers_seen
    + 5 * length s.main.to_dial
    + job_steps s.jobs
    + steps_of s.workers
    + result_steps s.results

-- The results under way name peers of the list only.
abbrev WorkerWithin : List PeerId → Worker → Type 0
WorkerWithin everyone idle = Unit
WorkerWithin everyone (querying x) = Unit
WorkerWithin everyone (sending r) = Knows everyone r.data'

abbrev AllWithin : List PeerId → List Worker → Type 0
AllWithin everyone [] = Unit
AllWithin everyone (w ∷ ws) = WorkerWithin everyone w × AllWithin everyone ws

abbrev ResultWithin : List PeerId → Option QueryResult → Type 0
ResultWithin everyone none = Unit
ResultWithin everyone (some r) = Knows everyone r.data'

record Within (everyone : List PeerId) (s : System) : Type 0 where
  workers : AllWithin everyone s.workers
  results : ResultWithin everyone s.results

unseen-le :
    (everyone seen : List PeerId) (p : PeerId)
    → unseen everyone (seen ++ p ∷ []) ≤ unseen everyone seen
unseen-le [] seen p = omega arith
unseen-le (q ∷ everyone) seen p =
    ground (arith, unseen-le everyone seen p, contains-append seen (p ∷ []) q)

unseen-lt :
    (everyone seen : List PeerId) (p : PeerId)
    → contains everyone p ≡ true
    → contains seen p ≡ false
    → suc (unseen everyone (seen ++ p ∷ [])) ≤ unseen everyone seen
unseen-lt [] seen p h new = absurd (cc)
unseen-lt (q ∷ everyone) seen p h new = elim (Bool-cases (q == p)) [
  | inl same ↦
      let eq : q ≡ p = ground arith in
      let fresh : contains seen q ≡ false = ap (contains seen) eq ∙ new in
      ground (arith, unseen-le everyone seen p, contains-append seen (p ∷ []) q)
  | inr other ↦
      let ih = unseen-lt everyone seen p (ground arith) new in
      ground (arith, ih, contains-append seen (p ∷ []) q)
]

learn_one-unseen :
    (everyone queried : List PeerId) (l : Learned) (x : AddrInfo)
    → contains everyone x.id ≡ true
    → unseen everyone (learn_one queried l x).seen + length (learn_one queried l x).to_visit
      ≤ unseen everyone l.seen + length l.to_visit
learn_one-unseen everyone queried l x h = elim (Bool-cases (contains l.seen x.id)) [
  | inl e ↦ simp e (omega arith)
  | inr e ↦
      simp e
        (omega (arith, unseen-lt everyone l.seen x.id h e, length-append l.to_visit (x.id ∷ [])))
]

learn_one-to_visit :
    (queried : List PeerId) (l : Learned) (x : AddrInfo)
    → length l.to_visit ≤ length (learn_one queried l x).to_visit
learn_one-to_visit queried l x = elim (Bool-cases (contains l.seen x.id)) [
  | inl e ↦ simp e (omega arith)
  | inr e ↦ simp e (omega (arith, length-append l.to_visit (x.id ∷ [])))
]

learn-unseen :
    (everyone queried : List PeerId) (l : Learned) (xs : List AddrInfo)
    → Knows everyone xs
    → (unseen everyone (learn queried l xs).seen + length (learn queried l xs).to_visit
        ≤ unseen everyone l.seen + length l.to_visit)
      × (length l.to_visit ≤ length (learn queried l xs).to_visit)
unfolding learn
learn-unseen everyone queried l [] h = (omega arith, omega arith)
learn-unseen everyone queried l (x ∷ xs) h =
    let (a, b) = learn-unseen everyone queried (learn_one queried l x) xs h.1 in
    (
      omega (arith, a, learn_one-unseen everyone queried l x h.0),
      omega (arith, b, learn_one-to_visit queried l x),
    )

receive-measure :
    (everyone : List PeerId) (c : Crawl) (r : QueryResult)
    → Knows everyone r.data'
    → 6 * unseen everyone (receive c r).peers_seen + 5 * length (receive c r).to_dial
      ≤ 6 * unseen everyone c.peers_seen + 5 * length c.to_dial
unfolding receive
receive-measure everyone c r h = elim (Bool-cases (length r.data' == 0)) [
  | inl e ↦ simp e (omega arith)
  | inr e ↦
      let start : Learned = record { seen = c.peers_seen; to_visit = c.to_dial; updates = [] } in
      let (a, b) = learn-unseen everyone c.peers_queried start r.data' h in
      simp e (omega (arith, a, b))
]

steps_of-append : (xs ys : List Worker) → steps_of (xs ++ ys) ≡ steps_of xs + steps_of ys
steps_of-append [] ys = omega arith
steps_of-append (x ∷ xs) ys = omega (arith, steps_of-append xs ys)

steps_of-swap :
    (before : List Worker) (old now : Worker) (after ws : List Worker)
    → ws ≡ before ++ old ∷ after
    → steps_of (before ++ now ∷ after) + worker_steps old ≡ steps_of ws + worker_steps now
steps_of-swap before old now after ws h =
    rw h (omega (arith, steps_of-append before (old ∷ after), steps_of-append before (now ∷ after)))

AllWithin-swap :
    (everyone : List PeerId) (before : List Worker) (old now : Worker) (after : List Worker)
    → AllWithin everyone (before ++ old ∷ after)
    → WorkerWithin everyone now
    → AllWithin everyone (before ++ now ∷ after) × WorkerWithin everyone old
AllWithin-swap everyone [] old now after h new = ((new, h.1), h.0)
AllWithin-swap everyone (w ∷ before) old now after h new =
    let (a, b) = AllWithin-swap everyone before old now after h.1 new in ((h.0, a), b)

swap-Within :
    (everyone : List PeerId) (before : List Worker) (old now : Worker) (after ws : List Worker)
    → ws ≡ before ++ old ∷ after
    → AllWithin everyone ws
    → WorkerWithin everyone now
    → AllWithin everyone (before ++ now ∷ after) × WorkerWithin everyone old
swap-Within everyone before old now after ws e h new =
    AllWithin-swap everyone before old now after (subst (AllWithin everyone) e h) new

-- Every step leaves less to do.
step-measure :
    (net : Net) (everyone : List PeerId) (s t : System)
    → IsWithin everyone net
    → Step net s t
    → Within everyone s
    → Within everyone t × (suc (measure everyone t) ≤ measure everyone s)
unfolding dispatch
step-measure net everyone _ _ all (dispatched s p rest e j) v = (
  record { workers = v.workers; results = v.results },
  omega (arith, ap (length {A = PeerId}) e, ap job_steps j),
)
step-measure net everyone _ _ all (taken s p before after j w) v =
    let (ws, old) = swap-Within everyone before idle (querying _) after s.workers w v.workers tt in
    (
      record { workers = ws; results = v.results },
      omega (arith, steps_of-swap before idle (querying _) after s.workers w, ap job_steps j),
    )
step-measure net everyone _ _ all (asked s x r before after w a) v =
    let (ws, old) =
      swap-Within everyone before (querying x) (sending r) after s.workers w v.workers
        (all x r a) in
    (
      record { workers = ws; results = v.results },
      omega (arith, steps_of-swap before (querying x) (sending r) after s.workers w),
    )
step-measure net everyone _ _ all (reported s r before after w nil) v =
    let (ws, old) = swap-Within everyone before (sending r) idle after s.workers w v.workers tt in
    (
      record { workers = ws; results = old },
      omega (arith, steps_of-swap before (sending r) idle after s.workers w, ap result_steps nil),
    )
step-measure net everyone _ _ all (received s r e) v =
    let named = subst (ResultWithin everyone) e v.results in
    (
      record { workers = v.workers; results = tt },
      omega (arith, receive-measure everyone s.main r named, ap result_steps e),
    )

Run-measure :
    (net : Net) (everyone : List PeerId) (n : ℕ) (s t : System)
    → IsWithin everyone net
    → Run net n s t
    → Within everyone s
    → n + measure everyone t ≤ measure everyone s
Run-measure net everyone _ s _ all (ended _) v = omega arith
Run-measure net everyone _ s u all (onward n _ t _ one more) v =
    let (v', less) = step-measure net everyone s t all one v in
    omega (arith, less, Run-measure net everyone n t u all more v')

length-start_with :
    (peerstore : PeerId → List Addr) (xs : List AddrInfo) (c : Crawl)
    → length (start_with peerstore c xs).to_dial ≤ length c.to_dial + length xs
unfolding start_with
length-start_with peerstore [] c = omega arith
length-start_with peerstore (x ∷ xs) c =
    omega (arith, length-start_with peerstore xs (start_one peerstore c x), one)
  where
    one : length (start_one peerstore c x).to_dial ≤ length c.to_dial + 1
    one = elim (Bool-cases (length (peerstore x.id ++ x.addrs) == 0)) [
      | inl e ↦ simp e (omega arith)
      | inr e ↦ simp e (omega (arith, length-append c.to_dial (x.id ∷ [])))
    ]

idle_workers-Within :
    (everyone : List PeerId) (n : ℕ)
    → AllWithin everyone (idle_workers n) × (steps_of (idle_workers n) ≡ 0)
unfolding idle_workers
idle_workers-Within everyone zero = (tt, refl)
idle_workers-Within everyone (suc n) =
    let (a, b) = idle_workers-Within everyone n in ((tt, a), omega (arith, b))

-- If every peer that a query finds is one of `everyone`, then no order of the moves lets a crawl take more
-- than six steps for each of them and five for each starting peer.
pub Run-bounded :
    (net : Net) (everyone : List PeerId) (peerstore : PeerId → List Addr) (parallelism n : ℕ)
    (starts : List AddrInfo) (s : System)
    → IsWithin everyone net
    → Run net n (new_system peerstore parallelism starts) s
    → n ≤ 6 * length everyone + 5 * length starts
unfolding new_system
Run-bounded net everyone peerstore parallelism n starts s all run =
    let start = new_system peerstore parallelism starts in
    let (ws, none_yet) = idle_workers-Within everyone parallelism in
    let bound =
      Run-measure net everyone n start s all run (record { workers = ws; results = tt }) in
    omega (
      arith,
      bound,
      none_yet,
      length-start_with peerstore starts no_crawl,
      tally-le-length (λ p. not (contains start.main.peers_seen p)) everyone,
    )
