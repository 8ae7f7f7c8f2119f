-- ===== src/Crawler/Progress.antt =====
-- Run of crawler/crawler.go: `outstanding` counts the work under way, and there is no deadlock.
use go_libp2p_kad_dht.Prelude.{
  ℕ, zero, suc, ◌==◌, ◌+◌, ◌-◌, ◌<◌, if◌then◌else◌, Option, none, some, List, [], ◌∷◌, ◌++◌, Bool,
  true, false, not, ◌⊎◌, ◌≡◌, refl, ◌∙◌, ap, inl, inr, arith, length, length-append, tally,
  tally-append, Bool-cases, Option-cases,
}
use go_libp2p_kad_dht.Qpeerset.{PeerId}
use go_libp2p_kad_dht.Network.{Addr, AddrInfo}
use go_libp2p_kad_dht.Crawler.{
  QueryResult, Net, Crawl, no_crawl, start_one, start_with, receive, dispatch, IsCrawling,
}
use go_libp2p_kad_dht.Crawler.System.{
  Worker, idle, querying, sending, System, idle_workers, new_system, Step, dispatched, taken, asked,
  reported, received, Run, ended, onward,
}
use go_libp2p_kad_dht.Crawler.Asking.{GeneratesKeys, query_peer_returns}
use go_libp2p_kad_dht.Crawler.Once.{start_one-to_dial, tally-idle_workers}

abbrev pub is_busy : Worker → Bool
is_busy idle = false
is_busy (querying x) = true
is_busy (sending r) = true

abbrev pub held {ℓ} : {A : Type ℓ} → Option A → ℕ
held none = 0
held (some a) = 1

abbrev pub under_way : System → ℕ
under_way s = held s.jobs + tally is_busy s.workers + held s.results

abbrev pub Accounted : System → Type 0
Accounted s = s.main.outstanding ≡ under_way s

receive-outstanding : (c : Crawl) (r : QueryResult) → (receive c r).outstanding ≡ c.outstanding - 1
unfolding receive
receive-outstanding c r = elim (Bool-cases (length r.data' == 0)) [
  | inl e ↦ simp e
  | inr e ↦ simp e
]

abbrev busy_bit : Worker → ℕ
busy_bit w = if is_busy w then 1 else 0

busy-swap :
    (before : List Worker) (old now : Worker) (after ws : List Worker)
    → ws ≡ before ++ old ∷ after
    → tally is_busy (before ++ now ∷ after) + busy_bit old ≡ tally is_busy ws + busy_bit now
busy-swap before old now after ws h = rw h (
    omega
      (arith, tally-append is_busy before (old ∷ after), tally-append is_busy before (now ∷ after)))

step-Accounted : (net : Net) (s t : System) → Step net s t → Accounted s → Accounted t
unfolding dispatch
step-Accounted net _ _ (dispatched s p rest e j) h = omega (arith, h, ap (held {A = PeerId}) j)
step-Accounted net _ _ (taken s p before after j w) h =
    omega (arith, h, ap (held {A = PeerId}) j, busy-swap before idle (querying _) after s.workers w)
step-Accounted net _ _ (asked s x r before after w a) h =
    omega (arith, h, busy-swap before (querying x) (sending r) after s.workers w)
step-Accounted net _ _ (reported s r before after w n) h =
    omega
      (arith, h, ap (held {A = QueryResult}) n, busy-swap before (sending r) idle after s.workers w)
step-Accounted net _ _ (received s r e) h =
    omega (arith, h, receive-outstanding s.main r, ap (held {A = QueryResult}) e)

start_one-outstanding :
    (peerstore : PeerId → List Addr) (c : Crawl) (x : AddrInfo)
    → (start_one peerstore c x).outstanding ≡ c.outstanding
start_one-outstanding peerstore c x = elim (start_one-to_dial peerstore c x) [
  | inl e ↦ ap (λ (d : Crawl). d.outstanding) e
  | inr (dial, seen, called, out) ↦ out
]

start_with-outstanding :
    (peerstore : PeerId → List Addr) (xs : List AddrInfo) (c : Crawl)
    → (start_with peerstore c xs).outstanding ≡ c.outstanding
unfolding start_with
start_with-outstanding peerstore [] c = refl
start_with-outstanding peerstore (x ∷ xs) c =
    start_with-outstanding peerstore xs (start_one peerstore c x)
    ∙ start_one-outstanding peerstore c x

pub new_system-Accounted :
    (peerstore : PeerId → List Addr) (parallelism : ℕ) (starts : List AddrInfo)
    → Accounted (new_system peerstore parallelism starts)
unfolding new_system
new_system-Accounted peerstore parallelism starts = omega (
  arith,
  start_with-outstanding peerstore starts no_crawl,
  tally-idle_workers is_busy parallelism refl,
)

pub Run-Accounted : (net : Net) (n : ℕ) (s t : System) → Run net n s t → Accounted s → Accounted t
Run-Accounted net _ s _ (ended _) h = h
Run-Accounted net _ s u (onward n _ t _ one more) h =
    Run-Accounted net n t u more (step-Accounted net s t one h)

-- The number of workers does not change.
step-workers : (net : Net) (s t : System) → Step net s t → length t.workers ≡ length s.workers
step-workers net _ _ (dispatched s p rest e j) = refl
step-workers net _ _ (taken s p before after j w) = omega (
  arith,
  length-append before (idle ∷ after),
  length-append before (querying _ ∷ after),
  ap (length {A = Worker}) w,
)
step-workers net _ _ (asked s x r before after w a) = omega (
  arith,
  length-append before (querying x ∷ after),
  length-append before (sending r ∷ after),
  ap (length {A = Worker}) w,
)
step-workers net _ _ (reported s r before after w n) = omega (
  arith,
  length-append before (sending r ∷ after),
  length-append before (idle ∷ after),
  ap (length {A = Worker}) w,
)
step-workers net _ _ (received s r e) = refl

Run-workers :
    (net : Net) (n : ℕ) (s t : System) → Run net n s t → length t.workers ≡ length s.workers
Run-workers net _ s _ (ended _) = refl
Run-workers net _ s u (onward n _ t _ one more) =
    Run-workers net n t u more ∙ step-workers net s t one

length-idle_workers : (n : ℕ) → length (idle_workers n) ≡ n
unfolding idle_workers
length-idle_workers zero = refl
length-idle_workers (suc n) = ap suc (length-idle_workers n)

-- Where a worker is that passes a test.
record Found (ws : List Worker) (test : Worker → Bool) : Type 0 where
  before : List Worker
  found : Worker
  after : List Worker
  split : ws ≡ before ++ found ∷ after
  passes : test found ≡ true

find : (ws : List Worker) (test : Worker → Bool) → 0 < tally test ws → Found ws test
find [] test h = absurd (omega arith)
find (w ∷ ws) test h = elim (Bool-cases (test w)) [
  | inl e ↦ record { before = []; found = w; after = ws; split = refl; passes = e }
  | inr e ↦
      let f = find ws test (ground arith) in
      record {
        before = w ∷ f.before;
        found = f.found;
        after = f.after;
        split = ap (λ l. w ∷ l) f.split;
        passes = f.passes;
      }
]

abbrev CanStep : Net → System → Type 0
CanStep net s = (t : System) × Step net s t

busy-CanStep :
    (net : Net) (s : System)
    → GeneratesKeys net
    → s.results ≡ none
    → 0 < tally is_busy s.workers
    → CanStep net s
busy-CanStep net s keys nil h =
    let f = find s.workers is_busy h in move f.found f.before f.after f.split f.passes
  where
    move :
        (w : Worker) (before after : List Worker)
        → s.workers ≡ before ++ w ∷ after
        → is_busy w ≡ true
        → CanStep net s
    move idle before after e b = absurd (cc)
    move (querying x) before after e b =
        let (r, a, whose, once, errors) = query_peer_returns net x keys in
        (_, asked s x r before after e a)
    move (sending r) before after e b = (_, reported s r before after e nil)

idle_or_busy :
    (ws : List Worker) → 0 < length ws → (0 < tally is_busy ws) ⊎ Found ws (λ w. not (is_busy w))
idle_or_busy [] h = absurd (omega arith)
idle_or_busy (idle ∷ ws) h =
    inr (record { before = []; found = idle; after = ws; split = refl; passes = refl })
idle_or_busy (querying x ∷ ws) h = inl (omega arith)
idle_or_busy (sending r ∷ ws) h = inl (omega arith)

job-CanStep :
    (net : Net) (s : System) (p : PeerId)
    → GeneratesKeys net
    → s.results ≡ none
    → 0 < length s.workers
    → s.jobs ≡ some p
    → CanStep net s
job-CanStep net s p keys nil many j = elim (idle_or_busy s.workers many) [
  | inl busy ↦ busy-CanStep net s keys nil busy
  | inr f ↦ take_job f.found f.before f.after f.split f.passes
]
  where
    take_job :
        (w : Worker) (before after : List Worker)
        → s.workers ≡ before ++ w ∷ after
        → not (is_busy w) ≡ true
        → CanStep net s
    take_job idle before after e b = (_, taken s p before after j e)
    take_job (querying x) before after e b = absurd (cc)
    take_job (sending r) before after e b = absurd (cc)

-- With at least one worker, and if GenRandPeerID has no error up to the length 15, no reachable state of
-- a crawl is a deadlock: while the main loop goes on, some goroutine can move.
pub run_no_deadlock :
    (net : Net) (peerstore : PeerId → List Addr) (parallelism n : ℕ) (starts : List AddrInfo)
    (s : System)
    → GeneratesKeys net
    → 0 < parallelism
    → Run net n (new_system peerstore parallelism starts) s
    → IsCrawling s.main
    → (t : System) × Step net s t
unfolding new_system
run_no_deadlock net peerstore parallelism n starts s keys par run on =
    let start = new_system peerstore parallelism starts in
    let counted =
      Run-Accounted net n start s run (new_system-Accounted peerstore parallelism starts) in
    let many : 0 < length s.workers =
      omega (arith, Run-workers net n start s run, length-idle_workers parallelism, par) in
    elim (Option-cases s.results) [
      | inr (r, e) ↦ (_, received s r e)
      | inl nil ↦ elim (Option-cases s.jobs) [
        | inr (p, j) ↦ job-CanStep net s p keys nil many j
        | inl empty ↦ no_job s.main.to_dial refl nil empty counted
      ]
    ]
  where
    no_job :
        (l : List PeerId)
        → s.main.to_dial ≡ l
        → s.results ≡ none
        → s.jobs ≡ none
        → Accounted s
        → CanStep net s
    no_job (p ∷ rest) e nil empty counted = (_, dispatched s p rest e empty)
    no_job [] e nil empty counted =
        let len = ap (length {A = PeerId}) e in
        let r0 = ap (held {A = QueryResult}) nil in
        let j0 = ap (held {A = PeerId}) empty in
        busy-CanStep net s keys nil (omega (arith, counted, len, r0, j0, on))
