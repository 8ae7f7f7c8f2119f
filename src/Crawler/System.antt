-- ===== src/Crawler/System.antt =====
-- Run of crawler/crawler.go as a whole: the main loop, the channels `jobs` and `results`, each with a
-- buffer of one element, and the workers.
use go_libp2p_kad_dht.Prelude.{ℕ, zero, suc, Option, none, some, List, [], ◌∷◌, ◌++◌, ◌≡◌}
use go_libp2p_kad_dht.Qpeerset.{PeerId}
use go_libp2p_kad_dht.Network.{Addr, AddrInfo}
use go_libp2p_kad_dht.Crawler.{
  QueryResult, Net, query_peer, peer_info, Crawl, no_crawl, start_with, receive, dispatch,
}

pub data Worker : Type 0 where
  idle : Worker
  querying : AddrInfo → Worker
  sending : QueryResult → Worker

pub record System : Type 0 where
  pub main : Crawl
  pub jobs : Option PeerId
  pub results : Option QueryResult
  pub workers : List Worker

unfoldable pub idle_workers : ℕ → List Worker
idle_workers zero = []
idle_workers (suc n) = idle ∷ idle_workers n

unfoldable pub new_system : (PeerId → List Addr) → ℕ → List AddrInfo → System
new_system peerstore parallelism starts = record {
  main = start_with peerstore no_crawl starts;
  jobs = none;
  results = none;
  workers = idle_workers parallelism;
}

module _ (net : Net) where
  -- One move of one of the goroutines.
  pub data Step : System → System → Type 0 where
    dispatched :
        (s : System) (p : PeerId) (rest : List PeerId)
        → s.main.to_dial ≡ p ∷ rest
        → s.jobs ≡ none
        → Step s (record s { main = dispatch s.main rest; jobs = some p })
    taken :
        (s : System) (p : PeerId) (before after : List Worker)
        → s.jobs ≡ some p
        → s.workers ≡ before ++ idle ∷ after
        → Step s (record s {
          jobs = none;
          workers = before ++ querying (peer_info s.main.peer_addrs p) ∷ after;
        })
    asked :
        (s : System) (x : AddrInfo) (r : QueryResult) (before after : List Worker)
        → s.workers ≡ before ++ querying x ∷ after
        → query_peer net x ≡ some r
        → Step s (record s { workers = before ++ sending r ∷ after })
    reported :
        (s : System) (r : QueryResult) (before after : List Worker)
        → s.workers ≡ before ++ sending r ∷ after
        → s.results ≡ none
        → Step s (record s { results = some r; workers = before ++ idle ∷ after })
    received :
        (s : System) (r : QueryResult)
        → s.results ≡ some r
        → Step s (record s { main = receive s.main r; results = none })

  -- Runs by their number of steps.
  pub data Run : ℕ → System → System → Type 0 where
    ended : (s : System) → Run 0 s s
    onward : (n : ℕ) (s t u : System) → Step s t → Run n t u → Run (suc n) s u
