-- ===== src/Crawler/Tests.antt =====
-- A crawl of two peers, and the theorems at it.
use go_libp2p_kad_dht.Prelude.{
  ◌==◌, ◌+◌, ◌*◌, ◌≤◌, if◌then◌else◌, none, some, List, [], ◌∷◌, ◌≡◌, refl, inl, inr, subst,
  some_inj, Bool-cases, arith, length, contains, All,
}
use go_libp2p_kad_dht.Prelude.Maps.{lookup, insert, delete}
use go_libp2p_kad_dht.Qpeerset.{PeerId}
use go_libp2p_kad_dht.Network.{AddrInfo}
use go_libp2p_kad_dht.Crawler.{
  QueryResult, Net, answered, query_peer, peer_info, success, failure, start_with, receive,
  dispatch, learn, ask_from, add_local, put_all_addrs, add_peer_addrs, add_addrs,
  remove_source_and_add_peers,
}
use go_libp2p_kad_dht.Crawler.System.{
  idle, System, idle_workers, new_system, Step, dispatched, taken, asked, reported, received, Run,
  ended, onward,
}
use go_libp2p_kad_dht.Crawler.Once.{calls_for}
use go_libp2p_kad_dht.Crawler.Progress.{run_no_deadlock}
use go_libp2p_kad_dht.Crawler.Ending.{Knows, named, Run-calls_once}
use go_libp2p_kad_dht.Crawler.Bounded.{IsWithin, Run-bounded}

abbrev one : AddrInfo
one = record { id = 1; addrs = 9 ∷ [] }

abbrev two : AddrInfo
two = record { id = 2; addrs = 8 ∷ [] }

-- Peer 1 answers with peer 2, which cannot be reached.
abbrev net : Net
net = record {
  new_routing_table = λ p. none;
  connect = λ x. if x.id == 2 then some 3 else none;
  gen_rand_peer_id = λ p cpl. some cpl;
  get_closest_peers = λ p key. answered (two ∷ []);
}

query_run : query_peer net one ≡ some (record { peer = 1; data' = two ∷ []; err = none })
unfolding query_peer ask_from add_local
query_run = refl

abbrev start : System
start = new_system (λ p. []) 1 (one ∷ [])

abbrev crawl_end : System
crawl_end = record {
  main = record {
    to_dial = [];
    peers_seen = 1 ∷ 2 ∷ [];
    peers_queried = 1 ∷ [];
    outstanding = 0;
    peer_addrs = (2, 8 ∷ []) ∷ [];
    calls = success 1 (two ∷ []) ∷ failure 2 (some 3) ∷ [];
  };
  jobs = none;
  results = none;
  workers = idle ∷ [];
}

crawl-Run : Run net 10 start crawl_end
unfolding new_system idle_workers start_with add_peer_addrs put_all_addrs insert lookup delete
    peer_info query_peer ask_from add_local receive dispatch learn add_addrs
    remove_source_and_add_peers
crawl-Run = onward _ _ _ _ (dispatched _ 1 [] refl refl) (
    onward _ _ _ _ (taken _ 1 [] [] refl refl) (
      onward _ _ _ _ (asked _ one _ [] [] refl refl) (
        onward _ _ _ _ (reported _ _ [] [] refl refl) (
          onward _ _ _ _ (received _ _ refl) (
            onward _ _ _ _ (dispatched _ 2 [] refl refl) (
              onward _ _ _ _ (taken _ 2 [] [] refl refl) (
                onward _ _ _ _ (asked _ two _ [] [] refl refl) (
                  onward _ _ _ _ (reported _ _ [] [] refl refl)
                    (onward _ _ _ _ (received _ _ refl) (ended _))))))))))

Run-calls_once_example :
    ((p : PeerId)
      → calls_for p crawl_end.main.calls ≡ (if contains crawl_end.main.peers_seen p then 1 else 0))
    × All (λ call. Knows crawl_end.main.peers_seen (named call)) crawl_end.main.calls
Run-calls_once_example =
    Run-calls_once net (λ p. []) 1 10 (one ∷ []) crawl_end (λ p. ground arith) crawl-Run refl

run_no_deadlock_example : (t : System) × Step net start t
unfolding new_system start_with
run_no_deadlock_example =
    run_no_deadlock net (λ p. []) 1 0 (one ∷ []) start (λ p cpl h. (cpl, refl)) (omega arith)
      (ended start) (omega arith)

abbrev both : List PeerId
both = 1 ∷ 2 ∷ []

same_data : (q r : QueryResult) → Knows both q.data' → some q ≡ some r → Knows both r.data'
same_data q r k h = subst (λ (y : QueryResult). Knows both y.data') (some_inj q r h) k

net-IsWithin : IsWithin both net
unfolding query_peer ask_from add_local
net-IsWithin x r h = elim (Bool-cases (x.id == 2)) [
  | inl e ↦ same_data (record { peer = x.id; data' = []; err = some 3 }) r tt (simp e at h)
  | inr e ↦
      same_data (record { peer = x.id; data' = two ∷ []; err = none }) r (refl, tt) (simp e at h)
]

Run-bounded_example : 10 ≤ 6 * length both + 5 * length (one ∷ [])
Run-bounded_example =
    Run-bounded net both (λ p. []) 1 10 (one ∷ []) crawl_end net-IsWithin crawl-Run
