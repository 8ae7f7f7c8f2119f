-- ===== src/Refresh.antt =====
-- rtrefresh/rt_refresh_manager.go: the refresh of the routing table. `doRefresh` is a function from what
-- its queries yield to the refreshes that it attempts, its error and whether it reports that it is done.
-- Times are nanoseconds; `ages` holds, for each tracked cpl, the time since its last refresh.
pub mod Reach
mod Tests
use go_libp2p_kad_dht.Prelude.{
  ℕ, suc, ◌==◌, ◌+◌, ◌-◌, ◌*◌, min, leb, if◌then◌else◌, Option, none, some, List, [], ◌∷◌, ◌++◌,
  Bool, true, false, ◌&&◌, ◌||◌, length, take, select, map,
}
use go_libp2p_kad_dht.Qpeerset.{PeerId}

-- What refreshQueryFnc returns.
pub data QueryError : Type 0 where
  no_error deadline_exceeded other_error : QueryError

-- What the manager takes from other code: the key generator, the query with the context's own end, and
-- the number of peers at a cpl after its refresh.
pub record Env : Type 0 where
  pub dht_peer_id : ℕ
  pub refresh_key_gen : ℕ → Option ℕ
  pub refresh_query : ℕ → QueryError
  pub query_timed_out : ℕ → Bool
  pub refresh_interval : ℕ
  pub n_peers_for_cpl : ℕ → ℕ

pub data RefreshError : Type 0 where
  self_failed context_ended : RefreshError
  key_failed query_failed : ℕ → RefreshError

abbrev pub tolerated : QueryError → Bool → Bool
tolerated no_error timed_out = true
tolerated deadline_exceeded timed_out = timed_out
tolerated other_error timed_out = false

-- Whether runRefreshDHTQuery returns nil.
unfoldable pub run_refresh_dht_query : Env → ℕ → Bool
run_refresh_dht_query e key = tolerated (e.refresh_query key) (e.query_timed_out key)

unfoldable pub query_for_self : Env → List RefreshError
query_for_self e = if run_refresh_dht_query e e.dht_peer_id then [] else self_failed ∷ []

abbrev pub with_key : Env → ℕ → Option ℕ → List RefreshError
with_key e cpl none = key_failed cpl ∷ []
with_key e cpl (some key) = if run_refresh_dht_query e key then [] else query_failed cpl ∷ []

unfoldable pub refresh_cpl : Env → ℕ → List RefreshError
refresh_cpl e cpl = with_key e cpl (e.refresh_key_gen cpl)

unfoldable pub refresh_cpl_if_eligible : Env → ℕ → ℕ → List RefreshError
refresh_cpl_if_eligible e cpl age = if leb age e.refresh_interval then [] else refresh_cpl e cpl

-- `rfnc`: the empty list is nil.
unfoldable pub refresh_one : Env → Bool → ℕ → ℕ → List RefreshError
refresh_one e force cpl age = if force then refresh_cpl e cpl else refresh_cpl_if_eligible e cpl age

pub record Refreshed : Type 0 where
  pub attempted : List ℕ
  pub errors : List RefreshError
  pub done : Bool

-- `for i := c + 1; i < lastCpl+1; i++`, over the ages of these cpls.
unfoldable pub refresh_range : Env → Bool → ℕ → List ℕ → Refreshed
refresh_range e force i [] = record { attempted = []; errors = []; done = false }
refresh_range e force i (age ∷ ages) =
    let rest = refresh_range e force (suc i) ages in
    record {
      attempted = i ∷ rest.attempted;
      errors = refresh_one e force i age ++ rest.errors;
      done = false;
    }

abbrev pub is_nil : List RefreshError → Bool
is_nil [] = true
is_nil (x ∷ xs) = false

-- The refresh succeeded, and the cpl has no peers.
abbrev pub is_gap : Env → Bool → ℕ → ℕ → Bool
is_gap e force c age = is_nil (refresh_one e force c age) && (e.n_peers_for_cpl c == 0)

-- `min(2*(c+1), len(refreshCpls)-1)`
abbrev pub last_cpl : ℕ → ℕ → ℕ
last_cpl total c = min (2 * (c + 1)) (total - 1)

-- The loop over the tracked cpls, from the cpl `c` on; `errs` is `merr`, `sent` whether the message on
-- refreshDoneCh goes through before the context ends.
unfoldable pub refresh_from : Env → Bool → Bool → ℕ → ℕ → List RefreshError → List ℕ → Refreshed
refresh_from e force sent total c errs [] = record {
  attempted = [];
  errors = if sent then errs else context_ended ∷ [];
  done = sent;
}
refresh_from e force sent total c errs (age ∷ ages) =
    let merr = errs ++ refresh_one e force c age in
    let next = refresh_from e force sent total (suc c) merr ages in
    let range = refresh_range e force (suc c) (take (last_cpl total c - c) ages) in
    if is_gap e force c age
    then record { attempted = c ∷ range.attempted; errors = merr ++ range.errors; done = false }
    else record next { attempted = c ∷ next.attempted }

unfoldable pub do_refresh : Env → Bool → Bool → List ℕ → Refreshed
do_refresh e force sent ages = refresh_from e force sent (length ages) 0 (query_for_self e) ages

-- A peer of the routing table, with what a ping of it yields.
pub record PeerInfo : Type 0 where
  pub id : PeerId
  pub since_query : ℕ
  pub connects : Bool
  pub pings : Bool

-- The peers that stay in the routing table.
unfoldable pub ping_and_evict_peers : ℕ → List PeerInfo → List PeerInfo
ping_and_evict_peers grace peers =
    select (λ p. leb p.since_query grace || (p.connects && p.pings)) peers

-- triggerRefreshReq
pub record Request : Type 0 where
  pub resp : Option ℕ
  pub force : Bool

abbrev pub channel_of : Option ℕ → List ℕ
channel_of none = []
channel_of (some ch) = ch ∷ []

-- The channels that wait, and whether the refresh is forced, after a batch of requests.
unfoldable pub batch : List Request → List ℕ × Bool
batch [] = ([], false)
batch (r ∷ rs) =
    let (waiting, forced) = batch rs in (channel_of r.resp ++ waiting, r.force || forced)

-- One round of `loop`: no request stands for a tick. The peers left, the refresh, and the replies.
unfoldable pub loop_round :
    Env
    → ℕ
    → Bool
    → List ℕ
    → List PeerInfo
    → List Request
    → List PeerInfo × Refreshed × List (ℕ × List RefreshError)
loop_round e grace sent ages peers requests =
    let (waiting, forced) = batch requests in
    let refreshed = do_refresh e forced sent ages in
    (ping_and_evict_peers grace peers, refreshed, map (λ (ch : ℕ). (ch, refreshed.errors)) waiting)
