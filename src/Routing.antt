-- ===== src/Routing.antt =====
-- routing.go, the operations that compose a lookup with messages: PutValue, the query function of getValues,
-- the provider search, FindPeer and classicProvide; with getLocal and putLocal of dht.go. What a lookup
-- yields is a parameter, and so are the answers of other peers; events and traces are left out.
pub mod PutValue
pub mod FindProviders
pub mod Searching
pub mod Validated
mod Tests
use go_libp2p_kad_dht.Prelude.{
  ℕ, ◌==◌, ◌+◌, ◌-◌, ◌/◌, ltb, leb, if◌then◌else◌, Option, none, some, List, [], ◌∷◌, ◌++◌, Bool,
  true, false, ◌&&◌, ◌||◌, not, length,
}
use go_libp2p_kad_dht.Prelude.Maps.{lookup, insert}
use go_libp2p_kad_dht.Qpeerset.{PeerId, PeerState, unreachable, queried, waiting, state_eq}
use go_libp2p_kad_dht.Network.{Addr, AddrInfo}
use go_libp2p_kad_dht.Query.Result.{LookupResult}
use go_libp2p_kad_dht.Handlers.{
  Rec, Error, Result, ok, err, Env, Datastore, get_record_from_datastore, datastore_fault,
  marshal_failed, invalid_record, beats, chosen,
}

-- getLocal of dht.go: a record under the wrong key counts as none.
abbrev pub right_key_only : ℕ → Result (Option Rec) → Result (Option Rec)
right_key_only key (err x) = err x
right_key_only key (ok none) = ok none
right_key_only key (ok (some rec)) = if rec.key == key then ok (some rec) else ok none

unfoldable pub get_local : Env → Datastore → ℕ → Result (Option Rec)
get_local e ds key = right_key_only key (get_record_from_datastore e ds (e.ds_key key))

-- putLocal of dht.go, on what the record is marshalled to.
abbrev pub put_bytes : Env → Datastore → ℕ → Option ℕ → Result (Unit {0}) × Datastore
put_bytes e ds k none = (err marshal_failed, ds)
put_bytes e ds k (some bytes) =
    if e.put_fails k then (err datastore_fault, ds) else (ok tt, insert k bytes ds)

unfoldable pub put_local : Env → Datastore → ℕ → Rec → Result (Unit {0}) × Datastore
put_local e ds key rec = put_bytes e ds (e.ds_key key) (e.marshal rec)

-- Whether the value may replace what getLocal yields.
abbrev pub may_replace : Env → ℕ → ℕ → Result (Option Rec) → Result (Unit {0})
may_replace e key value (err x) = err x
may_replace e key value (ok none) = ok tt
may_replace e key value (ok (some old)) =
    if old.value == value then ok tt else chosen (e.select key value old.value)

-- PutValue after the checks: the record with its time is stored, and then sent to the closest peers. The
-- result is the record and the peers that are sent it.
abbrev pub sent_to : Result (List PeerId) → Rec → Result (Rec × List PeerId)
sent_to (err x) rec = err x
sent_to (ok ps) rec = ok (rec, ps)

abbrev pub after_put :
    Result (List PeerId)
    → Rec
    → Result (Unit {0}) × Datastore
    → Result (Rec × List PeerId) × Datastore
after_put closest rec (err x, ds) = (err x, ds)
after_put closest rec (ok u, ds) = (sent_to closest rec, ds)

abbrev pub put_if :
    Env
    → Datastore
    → ℕ
    → Rec
    → Result (List PeerId)
    → Result (Unit {0})
    → Result (Rec × List PeerId) × Datastore
put_if e ds key rec closest (err x) = (err x, ds)
put_if e ds key rec closest (ok u) = after_put closest rec (put_local e ds key rec)

-- PutValue, for a node that has values enabled; `closest` is what GetClosestPeers yields.
unfoldable pub put_value :
    Env → ℕ → Datastore → ℕ → ℕ → Result (List PeerId) → Result (Rec × List PeerId) × Datastore
put_value e now ds key value closest =
    if e.valid key value
    then put_if e ds key (record { key = key; value = value; time_received = e.format_time now })
        closest (may_replace e key value (get_local e ds key))
    else (err invalid_record, ds)

-- The query function of getValues on the answer of a peer, `nil_value` the value that is nil: whether it
-- fails, the value that it sends on and the peers for the query. `delivered`: before the context ends.
pub record ValueAnswer : Type 0 where
  pub fails : Bool
  pub emitted : Option (ℕ × PeerId)
  pub closer : List AddrInfo

abbrev pub on_record : (ℕ → Bool) → ℕ → Bool → PeerId → List AddrInfo → Option Rec → ValueAnswer
on_record valid nil_value delivered p peers none = record {
  fails = false;
  emitted = none;
  closer = peers;
}
on_record valid nil_value delivered p peers (some rec) =
    if rec.value == nil_value
    then record { fails = false; emitted = none; closer = peers }
    else if valid rec.value
    then if delivered
      then record { fails = false; emitted = some (rec.value, p); closer = peers }
      else record { fails = true; emitted = none; closer = [] }
    else record { fails = false; emitted = none; closer = peers }

unfoldable pub get_value_from :
    (ℕ → Bool) → ℕ → Bool → PeerId → Result (Option Rec × List AddrInfo) → ValueAnswer
get_value_from valid nil_value delivered p (err x) = record {
  fails = true;
  emitted = none;
  closer = [];
}
get_value_from valid nil_value delivered p (ok (rec, peers)) =
    on_record valid nil_value delivered p peers rec

-- The value that getValues sends before its lookup.
unfoldable pub local_value : PeerId → Bool → Result (Option Rec) → Option (ℕ × PeerId)
local_value self delivered (err x) = none
local_value self delivered (ok none) = none
local_value self delivered (ok (some rec)) = if delivered then some (rec.value, self) else none

-- The providers that findProvidersAsyncRoutine knows, and what it has sent to its channel.
pub record ProviderSearch : Type 0 where
  pub ps : List (PeerId × AddrInfo)
  pub out : List AddrInfo

abbrev pub no_providers : ProviderSearch
no_providers = record { ps = []; out = [] }

abbrev pub no_addrs : AddrInfo → Bool
no_addrs x = length x.addrs == 0

-- `!ok || ((len(pi.Addrs) == 0) && len(p.Addrs) > 0)`
abbrev pub is_news : AddrInfo → Option AddrInfo → Bool
is_news p none = true
is_news p (some old) = no_addrs old && not (no_addrs p)

-- The test of psTryAdd; a count of 0 is findAll.
unfoldable pub can_add : ℕ → ProviderSearch → AddrInfo → Bool
can_add count s p = is_news p (lookup p.id s.ps) && (ltb (length s.ps) count || (count == 0))

abbrev pub is_enough : ℕ → ProviderSearch → Bool
is_enough count s = not (count == 0) && leb count (length s.ps)

-- How the loop over some providers ends.
pub data LoopEnd : Type 0 where
  exhausted enough cancelled : LoopEnd

-- The loop over providers, with for each whether the channel takes it before the context ends.
unfoldable pub offer_all : ℕ → ProviderSearch → List (AddrInfo × Bool) → LoopEnd × ProviderSearch
offer_all count s [] = (exhausted, s)
offer_all count s ((p, delivered) ∷ rest) =
    let entered = record s { ps = insert p.id p s.ps } in
    let sent_on = record entered { out = s.out ++ p ∷ [] } in
    let after_sent = offer_all count sent_on rest in
    let after_kept = offer_all count s rest in
    if can_add count s p
    then if delivered
      then if is_enough count sent_on then (enough, sent_on) else after_sent
      else (cancelled, entered)
    else if is_enough count s
    then (enough, s)
    else after_kept

-- The answers of the peers, one after the other; an answer whose loop others interrupt stands as several.
unfoldable pub on_answers : ℕ → ProviderSearch → List (List (AddrInfo × Bool)) → ProviderSearch
on_answers count s [] = s
on_answers count s (ps ∷ rest) = on_answers count (offer_all count s ps).1 rest

-- The peers that the query function gives back to the query for an answer.
unfoldable pub closer_of : LoopEnd → List AddrInfo → Option (List AddrInfo)
closer_of exhausted closest = some closest
closer_of enough closest = some []
closer_of cancelled closest = none

abbrev pub unless_ended :
    ℕ → List (List (AddrInfo × Bool)) → LoopEnd × ProviderSearch → Bool × ProviderSearch
unless_ended count answers (exhausted, s) = (true, on_answers count s answers)
unless_ended count answers (enough, s) = (false, s)
unless_ended count answers (cancelled, s) = (false, s)

-- findProvidersAsyncRoutine, for a count of at least 0: whether it started a lookup, and what it has found and sent.
unfoldable pub find_providers_routine :
    ℕ → List (AddrInfo × Bool) → List (List (AddrInfo × Bool)) → Bool × ProviderSearch
find_providers_routine count provs answers =
    unless_ended count answers (offer_all count no_providers provs)

-- FindPeer. `local` is FindLocal, `found` what the lookup yields, `connected` the last test of the
-- connectedness, `info` the peerstore's.
pub data PeerAnswer : Type 0 where
  invalid_id : PeerAnswer
  found_peer : AddrInfo → PeerAnswer
  lookup_failed : Error → PeerAnswer
  not_found : PeerAnswer

unfoldable pub dialed_during_query : PeerId → List PeerId → List PeerState → Bool
dialed_during_query id [] states = false
dialed_during_query id (p ∷ ps) [] = false
dialed_during_query id (p ∷ ps) (st ∷ states) =
    let later = dialed_during_query id ps states in
    if p == id
    then state_eq st queried || (state_eq st unreachable || state_eq st waiting)
    else later

abbrev pub after_lookup : PeerId → Bool → AddrInfo → Result LookupResult → PeerAnswer
after_lookup id connected info (err x) = lookup_failed x
after_lookup id connected info (ok res) =
    if dialed_during_query id res.peers res.state || connected then found_peer info else not_found

unfoldable pub find_peer_answer :
    Bool → Option AddrInfo → PeerId → Result LookupResult → Bool → AddrInfo → PeerAnswer
find_peer_answer valid (some x) id res connected info = if valid then found_peer x else invalid_id
find_peer_answer valid none id res connected info =
    if valid then after_lookup id connected info res else invalid_id

-- classicProvide: the deadline of its lookup, in nanoseconds; `none` if the deadline has passed.
unfoldable pub closer_deadline : ℕ → ℕ → Option ℕ
closer_deadline now deadline =
    let timeout = deadline - now in
    if ltb deadline now
    then none
    else if ltb timeout 10000000000
    then some (deadline - timeout / 10)
    else some (deadline - 1000000000)

-- What its lookup yields: the peers, the peers that it had when its own deadline passed, or an error.
pub data ClosestAnswer : Type 0 where
  all_closest : List PeerId → ClosestAnswer
  some_closest : List PeerId → ClosestAnswer
  no_closest : ℕ → ClosestAnswer

abbrev pub deadline_exceeded : ℕ
deadline_exceeded = 0

-- The peers that are sent the record, and the error; `outer` is the outer context's error after the
-- lookup, and `outer_end` the one at the end.
unfoldable pub classic_provide : ClosestAnswer → Option ℕ → Option ℕ → List PeerId × Option ℕ
classic_provide (no_closest e) outer outer_end = ([], some e)
classic_provide (some_closest ps) (some e) outer_end = ([], some e)
classic_provide (some_closest ps) none outer_end = (ps, some deadline_exceeded)
classic_provide (all_closest ps) outer outer_end = (ps, outer_end)
