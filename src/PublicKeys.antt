-- ===== src/PublicKeys.antt =====
-- records.go: GetPublicKey, which asks a peer and the DHT at the same time for the peer's public key. Keys,
-- peers and byte strings are numbers; the peerstore, the codec of keys, the message to the peer and the
-- answers in the search of GetValue are parameters.
pub mod Matching
mod Tests
use go_libp2p_kad_dht.Prelude.{ℕ, ◌==◌, if◌then◌else◌, Option, none, some, List, Bool, true, false}
use go_libp2p_kad_dht.Qpeerset.{PeerId}
use go_libp2p_kad_dht.Handlers.{Env, Datastore}
use go_libp2p_kad_dht.Routing.Searching.{
  SearchEvent, GetResult, got, not_found, get_ended, get_value,
}

-- A public key or an error.
pub data KeyResult : Type 0 where
  public_key : ℕ → KeyResult
  key_error : ℕ → KeyResult

-- The errors that the code itself makes, and the context's; the others have other numbers.
abbrev pub not_supported : ℕ
not_supported = 0

abbrev pub no_record : ℕ
no_record = 1

abbrev pub other_peer : ℕ
other_peer = 2

abbrev pub err_not_found : ℕ
err_not_found = 3

abbrev pub err_context : ℕ
err_context = 4

-- Bytes or an error; the answer of the peer may have no record.
pub data ValueResult : Type 0 where
  value : ℕ → ValueResult
  no_value : ValueResult
  value_error : ℕ → ValueResult

-- What GetPublicKey takes from elsewhere: `unmarshal_error` and `id_error` are the errors of the codec,
-- `pk_key` is routing.KeyForPublicKey, and the rest is for GetValue.
pub record KeySources : Type 0 where
  pub pub_key : PeerId → Option ℕ
  pub ask_peer : PeerId → ValueResult
  pub store : Env
  pub datastore : Datastore
  pub self : PeerId
  pub nil_value : ℕ
  pub pk_key : PeerId → ℕ
  pub unmarshal : ℕ → Option ℕ
  pub unmarshal_error : ℕ
  pub id_of : ℕ → Option PeerId
  pub id_error : ℕ

abbrev pub unmarshalled : KeySources → Option ℕ → KeyResult
unmarshalled e none = key_error e.unmarshal_error
unmarshalled e (some k) = public_key k

abbrev pub from_value : KeySources → ValueResult → KeyResult
from_value e (value_error x) = key_error x
from_value e no_value = key_error no_record
from_value e (value b) = unmarshalled e (e.unmarshal b)

-- What happens in a call of GetValue: whether the local value is sent on and delivered, the events of the
-- search, and whether the context has ended after it.
pub record DhtSearch : Type 0 where
  pub sent : Bool
  pub delivered : Bool
  pub events : List SearchEvent
  pub context_error : Bool

abbrev pub from_get : KeySources → GetResult → KeyResult
from_get e (got b) = unmarshalled e (e.unmarshal b)
from_get e not_found = key_error err_not_found
from_get e get_ended = key_error err_context

-- GetValue with a quorum of 1.
unfoldable pub get_public_key_from_dht : KeySources → DhtSearch → PeerId → KeyResult
get_public_key_from_dht e s p = from_get e (
    get_value e.store e.datastore e.self e.nil_value (e.pk_key p) 1 s.sent s.delivered s.events
      s.context_error)

-- The test of the peer's own key.
abbrev pub if_matches : KeySources → PeerId → ℕ → Option PeerId → KeyResult
if_matches e p k none = key_error e.id_error
if_matches e p k (some q) = if q == p then public_key k else key_error other_peer

abbrev pub matched : KeySources → PeerId → KeyResult → KeyResult
matched e p (key_error x) = key_error x
matched e p (public_key k) = if_matches e p k (e.id_of k)

abbrev pub local_or : Option ℕ → KeyResult → KeyResult
local_or (some k) next = public_key k
local_or none next = next

unfoldable pub get_public_key_from_node : KeySources → PeerId → KeyResult
get_public_key_from_node e p = local_or (e.pub_key p) (matched e p (from_value e (e.ask_peer p)))

-- The loop over the two responses, in the order in which they come.
unfoldable pub first_key : KeyResult → KeyResult → KeyResult
first_key (public_key k) second = public_key k
first_key (key_error x) second = second

-- GetPublicKey; `node_first`: the peer's answer comes before the DHT's.
unfoldable pub get_public_key : KeySources → DhtSearch → Bool → Bool → PeerId → KeyResult
get_public_key e s enable_values node_first p =
    let node = get_public_key_from_node e p in
    let dht = get_public_key_from_dht e s p in
    if enable_values
    then local_or (e.pub_key p) (if node_first then first_key node dht else first_key dht node)
    else key_error not_supported
