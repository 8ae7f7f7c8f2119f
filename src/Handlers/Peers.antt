-- ===== src/Handlers/Peers.antt =====
-- handlers.go: FIND_NODE, GET_PROVIDERS, ADD_PROVIDER and PING, and the choice of a handler; and
-- betterPeersToQuery of dht.go. The routing table's nearest peers, the peerstore's addresses, the address
-- filter and the provider store are what these take from other code.
use go_libp2p_kad_dht.Prelude.{
  ℕ, ◌==◌, ltb, if◌then◌else◌, Option, none, some, ◌>>=◌, List, [], ◌∷◌, ◌++◌, Bool, map, select,
  contains, length,
}
use go_libp2p_kad_dht.Qpeerset.{PeerId}
use go_libp2p_kad_dht.Network.{Addr, AddrInfo}
use go_libp2p_kad_dht.Handlers.{
  MessageType, put_value, get_value, add_provider, get_providers, find_node, ping, Message,
  new_message, no_key, key_too_large, no_valid_provider, Result, ok, err,
}

-- The loop of betterPeersToQuery: this node among the peers gives nil (`none`), the asking peer is left
-- out.
unfoldable pub better_peers : PeerId → PeerId → List PeerId → Option (List PeerId)
better_peers self from [] = some []
better_peers self from (p ∷ ps) = do
  rest ← better_peers self from ps
  if p == self then none else some (if p == from then rest else p ∷ rest)

abbrev pub if_any : PeerId → PeerId → Option (List PeerId) → Option (List PeerId)
if_any self from none = none
if_any self from (some closer) = better_peers self from closer

-- `nearest` is what nearestPeersToQuery yields; `none` is nil.
unfoldable pub better_peers_to_query : PeerId → PeerId → Option (List PeerId) → Option (List PeerId)
better_peers_to_query self from nearest = if_any self from nearest

abbrev pub or_nil : Option (List PeerId) → List PeerId
or_nil none = []
or_nil (some ps) = ps

-- `closest`, with the target added unless it is there or asks itself.
unfoldable pub with_target : PeerId → PeerId → Option (List PeerId) → Option (List PeerId)
with_target target from closest =
    if target == from
    then closest
    else if contains (or_nil closest) target
    then closest
    else some (or_nil closest ++ target ∷ [])

abbrev pub info_of : (PeerId → List Addr) → PeerId → AddrInfo
info_of addrs p = record { id = p; addrs = addrs p }

abbrev pub has_addrs : AddrInfo → Bool
has_addrs x = ltb 0 (length x.addrs)

abbrev pub closer_infos : (PeerId → List Addr) → Option (List PeerId) → List AddrInfo
closer_infos addrs none = []
closer_infos addrs (some ps) = select has_addrs (map (info_of addrs) ps)

-- `key_length` is the length of the key, which read as a peer ID is the target.
unfoldable pub handle_find_peer :
    (ℕ → ℕ)
    → (PeerId → List Addr)
    → PeerId
    → PeerId
    → Option (List PeerId)
    → Message
    → Result Message
handle_find_peer key_length addrs self from nearest msg =
    if key_length msg.key == 0
    then err no_key
    else ok (record (new_message msg.type 0 msg.cluster_level) {
      closer_peers =
          closer_infos addrs (with_target msg.key from (better_peers_to_query self from nearest));
    })

abbrev pub all_infos : (PeerId → List Addr) → Option (List PeerId) → List AddrInfo
all_infos addrs none = []
all_infos addrs (some ps) = map (info_of addrs) ps

abbrev pub filtered : (List Addr → List Addr) → AddrInfo → AddrInfo
filtered filter_addrs x = record x { addrs = filter_addrs x.addrs }

-- `stored` is what the provider store yields for the key.
abbrev pub answer_providers :
    (List Addr → List Addr)
    → (PeerId → List Addr)
    → PeerId
    → PeerId
    → Option (List PeerId)
    → Message
    → Result (List AddrInfo)
    → Result Message
answer_providers filter_addrs addrs self from nearest msg (err x) = err x
answer_providers filter_addrs addrs self from nearest msg (ok providers) =
    ok (record (new_message msg.type msg.key msg.cluster_level) {
      provider_peers = map (filtered filter_addrs) providers;
      closer_peers = all_infos addrs (better_peers_to_query self from nearest);
    })

unfoldable pub handle_get_providers :
    (ℕ → ℕ)
    → (List Addr → List Addr)
    → (PeerId → List Addr)
    → PeerId
    → PeerId
    → Option (List PeerId)
    → Message
    → Result (List AddrInfo)
    → Result Message
handle_get_providers key_length filter_addrs addrs self from nearest msg stored =
    if ltb 80 (key_length msg.key)
    then err key_too_large
    else if key_length msg.key == 0
    then err no_key
    else answer_providers filter_addrs addrs self from nearest msg stored

-- The loop of handleAddProvider: the records handed to AddProvider.
unfoldable pub providers_to_add : (List Addr → List Addr) → PeerId → List AddrInfo → List AddrInfo
providers_to_add filter_addrs from [] = []
providers_to_add filter_addrs from (x ∷ xs) =
    let rest = providers_to_add filter_addrs from xs in
    if x.id == from
    then if ltb (length x.addrs) 1 then rest else filtered filter_addrs x ∷ rest
    else rest

-- The calls of AddProvider, and the result.
unfoldable pub handle_add_provider :
    (ℕ → ℕ) → (List Addr → List Addr) → PeerId → Message → Result (Unit {0}) × List AddrInfo
handle_add_provider key_length filter_addrs from msg =
    if ltb 80 (key_length msg.key)
    then (err key_too_large, [])
    else if key_length msg.key == 0
    then (err no_key, [])
    else (let added = providers_to_add filter_addrs from msg.provider_peers in
        (if length added == 0 then err no_valid_provider else ok tt, added))

unfoldable pub handle_ping : Message → Result Message
handle_ping msg = ok msg

pub data Handler : Type 0 where
  find_peer ping_back get put add_prov get_provs : Handler

-- The two flags are enableValues and enableProviders.
unfoldable pub handler_for_msg_type : Bool → Bool → MessageType → Option Handler
handler_for_msg_type values providers find_node = some find_peer
handler_for_msg_type values providers ping = some ping_back
handler_for_msg_type values providers get_value = if values then some get else none
handler_for_msg_type values providers put_value = if values then some put else none
handler_for_msg_type values providers add_provider = if providers then some add_prov else none
handler_for_msg_type values providers get_providers = if providers then some get_provs else none
