-- ===== src/Handlers/Tests.antt =====
-- A node with a small datastore, and the theorems on handlers.go at it.
use go_libp2p_kad_dht.Prelude.{
  ℕ, ◌==◌, ◌+◌, ◌*◌, ◌/◌, ◌%◌, ◌<◌, ltb, if◌then◌else◌, none, some, List, [], ◌∷◌, true, false, not,
  ◌&&◌, ◌||◌, ◌≡◌, refl, ◌↔◌, arith, contains, map, All, select,
}
use go_libp2p_kad_dht.Prelude.Maps.{lookup, insert, delete}
use go_libp2p_kad_dht.Qpeerset.{PeerId}
use go_libp2p_kad_dht.Network.{Addr, AddrInfo, info_id}
use go_libp2p_kad_dht.Handlers.{
  Message, get_value, handle_get_value, answer_get_value, put_value, find_node, new_message,
  old_record, ok, err, Env, Datastore, check_local_datastore, check_found, check_unmarshalled,
  get_record_from_datastore, put_checked, put_record, handle_put_value,
}
use go_libp2p_kad_dht.Handlers.Values.{Accepted, handle_put_value-Accepted, IsCodec}
use go_libp2p_kad_dht.Handlers.Peers.{
  better_peers, better_peers_to_query, with_target, handle_find_peer, handle_add_provider,
}
use go_libp2p_kad_dht.Handlers.Closer.{
  handle_find_peer_iff, is_own, announced, own_record, handle_add_provider_own,
}

-- The record of the key 3, in base 1000; its value is its rank.
abbrev env : Env
env = record {
  length = λ k. k;
  ds_key = λ k. k;
  marshal = λ r.
      if (r.key == 3) && ltb r.value 1000 then some (r.value + 1000 * r.time_received) else none;
  unmarshal = λ b. some (record { key = 3; value = b % 1000; time_received = b / 1000 });
  valid = λ k v. ltb v 900;
  select = λ k a b. some (if ltb a b then 1 else 0);
  parse_time = λ t. some t;
  format_time = λ t. t;
  empty_time = 0;
  max_record_age = 60;
  get_fails = λ k. false;
  put_fails = λ k. false;
  delete_fails = λ k. false;
}

program : Unit {0}
unfolding handle_put_value put_record put_checked get_record_from_datastore check_local_datastore
    check_found check_unmarshalled lookup insert delete
program = tt

-- The value 40, received at the time 2.
abbrev ds : Datastore
ds = (3, 2040) ∷ []

abbrev putting : ℕ → Message
putting v = record (new_message put_value 3 0) {
  rec = some (record { key = 3; value = v; time_received = 9 });
}

better_stored : (handle_put_value env 5 ds (putting 41)).1 ≡ (3, 5041) ∷ []
unfolding program
better_stored = refl

worse_refused : (handle_put_value env 5 ds (putting 39)).0 ≡ err old_record
unfolding program
worse_refused = refl

accepted :
    (handle_put_value env 5 ds (putting 41)).0
    ≡ ok (record (putting 41) { rec = some (record { key = 3; value = 41; time_received = 5 }) })
unfolding program
accepted = refl

handle_put_value-Accepted_example :
    Accepted env 5 ds (handle_put_value env 5 ds (putting 41)).1 (putting 41)
handle_put_value-Accepted_example = handle_put_value-Accepted env 5 ds (putting 41) accepted

env-IsCodec : IsCodec env
env-IsCodec = (λ r b h. ground arith, λ t. refl)

-- At the time 50 the record of the time 2 is answered, at the time 100 it is taken out.
get_run :
    ((handle_get_value env 50 ds (new_message get_value 3 0) []).1 ≡ ds)
    × ((handle_get_value env 100 ds (new_message get_value 3 0) []).1 ≡ [])
unfolding program handle_get_value answer_get_value
get_run = (refl, refl)

abbrev addrs : PeerId → List Addr
addrs p = if p == 6 then [] else p ∷ []

found :
    (resp : Message)
    → handle_find_peer (λ k. k) addrs 1 4 (some (4 ∷ 5 ∷ 6 ∷ [])) (new_message find_node 9 0)
      ≡ ok resp
    → map info_id resp.closer_peers ≡ 5 ∷ 9 ∷ []
unfolding handle_find_peer better_peers_to_query better_peers with_target
found resp h = ground arith

handle_find_peer_iff_example :
    (resp : Message) × (handle_find_peer
        (λ k. k)
        addrs
        1
        4
        (some (4 ∷ 5 ∷ 6 ∷ []))
        (new_message find_node 9 0)
      ≡ ok resp)
    × (contains (map info_id resp.closer_peers) 5 ≡ (
        not (5 == 4)
        && (ltb 0 1
            && ((5 == 9) || (not (contains (4 ∷ 5 ∷ 6 ∷ []) 1) && contains (4 ∷ 5 ∷ 6 ∷ []) 5)))))
handle_find_peer_iff_example =
    handle_find_peer_iff (λ k. k) addrs 1 4 (4 ∷ 5 ∷ 6 ∷ []) (new_message find_node 9 0) 5 refl

abbrev announcement : Message
announcement = record (new_message find_node 9 0) {
  provider_peers = record { id = 7; addrs = 70 ∷ [] } ∷ record { id = 8; addrs = 80 ∷ [] } ∷ [];
}

handle_add_provider_own_example :
    let (r, added) = handle_add_provider (λ k. k) (λ xs. xs) 8 announcement in
    All (λ (x : AddrInfo). x.id ≡ 8) added
    × (added ≡ (
        if ltb 0 9 && ltb 9 81
        then map (announced (λ xs. xs)) (select (is_own 8) announcement.provider_peers)
        else []))
    × ((r ≡ ok tt) ↔ ((0 < 9) × (9 < 81) × (own_record 8 announcement.provider_peers ≡ true)))
handle_add_provider_own_example = handle_add_provider_own (λ k. k) (λ xs. xs) 8 announcement
