-- ===== src/Filters/Tests.antt =====
-- Runs of the filters, and the theorem at one.
use go_libp2p_kad_dht.Prelude.{
  ◌==◌, ltb, if◌then◌else◌, none, some, [], ◌∷◌, true, false, ◌&&◌, ◌≡◌, refl, tally,
}
use go_libp2p_kad_dht.Network.{AddrInfo}
use go_libp2p_kad_dht.Filters.{
  Addresses, is_public_addr, is_private_addr, has_public_addr, public_query_filter,
  private_query_filter, public_routing_table_filter, advertised_ips, is_near_ip, any_local,
  priv_rt_filter, RouterCache, read_router, write_router,
}
use go_libp2p_kad_dht.Filters.Accepted.{is_open, public_filters_iff}

-- An address is its IP, and those below 10 are private; 20 belongs to a relay, and 31 has no gateway.
abbrev world : Addresses
world = record {
  to_ip = λ a. some a;
  is_v4 = λ ip. true;
  in_private4 = λ ip. ltb ip 10;
  in_unroutable4 = λ ip. ip == 99;
  in_public6 = λ ip. false;
  in_unroutable6 = λ ip. false;
  is_relay = λ a. a == 20;
  is_eui = λ ip. false;
  same_v6_net = λ i j. false;
  route = λ ip. some (if ip == 31 then false else true);
}

abbrev peer : AddrInfo
peer = record { id = 1; addrs = 5 ∷ 20 ∷ 30 ∷ [] }

public_run : public_query_filter world peer ≡ true
unfolding public_query_filter has_public_addr is_public_addr
public_run = refl

private_run : private_query_filter peer ≡ true
unfolding private_query_filter
private_run = refl

-- Accepted: a private address, one of the host's own, and one without a gateway.
priv_run :
    priv_rt_filter world true (40 ∷ []) (30 ∷ 5 ∷ [])
      && (priv_rt_filter world true (40 ∷ []) (40 ∷ [])
          && priv_rt_filter world true (40 ∷ []) (31 ∷ []))
    ≡ true
unfolding priv_rt_filter any_local is_private_addr is_public_addr advertised_ips is_near_ip
priv_run = refl

-- Refused: a public address behind a gateway, and a relay's.
refused_run : priv_rt_filter world true (40 ∷ []) (30 ∷ 20 ∷ []) ≡ false
unfolding priv_rt_filter any_local is_private_addr is_public_addr advertised_ips is_near_ip
refused_run = refl

-- Two callers find no router; the first makes the router 7, and the second, after it, returns none.
abbrev no_router : RouterCache
no_router = record { router = none; expires = 0 }

first_caller_run :
    write_router 120 5 (some 7) none no_router ≡ (some 7, record { router = some 7; expires = 125 })
unfolding write_router
first_caller_run = refl

second_caller_run :
    (read_router 5 no_router ≡ none)
    × ((write_router 120 6 (some 8) none (record { router = some 7; expires = 125 })).0 ≡ none)
unfolding read_router write_router
second_caller_run = (refl, refl)

public_filters_iff_example :
    ((is_public_addr world 30 && is_private_addr world 30) ≡ false)
    × (public_query_filter world peer ≡ ltb 0 (tally (is_open world) peer.addrs))
    × (public_routing_table_filter world 1 peer.addrs ≡ public_query_filter world peer)
    × (public_routing_table_filter world 0 peer.addrs ≡ false)
public_filters_iff_example = public_filters_iff world peer 30 0
