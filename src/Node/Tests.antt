-- ===== src/Node/Tests.antt =====
-- Runs of a node, and the theorem at one.
use go_libp2p_kad_dht.Prelude.{
  ◌==◌, if◌then◌else◌, none, some, List, [], ◌∷◌, true, false, ◌≡◌, refl,
}
use go_libp2p_kad_dht.Node.{
  mode_client, auto_server, Settings, move_to_server_mode, move_to_client_mode, set_mode,
  private_reach, valid_rt_peer, start_check, peer_found, handle_peer_change_event, remove_one,
  end_check, HostEvent, peer_changed, reachability_changed, stream_opened, check_ended,
  connectedness_changed, on_event, on_events, new_node, start_node, PeerLoop, rt_peer_round,
  peer_to_add, refresh_finished, timer_fired,
}
use go_libp2p_kad_dht.Node.Modes.{IsWell}
use go_libp2p_kad_dht.Node.Checks.{on_events-IsWell}

-- Peer 3 speaks other protocols only.
abbrev config : Settings
config = record {
  auto_mode = auto_server;
  server_protocols = 20 ∷ [];
  supports = λ p. some (if p == 3 then false else true);
  filter = none;
  refreshes_on_address = true;
}

-- With room for one check, peer 2 is dropped; the inbound stream is reset when the node becomes a client.
abbrev some_events : List HostEvent
some_events =
    stream_opened (record { id = 1; protocol = 20; inbound = true })
    ∷ stream_opened (record { id = 2; protocol = 20; inbound = false })
    ∷ peer_changed 1 true
    ∷ peer_changed 2 true
    ∷ check_ended 1 true
    ∷ peer_changed 3 true
    ∷ connectedness_changed 3 false
    ∷ reachability_changed private_reach
    ∷ []

events_run : on_events config (start_node config 1) some_events ≡ record {
  mode = mode_client;
  handlers = [];
  streams = record { id = 2; protocol = 20; inbound = false } ∷ [];
  lookup_check_capacity = 1;
  checking = [];
  valid_found = 1 ∷ [];
  removed = 3 ∷ [];
  disconnected = 3 ∷ [];
  refreshes = 0;
}
unfolding on_events on_event start_node new_node move_to_server_mode move_to_client_mode set_mode
    valid_rt_peer start_check peer_found handle_peer_change_event remove_one end_check
events_run = refl

on_events-IsWell_example : IsWell config 1 (on_events config (start_node config 1) some_events)
on_events-IsWell_example = on_events-IsWell config 1 some_events

abbrev new_loop : PeerLoop
new_loop = record {
  bootstrap_count = 0;
  is_bootstrapping = false;
  timer = false;
  marked = 0;
  fixes = 0;
  bumped = [];
  refreshed = 0;
}

-- The second refresh that finishes sets the timer; only the first one starts another refresh.
loop_run :
    rt_peer_round
      (rt_peer_round
        (rt_peer_round (rt_peer_round new_loop (peer_to_add 4 true (some true))) refresh_finished)
        refresh_finished)
      timer_fired
    ≡ record new_loop { bootstrap_count = 2; marked = 1; fixes = 1; refreshed = 1 }
unfolding rt_peer_round
loop_run = refl
