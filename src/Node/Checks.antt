-- ===== src/Node/Checks.antt =====
-- The events of dht.go and subscriber_notifee.go, one by one: each keeps the node well.
use go_libp2p_kad_dht.Prelude.{
  ℕ, ◌==◌, ◌+◌, ◌≤◌, Option, none, some, List, [], ◌∷◌, Bool, true, false, ◌≡◌, refl, subst, inl,
  inr, arith, length, contains, tally, Bool-cases,
}
use go_libp2p_kad_dht.Qpeerset.{PeerId}
use go_libp2p_kad_dht.Node.{
  Mode, mode_server, mode_client, mode_unknown, ModeOpt, auto, only_client, only_server,
  auto_server, Stream, Settings, Node, is_served, target_mode, follows_reachability, check_if,
  start_check, peer_found, changed_if, handle_peer_change_event, valid_rt_peer, remove_one,
  end_check, is_accepted, HostEvent, addresses_updated, peer_changed, connectedness_changed,
  reachability_changed, stream_opened, stream_closed, check_ended, on_event, on_events, new_node,
  first_mode, in_first_mode, start_node,
}
use go_libp2p_kad_dht.Node.Modes.{
  IsWell, Serves, set_mode-IsWell, server-IsWell, rechecked, tally-select,
}

length-remove_one :
    (p : PeerId) (l : List PeerId) → contains l p ≡ true → length (remove_one p l) + 1 ≡ length l
unfolding remove_one
length-remove_one p [] h = absurd (cc)
length-remove_one p (q ∷ l) h = elim (Bool-cases (q == p)) [
  | inl e ↦ simp e (omega arith)
  | inr e ↦ simp e (omega (arith, length-remove_one p l (ground arith)))
]

start_check-IsWell :
    (c : Settings) (capacity : ℕ) (n : Node) (p : PeerId)
    → IsWell c capacity n
    → IsWell c capacity (start_check n p)
unfolding start_check
start_check-IsWell c capacity n p h = elim (Bool-cases (n.lookup_check_capacity == 0)) [
  | inl e ↦ rw e h
  | inr e ↦ rw e (rechecked c capacity n _ refl refl refl (ground (arith, h.limited)) h)
]

peer_found-IsWell :
    (c : Settings) (capacity : ℕ) (n : Node) (p : PeerId) (useful : Bool)
    → IsWell c capacity n
    → IsWell c capacity (peer_found c n p useful)
unfolding peer_found
peer_found-IsWell c capacity n p false h = h
peer_found-IsWell c capacity n p true h = checked (valid_rt_peer c p)
  where
    checked : (o : Option Bool) → IsWell c capacity (check_if n p o)
    checked none = h
    checked (some false) = h
    checked (some true) = start_check-IsWell c capacity n p h

changed-IsWell :
    (c : Settings) (capacity : ℕ) (n : Node) (p : PeerId) (useful : Bool) (o : Option Bool)
    → IsWell c capacity n
    → IsWell c capacity (changed_if c n p useful o)
changed-IsWell c capacity n p useful none h = h
changed-IsWell c capacity n p useful (some true) h = peer_found-IsWell c capacity n p useful h
changed-IsWell c capacity n p useful (some false) h =
    rechecked c capacity n _ refl refl refl h.limited h

end_check-IsWell :
    (c : Settings) (capacity : ℕ) (n : Node) (p : PeerId) (succeeds : Bool)
    → contains n.checking p ≡ true
    → IsWell c capacity n
    → IsWell c capacity (end_check n p succeeds)
unfolding end_check
end_check-IsWell c capacity n p true runs h =
    rechecked c capacity n _ refl refl refl
      (omega (arith, h.limited, length-remove_one p n.checking runs)) h
end_check-IsWell c capacity n p false runs h =
    rechecked c capacity n _ refl refl refl
      (omega (arith, h.limited, length-remove_one p n.checking runs)) h

-- The streams of a client change: those that it serves do not become more.
restreamed :
    (c : Settings) (capacity : ℕ) (n : Node) (ss : List Stream)
    → (n.mode ≡ mode_client
        → tally (is_served c.server_protocols) ss ≤ tally (is_served c.server_protocols) n.streams)
    → IsWell c capacity n
    → IsWell c capacity (record n { streams = ss })
restreamed c capacity n ss less h = record {
  serves = by_mode n.mode refl h.serves;
  limited = h.limited;
}
  where
    by_mode : (m : Mode) → n.mode ≡ m → Serves c n m → Serves c (record n { streams = ss }) m
    by_mode mode_server e v = v
    by_mode mode_client e v = (v.0, omega (arith, v.1, less e))
    by_mode mode_unknown e v = v

-- A client accepts no stream that it would serve.
not_served :
    (c : Settings) (capacity : ℕ) (n : Node) (s : Stream)
    → IsWell c capacity n
    → is_accepted n s ≡ true
    → n.mode ≡ mode_client
    → tally (is_served c.server_protocols) (s ∷ n.streams)
      ≤ tally (is_served c.server_protocols) n.streams
not_served c capacity n s h a m =
    let v = subst (Serves c n) m h.serves in ground (arith, v.0 s.protocol, a)

on_event-IsWell :
    (c : Settings) (capacity : ℕ) (n : Node) (x : HostEvent)
    → IsWell c capacity n
    → IsWell c capacity (on_event c n x)
unfolding on_event handle_peer_change_event
on_event-IsWell c capacity n addresses_updated h = elim (Bool-cases c.refreshes_on_address) [
  | inl e ↦
      simp e (
        rechecked c capacity n (record n { refreshes = n.refreshes + 1 }) refl refl refl h.limited
          h)
  | inr e ↦ simp e h
]
on_event-IsWell c capacity n (peer_changed p useful) h =
    changed-IsWell c capacity n p useful (valid_rt_peer c p) h
on_event-IsWell c capacity n (connectedness_changed p true) h = h
on_event-IsWell c capacity n (connectedness_changed p false) h =
    rechecked c capacity n _ refl refl refl h.limited h
on_event-IsWell c capacity n (reachability_changed r) h =
    elim (Bool-cases (follows_reachability c.auto_mode)) [
      | inl e ↦ rw e (set_mode-IsWell c capacity n (target_mode c.auto_mode r) h)
      | inr e ↦ rw e h
    ]
on_event-IsWell c capacity n (stream_opened s) h = elim (Bool-cases (is_accepted n s)) [
  | inl e ↦ rw e (restreamed c capacity n (s ∷ n.streams) (not_served c capacity n s h e) h)
  | inr e ↦ rw e h
]
on_event-IsWell c capacity n (stream_closed i) h =
    restreamed c capacity n _ (λ m. tally-select c.server_protocols _ n.streams) h
on_event-IsWell c capacity n (check_ended p succeeds) h =
    elim (Bool-cases (contains n.checking p)) [
      | inl e ↦ rw e (end_check-IsWell c capacity n p succeeds e h)
      | inr e ↦ rw e h
    ]

on_events_keep :
    (c : Settings) (capacity : ℕ) (n : Node) (xs : List HostEvent)
    → IsWell c capacity n
    → IsWell c capacity (on_events c n xs)
unfolding on_events
on_events_keep c capacity n [] h = h
on_events_keep c capacity n (x ∷ xs) h =
    on_events_keep c capacity (on_event c n x) xs (on_event-IsWell c capacity n x h)

start_node-IsWell : (c : Settings) (capacity : ℕ) → IsWell c capacity (start_node c capacity)
unfolding start_node new_node
start_node-IsWell c capacity = by_option c.auto_mode
  where
    client : IsWell c capacity (in_first_mode c (new_node capacity) mode_client)
    client = record { serves = ((λ p. ground arith), refl); limited = omega arith }

    server : IsWell c capacity (in_first_mode c (new_node capacity) mode_server)
    server = server-IsWell c capacity _ (omega arith)

    by_option :
        (o : ModeOpt) → IsWell c capacity (in_first_mode c (new_node capacity) (first_mode o))
    by_option auto = client
    by_option only_client = client
    by_option only_server = server
    by_option auto_server = server

-- After any events, a node that was started in any mode is a server that has a handler for each of its
-- protocols, or a client that has none of these handlers and no inbound stream of these protocols; and the
-- checks of new peers that run and the capacity that is left are together the capacity at the start.
pub on_events-IsWell :
    (c : Settings) (capacity : ℕ) (xs : List HostEvent)
    → IsWell c capacity (on_events c (start_node c capacity) xs)
on_events-IsWell c capacity xs =
    on_events_keep c capacity (start_node c capacity) xs (start_node-IsWell c capacity)
