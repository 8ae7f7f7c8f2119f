-- ===== src/Node.antt =====
-- dht.go and subscriber_notifee.go: the mode of a node, the checks of the peers that are found, the loop that
-- fills the routing table, and the events of the host that drive them. The host's stream handlers and
-- streams are lists; which protocols a peer supports, the filter and the routing table's decisions are
-- parameters.
pub mod Modes
pub mod Checks
mod Tests
use go_libp2p_kad_dht.Prelude.{
  ℕ, zero, suc, ◌==◌, ◌+◌, ◌-◌, ◌%◌, ◌^◌, if◌then◌else◌, Option, none, some, List, [], ◌∷◌, ◌++◌,
  Bool, true, false, ◌&&◌, ◌||◌, not, contains, select,
}
use go_libp2p_kad_dht.Qpeerset.{PeerId}

-- The type `mode`, with the values that setMode does not know.
pub data Mode : Type 0 where
  mode_server mode_client mode_unknown : Mode

abbrev pub mode_eq : Mode → Mode → Bool
mode_eq mode_server mode_server = true
mode_eq mode_client mode_client = true
mode_eq mode_unknown mode_unknown = true
mode_eq _ _ = false

-- ModeOpt
pub data ModeOpt : Type 0 where
  auto only_client only_server auto_server : ModeOpt

pub record Stream : Type 0 where
  pub id : ℕ
  pub protocol : ℕ
  pub inbound : Bool

-- What stays fixed. `supports` is FirstSupportedProtocol, `none` its error; `filter` is the filter of the
-- routing table, if there is one.
pub record Settings : Type 0 where
  pub auto_mode : ModeOpt
  pub server_protocols : List ℕ
  pub supports : PeerId → Option Bool
  pub filter : Option (PeerId → Bool)
  pub refreshes_on_address : Bool

-- The node, with the host's handlers and streams, the checks that run, the peers that passed one and wait
-- for the loop of the routing table, and the calls of RemovePeer, OnDisconnect and RefreshNoWait so far.
pub record Node : Type 0 where
  pub mode : Mode
  pub handlers : List ℕ
  pub streams : List Stream
  pub lookup_check_capacity : ℕ
  pub checking : List PeerId
  pub valid_found : List PeerId
  pub removed : List PeerId
  pub disconnected : List PeerId
  pub refreshes : ℕ

unfoldable pub move_to_server_mode : Settings → Node → Node
move_to_server_mode c n = record n {
  mode = mode_server;
  handlers = n.handlers ++ c.server_protocols;
}

-- The streams that moveToClientMode resets.
abbrev pub is_served : List ℕ → Stream → Bool
is_served protocols s = contains protocols s.protocol && s.inbound

unfoldable pub move_to_client_mode : Settings → Node → Node
move_to_client_mode c n = record n {
  mode = mode_client;
  handlers = select (λ p. not (contains c.server_protocols p)) n.handlers;
  streams = select (λ s. not (is_served c.server_protocols s)) n.streams;
}

-- Whether setMode has an error, and the node.
abbrev pub to_mode : Settings → Node → Mode → Bool × Node
to_mode c n mode_server = (false, move_to_server_mode c n)
to_mode c n mode_client = (false, move_to_client_mode c n)
to_mode c n mode_unknown = (true, n)

unfoldable pub set_mode : Settings → Node → Mode → Bool × Node
set_mode c n m = if mode_eq m n.mode then (false, n) else to_mode c n m

pub data Reachability : Type 0 where
  private_reach unknown_reach public_reach : Reachability

-- handleLocalReachabilityChangedEvent
abbrev pub target_mode : ModeOpt → Reachability → Mode
target_mode o private_reach = mode_client
target_mode auto_server unknown_reach = mode_server
target_mode o unknown_reach = mode_client
target_mode o public_reach = mode_server

-- validRTPeer; `none` is its error.
abbrev pub passes_filter : Option (PeerId → Bool) → PeerId → Bool
passes_filter none p = true
passes_filter (some f) p = f p

abbrev pub if_supported : Settings → PeerId → Option Bool → Option Bool
if_supported c p none = none
if_supported c p (some false) = some false
if_supported c p (some true) = some (passes_filter c.filter p)

unfoldable pub valid_rt_peer : Settings → PeerId → Option Bool
valid_rt_peer c p = if_supported c p (c.supports p)

-- The start of a check, unless there is no capacity left.
unfoldable pub start_check : Node → PeerId → Node
start_check n p =
    if n.lookup_check_capacity == 0
    then n
    else record n { lookup_check_capacity = n.lookup_check_capacity - 1; checking = p ∷ n.checking }

abbrev pub check_if : Node → PeerId → Option Bool → Node
check_if n p none = n
check_if n p (some false) = n
check_if n p (some true) = start_check n p

-- peerFound; `useful` is UsefulNewPeer.
unfoldable pub peer_found : Settings → Node → PeerId → Bool → Node
peer_found c n p useful = if useful then check_if n p (valid_rt_peer c p) else n

-- handlePeerChangeEvent
abbrev pub changed_if : Settings → Node → PeerId → Bool → Option Bool → Node
changed_if c n p useful none = n
changed_if c n p useful (some true) = peer_found c n p useful
changed_if c n p useful (some false) = record n { removed = n.removed ++ p ∷ [] }

unfoldable pub handle_peer_change_event : Settings → Node → PeerId → Bool → Node
handle_peer_change_event c n p useful = changed_if c n p useful (valid_rt_peer c p)

unfoldable pub remove_one : PeerId → List PeerId → List PeerId
remove_one p [] = []
remove_one p (q ∷ qs) = if q == p then qs else q ∷ remove_one p qs

-- The goroutine of peerFound at the end of its check: with success, validPeerFound.
unfoldable pub end_check : Node → PeerId → Bool → Node
end_check n p succeeds =
    let ended = record n {
      lookup_check_capacity = n.lookup_check_capacity + 1;
      checking = remove_one p n.checking;
    } in
    if succeeds then record ended { valid_found = n.valid_found ++ p ∷ [] } else ended

-- handleLocalReachabilityChangedEvent; a node with a fixed mode has no subscription to these events.
abbrev pub follows_reachability : ModeOpt → Bool
follows_reachability auto = true
follows_reachability auto_server = true
follows_reachability o = false

-- The events of startNetworkSubscriber's loop, the streams that the host opens and closes, and the ends
-- of the checks.
pub data HostEvent : Type 0 where
  addresses_updated : HostEvent
  peer_changed : PeerId → Bool → HostEvent
  connectedness_changed : PeerId → Bool → HostEvent
  reachability_changed : Reachability → HostEvent
  stream_opened : Stream → HostEvent
  stream_closed : ℕ → HostEvent
  check_ended : PeerId → Bool → HostEvent

-- The host takes an inbound stream only for a protocol with a handler.
abbrev pub is_accepted : Node → Stream → Bool
is_accepted n s = not s.inbound || contains n.handlers s.protocol

unfoldable pub on_event : Settings → Node → HostEvent → Node
on_event c n addresses_updated =
    if c.refreshes_on_address then record n { refreshes = n.refreshes + 1 } else n
on_event c n (peer_changed p useful) = handle_peer_change_event c n p useful
on_event c n (connectedness_changed p connected) =
    if connected then n else record n { disconnected = n.disconnected ++ p ∷ [] }
on_event c n (reachability_changed r) =
    if follows_reachability c.auto_mode then (set_mode c n (target_mode c.auto_mode r)).1 else n
on_event c n (stream_opened s) = if is_accepted n s then record n { streams = s ∷ n.streams } else n
on_event c n (stream_closed i) = record n { streams = select (λ s. not (s.id == i)) n.streams }
on_event c n (check_ended p succeeds) = if contains n.checking p then end_check n p succeeds else n

unfoldable pub on_events : Settings → Node → List HostEvent → Node
on_events c n [] = n
on_events c n (x ∷ xs) = on_events c (on_event c n x) xs

-- A node before its first mode is set; its checks are limited to `capacity`.
unfoldable pub new_node : ℕ → Node
new_node capacity = record {
  mode = mode_client;
  handlers = [];
  streams = [];
  lookup_check_capacity = capacity;
  checking = [];
  valid_found = [];
  removed = [];
  disconnected = [];
  refreshes = 0;
}

-- What New sets the mode to, and the node that it makes.
abbrev pub first_mode : ModeOpt → Mode
first_mode auto = mode_client
first_mode only_client = mode_client
first_mode only_server = mode_server
first_mode auto_server = mode_server

abbrev pub in_first_mode : Settings → Node → Mode → Node
in_first_mode c n mode_server = move_to_server_mode c (record n { mode = mode_server })
in_first_mode c n m = record n { mode = m }

unfoldable pub start_node : Settings → ℕ → Node
start_node c capacity = in_first_mode c (new_node capacity) (first_mode c.auto_mode)

-- The variables of rtPeerLoop: `timer` is whether timerCh is set; and what it has called so far.
pub record PeerLoop : Type 0 where
  pub bootstrap_count : ℕ
  pub is_bootstrapping : Bool
  pub timer : Bool
  pub marked : ℕ
  pub fixes : ℕ
  pub bumped : List PeerId
  pub refreshed : ℕ

-- What its select yields. A peer comes with the answer of TryAddPeer: its error, or whether it is new.
pub data LoopEvent : Type 0 where
  timer_fired : LoopEvent
  peer_to_add : PeerId → Bool → Option Bool → LoopEvent
  refresh_finished : LoopEvent

abbrev pub started_over : PeerLoop → Bool → PeerLoop
started_over l true = record l { is_bootstrapping = true; bootstrap_count = 0; timer = false }
started_over l false = l

abbrev pub added : PeerLoop → PeerId → Option Bool → PeerLoop
added l p none = l
added l p (some true) = record l { fixes = l.fixes + 1 }
added l p (some false) = record l { bumped = l.bumped ++ p ∷ [] }

-- One round; `bootstrap_count` is a machine word.
unfoldable pub rt_peer_round : PeerLoop → LoopEvent → PeerLoop
rt_peer_round l timer_fired =
    if l.timer then record l { marked = l.marked + 1; timer = false } else l
rt_peer_round l (peer_to_add p table_empty answer) = added (started_over l table_empty) p answer
rt_peer_round l refresh_finished =
    let count = (l.bootstrap_count + 1) % 2 ^ 64 in
    record l {
      bootstrap_count = count;
      timer = if count == 2 then true else l.timer;
      is_bootstrapping = false;
      refreshed = if l.is_bootstrapping then l.refreshed + 1 else l.refreshed;
    }
