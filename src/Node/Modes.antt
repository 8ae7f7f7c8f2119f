-- ===== src/Node/Modes.antt =====
-- dht.go and subscriber_notifee.go: the mode, the handlers and the streams of a node agree, and its checks of
-- new peers are limited.
use go_libp2p_kad_dht.Prelude.{
  ℕ, ◌==◌, ◌+◌, ◌≤◌, List, [], ◌∷◌, Bool, true, false, ◌&&◌, not, ◌≡◌, refl, ap, inl, inr, arith,
  length, contains, contains-append, select, tally, Bool-cases,
}
use go_libp2p_kad_dht.Node.{
  Mode, mode_server, mode_client, mode_unknown, mode_eq, Stream, Settings, Node, is_served,
  move_to_server_mode, move_to_client_mode, to_mode, set_mode,
}

-- A server has a handler for each of its protocols; a client has none, and serves no stream.
abbrev pub Serves : Settings → Node → Mode → Type 0
Serves c n mode_server =
    (p : ℕ) → (contains c.server_protocols p && not (contains n.handlers p)) ≡ false
Serves c n mode_client =
    ((p : ℕ) → (contains c.server_protocols p && contains n.handlers p) ≡ false)
    × (tally (is_served c.server_protocols) n.streams ≡ 0)
Serves c n mode_unknown = true ≡ false

pub record IsWell (c : Settings) (capacity : ℕ) (n : Node) : Type 0 where
  pub serves : Serves c n n.mode
  pub limited : n.lookup_check_capacity + length n.checking ≡ capacity

contains-select :
    (ps l : List ℕ) (p : ℕ)
    → contains (select (λ q. not (contains ps q)) l) p ≡ (not (contains ps p) && contains l p)
contains-select ps [] p = ground arith
contains-select ps (q ∷ l) p = elim (Bool-cases (q == p)) [
  | inl e ↦
      let same : q ≡ p = ground arith in
      ground (arith, contains-select ps l p, ap (contains ps) same)
  | inr e ↦ ground (arith, contains-select ps l p)
]

tally-reset :
    (ps : List ℕ) (ss : List Stream)
    → tally (is_served ps) (select (λ s. not (is_served ps s)) ss) ≡ 0
tally-reset ps [] = refl
tally-reset ps (s ∷ ss) = elim (Bool-cases (is_served ps s)) [
  | inl e ↦ simp e (tally-reset ps ss)
  | inr e ↦ simp e (omega (arith, tally-reset ps ss))
]

pub tally-select :
    (ps : List ℕ) (keep : Stream → Bool) (ss : List Stream)
    → tally (is_served ps) (select keep ss) ≤ tally (is_served ps) ss
tally-select ps keep [] = omega arith
tally-select ps keep (s ∷ ss) = ground (arith, tally-select ps keep ss)

pub server-IsWell :
    (c : Settings) (capacity : ℕ) (n : Node)
    → n.lookup_check_capacity + length n.checking ≡ capacity
    → IsWell c capacity (move_to_server_mode c n)
unfolding move_to_server_mode
server-IsWell c capacity n h = record {
  serves = λ p. ground (arith, contains-append n.handlers c.server_protocols p);
  limited = h;
}

client-IsWell :
    (c : Settings) (capacity : ℕ) (n : Node)
    → n.lookup_check_capacity + length n.checking ≡ capacity
    → IsWell c capacity (move_to_client_mode c n)
unfolding move_to_client_mode
client-IsWell c capacity n h = record {
  serves = (
    (λ p. ground (arith, contains-select c.server_protocols n.handlers p)),
    tally-reset c.server_protocols n.streams,
  );
  limited = h;
}

pub set_mode-IsWell :
    (c : Settings) (capacity : ℕ) (n : Node) (m : Mode)
    → IsWell c capacity n
    → IsWell c capacity (set_mode c n m).1
unfolding set_mode
set_mode-IsWell c capacity n m h = elim (Bool-cases (mode_eq m n.mode)) [
  | inl e ↦ rw e h
  | inr e ↦ rw e (moved m)
]
  where
    moved : (m : Mode) → IsWell c capacity (to_mode c n m).1
    moved mode_server = server-IsWell c capacity n h.limited
    moved mode_client = client-IsWell c capacity n h.limited
    moved mode_unknown = h

-- A change of the checks only.
pub rechecked :
    (c : Settings) (capacity : ℕ) (n n' : Node)
    → n'.mode ≡ n.mode
    → n'.handlers ≡ n.handlers
    → n'.streams ≡ n.streams
    → n'.lookup_check_capacity + length n'.checking ≡ capacity
    → IsWell c capacity n
    → IsWell c capacity n'
rechecked c capacity n n' m hs ss l h = record { serves = moved n.mode m h.serves; limited = l }
  where
    moved : (k : Mode) → n'.mode ≡ k → Serves c n k → Serves c n' n'.mode
    moved mode_server e v = rw e (rw hs v)
    moved mode_client e v = rw e (rw (hs, ss) v)
    moved mode_unknown e v = rw e v
