-- ===== src/Messages.antt =====
-- internal/net/message_manager.go: the sender of a peer, which keeps a stream and retries once on a new
-- one, and the map of senders. What the host and the streams answer is a parameter, and so is a failure of
-- the wait for a lock; errors, messages and streams are numbers.
pub mod Sending
pub mod Held
pub mod Entries
pub mod Forgotten
mod Tests
use go_libp2p_kad_dht.Prelude.{
  ℕ, ◌==◌, ◌+◌, ltb, if◌then◌else◌, Option, none, some, List, [], ◌∷◌, Bool, true, false, select,
  not, contains,
}
use go_libp2p_kad_dht.Prelude.Maps.{lookup, insert, delete}
use go_libp2p_kad_dht.Qpeerset.{PeerId}

-- peerMessageSender, and how many streams it has opened and how many of them it has closed or reset.
pub record Sender : Type 0 where
  pub stream : Option ℕ
  pub invalid : Bool
  pub single_mes : ℕ
  pub opened : ℕ
  pub closed : ℕ

abbrev pub new_sender : Sender
new_sender = record { stream = none; invalid = false; single_mes = 0; opened = 0; closed = 0 }

-- The errors of the code itself; the others have other numbers.
abbrev pub invalidated_error : ℕ
invalidated_error = 0

-- `_ = ms.s.Reset(); ms.s = nil`, or Close, if there is a stream.
abbrev pub drop_open : Sender → Option ℕ → Sender
drop_open s none = s
drop_open s (some n) = record s { stream = none; closed = s.closed + 1 }

unfoldable pub drop_stream : Sender → Sender
drop_stream s = drop_open s s.stream

unfoldable pub invalidate : Sender → Sender
invalidate s = record (drop_stream s) { invalid = true }

-- What NewStream yields: a stream or an error.
pub data Opening : Type 0 where
  stream_opened : ℕ → Opening
  not_opened : ℕ → Opening

abbrev pub open_new : Sender → Opening → Option ℕ × Sender
open_new s (not_opened e) = (some e, s)
open_new s (stream_opened n) = (none, record s { stream = some n; opened = s.opened + 1 })

abbrev pub prep_stream : Sender → Option ℕ → Opening → Option ℕ × Sender
prep_stream s (some n) o = (none, s)
prep_stream s none o = open_new s o

-- prep: its error, and the sender.
unfoldable pub prep : Sender → Opening → Option ℕ × Sender
prep s o = if s.invalid then (some invalidated_error, s) else prep_stream s s.stream o

abbrev pub or_invalidate : Option ℕ × Sender → Option ℕ × Sender
or_invalidate (none, s) = (none, s)
or_invalidate (some e, s) = (some e, invalidate s)

unfoldable pub prep_or_invalidate : Sender → Opening → Option ℕ × Sender
prep_or_invalidate s o = or_invalidate (prep s o)

-- What the calls of one round of the loop yield. SendMessage does not read.
pub data Reading : Type 0 where
  message : ℕ → Reading
  canceled : ℕ → Reading
  failed : ℕ → Reading

pub record Round : Type 0 where
  pub opening : Opening
  pub write_error : Option ℕ
  pub reading : Reading
  pub close_error : Option ℕ

-- What a call returns: the message that was read, if any, and the error, if any.
pub record Answer : Type 0 where
  pub answer : Option ℕ
  pub error : Option ℕ

abbrev pub stream_reuse_tries : ℕ
stream_reuse_tries = 3

-- The end of a round without an error.
unfoldable pub finish_round : Bool → Sender → Option ℕ → Option ℕ → Answer × Sender
finish_round retry s answer close_error =
    if ltb stream_reuse_tries s.single_mes
    then (record { answer = answer; error = close_error }, drop_stream s)
    else (
      record { answer = answer; error = none },
      (if retry then record s { single_mes = s.single_mes + 1 } else s),
    )

-- After an error of the stream: an error for the caller, or the next round.
abbrev pub fail_or_retry : Bool → Sender → ℕ → Option (Answer × Sender) → Option (Answer × Sender)
fail_or_retry retry s e next =
    if retry then some (record { answer = none; error = some e }, s) else next

abbrev pub after_reading :
    Bool → Sender → Round → Reading → Option (Answer × Sender) → Option (Answer × Sender)
after_reading retry s r (message m) next = some (finish_round retry s (some m) r.close_error)
after_reading retry s r (canceled e) next =
    some (record { answer = none; error = some e }, drop_stream s)
after_reading retry s r (failed e) next = fail_or_retry retry (drop_stream s) e next

-- What follows a write; `reads` tells SendRequest from SendMessage.
abbrev pub after_write :
    Bool → Bool → Sender → Round → Option ℕ → Option (Answer × Sender) → Option (Answer × Sender)
after_write reads retry s r (some e) next = fail_or_retry retry (drop_stream s) e next
after_write true retry s r none next = after_reading retry s r r.reading next
after_write false retry s r none next = some (finish_round retry s none r.close_error)

abbrev pub after_prep :
    Bool
    → Bool
    → Round
    → Option ℕ × Sender
    → (Sender → Option (Answer × Sender))
    → Option (Answer × Sender)
after_prep reads retry r (some e, s) next = some (record { answer = none; error = some e }, s)
after_prep reads retry r (none, s) next =
    after_write reads retry s r r.write_error (next (drop_stream s))

-- The loop of SendRequest and of SendMessage; `none`: it wants another round.
unfoldable pub send_loop : Bool → Bool → Sender → List Round → Option (Answer × Sender)
send_loop reads retry s [] = none
send_loop reads retry s (r ∷ rs) =
    after_prep reads retry r (prep s r.opening) (λ s'. send_loop reads true s' rs)

unfoldable pub send_request : Sender → List Round → Option (Answer × Sender)
send_request s rs = send_loop true false s rs

unfoldable pub send_message : Sender → List Round → Option (Answer × Sender)
send_message s rs = send_loop false false s rs

-- messageSenderImpl, with the senders by their addresses, the senders that a goroutine of OnDisconnect is
-- to invalidate, those for which messageSenderForPeer has seen an error, and those for which the wait for
-- the lock was given up.
pub record Manager : Type 0 where
  pub senders : ℕ → Sender
  pub allocated : ℕ
  pub strmap : List (PeerId × ℕ)
  pub to_invalidate : List ℕ
  pub in_error : List ℕ
  pub given_up : List ℕ

abbrev pub update : (ℕ → Sender) → ℕ → Sender → ℕ → Sender
update f a s b = if a == b then s else f b

abbrev pub find_or_make : Manager → PeerId → Option ℕ → Manager
find_or_make m p (some a) = m
find_or_make m p none = record m {
  senders = update m.senders m.allocated new_sender;
  allocated = m.allocated + 1;
  strmap = insert p m.allocated m.strmap;
}

abbrev pub prepared : Manager → ℕ → Option ℕ × Sender → Manager
prepared m a (none, s) = record m { senders = update m.senders a s }
prepared m a (some e, s) = record m { senders = update m.senders a s; in_error = a ∷ m.in_error }

-- After an error: the sender leaves the map, unless another one has taken its place.
abbrev pub leave_map : Manager → PeerId → ℕ → Option ℕ → Manager
leave_map m p a none = m
leave_map m p a (some b) = if a == b then record m { strmap = delete p m.strmap } else m

abbrev pub disconnect : Manager → PeerId → Option ℕ → Manager
disconnect m p none = m
disconnect m p (some a) = record m {
  strmap = delete p m.strmap;
  to_invalidate = a ∷ m.to_invalidate;
}

abbrev pub sent : Manager → ℕ → Option (Answer × Sender) → Manager
sent m a none = m
sent m a (some (r, s)) = record m { senders = update m.senders a s }

-- What the goroutines do, each under one of the locks: the two parts of messageSenderForPeer round
-- prepOrInvalidate, the sends, OnDisconnect and its goroutine, and a wait for a sender's lock that fails.
pub data Move : Type 0 where
  wanted : PeerId → Move
  prepares : ℕ → Opening → Move
  prepare_unlocked : ℕ → Move
  after_error : PeerId → ℕ → Move
  sends : Bool → ℕ → Round → Round → Move
  disconnects : PeerId → Move
  invalidates : ℕ → Move
  invalidate_unlocked : ℕ → Move

unfoldable pub move : Manager → Move → Manager
move m (wanted p) = find_or_make m p (lookup p m.strmap)
move m (prepares a o) =
    if ltb a m.allocated then prepared m a (prep_or_invalidate (m.senders a) o) else m
move m (prepare_unlocked a) = record m { in_error = a ∷ m.in_error; given_up = a ∷ m.given_up }
move m (after_error p a) = if contains m.in_error a then leave_map m p a (lookup p m.strmap) else m
move m (sends reads a r1 r2) =
    if ltb a m.allocated then sent m a (send_loop reads false (m.senders a) (r1 ∷ r2 ∷ [])) else m
move m (disconnects p) = disconnect m p (lookup p m.strmap)
move m (invalidates a) =
    if contains m.to_invalidate a
    then record m {
      senders = update m.senders a (invalidate (m.senders a));
      to_invalidate = select (λ b. not (a == b)) m.to_invalidate;
    }
    else m
move m (invalidate_unlocked a) =
    if contains m.to_invalidate a
    then record m {
      to_invalidate = select (λ b. not (a == b)) m.to_invalidate;
      given_up = a ∷ m.given_up;
    }
    else m

unfoldable pub moves : Manager → List Move → Manager
moves m [] = m
moves m (x ∷ xs) = moves (move m x) xs

abbrev pub no_senders : Manager
no_senders = record {
  senders = λ a. new_sender;
  allocated = 0;
  strmap = [];
  to_invalidate = [];
  in_error = [];
  given_up = [];
}
