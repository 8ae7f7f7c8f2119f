-- ===== src/Messages/Tests.antt =====
-- Runs of the senders of messages, and the theorems at concrete inputs.
use go_libp2p_kad_dht.Prelude.{none, some, List, [], ◌∷◌, true, false, ◌≡◌, refl, arith}
use go_libp2p_kad_dht.Prelude.Maps.{lookup, insert, delete}
use go_libp2p_kad_dht.Messages.{
  new_sender, drop_stream, stream_opened, prep, prep_or_invalidate, message, failed, Round,
  finish_round, send_loop, send_request, send_message, Move, wanted, prepares, prepare_unlocked,
  after_error, disconnects, move, moves, no_senders,
}
use go_libp2p_kad_dht.Messages.Sending.{Returned, send_loop_returns}
use go_libp2p_kad_dht.Messages.Held.{IsKept}
use go_libp2p_kad_dht.Messages.Forgotten.{moves-IsKept}

abbrev bad_round : Round
bad_round = record {
  opening = stream_opened 7;
  write_error = some 5;
  reading = failed 6;
  close_error = none;
}

abbrev good_round : Round
good_round = record {
  opening = stream_opened 8;
  write_error = none;
  reading = message 9;
  close_error = none;
}

-- The first write fails, and the request is sent again on a new stream, which is kept.
request_run :
    send_request new_sender (bad_round ∷ good_round ∷ [])
    ≡ some (
      record { answer = some 9; error = none },
      record { stream = some 8; invalid = false; single_mes = 1; opened = 2; closed = 1 },
    )
unfolding send_request send_loop prep drop_stream finish_round
request_run = refl

message_run :
    send_message new_sender (bad_round ∷ bad_round ∷ [])
    ≡ some (
      record { answer = none; error = some 5 },
      record { stream = none; invalid = false; single_mes = 0; opened = 2; closed = 2 },
    )
unfolding send_message send_loop prep drop_stream finish_round
message_run = refl

send_loop_returns_example :
    Returned 2 new_sender (send_loop true false new_sender (bad_round ∷ good_round ∷ []))
send_loop_returns_example = send_loop_returns true new_sender bad_round good_round [] (λ h. refl)

-- A sender is made and opens a stream; the peer disconnects before the sender is invalidated.
abbrev disconnecting : List Move
disconnecting = wanted 3 ∷ prepares 0 (stream_opened 7) ∷ disconnects 3 ∷ []

moves-IsKept_example :
    (((moves no_senders disconnecting).senders 0).invalid ≡ false)
    × IsKept (moves no_senders disconnecting) 0
unfolding moves move lookup insert delete prep prep_or_invalidate
moves-IsKept_example = moves-IsKept disconnecting 0 7 refl (omega arith)

-- A second request for the peer gets the same sender and opens its stream; the first one gives up its wait
-- for the lock, and takes the sender, which is not invalid, out of the map.
abbrev forgetting : List Move
forgetting =
    wanted 3 ∷ wanted 3 ∷ prepares 0 (stream_opened 7) ∷ prepare_unlocked 0 ∷ after_error 3 0 ∷ []

forgotten_stream_run :
    (((moves no_senders forgetting).senders 0).stream ≡ some 7)
    × (lookup 3 (moves no_senders forgetting).strmap ≡ none)
    × ((moves no_senders forgetting).to_invalidate ≡ [])
unfolding moves move lookup insert delete prep prep_or_invalidate
forgotten_stream_run = (refl, refl, refl)
