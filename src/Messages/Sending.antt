-- ===== src/Messages/Sending.antt =====
-- SendRequest and SendMessage of internal/net/message_manager.go: they end, and which streams they leave.
use go_libp2p_kad_dht.Prelude.{
  ℕ, ◌+◌, ◌≤◌, ltb, if◌then◌else◌, Option, none, some, List, ◌∷◌, Bool, true, false, ◌≡◌, refl, ◌∙◌,
  ap, inl, inr, arith, Bool-cases,
}
use go_libp2p_kad_dht.Messages.{
  Sender, drop_open, drop_stream, Opening, stream_opened, not_opened, prep_stream, prep, Reading,
  message, canceled, failed, Round, Answer, stream_reuse_tries, finish_round, fail_or_retry,
  after_reading, after_write, after_prep, send_loop,
}

-- An invalid sender has no stream.
abbrev pub IsSound : Sender → Type 0
IsSound s = s.invalid ≡ true → s.stream ≡ none

abbrev held : Option ℕ → ℕ
held none = 0
held (some n) = 1

-- Between the two states at most n streams were opened, and all of them but the one that is now held were
-- closed.
pub record Moved (n : ℕ) (s t : Sender) : Type 0 where
  pub same : t.invalid ≡ s.invalid
  pub counted : t.opened + s.closed + held s.stream ≡ s.opened + t.closed + held t.stream
  pub few : t.opened ≤ s.opened + n

stay : (s : Sender) → Moved 0 s s
stay s = record { same = refl; counted = omega arith; few = omega arith }

onto : (n m : ℕ) (s t u : Sender) → Moved n s t → Moved m t u → Moved (n + m) s u
onto n m s t u h k = record {
  same = k.same ∙ h.same;
  counted = omega (arith, h.counted, k.counted);
  few = omega (arith, h.few, k.few);
}

widen : (n m : ℕ) (s t : Sender) → n ≤ m → Moved n s t → Moved m s t
widen n m s t le h = record { same = h.same; counted = h.counted; few = omega (arith, h.few) }

drop_open-Moved :
    (s : Sender) (o : Option ℕ)
    → s.stream ≡ o
    → Moved 0 s (drop_open s o) × ((drop_open s o).stream ≡ none)
drop_open-Moved s none e = (stay s, e)
drop_open-Moved s (some n) e =
    (record { same = refl; counted = omega (arith, ap held e); few = omega arith }, refl)

pub drop_stream-Moved : (s : Sender) → Moved 0 s (drop_stream s) × ((drop_stream s).stream ≡ none)
unfolding drop_stream
drop_stream-Moved s = drop_open-Moved s s.stream refl

-- What prep does: after an error there is no stream.
record Prepared (s : Sender) (r : Option ℕ × Sender) : Type 0 where
  moved : Moved 1 s r.1
  bare : (e : ℕ) → r.0 ≡ some e → r.1.stream ≡ none

prep-Prepared : (s : Sender) (o : Opening) → IsSound s → Prepared s (prep s o)
unfolding prep
prep-Prepared s o sound = elim (Bool-cases s.invalid) [
  | inl e ↦ simp e (record { moved = widen 0 1 s s (omega arith) (stay s); bare = λ d h. sound e })
  | inr e ↦ simp e (on_stream s.stream refl o)
]
  where
    on_stream : (h : Option ℕ) → s.stream ≡ h → (o : Opening) → Prepared s (prep_stream s h o)
    on_stream (some n) h o = record {
      moved = widen 0 1 s s (omega arith) (stay s);
      bare = λ d k. absurd (cc);
    }
    on_stream none h (not_opened e) = record {
      moved = widen 0 1 s s (omega arith) (stay s);
      bare = λ d k. h;
    }
    on_stream none h (stream_opened n) = record {
      moved = record { same = refl; counted = omega (arith, ap held h); few = omega arith };
      bare = λ d k. absurd (cc);
    }

-- A call that returned, with at most n streams opened; with an error no stream is left.
pub record Returned (n : ℕ) (s : Sender) (o : Option (Answer × Sender)) : Type 0 where
  pub answer : Answer
  pub sender : Sender
  pub returned : o ≡ some (answer, sender)
  pub moved : Moved n s sender
  pub bare : (e : ℕ) → answer.error ≡ some e → sender.stream ≡ none

from :
    (n m k : ℕ) (s t : Sender) (o : Option (Answer × Sender))
    → n + m ≤ k
    → Moved n s t
    → Returned m t o
    → Returned k s o
from n m k s t o le h r = record {
  answer = r.answer;
  sender = r.sender;
  returned = r.returned;
  moved = widen (n + m) k s r.sender le (onto n m s t r.sender h r.moved);
  bare = r.bare;
}

finish_round-Returned :
    (retry : Bool) (s : Sender) (answer close_error : Option ℕ)
    → Returned 0 s (some (finish_round retry s answer close_error))
unfolding finish_round
finish_round-Returned retry s answer close_error =
    let (moved, bare) = drop_stream-Moved s in
    elim (Bool-cases (ltb stream_reuse_tries s.single_mes)) [
      | inl e ↦ simp e (record {
        answer = record { answer = answer; error = close_error };
        sender = drop_stream s;
        returned = refl;
        moved = moved;
        bare = λ d h. bare;
      })
      | inr e ↦ simp e (record {
        answer = record { answer = answer; error = none };
        sender = if retry then record s { single_mes = s.single_mes + 1 } else s;
        returned = refl;
        moved = counted retry;
        bare = λ d h. absurd (cc);
      })
    ]
  where
    counted : (b : Bool) → Moved 0 s (if b then record s { single_mes = s.single_mes + 1 } else s)
    counted true = record { same = refl; counted = omega arith; few = omega arith }
    counted false = stay s

-- After an error of the stream, the call returns or goes on with a sender that has no stream.
abbrev GoesOn : Bool → ℕ → Sender → Option (Answer × Sender) → Type 0
GoesOn true n s next = Unit
GoesOn false n s next = Returned n (drop_stream s) next

fail_or_retry-Returned :
    (retry : Bool) (n : ℕ) (s : Sender) (e : ℕ) (next : Option (Answer × Sender))
    → GoesOn retry n s next
    → Returned n s (fail_or_retry retry (drop_stream s) e next)
fail_or_retry-Returned true n s e next h =
    let (moved, bare) = drop_stream-Moved s in
    record {
      answer = record { answer = none; error = some e };
      sender = drop_stream s;
      returned = refl;
      moved = widen 0 n s (drop_stream s) (omega arith) moved;
      bare = λ d k. bare;
    }
fail_or_retry-Returned false n s e next h =
    from 0 n n s (drop_stream s) next (omega arith) (drop_stream-Moved s).0 h

no_more : (n : ℕ) (s : Sender) (o : Option (Answer × Sender)) → Returned 0 s o → Returned n s o
no_more n s o r = record {
  answer = r.answer;
  sender = r.sender;
  returned = r.returned;
  moved = widen 0 n s r.sender (omega arith) r.moved;
  bare = r.bare;
}

after_write-Returned :
    (reads retry : Bool) (n : ℕ) (s : Sender) (r : Round) (w : Option ℕ)
    (next : Option (Answer × Sender))
    → GoesOn retry n s next
    → Returned n s (after_write reads retry s r w next)
after_write-Returned reads retry n s r (some e) next h = fail_or_retry-Returned retry n s e next h
after_write-Returned false retry n s r none next h =
    no_more n s _ (finish_round-Returned retry s none r.close_error)
after_write-Returned true retry n s r none next h = by_reading r.reading
  where
    by_reading : (g : Reading) → Returned n s (after_reading retry s r g next)
    by_reading (message m) = no_more n s _ (finish_round-Returned retry s (some m) r.close_error)
    by_reading (failed e) = fail_or_retry-Returned retry n s e next h
    by_reading (canceled e) =
        let (moved, bare) = drop_stream-Moved s in
        no_more n s _ (record {
          answer = record { answer = none; error = some e };
          sender = drop_stream s;
          returned = refl;
          moved = moved;
          bare = λ d k. bare;
        })

round-Returned :
    (reads retry : Bool) (n : ℕ) (s : Sender) (r : Round) (next : Sender → Option (Answer × Sender))
    → IsSound s
    → ((t : Sender) → Moved 1 s t → GoesOn retry n t (next (drop_stream t)))
    → Returned (1 + n) s (after_prep reads retry r (prep s r.opening) next)
round-Returned reads retry n s r next sound h =
    prepped (prep s r.opening) (prep-Prepared s r.opening sound)
  where
    prepped :
        (p : Option ℕ × Sender)
        → Prepared s p
        → Returned (1 + n) s (after_prep reads retry r p next)
    prepped (some e, t) v = record {
      answer = record { answer = none; error = some e };
      sender = t;
      returned = refl;
      moved = widen 1 (1 + n) s t (omega arith) v.moved;
      bare = λ d k. v.bare e refl;
    }
    prepped (none, t) v =
        from 1 n (1 + n) s t _ (omega arith) v.moved (
          after_write-Returned reads retry n t r r.write_error (next (drop_stream t)) (h t v.moved))

-- SendRequest and SendMessage, called for a sender that has no stream if it is invalid, return after at
-- most two rounds and with at most two streams opened; the sender is as invalid as before, each stream that
-- was opened is closed but the one that it holds, and with an error it holds none.
pub send_loop_returns :
    (reads : Bool) (s : Sender) (r1 r2 : Round) (rs : List Round)
    → IsSound s
    → Returned 2 s (send_loop reads false s (r1 ∷ r2 ∷ rs))
unfolding send_loop
send_loop_returns reads s r1 r2 rs sound =
    round-Returned reads false 1 s r1 (λ t. send_loop reads true t (r2 ∷ rs)) sound
      (λ t moved.
        let (dropped, bare) = drop_stream-Moved t in
        round-Returned reads true 0 (drop_stream t) r2 (λ u. send_loop reads true u rs) (λ h. bare)
          (λ u moved'. tt))
