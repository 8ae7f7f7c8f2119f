-- ===== src/Optimistic/Released.antt =====
-- waitForRPCs of lookup_optim.go: it does not block as long as RPCs were issued, every lease comes back, and
-- doneChan is closed once at most and not too early.
use go_libp2p_kad_dht.Prelude.{
  ℕ, zero, suc, ◌==◌, ◌+◌, ◌-◌, ◌≤◌, ◌<◌, ltb, if◌then◌else◌, ◌&&◌, ◌⊎◌, ◌≡◌, refl, ◌∙◌, ap, subst,
  inl, inr, arith, Bool-cases,
}
use go_libp2p_kad_dht.Optimistic.Waiting.{
  Phase, first_loop, second_loop, Waiting, count_done, wait_start, lowered, next_phase, Move,
  rpc_sends, first_receives, lease_had, second_receives, consumer_receives, Moves, no_move,
  first_move,
}

-- The rounds to go, the wait of the first loop counted as one.
abbrev pub rounds : Phase → ℕ
rounds first_loop = 1
rounds (second_loop k) = k

abbrev pub left_over : Waiting → ℕ
left_over w = w.running + w.buffered + w.consumers + rounds w.phase

abbrev closes_at : ℕ → ℕ → ℕ → ℕ
closes_at t n done = if ltb t n && (done == n) then 1 else 0

abbrev PhaseFits : ℕ → ℕ → Waiting → Phase → Type 0
PhaseFits t n w first_loop = (w.consumers ≡ 0) × (w.put_prov_done < t) × (w.closes ≡ 0)
PhaseFits t n w (second_loop k) =
    (k + w.consumers ≡ w.buffered + w.running)
    × (t ≤ w.put_prov_done)
    × (w.closes ≡ closes_at t n w.put_prov_done)

-- Each RPC is running, in the channel or counted, and each lease is a consumer's.
record Fits (t n : ℕ) (w : Waiting) : Type 0 where
  all : w.put_prov_done + w.buffered + w.running ≡ n
  leased : w.leases ≡ w.consumers
  phased : PhaseFits t n w w.phase

wait_start-Fits : (t n : ℕ) → 0 < t → Fits t n (wait_start n)
unfolding wait_start
wait_start-Fits t n h = record { all = omega arith; leased = refl; phased = (refl, h, refl) }

-- The first loop after one more element: on, or the second loop with a round for each RPC to come.
next_phase-Fits :
    (t n b d r : ℕ)
    → d + suc b + r ≡ n
    → d < t
    → (w : Waiting) → w.put_prov_done ≡ d + 1
    → w.buffered ≡ b
    → w.running ≡ r
    → w.consumers ≡ 0
    → w.closes ≡ 0
    → t ≤ n
    → PhaseFits t n w (next_phase t n (d + 1))
unfolding next_phase
next_phase-Fits t n b d r all less w e1 e2 e3 e4 e5 le = elim (Bool-cases ((d + 1) == t)) [
  | inl e ↦ rw e (ground arith, ground arith, ground arith)
  | inr e ↦ rw e (e4, ground arith, e5)
]

move-Fits : (t n c : ℕ) (w v : Waiting) → t ≤ n → Move t n c w v → Fits t n w → Fits t n v
unfolding count_done
move-Fits t n c _ _ le (rpc_sends w r e room) f = record {
  all = omega (arith, f.all, e);
  leased = f.leased;
  phased = sent w.phase f.phased;
}
  where
    sent :
        (p : Phase)
        → PhaseFits t n w p
        → PhaseFits t n (record w { running = r; buffered = w.buffered + 1 }) p
    sent first_loop h = h
    sent (second_loop k) h = (omega (arith, h.0, e), h.1, h.2)
move-Fits t n c _ _ le (first_receives w b p e) f =
    let h = subst (PhaseFits t n w) p f.phased in
    let v : Waiting = record w {
      phase = next_phase t n (w.put_prov_done + 1);
      buffered = b;
      put_prov_done = w.put_prov_done + 1;
    } in
    record {
      all = omega (arith, f.all, e);
      leased = f.leased;
      phased =
          next_phase-Fits t n b w.put_prov_done w.running (omega (arith, f.all, e)) h.1 v refl refl
            refl h.0 h.2 le;
    }
move-Fits t n c _ _ le (lease_had w k p) f =
    let h = subst (PhaseFits t n w) p f.phased in
    record {
      all = f.all;
      leased = omega (arith, f.leased);
      phased = (omega (arith, h.0), h.1, h.2);
    }
move-Fits t n c _ _ le (second_receives w k b p e) f =
    let h = subst (PhaseFits t n w) p f.phased in
    record {
      all = omega (arith, f.all, e);
      leased = f.leased;
      phased = (omega (arith, h.0, e), omega (arith, h.1), ground (arith, h.1, h.2, f.all, e));
    }
move-Fits t n c _ _ le (consumer_receives w k b ke e) f = record {
  all = omega (arith, f.all, e);
  leased = omega (arith, f.leased, ke);
  phased = consumed w.phase f.phased;
}
  where
    consumed :
        (p : Phase)
        → PhaseFits t n w p
        → PhaseFits t n
            (count_done n (record w { consumers = k; leases = w.leases - 1; buffered = b }))
            p
    consumed first_loop h = absurd (omega (arith, h.0, ke))
    consumed (second_loop j) h =
        (omega (arith, h.0, e, ke), omega (arith, h.1), ground (arith, h.1, h.2, f.all, e))

Moves-Fits : (t n c : ℕ) (w v : Waiting) → t ≤ n → Moves t n c w v → Fits t n w → Fits t n v
Moves-Fits t n c w _ le (no_move _) f = f
Moves-Fits t n c w v le (first_move _ u _ one more) f =
    Moves-Fits t n c u v le more (move-Fits t n c w u le one f)

lowered_range : (rt n : ℕ) → 0 < rt → 0 < n → (0 < lowered rt n) × (lowered rt n ≤ n)
unfolding lowered
lowered_range rt n h k = ground arith

reached :
    (rt n c : ℕ) (w : Waiting)
    → 0 < rt
    → 0 < n
    → Moves (lowered rt n) n c (wait_start n) w
    → Fits (lowered rt n) n w
reached rt n c w h k ms =
    let (some_left, le) = lowered_range rt n h k in
    Moves-Fits (lowered rt n) n c (wait_start n) w le ms
      (wait_start-Fits (lowered rt n) n some_left)

-- With at least one RPC issued, and with a threshold and a capacity that are not 0, waitForRPCs, its
-- consumers and the RPCs are never stuck: as long as one of them has something left to do, one can move.
pub wait_progress :
    (return_threshold rpc_count capacity : ℕ) (w : Waiting)
    → 0 < return_threshold
    → 0 < rpc_count
    → 0 < capacity
    → Moves (lowered return_threshold rpc_count) rpc_count capacity (wait_start rpc_count) w
    → 0 < left_over w
    → (v : Waiting) × Move (lowered return_threshold rpc_count) rpc_count capacity w v
wait_progress rt n c w h k room ms todo =
    let f = reached rt n c w h k ms in
    by_buffer w.buffered refl w.running refl w.phase refl f.phased f.all (lowered_range rt n h k).1
  where
    by_consumers :
        (b j m : ℕ)
        → w.buffered ≡ suc b
        → w.consumers ≡ m
        → 0 < m
        → (v : Waiting) × Move (lowered rt n) n c w v
    by_consumers b j zero e ce pos_m = absurd (omega (arith, pos_m))
    by_consumers b j (suc m) e ce pos_m = (_, consumer_receives w m b ce e)

    by_phase :
        (b : ℕ) (p : Phase)
        → w.buffered ≡ suc b
        → w.phase ≡ p
        → PhaseFits (lowered rt n) n w p
        → (v : Waiting) × Move (lowered rt n) n c w v
    by_phase b first_loop e pe h = (_, first_receives w b pe e)
    by_phase b (second_loop (suc k)) e pe h = (_, second_receives w k b pe e)
    by_phase b (second_loop zero) e pe h =
        by_consumers b 0 w.consumers e refl (omega (arith, h.0, e))

    by_buffer :
        (b : ℕ)
        → w.buffered ≡ b
        → (r : ℕ) → w.running ≡ r
        → (p : Phase) → w.phase ≡ p
        → PhaseFits (lowered rt n) n w p
        → w.put_prov_done + w.buffered + w.running ≡ n
        → lowered rt n ≤ n
        → (v : Waiting) × Move (lowered rt n) n c w v
    by_buffer (suc b) be r re p pe h all le = by_phase b p be pe h
    by_buffer zero be (suc r) re p pe h all le = (_, rpc_sends w r re (omega (arith, be, room)))
    by_buffer zero be zero re first_loop pe h all le = absurd (omega (arith, be, re, h.1, all, le))
    by_buffer zero be zero re (second_loop (suc k)) pe h all le =
        absurd (omega (arith, be, re, h.0))
    by_buffer zero be zero re (second_loop zero) pe h all le =
        absurd (omega (arith, be, re, h.0, ap rounds pe, todo))

-- With at least one RPC issued and a threshold that is not 0: in each state that waitForRPCs, its consumers
-- and the RPCs reach, each RPC is running, in the channel or counted; each lease is one consumer's; and
-- doneChan is open, or it was closed once, and then nobody has anything left to do, so that there is no
-- send on the closed channel and no second close.
pub wait_closes_once :
    (return_threshold rpc_count capacity : ℕ) (w : Waiting)
    → 0 < return_threshold
    → 0 < rpc_count
    → Moves (lowered return_threshold rpc_count) rpc_count capacity (wait_start rpc_count) w
    → (w.put_prov_done + w.buffered + w.running ≡ rpc_count)
      × (w.leases ≡ w.consumers)
      × ((w.closes ≡ 0) ⊎ ((w.closes ≡ 1) × (left_over w ≡ 0)))
wait_closes_once rt n c w h k ms =
    let f = reached rt n c w h k ms in (f.all, f.leased, by_phase w.phase refl f.phased f.all)
  where
    by_phase :
        (p : Phase)
        → w.phase ≡ p
        → PhaseFits (lowered rt n) n w p
        → w.put_prov_done + w.buffered + w.running ≡ n
        → (w.closes ≡ 0) ⊎ ((w.closes ≡ 1) × (left_over w ≡ 0))
    by_phase first_loop pe h all = inl h.2
    by_phase (second_loop k) pe h all =
        elim (Bool-cases (ltb (lowered rt n) n && (w.put_prov_done == n))) [
          | inr e ↦ inl (h.2 ∙ ap (λ b. if b then 1 else 0) e)
          | inl e ↦ inr (
            h.2 ∙ ap (λ b. if b then 1 else 0) e,
            (let same : w.put_prov_done ≡ n = ground arith in
                omega (arith, h.0, all, same, ap rounds pe)),
          )
        ]

none_issued :
    (t c : ℕ) (w v : Waiting)
    → w.phase ≡ first_loop
    → w.running ≡ 0
    → w.buffered ≡ 0
    → w.consumers ≡ 0
    → Moves t 0 c w v
    → v.phase ≡ first_loop
none_issued t c w _ p r b k (no_move _) = p
none_issued t c w v p r b k (first_move _ _ _ (rpc_sends _ j e room) more) =
    absurd (omega (arith, r, e))
none_issued t c w v p r b k (first_move _ _ _ (first_receives _ j pe e) more) =
    absurd (omega (arith, b, e))
none_issued t c w v p r b k (first_move _ _ _ (lease_had _ j pe) more) = absurd (cc)
none_issued t c w v p r b k (first_move _ _ _ (second_receives _ j i pe e) more) =
    absurd (omega (arith, b, e))
none_issued t c w v p r b k (first_move _ _ _ (consumer_receives _ j i ke e) more) =
    absurd (omega (arith, b, e))

-- When no RPC was issued, waitForRPCs never leaves its first loop.
pub wait_blocks :
    (return_threshold capacity : ℕ) (w : Waiting)
    → Moves (lowered return_threshold 0) 0 capacity (wait_start 0) w
    → w.phase ≡ first_loop
unfolding wait_start
wait_blocks rt c w ms = none_issued (lowered rt 0) c (wait_start 0) w refl refl refl refl ms
