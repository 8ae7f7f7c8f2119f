-- ===== src/Fullrt/Waiting.antt =====
-- execOnMany of fullrt/dht.go: how long it waits, and what it returns.
use go_libp2p_kad_dht.Prelude.{
  ℕ, ◌==◌, ◌+◌, ◌≤◌, ltb, leb, if◌then◌else◌, Option, some, List, [], ◌∷◌, Bool, true, false, ◌&&◌,
  not, ◌⊎◌, ◌≡◌, refl, ◌∙◌, inl, inr, arith, tally, Bool-cases, if_true, if_false, leb→le,
}
use go_libp2p_kad_dht.Fullrt.{
  Exec, ExecEvent, op_ended, tick, start_ticker, exec_step, exec_loop, exec_on_many, new_exec,
}

abbrev pub is_end : ExecEvent → Bool
is_end (op_ended b) = true
is_end tick = false

abbrev pub is_success : ExecEvent → Bool
is_success (op_ended b) = b
is_success tick = false

ticker_keeps :
    (w : ℕ) (s : Exec)
    → ((start_ticker w s).num_done ≡ s.num_done) × ((start_ticker w s).num_success ≡ s.num_success)
unfolding start_ticker
ticker_keeps w s = elim (Bool-cases (leb w s.num_success && not s.has_ticker)) [
  | inl e ↦ simp e (refl, refl)
  | inr e ↦ simp e (refl, refl)
]

abbrev bit : Bool → ℕ
bit b = if b then 1 else 0

either : (b : Bool) → (b ≡ false) ⊎ (b ≡ true)
either true = inr refl
either false = inl refl

-- A round counts its event; it never returns unless sloppy exits are allowed.
step_counts :
    (w n : ℕ) (sloppy : Bool) (s : Exec) (ev : ExecEvent)
    → ((exec_step w n sloppy s ev).1.num_done ≡ s.num_done + bit (is_end ev))
      × ((exec_step w n sloppy s ev).1.num_success ≡ s.num_success + bit (is_success ev))
      × (((exec_step w n sloppy s ev).0 ≡ false) ⊎ (sloppy ≡ true))
unfolding exec_step
step_counts w n sloppy s (op_ended false) = (refl, omega arith, inl refl)
step_counts w n sloppy s (op_ended true) =
    let counted = record s { num_done = s.num_done + 1; num_success = s.num_success + 1 } in
    let (d, c) = ticker_keeps w counted in
    let s' = start_ticker w counted in
    elim (Bool-cases (leb n (s'.num_success + s'.num_done))) [
      | inl e ↦ simp e (d, c, either sloppy)
      | inr e ↦ simp e (d, c, inl refl)
    ]
step_counts w n sloppy s tick = elim (Bool-cases s.has_ticker) [
  | inr t ↦ simp t (omega arith, omega arith, inl refl)
  | inl t ↦ elim (Bool-cases (ltb s.success_since_last_tick s.num_success)) [
    | inl e ↦ simp (t, e) (omega arith, omega arith, inl refl)
    | inr e ↦ simp (t, e) (omega arith, omega arith, either sloppy)
  ]
]

success-le-end : (evs : List ExecEvent) → tally is_success evs ≤ tally is_end evs
success-le-end [] = omega arith
success-le-end (op_ended b ∷ evs) = ground (arith, success-le-end evs)
success-le-end (tick ∷ evs) = omega (arith, success-le-end evs)

-- What the loop returns, given its state and the events to come.
record Returned (n : ℕ) (sloppy : Bool) (s : Exec) (evs : List ExecEvent) (o : Option ℕ)
    : Type 0 where
  result : ℕ
  returned : o ≡ some result
  enough : s.num_success ≤ result
  sound : result ≤ s.num_success + tally is_success evs
  exact :
      (sloppy ≡ true)
      ⊎ ((s.num_done + tally is_end evs ≡ n) → (result ≡ s.num_success + tally is_success evs))

loop_returns :
    (w n : ℕ) (sloppy : Bool) (s : Exec) (evs : List ExecEvent)
    → n ≤ s.num_done + tally is_end evs
    → Returned n sloppy s evs (exec_loop w n sloppy s evs)
unfolding exec_loop
loop_returns w n sloppy s [] h = record {
  result = s.num_success;
  returned = ground arith;
  enough = omega arith;
  sound = omega arith;
  exact = inr (λ e. omega arith);
}
loop_returns w n sloppy s (ev ∷ evs) h =
    let (d, c, may) = step_counts w n sloppy s ev in
    let s' = (exec_step w n sloppy s ev).1 in
    elim (Bool-cases (leb n s.num_done)) [
      | inl e ↦ simp e (record {
        result = s.num_success;
        returned = refl;
        enough = omega arith;
        sound = omega arith;
        exact = inr (λ all. omega (arith, success-le-end (ev ∷ evs), leb→le n s.num_done e));
      })
      | inr e ↦ elim (Bool-cases (exec_step w n sloppy s ev).0) [
        | inl stop ↦
            simp (e, stop)
              (record {
                result = s'.num_success;
                returned = refl;
                enough = ground (arith, c);
                sound = ground (arith, c);
                exact = elim may [
                  | inl never ↦ absurd (ground arith)
                  | inr is_sloppy ↦ inl is_sloppy
                ];
              })
        | inr on ↦
            let r = loop_returns w n sloppy s' evs (ground (arith, d)) in
            simp (e, on)
              (record {
                result = r.result;
                returned = r.returned;
                enough = ground (arith, c, r.enough);
                sound = ground (arith, c, r.sound);
                exact = elim r.exact [
                  | inl is_sloppy ↦ inl is_sloppy
                  | inr f ↦ inr (λ all. let got = f (ground (arith, d)) in ground (arith, c, got))
                ];
              })
      ]
    ]

-- When each of the n operations ends, successfully or not, execOnMany returns, wherever the ticks fall; it
-- never returns more than the number of successes, and exactly that number if it may not exit early.
pub exec_on_many_returns :
    (wait_for n : ℕ) (sloppy : Bool) (evs : List ExecEvent)
    → tally is_end evs ≡ n
    → (r : ℕ) × (exec_on_many wait_for n sloppy evs ≡ some r)
      × (r ≤ tally is_success evs)
      × ((sloppy ≡ true) ⊎ (r ≡ tally is_success evs))
unfolding exec_on_many
exec_on_many_returns w n sloppy evs h = elim (Bool-cases (n == 0)) [
  | inl z ↦ (0, if_true _ _ _ z, omega arith, inr (ground (arith, success-le-end evs)))
  | inr z ↦
      let r = loop_returns w n sloppy new_exec evs (omega arith) in
      (
        r.result,
        if_false _ _ _ z ∙ r.returned,
        omega (arith, r.sound),
        elim r.exact [
          | inl is_sloppy ↦ inl is_sloppy
          | inr f ↦ inr (omega (arith, f (omega arith)))
        ],
      )
]
