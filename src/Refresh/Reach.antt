-- ===== src/Refresh/Reach.antt =====
-- rtrefresh/rt_refresh_manager.go: which cpls one refresh attempts, and whom it tells.
use go_libp2p_kad_dht.Prelude.{
  ℕ, zero, suc, ◌+◌, ◌-◌, ◌*◌, ◌≤◌, min, if◌then◌else◌, Option, none, some, List, [], ◌∷◌, ◌++◌,
  Bool, true, false, ◌&&◌, ◌||◌, ◌≡◌, refl, ◌∙◌, ap, inl, inr, arith, length, take, length-take,
  subst, not, Bool-cases,
}
use go_libp2p_kad_dht.Refresh.{
  Env, is_nil, RefreshError, refresh_range, is_gap, last_cpl, refresh_from, do_refresh, refresh_one,
  query_for_self,
}

-- n numbers, from c on.
abbrev pub range_from : ℕ → ℕ → List ℕ
range_from c zero = []
range_from c (suc n) = c ∷ range_from (suc c) n

-- The first cpl, from c on, whose refresh succeeds and which has no peers then.
abbrev pub first_gap : Env → Bool → ℕ → List ℕ → Option ℕ
first_gap e force c [] = none
first_gap e force c (age ∷ ages) =
    if is_gap e force c age then some c else first_gap e force (suc c) ages

-- How many cpls are attempted.
abbrev pub reach : ℕ → Option ℕ → ℕ
reach total none = total
reach total (some g) = min (2 * (g + 1)) (total - 1) + 1

abbrev pub is_none : Option ℕ → Bool
is_none none = true
is_none (some g) = false

range-attempts :
    (e : Env) (force : Bool) (i : ℕ) (ages : List ℕ)
    → (refresh_range e force i ages).attempted ≡ range_from i (length ages)
unfolding refresh_range
range-attempts e force i [] = refl
range-attempts e force i (age ∷ ages) = ap (λ l. i ∷ l) (range-attempts e force (suc i) ages)

gap_beyond :
    (e : Env) (force : Bool) (c : ℕ) (ages : List ℕ)
    → c ≤ reach (c + length ages) (first_gap e force c ages)
gap_beyond e force c [] = omega arith
gap_beyond e force c (age ∷ ages) =
    let more : suc c + length ages ≡ c + suc (length ages) = omega arith in
    let ih = gap_beyond e force (suc c) ages in
    elim (Bool-cases (is_gap e force c age)) [
      | inl h ↦ rw h (omega arith)
      | inr h ↦ rw (h, ← more) (omega (arith, ih))
    ]

gap_beyond_total :
    (e : Env) (force : Bool) (total c age : ℕ) (ages : List ℕ)
    → total ≡ c + length (age ∷ ages)
    → suc c ≤ reach total (first_gap e force (suc c) ages)
gap_beyond_total e force total c age ages t =
    let same : suc c + length ages ≡ total = omega arith in
    subst (λ n. suc c ≤ reach n (first_gap e force (suc c) ages)) same
      (gap_beyond e force (suc c) ages)

refresh_from-reach :
    (e : Env) (force sent : Bool) (total c : ℕ) (errs : List RefreshError) (ages : List ℕ)
    → total ≡ c + length ages
    → ((refresh_from e force sent total c errs ages).attempted
        ≡ range_from c (reach total (first_gap e force c ages) - c))
      × ((refresh_from e force sent total c errs ages).done
          ≡ (sent && is_none (first_gap e force c ages)))
unfolding refresh_from
refresh_from-reach e force sent total c errs [] t =
    let none_left : 0 ≡ total - c = omega arith in (ap (range_from c) none_left, ground arith)
refresh_from-reach e force sent total c errs (age ∷ ages) t =
    elim (Bool-cases (is_gap e force c age)) [
      | inl h ↦
          let cut = take (last_cpl total c - c) ages in
          let count : suc (length cut) ≡ reach total (some c) - c =
            omega (arith, length-take (last_cpl total c - c) ages) in
          rw h (
            ap (λ l. c ∷ l) (range-attempts e force (suc c) cut) ∙ ap (range_from c) count,
            ground arith,
          )
      | inr h ↦
          let merr = errs ++ refresh_one e force c age in
          let (a, d) = refresh_from-reach e force sent total (suc c) merr ages (omega arith) in
          let far = gap_beyond_total e force total c age ages t in
          let count : suc (reach total (first_gap e force (suc c) ages) - suc c)
              ≡ reach total (first_gap e force (suc c) ages) - c =
            omega (arith, far) in
          rw h (ap (λ l. c ∷ l) a ∙ ap (range_from c) count, d)
    ]

-- A refresh attempts the tracked cpls from 0 on without a hole: all of them if no cpl whose refresh
-- succeeds is without peers, and otherwise, with g the first such cpl, those up to 2 * (g + 1). It
-- reports that it is done only in the first case, if the message gets through before the context ends.
pub do_refresh-reach :
    (e : Env) (force sent : Bool) (ages : List ℕ)
    → let gap = first_gap e force 0 ages in
      ((do_refresh e force sent ages).attempted ≡ range_from 0 (reach (length ages) gap))
      × ((do_refresh e force sent ages).done ≡ (sent && is_none gap))
unfolding do_refresh
do_refresh-reach e force sent ages =
    let n = reach (length ages) (first_gap e force 0 ages) in
    let whole : n - 0 ≡ n = omega arith in
    let (a, d) =
      refresh_from-reach e force sent (length ages) 0 (query_for_self e) ages (omega arith) in
    (a ∙ ap (range_from 0) whole, d)

-- The refreshes of these cpls, from c on, all succeed.
abbrev pub all_succeed : Env → Bool → ℕ → List ℕ → Bool
all_succeed e force c [] = true
all_succeed e force c (age ∷ ages) =
    is_nil (refresh_one e force c age) && all_succeed e force (suc c) ages

is_nil-append : (xs ys : List RefreshError) → is_nil (xs ++ ys) ≡ (is_nil xs && is_nil ys)
is_nil-append [] ys = refl
is_nil-append (x ∷ xs) ys = refl

range_nil :
    (e : Env) (force : Bool) (i : ℕ) (ages : List ℕ)
    → is_nil (refresh_range e force i ages).errors ≡ all_succeed e force i ages
unfolding refresh_range
range_nil e force i [] = refl
range_nil e force i (age ∷ ages) =
    is_nil-append (refresh_one e force i age) (refresh_range e force (suc i) ages).errors
    ∙ ap (λ b. is_nil (refresh_one e force i age) && b) (range_nil e force (suc i) ages)

none_succeed : (e : Env) (force : Bool) (c n : ℕ) → all_succeed e force c (take n []) ≡ true
none_succeed e force c zero = refl
none_succeed e force c (suc n) = refl

refresh_from_nil :
    (e : Env) (force sent : Bool) (total c : ℕ) (errs : List RefreshError) (ages : List ℕ)
    → total ≡ c + length ages
    → let gap = first_gap e force c ages in
      is_nil (refresh_from e force sent total c errs ages).errors ≡ (
        is_nil errs
        && (all_succeed e force c (take (reach total gap - c) ages) && (sent || not (is_none gap))))
unfolding refresh_from
refresh_from_nil e force sent total c errs [] t =
    rw (none_succeed e force c (total - c)) (ground arith)
refresh_from_nil e force sent total c errs (age ∷ ages) t =
    let one = refresh_one e force c age in
    elim (Bool-cases (is_gap e force c age)) [
      | inl h ↦
          let cut = take (last_cpl total c - c) ages in
          let count : reach total (some c) - c ≡ suc (last_cpl total c - c) = omega arith in
          rw (h, count)
            (ground (
              arith,
              is_nil-append (errs ++ one) (refresh_range e force (suc c) cut).errors,
              is_nil-append errs one,
              range_nil e force (suc c) cut,
            ))
      | inr h ↦
          let gap = first_gap e force (suc c) ages in
          let far = gap_beyond_total e force total c age ages t in
          let count : reach total gap - c ≡ suc (reach total gap - suc c) = omega (arith, far) in
          rw (h, count)
            (ground (
              arith,
              refresh_from_nil e force sent total (suc c) (errs ++ one) ages (omega arith),
              is_nil-append errs one,
            ))
    ]

-- A refresh returns no error exactly when the query for this node itself succeeds, every refresh that it
-- attempts does, and, unless it ended at a cpl without peers, its message gets through before the context
-- ends.
pub do_refresh_nil :
    (e : Env) (force sent : Bool) (ages : List ℕ)
    → let gap = first_gap e force 0 ages in
      is_nil (do_refresh e force sent ages).errors ≡ (
        is_nil (query_for_self e)
        && (all_succeed e force 0 (take (reach (length ages) gap) ages)
            && (sent || not (is_none gap))))
unfolding do_refresh
do_refresh_nil e force sent ages =
    let gap = first_gap e force 0 ages in
    let n = reach (length ages) gap in
    let whole : n - 0 ≡ n = omega arith in
    refresh_from_nil e force sent (length ages) 0 (query_for_self e) ages (omega arith)
    ∙ ap
        (λ m.
          is_nil (query_for_self e)
          && (all_succeed e force 0 (take m ages) && (sent || not (is_none gap))))
        whole
