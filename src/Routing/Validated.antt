-- ===== src/Routing/Validated.antt =====
-- GetValue of routing.go: only values that the validator has accepted come out of a search.
use go_libp2p_kad_dht.Prelude.{
  ℕ, ◌==◌, ◌+◌, ◌&&◌, ltb, Option, none, some, List, [], ◌∷◌, ◌++◌, Bool, true, false, ◌≡◌, refl,
  inl, inr, arith, All, All-append, Bool-cases, Option-cases,
}
use go_libp2p_kad_dht.Prelude.Maps.{lookup}
use go_libp2p_kad_dht.Qpeerset.{PeerId}
use go_libp2p_kad_dht.Network.{AddrInfo}
use go_libp2p_kad_dht.Handlers.{
  Rec, Result, ok, err, Env, Datastore, usable, get_record_from_datastore,
}
use go_libp2p_kad_dht.Values.{
  RecvdVal, Search, new_search, check_quorum, new_val, take_best, selected, against_best,
  handle_value, Arrival, value, closed, context_ended, process_values,
}
use go_libp2p_kad_dht.Routing.{right_key_only, get_local, get_value_from, local_value}
use go_libp2p_kad_dht.Routing.Searching.{
  SearchEvent, answered, ended, arrive, arrivals_of, last_of, got, search_value, get_value,
}

module _ (valid : ℕ → Bool) where
  abbrev IsValidValue : ℕ → Type 0
  IsValidValue v = valid v ≡ true

  abbrev ArrivesValid : Arrival → Type 0
  ArrivesValid (value v delivered) = IsValidValue v.val
  ArrivesValid closed = Unit
  ArrivesValid context_ended = Unit

  check_quorum-out : (nvals : ℕ) (s : Search) → (check_quorum nvals s).out ≡ s.out
  unfolding check_quorum
  check_quorum-out nvals s = elim (Bool-cases (ltb 0 nvals && ltb nvals s.num_responses)) [
    | inl e ↦ rw e refl
    | inr e ↦ rw e refl
  ]

  new_val-valid :
      (nvals : ℕ) (s : Search) (v : RecvdVal) (better delivered : Bool)
      → IsValidValue v.val
      → All IsValidValue s.out
      → All IsValidValue (new_val nvals s v better delivered).out
  unfolding new_val
  new_val-valid nvals s v false delivered h a =
      rw (check_quorum-out nvals (record s { num_responses = s.num_responses + 1 })) a
  new_val-valid nvals s v true false h a = a
  new_val-valid nvals s v true true h a =
      rw
        (check_quorum-out nvals
          (record s { num_responses = s.num_responses + 1; out = s.out ++ v.val ∷ [] }))
        (All-append IsValidValue s.out (v.val ∷ []) a (h, tt))

  selected-valid :
      (nvals : ℕ) (s : Search) (v : RecvdVal) (delivered : Bool) (o : Option ℕ)
      → IsValidValue v.val
      → All IsValidValue s.out
      → All IsValidValue (selected nvals s v delivered o).out
  unfolding selected take_best
  selected-valid nvals s v delivered none h a = a
  selected-valid nvals s v delivered (some i) h a = elim (Bool-cases (i == 1)) [
    | inl e ↦ rw e (new_val-valid nvals _ v true delivered h a)
    | inr e ↦ rw e (new_val-valid nvals s v false delivered h a)
  ]

  against_best-valid :
      (sel : ℕ → ℕ → Option ℕ) (nvals : ℕ) (s : Search) (v : RecvdVal) (delivered : Bool)
      (o : Option ℕ)
      → IsValidValue v.val
      → All IsValidValue s.out
      → All IsValidValue (against_best sel nvals s v delivered o).out
  unfolding against_best take_best
  against_best-valid sel nvals s v delivered none h a = new_val-valid nvals _ v true delivered h a
  against_best-valid sel nvals s v delivered (some b) h a = elim (Bool-cases (b == v.val)) [
    | inl e ↦ rw e (new_val-valid nvals _ v false delivered h a)
    | inr e ↦ rw e (selected-valid nvals s v delivered (sel b v.val) h a)
  ]

  process_values-valid :
      (sel : ℕ → ℕ → Option ℕ) (nvals : ℕ) (s : Search) (events : List Arrival)
      → All ArrivesValid events
      → All IsValidValue s.out
      → All IsValidValue (process_values sel nvals s events).out
  unfolding process_values handle_value
  process_values-valid sel nvals s [] h a = a
  process_values-valid sel nvals s (closed ∷ rest) h a = a
  process_values-valid sel nvals s (context_ended ∷ rest) h a = a
  process_values-valid sel nvals s (value v delivered ∷ rest) h a =
      let s' = against_best sel nvals s v delivered s.best in
      let a' = against_best-valid sel nvals s v delivered s.best h.0 a in
      elim (Bool-cases s'.aborted) [
        | inl e ↦ simp e a'
        | inr e ↦ simp e (process_values-valid sel nvals s' rest h.1 a')
      ]

  arrive-valid :
      (o : Option (ℕ × PeerId)) (delivered : Bool) (rest : List Arrival)
      → ((v : ℕ) (p : PeerId) → o ≡ some (v, p) → IsValidValue v)
      → All ArrivesValid rest
      → All ArrivesValid (arrive o delivered rest)
  arrive-valid none delivered rest h a = a
  arrive-valid (some (v, p)) delivered rest h a = (h v p refl, a)

  emitted_valid :
      (nil_value : ℕ) (sent : Bool) (p : PeerId) (answer : Result (Option Rec × List AddrInfo))
      (v : ℕ) (q : PeerId)
      → (get_value_from valid nil_value sent p answer).emitted ≡ some (v, q)
      → IsValidValue v
  unfolding get_value_from
  emitted_valid nil_value sent p (err x) v q h = absurd (ground arith)
  emitted_valid nil_value sent p (ok (none, peers)) v q h = absurd (ground arith)
  emitted_valid nil_value sent p (ok (some rec, peers)) v q h = ground arith

  arrivals_of-valid :
      (nil_value : ℕ) (events : List SearchEvent)
      → All ArrivesValid (arrivals_of valid nil_value events)
  unfolding arrivals_of
  arrivals_of-valid nil_value [] = (tt, tt)
  arrivals_of-valid nil_value (ended ∷ events) = (tt, tt)
  arrivals_of-valid nil_value (answered p answer sent delivered ∷ events) =
      arrive-valid (get_value_from valid nil_value sent p answer).emitted delivered _
        (emitted_valid nil_value sent p answer) (arrivals_of-valid nil_value events)

  last_of-valid :
      (best : Option ℕ) (rs : List ℕ) (v : ℕ)
      → All IsValidValue rs
      → (best ≡ some v → IsValidValue v)
      → last_of best rs ≡ some v
      → IsValidValue v
  last_of-valid best [] v a h e = h e
  last_of-valid best (r ∷ rs) v a h e = last_of-valid (some r) rs v a.1 (λ f. ground (arith, a.0)) e

-- The local value is valid too: getLocal reads only valid records.
local_valid :
    (e : Env) (ds : Datastore) (self : PeerId) (key : ℕ) (sent : Bool) (v : ℕ) (q : PeerId)
    → local_value self sent (get_local e ds key) ≡ some (v, q)
    → e.valid key v ≡ true
unfolding local_value get_local get_record_from_datastore
local_valid e ds self key sent v q h = elim (Bool-cases (e.get_fails (e.ds_key key))) [
  | inl f ↦ absurd (let h' = (rw f at h) in ground arith)
  | inr f ↦ elim (Option-cases (lookup (e.ds_key key) ds)) [
    | inl n ↦ absurd (let h' = (rw (f, n) at h) in ground arith)
    | inr (b, n) ↦ elim (Option-cases (e.unmarshal b)) [
      | inl m ↦ absurd (let h' = (rw (f, n) at h) in let h2 = (rw m at h') in ground arith)
      | inr (rec, m) ↦ let h' = (rw (f, n) at h) in let h2 = (rw m at h') in of_record rec h2
    ]
  ]
]
  where
    of_record :
        (rec : Rec)
        → local_value self sent (right_key_only key (ok (usable e (some rec)))) ≡ some (v, q)
        → e.valid key v ≡ true
    of_record rec k = ground arith

-- What GetValue returns is valid for the key.
pub get_value_valid :
    (e : Env) (ds : Datastore) (self : PeerId) (nil_value key nvals : ℕ) (sent delivered : Bool)
    (events : List SearchEvent) (context_error : Bool) (v : ℕ)
    → get_value e ds self nil_value key nvals sent delivered events context_error ≡ got v
    → e.valid key v ≡ true
unfolding get_value search_value
get_value_valid e ds self nil_value key nvals sent delivered events true v h = absurd (ground arith)
get_value_valid e ds self nil_value key nvals sent delivered events false v h =
    let valid = e.valid key in
    let out =
      process_values-valid valid (e.select key) nvals new_search _
        (arrive-valid valid (local_value self sent (get_local e ds key)) delivered _
          (local_valid e ds self key sent) (arrivals_of-valid valid nil_value events))
        tt in
    last_of-valid valid none _ v out (λ f. absurd (ground arith)) (ground arith)
