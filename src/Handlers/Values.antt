-- ===== src/Handlers/Values.antt =====
-- What PUT_VALUE and GET_VALUE of handlers.go do to the datastore.
use go_libp2p_kad_dht.Prelude.{
  ℕ, ◌==◌, ◌-◌, ◌≤◌, ltb, Option, none, some, true, false, ◌≡◌, refl, ◌⊎◌, inl, inr, arith,
  Bool-cases, Option-cases, if_true, if_false, ==_iff, sym, ap, ◌∙◌,
}
use go_libp2p_kad_dht.Prelude.Maps.{lookup, insert, lookup-insert}
use go_libp2p_kad_dht.Handlers.{
  Rec, Message, Error, no_key, Result, ok, err, Env, Datastore, check_unmarshalled, check_found,
  check_local_datastore, read_record, get_record_from_datastore, beats, stamped, put_checked,
  put_record, handle_put_value,
}

-- The message carried a valid record of its own key, which Select prefers to the usable record stored
-- before, if there was one; and that record is stored, stamped with the time.
pub record Accepted (e : Env) (now : ℕ) (ds ds' : Datastore) (msg : Message) : Type 0 where
  pub put : Rec
  pub carried : msg.rec ≡ some put
  pub key_right : put.key ≡ msg.key
  pub is_valid : e.valid put.key put.value ≡ true
  pub preferred :
      (old : Rec)
      → read_record e (lookup (e.ds_key msg.key) ds) ≡ some old
      → e.select put.key put.value old.value ≡ some 0
  pub bytes : ℕ
  pub encoded : e.marshal (stamped e now put) ≡ some bytes
  pub stored : ds' ≡ insert (e.ds_key msg.key) bytes ds

beats_ok :
    (e : Env) (ds : Datastore) (rec : Rec) (k : ℕ) {u : Unit {0}}
    → beats e rec (get_record_from_datastore e ds k) ≡ ok u
    → (old : Rec) → read_record e (lookup k ds) ≡ some old
    → e.select rec.key rec.value old.value ≡ some 0
unfolding get_record_from_datastore
beats_ok e ds rec k h old f = elim (Bool-cases (e.get_fails k)) [
  | inl g ↦ absurd (ground arith)
  | inr g ↦ ground arith
]

Result-cases {ℓ} :
    {A : Type ℓ} (r : Result A) → ((x : Error) × (r ≡ err x)) ⊎ ((a : A) × (r ≡ ok a))
Result-cases (ok a) = inr (a, refl)
Result-cases (err x) = inl (x, refl)

put_record-Accepted :
    (e : Env) (now : ℕ) (ds : Datastore) (msg : Message) (r : Option Rec) {out : Message}
    → msg.rec ≡ r
    → (put_record e now ds msg r).0 ≡ ok out
    → Accepted e now ds (put_record e now ds msg r).1 msg
unfolding put_record put_checked
put_record-Accepted e now ds msg none c h = absurd (ground arith)
put_record-Accepted e now ds msg (some put) c h =
    let k = e.ds_key put.key in
    let b = beats e put (get_record_from_datastore e ds k) in
    elim (Bool-cases (msg.key == put.key)) [
      | inr f ↦ absurd (ground arith)
      | inl same ↦ elim (Bool-cases (e.valid put.key put.value)) [
        | inr f ↦ absurd (ground arith)
        | inl v ↦ elim (Result-cases b) [
          | inl (x, f) ↦ absurd (let h' = (rw (same, v, f) at h) in ground arith)
          | inr (u, wins) ↦ elim (Option-cases (e.marshal (stamped e now put))) [
            | inl f ↦ absurd (let h' = (rw (same, v, wins) at h) in ground arith)
            | inr (bytes, m) ↦ elim (Bool-cases (e.put_fails k)) [
              | inl f ↦ absurd (let h' = (rw (same, v, wins) at h) in ground arith)
              | inr f ↦
                  let eq : msg.key ≡ put.key = (==_iff msg.key put.key).0 same in
                  record {
                    put = put;
                    carried = c;
                    key_right = sym eq;
                    is_valid = v;
                    preferred = λ old o. beats_ok e ds put k wins old (rw eq at o);
                    bytes = bytes;
                    encoded = m;
                    stored = rw (same, v, wins, put_checked) (rw (m, f, eq));
                  }
            ]
          ]
        ]
      ]
    ]

-- A PUT_VALUE that is accepted carried a valid record of the message's own key, which Select preferred to
-- the usable record stored before, if there was one; and it stores that record, stamped with the time.
pub handle_put_value-Accepted :
    (e : Env) (now : ℕ) (ds : Datastore) (msg : Message) {out : Message}
    → (handle_put_value e now ds msg).0 ≡ ok out
    → Accepted e now ds (handle_put_value e now ds msg).1 msg
unfolding handle_put_value
handle_put_value-Accepted e now ds msg {out} h = elim (Bool-cases (e.length msg.key == 0)) [
  | inl z ↦ absurd (ground arith)
  | inr z ↦
      rw (if_false (e.length msg.key == 0) (err no_key, ds) (put_record e now ds msg msg.rec) z)
        (put_record-Accepted e now ds msg msg.rec {out = out} refl (ground arith))
]

-- A PUT_VALUE that is refused, for whatever reason, leaves the datastore as it was.
pub handle_put_value_refused :
    (e : Env) (now : ℕ) (ds : Datastore) (msg : Message) {x : Error}
    → (handle_put_value e now ds msg).0 ≡ err x
    → (handle_put_value e now ds msg).1 ≡ ds
unfolding handle_put_value put_record put_checked
handle_put_value_refused e now ds msg h = ground arith

-- The codec reads back what it wrote, and so does the text form of a time.
abbrev pub IsCodec : Env → Type 0
IsCodec e =
    ((r : Rec) (b : ℕ) → e.marshal r ≡ some b → e.unmarshal b ≡ some r)
    × ((t : ℕ) → e.parse_time (e.format_time t) ≡ some t)

-- A GET_VALUE lookup after an accepted PUT_VALUE of the same key yields the record that was put, stamped
-- with the time of its receipt, as long as it is no older than the maximal record age and the datastore
-- can be read.
pub check_local_datastore-handle_put_value :
    (e : Env) (now later : ℕ) (ds : Datastore) (msg : Message) {out : Message}
    → IsCodec e
    → (handle_put_value e now ds msg).0 ≡ ok out
    → e.get_fails (e.ds_key msg.key) ≡ false
    → later - now ≤ e.max_record_age
    → let ds' = (handle_put_value e now ds msg).1 in
      (rec : Rec) × (msg.rec ≡ some rec)
      × (check_local_datastore e later ds' msg.key ≡ (ok (some (stamped e now rec)), ds'))
unfolding check_local_datastore check_found check_unmarshalled
check_local_datastore-handle_put_value e now later ds msg {out} codec h readable fresh =
    let a = handle_put_value-Accepted e now ds msg {out = out} h in
    let k = e.ds_key msg.key in
    let ds' = (handle_put_value e now ds msg).1 in
    let found : lookup k ds' ≡ some a.bytes =
      ap (lookup k) a.stored
      ∙ (lookup-insert ds k a.bytes k ∙ if_true (k == k) _ _ (ground arith)) in
    let time : ltb e.max_record_age (later - now) ≡ false = ground arith in
    (
      a.put,
      a.carried,
      rw (readable, found)
          (rw (codec.0 (stamped e now a.put) a.bytes a.encoded) (rw (codec.1 now) (rw time))),
    )
