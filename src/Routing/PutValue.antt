-- ===== src/Routing/PutValue.antt =====
-- PutValue of routing.go with getLocal and putLocal of dht.go: what it stores, and when it refuses.
use go_libp2p_kad_dht.Prelude.{
  ℕ, ◌==◌, Option, none, some, List, true, false, ◌≡◌, refl, ◌∙◌, ap, inl, inr, arith, Bool-cases,
  if_true, if_false,
}
use go_libp2p_kad_dht.Prelude.Maps.{lookup, insert, lookup-insert_self}
use go_libp2p_kad_dht.Qpeerset.{PeerId}
use go_libp2p_kad_dht.Handlers.{
  Rec, Result, ok, err, Env, Datastore, get_record_from_datastore, chosen, usable, read_record,
}
use go_libp2p_kad_dht.Handlers.Values.{IsCodec}
use go_libp2p_kad_dht.Routing.{
  right_key_only, get_local, put_bytes, put_local, may_replace, after_put, put_if, put_value,
}

-- What a successful PutValue has done.
pub record Put (e : Env) (now : ℕ) (ds ds' : Datastore) (key value : ℕ)
    (closest : Result (List PeerId)) (rec : Rec) (ps : List PeerId) : Type 0 where
  pub is_valid : e.valid key value ≡ true
  pub is_record : rec ≡ record { key = key; value = value; time_received = e.format_time now }
  pub may : may_replace e key value (get_local e ds key) ≡ ok tt
  pub bytes : ℕ
  pub encoded : e.marshal rec ≡ some bytes
  pub stored : ds' ≡ insert (e.ds_key key) bytes ds
  pub to_closest : closest ≡ ok ps

put_bytes_ok :
    (e : Env) (ds : Datastore) (k : ℕ) (o : Option ℕ) (u : Unit {0})
    → (put_bytes e ds k o).0 ≡ ok u
    → (b : ℕ) × (o ≡ some b) × ((put_bytes e ds k o).1 ≡ insert k b ds)
put_bytes_ok e ds k none u h = absurd (cc)
put_bytes_ok e ds k (some b) u h = elim (Bool-cases (e.put_fails k)) [
  | inl f ↦ absurd (let bad = simp f at h in cc)
  | inr f ↦ (b, refl, rw f refl)
]

after_put_ok :
    (closest : Result (List PeerId)) (rec rec' : Rec) (ps : List PeerId)
    (r : Result (Unit {0}) × Datastore)
    → (after_put closest rec r).0 ≡ ok (rec', ps)
    → (r.0 ≡ ok tt) × ((after_put closest rec r).1 ≡ r.1) × (closest ≡ ok ps) × (rec' ≡ rec)
after_put_ok closest rec rec' ps (err x, ds) h = absurd (cc)
after_put_ok (err x) rec rec' ps (ok u, ds) h = absurd (cc)
after_put_ok (ok qs) rec rec' ps (ok u, ds) h = (refl, refl, cc, cc)

put_if_ok :
    (e : Env) (ds : Datastore) (key : ℕ) (rec rec' : Rec) (closest : Result (List PeerId))
    (ps : List PeerId) (may : Result (Unit {0}))
    → (put_if e ds key rec closest may).0 ≡ ok (rec', ps)
    → (may ≡ ok tt)
      × (b : ℕ) × (e.marshal rec ≡ some b)
      × ((put_if e ds key rec closest may).1 ≡ insert (e.ds_key key) b ds)
      × (closest ≡ ok ps)
      × (rec' ≡ rec)
unfolding put_local
put_if_ok e ds key rec rec' closest ps (err x) h = absurd (cc)
put_if_ok e ds key rec rec' closest ps (ok u) h =
    let r = put_local e ds key rec in
    let (fine, same, to, is) = after_put_ok closest rec rec' ps r h in
    let (b, coded, put) = put_bytes_ok e ds (e.ds_key key) (e.marshal rec) tt fine in
    (refl, b, coded, same ∙ put, to, is)

put_value-Put :
    (e : Env) (now : ℕ) (ds : Datastore) (key value : ℕ) (closest : Result (List PeerId))
    (rec : Rec) (ps : List PeerId)
    → (put_value e now ds key value closest).0 ≡ ok (rec, ps)
    → Put e now ds (put_value e now ds key value closest).1 key value closest rec ps
unfolding put_value
put_value-Put e now ds key value closest rec ps h = elim (Bool-cases (e.valid key value)) [
  | inr v ↦ absurd (let bad = simp v at h in cc)
  | inl v ↦
      let rec' : Rec = record { key = key; value = value; time_received = e.format_time now } in
      let (may, b, coded, put, to, is) =
        put_if_ok e ds key rec' rec closest ps (may_replace e key value (get_local e ds key))
          (simp v at h) in
      rw v (record {
        is_valid = v;
        is_record = is;
        may = may;
        bytes = b;
        encoded = ap e.marshal is ∙ coded;
        stored = put;
        to_closest = to;
      })
]

-- A value that may replace what is there is the same value, or Select prefers it.
pub data Preferred (e : Env) (key value : ℕ) : Option Rec → Type 0 where
  none_before : Preferred e key value none
  same_value : (old : Rec) → old.value ≡ value → Preferred e key value (some old)
  better : (old : Rec) → e.select key value old.value ≡ some 0 → Preferred e key value (some old)

chosen_ok : (o : Option ℕ) (u : Unit {0}) → chosen o ≡ ok u → o ≡ some 0
chosen_ok none u h = absurd (cc)
chosen_ok (some i) u h = elim (Bool-cases (i == 0)) [
  | inl e ↦ let z : i ≡ 0 = ground arith in ap some z
  | inr e ↦ absurd (let bad = simp e at h in cc)
]

may_replace-Preferred :
    (e : Env) (key value : ℕ) (r : Result (Option Rec))
    → may_replace e key value r ≡ ok tt
    → (o : Option Rec) × (r ≡ ok o) × Preferred e key value o
may_replace-Preferred e key value (err x) h = absurd (cc)
may_replace-Preferred e key value (ok none) h = (none, refl, none_before)
may_replace-Preferred e key value (ok (some old)) h = elim (Bool-cases (old.value == value)) [
  | inl q ↦ (some old, refl, same_value old (ground arith))
  | inr q ↦ (some old, refl, better old (chosen_ok _ tt (simp q at h)))
]

-- When PutValue succeeds, the value is valid, and there was no usable record of the key in the datastore, or
-- one with the same value, or one that Select puts behind it; the peers that are sent the record are those
-- of GetClosestPeers; and getLocal then yields the record, with the value and the time of the call, if the
-- datastore can be read and the codec reads back what it wrote.
pub put_value-get_local :
    (e : Env) (now : ℕ) (ds : Datastore) (key value : ℕ) (closest : Result (List PeerId))
    (rec : Rec) (ps : List PeerId)
    → IsCodec e
    → e.get_fails (e.ds_key key) ≡ false
    → (put_value e now ds key value closest).0 ≡ ok (rec, ps)
    → (e.valid key value ≡ true)
      × ((o : Option Rec) × (get_local e ds key ≡ ok o) × Preferred e key value o)
      × (closest ≡ ok ps)
      × (rec ≡ record { key = key; value = value; time_received = e.format_time now })
      × (get_local e (put_value e now ds key value closest).1 key ≡ ok (some rec))
unfolding get_local get_record_from_datastore
put_value-get_local e now ds key value closest rec ps codec reads h =
    let p = put_value-Put e now ds key value closest rec ps h in
    let ds' = (put_value e now ds key value closest).1 in
    let found : lookup (e.ds_key key) ds' ≡ some p.bytes =
      ap (lookup (e.ds_key key)) p.stored ∙ lookup-insert_self ds (e.ds_key key) p.bytes in
    let right_key : rec.key ≡ key = ap (λ (r : Rec). r.key) p.is_record in
    let right_value : rec.value ≡ value = ap (λ (r : Rec). r.value) p.is_record in
    let usable_now : usable e (some rec) ≡ some rec =
      if_true (e.valid rec.key rec.value) (some rec) none
        (ap (λ k. e.valid k rec.value) right_key ∙ (ap (e.valid key) right_value ∙ p.is_valid)) in
    let read : read_record e (lookup (e.ds_key key) ds') ≡ some rec =
      ap (read_record e) found ∙ (ap (usable e) (codec.0 rec p.bytes p.encoded) ∙ usable_now) in
    (
      p.is_valid,
      may_replace-Preferred e key value (get_local e ds key) p.may,
      p.to_closest,
      p.is_record,
      (ap (right_key_only key) (if_false (e.get_fails (e.ds_key key)) _ _ reads)
            ∙ ap (λ o. right_key_only key (ok o)) read)
          ∙ if_true (rec.key == key) (ok (some rec)) (ok none) (ground arith),
    )
