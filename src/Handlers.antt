-- ===== src/Handlers.antt =====
-- handlers.go: what a node answers to GET_VALUE and PUT_VALUE, with its datastore. Byte strings (keys,
-- values, stored records, times) are read as numbers. The codec, the clock, the validator and the
-- datastore's faults are the environment's. The lock of the key makes a PUT_VALUE one step.
pub mod Values
pub mod GetValue
pub mod Peers
pub mod Closer
mod Tests
use go_libp2p_kad_dht.Prelude.{
  ℕ, ◌==◌, ◌-◌, ltb, if◌then◌else◌, Option, none, some, List, [], ◌∷◌, ◌++◌, Bool, true, false,
  ◌&&◌, ◌||◌, not,
}
use go_libp2p_kad_dht.Prelude.Maps.{lookup, insert, delete}
use go_libp2p_kad_dht.Qpeerset.{PeerId}
use go_libp2p_kad_dht.Network.{AddrInfo}

-- recpb.Record
pub record Rec : Type 0 where
  pub key : ℕ
  pub value : ℕ
  pub time_received : ℕ

pub data MessageType : Type 0 where
  put_value get_value add_provider get_providers find_node ping : MessageType

-- pb.Message
pub record Message : Type 0 where
  pub type : MessageType
  pub key : ℕ
  pub cluster_level : ℕ
  pub rec : Option Rec
  pub closer_peers : List AddrInfo
  pub provider_peers : List AddrInfo

-- NewMessage of pb/message.go.
abbrev pub new_message : MessageType → ℕ → ℕ → Message
new_message type key level = record {
  type = type;
  key = key;
  cluster_level = level;
  rec = none;
  closer_peers = [];
  provider_peers = [];
}

pub data Error : Type 0 where
  no_key nil_record key_mismatch invalid_record datastore_fault select_failed old_record bad_data :
      Error
  key_too_large no_valid_provider provider_store_fault marshal_failed : Error

pub data Result {ℓ} (A : Type ℓ) : Type ℓ where
  ok : A → Result A
  err : Error → Result A

-- What these handlers take from other code. `length` is the length of a byte string, `ds_key` the
-- datastore's key of a record key; `valid` is Validator.Validate, `select` Validator.Select of two values.
-- Times are nanoseconds, and `empty_time` is the empty text.
pub record Env : Type 0 where
  pub length : ℕ → ℕ
  pub ds_key : ℕ → ℕ
  pub marshal : Rec → Option ℕ
  pub unmarshal : ℕ → Option Rec
  pub valid : ℕ → ℕ → Bool
  pub select : ℕ → ℕ → ℕ → Option ℕ
  pub parse_time : ℕ → Option ℕ
  pub format_time : ℕ → ℕ
  pub empty_time : ℕ
  pub max_record_age : ℕ
  pub get_fails : ℕ → Bool
  pub put_fails : ℕ → Bool
  pub delete_fails : ℕ → Bool

abbrev pub Datastore : Type 0
Datastore = List (ℕ × ℕ)

-- A record that is too old, or has no receive time that parses.
abbrev pub is_bad : Env → ℕ → Option ℕ → Bool
is_bad e now none = true
is_bad e now (some t) = ltb e.max_record_age (now - t)

abbrev pub tossed : Env → Datastore → ℕ → Datastore
tossed e ds k = if e.delete_fails k then ds else delete k ds

unfoldable pub check_unmarshalled :
    Env → ℕ → Datastore → ℕ → Option Rec → Result (Option Rec) × Datastore
check_unmarshalled e now ds k none = (err bad_data, ds)
check_unmarshalled e now ds k (some rec) =
    if is_bad e now (e.parse_time rec.time_received)
    then (ok none, tossed e ds k)
    else (ok (some rec), ds)

unfoldable pub check_found : Env → ℕ → Datastore → ℕ → Option ℕ → Result (Option Rec) × Datastore
check_found e now ds k none = (ok none, ds)
check_found e now ds k (some buf) = check_unmarshalled e now ds k (e.unmarshal buf)

unfoldable pub check_local_datastore : Env → ℕ → Datastore → ℕ → Result (Option Rec) × Datastore
check_local_datastore e now ds key =
    if e.get_fails (e.ds_key key)
    then (err datastore_fault, ds)
    else check_found e now ds (e.ds_key key) (lookup (e.ds_key key) ds)

-- The response to GET_VALUE; `closer` is what betterPeersToQuery and the peerstore yield.
unfoldable pub answer_get_value : Message → List AddrInfo → Result (Option Rec) → Result Message
answer_get_value msg closer (err x) = err x
answer_get_value msg closer (ok r) =
    ok (record (new_message msg.type msg.key msg.cluster_level) { rec = r; closer_peers = closer })

unfoldable pub handle_get_value :
    Env → ℕ → Datastore → Message → List AddrInfo → Result Message × Datastore
handle_get_value e now ds msg closer =
    if e.length msg.key == 0
    then (err no_key, ds)
    else (let (r, ds') = check_local_datastore e now ds msg.key in
        (answer_get_value msg closer r, ds'))

-- A record that does not unmarshal, or is not valid, counts as none.
abbrev pub usable : Env → Option Rec → Option Rec
usable e none = none
usable e (some rec) = if e.valid rec.key rec.value then some rec else none

abbrev pub read_record : Env → Option ℕ → Option Rec
read_record e none = none
read_record e (some buf) = usable e (e.unmarshal buf)

unfoldable pub get_record_from_datastore : Env → Datastore → ℕ → Result (Option Rec)
get_record_from_datastore e ds k =
    if e.get_fails k then err datastore_fault else ok (read_record e (lookup k ds))

-- `i != 0` is the older record.
abbrev pub chosen : Option ℕ → Result (Unit {0})
chosen none = err select_failed
chosen (some i) = if i == 0 then ok tt else err old_record

abbrev pub beats : Env → Rec → Result (Option Rec) → Result (Unit {0})
beats e rec (err x) = err x
beats e rec (ok none) = ok tt
beats e rec (ok (some existing)) = chosen (e.select rec.key rec.value existing.value)

abbrev pub store : Env → Datastore → Message → ℕ → Option ℕ → Result Message × Datastore
store e ds msg k none = (err marshal_failed, ds)
store e ds msg k (some bytes) =
    if e.put_fails k then (err datastore_fault, ds) else (ok msg, insert k bytes ds)

-- The record with the time of its receipt, which is also what the answer holds.
abbrev pub stamped : Env → ℕ → Rec → Rec
stamped e now rec = record rec { time_received = e.format_time now }

unfoldable pub put_checked :
    Env → ℕ → Datastore → Message → Rec → Result (Unit {0}) → Result Message × Datastore
put_checked e now ds msg rec (err x) = (err x, ds)
put_checked e now ds msg rec (ok u) =
    store e ds (record msg { rec = some (stamped e now rec) }) (e.ds_key rec.key)
      (e.marshal (stamped e now rec))

unfoldable pub put_record : Env → ℕ → Datastore → Message → Option Rec → Result Message × Datastore
put_record e now ds msg none = (err nil_record, ds)
put_record e now ds msg (some rec) =
    if msg.key == rec.key
    then if e.valid rec.key rec.value
      then put_checked e now ds msg rec
          (beats e rec (get_record_from_datastore e ds (e.ds_key rec.key)))
      else (err invalid_record, ds)
    else (err key_mismatch, ds)

unfoldable pub handle_put_value : Env → ℕ → Datastore → Message → Result Message × Datastore
handle_put_value e now ds msg =
    if e.length msg.key == 0 then (err no_key, ds) else put_record e now ds msg msg.rec
