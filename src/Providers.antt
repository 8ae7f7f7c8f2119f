-- ===== src/Providers.antt =====
-- records/providers_manager.go and records/provider_set.go: the provider store. Its state is what the
-- goroutine of `run` owns; one function per case of its select. Strings and byte strings are numbers;
-- times are nanoseconds, and `now - t` stops at 0 where `now.Sub(t)` is negative, which no comparison here
-- tells apart. The LRU cache may drop a key at any time, which is an event of its own.
pub mod Sets
pub mod Loads
pub mod RoundTrip
pub mod Removals
pub mod Collection
mod Tests
use go_libp2p_kad_dht.Prelude.{
  ℕ, ◌==◌, ◌-◌, ltb, if◌then◌else◌, Option, none, some, List, [], ◌∷◌, ◌++◌, Bool, true, false,
  contains, select, length,
}
use go_libp2p_kad_dht.Prelude.Maps.{lookup, insert, delete}
use go_libp2p_kad_dht.Qpeerset.{PeerId}
use go_libp2p_kad_dht.Network.{Addr, AddrInfo}

pub record ProviderSet : Type 0 where
  pub providers : List PeerId
  pub set : List (PeerId × ℕ)

abbrev pub new_provider_set : ProviderSet
new_provider_set = record { providers = []; set = [] }

abbrev pub append_unless_found : Option ℕ → List PeerId → PeerId → List PeerId
append_unless_found none ps p = ps ++ p ∷ []
append_unless_found (some t) ps p = ps

unfoldable pub set_val : ProviderSet → PeerId → ℕ → ProviderSet
set_val ps p t = record {
  providers = append_unless_found (lookup p ps.set) ps.providers p;
  set = insert p t ps.set;
}

-- What the store takes from other code. `base32` and `decode_base32` are base32's, `join a b` is
-- `a + "/" + b`, `last` what follows the last "/", and `under prefix key` whether a query for the prefix
-- yields the key. `varint` is binary.Varint, with `none` for a length that is not positive.
pub record Env : Type 0 where
  pub prefix : ℕ → ℕ
  pub base32 : ℕ → ℕ
  pub decode_base32 : ℕ → Option ℕ
  pub join : ℕ → ℕ → ℕ
  pub last : ℕ → ℕ
  pub under : ℕ → ℕ → Bool
  pub put_varint : ℕ → ℕ
  pub varint : ℕ → Option ℕ
  pub provide_validity : ℕ
  pub put_fails : ℕ → Bool
  pub query_fails : ℕ → Bool
  pub read_fails : ℕ → Bool
  pub delete_fails : ℕ → Bool

abbrev pub Datastore : Type 0
Datastore = List (ℕ × ℕ)

abbrev pub mk_prov_key : Env → ℕ → ℕ
mk_prov_key e k = e.prefix (e.base32 k)

abbrev pub mk_prov_key_for : Env → ℕ → PeerId → ℕ
mk_prov_key_for e k p = e.join (mk_prov_key e k) (e.base32 p)

-- A round of garbage collection: its time, the results that its query has yet to yield, and the keys to
-- skip.
pub record GcRound : Type 0 where
  pub gc_time : ℕ
  pub results : List (ℕ × ℕ)
  pub gc_skip : List ℕ

pub record ProviderManager : Type 0 where
  pub cache : List (ℕ × ProviderSet)
  pub dstore : Datastore
  pub gc : Option GcRound

-- `setVal` on the set in the cache, if the key is cached.
abbrev pub touch :
    ℕ → PeerId → ℕ → List (ℕ × ProviderSet) → Option ProviderSet → List (ℕ × ProviderSet)
touch k p now cache none = cache
touch k p now cache (some ps) = insert k (set_val ps p now) cache

unfoldable pub write_provider_entry : Env → Datastore → ℕ → PeerId → ℕ → Bool × Datastore
write_provider_entry e ds k p t =
    let dk = mk_prov_key_for e k p in
    if e.put_fails dk then (false, ds) else (true, insert dk (e.put_varint t) ds)

unfoldable pub add_prov : Env → ProviderManager → ℕ → PeerId → ℕ → Bool × ProviderManager
add_prov e pm k p now =
    let (written, ds) = write_provider_entry e pm.dstore k p now in
    (written, record pm { cache = touch k p now pm.cache (lookup k pm.cache); dstore = ds })

-- `gcSkip[...] = struct{}{}`, if a round is in progress.
abbrev pub skip_key : ℕ → Option GcRound → Option GcRound
skip_key dk none = none
skip_key dk (some g) = some (record g { gc_skip = dk ∷ g.gc_skip })

-- The case of `newprovs`.
unfoldable pub handle_new_prov : Env → ProviderManager → ℕ → PeerId → ℕ → ProviderManager
handle_new_prov e pm k p now =
    let (written, pm') = add_prov e pm k p now in
    if written then record pm' { gc = skip_key (mk_prov_key_for e k p) pm'.gc } else pm'

-- `dstore.Delete`, whose failure is only logged.
abbrev pub drop_entry : Env → Datastore → ℕ → Datastore
drop_entry e ds dk = if e.delete_fails dk then ds else delete dk ds

abbrev pub load_named :
    Env → ProviderSet → Datastore → ℕ → ℕ → Option PeerId → ProviderSet × Datastore
load_named e out ds dk t none = (out, drop_entry e ds dk)
load_named e out ds dk t (some p) = (set_val out p t, ds)

abbrev pub load_timed : Env → ℕ → ProviderSet → Datastore → ℕ → Option ℕ → ProviderSet × Datastore
load_timed e now out ds dk none = (out, drop_entry e ds dk)
load_timed e now out ds dk (some t) =
    if ltb e.provide_validity (now - t)
    then (out, drop_entry e ds dk)
    else load_named e out ds dk t (e.decode_base32 (e.last dk))

-- One result of the query of loadProviderSet.
abbrev pub load_entry : Env → ℕ → ProviderSet → Datastore → ℕ → ℕ → ProviderSet × Datastore
load_entry e now out ds dk b =
    if e.read_fails dk then (out, ds) else load_timed e now out ds dk (e.varint b)

unfoldable pub load_entries :
    Env → ℕ → ProviderSet → Datastore → List (ℕ × ℕ) → ProviderSet × Datastore
load_entries e now out ds [] = (out, ds)
load_entries e now out ds ((dk, b) ∷ rest) =
    let (out', ds') = load_entry e now out ds dk b in load_entries e now out' ds' rest

abbrev pub entries_under : Env → ℕ → Datastore → List (ℕ × ℕ)
entries_under e k ds = select (λ x. e.under (mk_prov_key e k) x.0) ds

unfoldable pub load_provider_set : Env → ℕ → Datastore → ℕ → Option (ProviderSet × Datastore)
load_provider_set e now ds k =
    if e.query_fails k
    then none
    else some (load_entries e now new_provider_set ds (entries_under e k ds))

-- A set that was loaded is cached unless it is empty.
abbrev pub keep_loaded :
    ProviderManager → ℕ → Option (ProviderSet × Datastore) → Option ProviderSet × ProviderManager
keep_loaded pm k none = (none, pm)
keep_loaded pm k (some (ps, ds)) =
    if ltb 0 (length ps.providers)
    then (some ps, record pm { dstore = ds; cache = insert k ps pm.cache })
    else (some ps, record pm { dstore = ds })

abbrev pub from_cache :
    Env → ℕ → ProviderManager → ℕ → Option ProviderSet → Option ProviderSet × ProviderManager
from_cache e now pm k (some ps) = (some ps, pm)
from_cache e now pm k none = keep_loaded pm k (load_provider_set e now pm.dstore k)

unfoldable pub get_provider_set_for_key :
    Env → ℕ → ProviderManager → ℕ → Option ProviderSet × ProviderManager
get_provider_set_for_key e now pm k = from_cache e now pm k (lookup k pm.cache)

abbrev pub providers_of : Option ProviderSet → List PeerId
providers_of none = []
providers_of (some ps) = ps.providers

-- The case of `getprovs`: the reply, nil after an error.
unfoldable pub handle_get_provs : Env → ℕ → ProviderManager → ℕ → List PeerId × ProviderManager
handle_get_provs e now pm k =
    let (ps, pm') = get_provider_set_for_key e now pm k in (providers_of ps, pm')

-- The time of the entry does not parse, or is over.
abbrev pub is_expired : Env → ℕ → Option ℕ → Bool
is_expired e gc_time none = true
is_expired e gc_time (some t) = ltb e.provide_validity (gc_time - t)

-- One result of the query of a round.
abbrev pub collect : Env → Datastore → GcRound → ℕ → ℕ → Datastore
collect e ds g dk b =
    if e.read_fails dk
    then ds
    else if contains g.gc_skip dk
    then ds
    else if is_expired e g.gc_time (e.varint b)
    then drop_entry e ds dk
    else ds

abbrev pub next_result : Env → ProviderManager → GcRound → List (ℕ × ℕ) → ProviderManager
next_result e pm g [] = record pm { gc = none }
next_result e pm g ((dk, b) ∷ rest) = record pm {
  dstore = collect e pm.dstore g dk b;
  gc = some (record g { results = rest });
}

-- The case of `gcQueryRes`, which is nil out of a round.
abbrev pub in_round : Env → ProviderManager → Option GcRound → ProviderManager
in_round e pm none = pm
in_round e pm (some g) = next_result e pm g g.results

unfoldable pub handle_gc_result : Env → ProviderManager → ProviderManager
handle_gc_result e pm = in_round e pm pm.gc

-- The case of `gcTimer.C`; `failed`: the query fails.
unfoldable pub handle_gc_timer : ProviderManager → ℕ → Bool → ProviderManager
handle_gc_timer pm now failed =
    let purged = record pm { cache = [] } in
    if failed
    then purged
    else record purged { gc = some (record { gc_time = now; results = pm.dstore; gc_skip = [] }) }

pub data Event : Type 0 where
  new_prov : ℕ → PeerId → ℕ → Event
  get_provs : ℕ → ℕ → Event
  gc_result : Event
  gc_timer : ℕ → Bool → Event
  evicted : ℕ → Event

-- One round of the loop of `run`.
unfoldable pub handle_event : Env → ProviderManager → Event → ProviderManager
handle_event e pm (new_prov k p now) = handle_new_prov e pm k p now
handle_event e pm (get_provs k now) = (handle_get_provs e now pm k).1
handle_event e pm gc_result = handle_gc_result e pm
handle_event e pm (gc_timer now failed) = handle_gc_timer pm now failed
handle_event e pm (evicted k) = record pm { cache = delete k pm.cache }

-- AddProvider: the addresses of the provider that go to the peerstore, and the event.
abbrev pub add_provider : PeerId → ℕ → AddrInfo → ℕ → List AddrInfo × Event
add_provider self k info now = (if info.id == self then [] else info ∷ [], new_prov k info.id now)
