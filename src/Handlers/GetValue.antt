-- ===== src/Handlers/GetValue.antt =====
-- What GET_VALUE of handlers.go answers, and what it takes out of the datastore.
use go_libp2p_kad_dht.Prelude.{
  ℕ, ◌==◌, ◌-◌, ◌≤◌, ◌<◌, not, ◌&&◌, if◌then◌else◌, Option, none, some, true, ◌≡◌, ◌⊎◌,
}
use go_libp2p_kad_dht.Prelude.Maps.{lookup}
use go_libp2p_kad_dht.Handlers.{Rec, Result, ok, Env, Datastore}

-- The datastore's entry cannot be read.
abbrev pub BadEntry : Env → Datastore → ℕ → Type 0
BadEntry e ds k =
    (e.get_fails k ≡ true) ⊎ ((b : ℕ) × (lookup k ds ≡ some b) × (e.unmarshal b ≡ none))

-- A record of the datastore whose receive time does not parse, or lies longer ago than the maximal age.
abbrev pub Stale : Env → ℕ → Rec → Type 0
Stale e now rec =
    (e.parse_time rec.time_received ≡ none)
    ⊎ ((t : ℕ) × (e.parse_time rec.time_received ≡ some t) × (e.max_record_age < now - t))

-- What the lookup of the key `k` yields and leaves. With a record: it stands in the datastore, is no older
-- than the maximal age, and nothing changes. With none: the datastore has none and does not change, or it
-- has a stale one, which goes unless its deletion fails, and nothing else changes.
abbrev pub Looked : Env → ℕ → Datastore → Datastore → ℕ → Option Rec → Type 0
Looked e now ds ds' k (some rec) =
    (b : ℕ) × (t : ℕ) × (lookup k ds ≡ some b)
    × (e.unmarshal b ≡ some rec)
    × (e.parse_time rec.time_received ≡ some t)
    × (now - t ≤ e.max_record_age)
    × (ds' ≡ ds)
Looked e now ds ds' k none =
    ((lookup k ds ≡ none) × (ds' ≡ ds))
    ⊎ ((b : ℕ) × (rec : Rec) × (lookup k ds ≡ some b)
        × (e.unmarshal b ≡ some rec)
        × Stale e now rec
        × ((j : ℕ)
            → lookup j ds' ≡ (if (k == j) && not (e.delete_fails k) then none else lookup j ds)))

-- A lookup that returns a record or none, with what that says.
abbrev Looks : Env → ℕ → Datastore → ℕ → Result (Option Rec) × Datastore → Type 0
Looks e now ds k r =
    (o : Option Rec) × (ds' : Datastore) × (r ≡ (ok o, ds')) × Looked e now ds ds' k o
