-- ===== src/Providers/Tests.antt =====
-- Runs of the provider store of records/, and the theorems at concrete inputs.
use go_libp2p_kad_dht.Prelude.{
  none, some, [], ◌∷◌, true, false, ◌≡◌, refl, inr, inl, arith, contains, ◌+◌, ◌*◌, ◌/◌, ◌%◌, ◌==◌,
}
use go_libp2p_kad_dht.Prelude.Maps.{lookup, insert, delete}
use go_libp2p_kad_dht.Providers.{
  set_val, Env, ProviderManager, entries_under, write_provider_entry, add_prov, handle_new_prov,
  load_entries, load_provider_set, get_provider_set_for_key, handle_get_provs, handle_gc_result,
  handle_gc_timer, handle_event, new_prov,
}
use go_libp2p_kad_dht.Providers.Loads.{given, handle_get_provs_iff}
use go_libp2p_kad_dht.Providers.RoundTrip.{IsCodec, handle_get_provs-handle_new_prov}
use go_libp2p_kad_dht.Providers.Collection.{IsKept, handle_event-IsKept, handle_gc_result_spares}

-- One key, whose records stand under the names of the peers.
abbrev one_key : Env
one_key = record {
  prefix = λ k. k;
  base32 = λ a. a;
  decode_base32 = λ n. some n;
  join = λ a n. n;
  last = λ dk. dk;
  under = λ a dk. true;
  put_varint = λ t. t;
  varint = λ b. some b;
  provide_validity = 48;
  put_fails = λ dk. false;
  query_fails = λ k. false;
  read_fails = λ dk. false;
  delete_fails = λ dk. false;
}

-- A round at time 100, whose query saw the record of 3 from time 10 and that of 4 from time 90; since
-- then 3 was added again.
abbrev collecting : ProviderManager
collecting = record {
  cache = [];
  dstore = (3, 99) ∷ (4, 90) ∷ [];
  gc = some (record { gc_time = 100; results = (3, 10) ∷ (4, 90) ∷ []; gc_skip = 3 ∷ [] });
}

program : Unit {0}
unfolding lookup insert delete set_val write_provider_entry add_prov handle_new_prov load_entries
    load_provider_set get_provider_set_for_key handle_get_provs handle_gc_result handle_gc_timer
    handle_event
program = tt

skipped : (handle_gc_result one_key collecting).dstore ≡ (3, 99) ∷ (4, 90) ∷ []
unfolding program
skipped = refl

abbrev idle_store : ProviderManager
idle_store = record { cache = []; dstore = (3, 10) ∷ (4, 90) ∷ []; gc = none }

expired_left_out : (handle_get_provs one_key 100 idle_store 7).0 ≡ 4 ∷ []
unfolding program
expired_left_out = refl

collecting-IsKept : IsKept collecting
unfolding lookup
collecting-IsKept = record {
  listed = λ k ps h. absurd (ground arith);
  unique = (refl, (refl, tt));
  current = (inl refl, (inr (inr refl), tt));
}

handle_event-IsKept_example : IsKept (handle_event one_key collecting (new_prov 7 5 100))
handle_event-IsKept_example =
    handle_event-IsKept one_key collecting (new_prov 7 5 100) collecting-IsKept

handle_gc_result_spares_example : lookup 3 (handle_gc_result one_key collecting).dstore ≡ some 99
unfolding lookup
handle_gc_result_spares_example =
    handle_gc_result_spares one_key collecting
      (record { gc_time = 100; results = (3, 10) ∷ (4, 90) ∷ []; gc_skip = 3 ∷ [] }) 3 99
      collecting-IsKept refl refl refl

handle_get_provs_iff_example :
    contains (handle_get_provs one_key 100 idle_store 7).0 4
    ≡ given one_key 100 4 (entries_under one_key 7 idle_store.dstore)
unfolding lookup
handle_get_provs_iff_example = handle_get_provs_iff one_key 100 idle_store 7 4 refl refl

-- Datastore keys that hold the peer and, in the last three digits, the record key.
abbrev two_parts : Env
two_parts = record one_key {
  join = λ a n. 1000 * n + a % 1000;
  last = λ dk. dk / 1000;
  under = λ a dk. dk % 1000 == a % 1000;
}

two_parts-IsCodec : IsCodec two_parts
two_parts-IsCodec = record {
  named = λ p. refl;
  split = λ a p. omega arith;
  prefixed = λ a p. ground arith;
  timed = λ t. refl;
}

-- Of the keys 7 and 8, the record of 8 is older.
abbrev two_keys : ProviderManager
two_keys = record { cache = []; dstore = (3007, 90) ∷ (3008, 10) ∷ []; gc = none }

keys_apart :
    let pm = handle_new_prov two_parts two_keys 7 5 100 in
    ((handle_get_provs two_parts 120 pm 7).0 ≡ 3 ∷ 5 ∷ [])
    × ((handle_get_provs two_parts 120 pm 8).0 ≡ [])
unfolding program
keys_apart = (refl, refl)

handle_get_provs-handle_new_prov_example :
    contains (handle_get_provs two_parts 120 (handle_new_prov two_parts two_keys 7 5 100) 7).0 5
    ≡ true
unfolding lookup
handle_get_provs-handle_new_prov_example =
    handle_get_provs-handle_new_prov two_parts two_keys 7 5 100 120 two_parts-IsCodec
      (λ k ps h. absurd (ground arith)) refl refl refl (omega arith)
