-- ===== src/Routing/Tests.antt =====
-- Runs of the operations of routing.go, and the theorems at concrete inputs.
use go_libp2p_kad_dht.Prelude.{
  ◌==◌, ◌+◌, ◌*◌, ◌/◌, ◌%◌, ◌≤◌, ltb, if◌then◌else◌, Option, none, some, List, [], ◌∷◌, true, false,
  ◌&&◌, ◌≡◌, refl, arith, length,
}
use go_libp2p_kad_dht.Prelude.Maps.{lookup, insert}
use go_libp2p_kad_dht.Qpeerset.{PeerId, unreachable, heard}
use go_libp2p_kad_dht.Network.{AddrInfo}
use go_libp2p_kad_dht.Handlers.{
  Rec, Result, ok, err, Env, Datastore, get_record_from_datastore, old_record,
}
use go_libp2p_kad_dht.Handlers.Values.{IsCodec}
use go_libp2p_kad_dht.Routing.{
  get_local, put_local, put_value, get_value_from, local_value, can_add, offer_all, on_answers,
  closer_of, enough, find_providers_routine, dialed_during_query, find_peer_answer, found_peer,
  closer_deadline, classic_provide, some_closest, deadline_exceeded,
}
use go_libp2p_kad_dht.Routing.PutValue.{Preferred, put_value-get_local}
use go_libp2p_kad_dht.Routing.FindProviders.{
  sent_full, sent_bare, any_entry, find_providers_routine_sends,
}

-- One key; a record is stored as its value and a thousand times its time.
abbrev env : Env
env = record {
  length = λ k. k;
  ds_key = λ k. k;
  marshal = λ r.
      if (r.key == 3) && ltb r.value 1000 then some (r.value + 1000 * r.time_received) else none;
  unmarshal = λ b. some (record { key = 3; value = b % 1000; time_received = b / 1000 });
  valid = λ k v. ltb v 900;
  select = λ k a b. some (if ltb a b then 1 else 0);
  parse_time = λ t. some t;
  format_time = λ t. t;
  empty_time = 0;
  max_record_age = 60;
  get_fails = λ k. false;
  put_fails = λ k. false;
  delete_fails = λ k. false;
}

env-IsCodec : IsCodec env
env-IsCodec = (λ r b h. ground arith, λ t. refl)

abbrev ds : Datastore
ds = (3, 2040) ∷ []

abbrev new_rec : Rec
new_rec = record { key = 3; value = 41; time_received = 5 }

abbrev two_peers : Result (List PeerId)
two_peers = ok (7 ∷ 8 ∷ [])

put_run : put_value env 5 ds 3 41 (ok (7 ∷ 8 ∷ [])) ≡ (ok (new_rec, 7 ∷ 8 ∷ []), (3, 5041) ∷ [])
unfolding put_value put_local get_local get_record_from_datastore lookup insert
put_run = refl

older_run : put_value env 5 ds 3 39 (ok (7 ∷ 8 ∷ [])) ≡ (err old_record, ds)
unfolding put_value put_local get_local get_record_from_datastore lookup insert
older_run = refl

put_value-get_local_example :
    (env.valid 3 41 ≡ true)
    × ((o : Option Rec) × (get_local env ds 3 ≡ ok o) × Preferred env 3 41 o)
    × (two_peers ≡ ok (7 ∷ 8 ∷ []))
    × (new_rec ≡ record { key = 3; value = 41; time_received = 5 })
    × (get_local env (put_value env 5 ds 3 41 two_peers).1 3 ≡ ok (some new_rec))
unfolding put_value put_local get_local get_record_from_datastore lookup insert
put_value-get_local_example =
    put_value-get_local env 5 ds 3 41 two_peers new_rec (7 ∷ 8 ∷ []) env-IsCodec refl refl

abbrev bare : PeerId → AddrInfo
bare p = record { id = p; addrs = [] }

abbrev full : PeerId → AddrInfo
full p = record { id = p; addrs = 9 ∷ [] }

-- Two providers are wanted, and three are sent: peer 1 without addresses, then with, and peer 2.
providers_run :
    (find_providers_routine 2
      ((bare 1, true) ∷ [])
      (((full 1, true) ∷ (full 2, true) ∷ (full 3, true) ∷ []) ∷ [])).1.out
    ≡ bare 1 ∷ full 1 ∷ full 2 ∷ []
unfolding find_providers_routine offer_all on_answers can_add lookup insert
providers_run = refl

find_providers_routine_sends_example :
    let s = (find_providers_routine 2 ((bare 1, true) ∷ []) (((full 1, true) ∷ []) ∷ [])).1 in
    (length s.ps ≤ 2)
    × ((p : PeerId)
        → (sent_full p s.out ≤ any_entry (lookup p s.ps))
          × (sent_bare p s.out ≤ any_entry (lookup p s.ps))
          × (any_entry (lookup p s.ps) ≤ 1))
find_providers_routine_sends_example =
    find_providers_routine_sends 2 ((bare 1, true) ∷ []) (((full 1, true) ∷ []) ∷ []) (omega arith)

closer_run : closer_of enough (full 4 ∷ []) ≡ some []
unfolding closer_of
closer_run = refl

value_run :
    (get_value_from (λ v. ltb v 900) 0 true 4 (ok (some new_rec, full 4 ∷ []))).emitted
    ≡ some (41, 4)
unfolding get_value_from
value_run = refl

local_run : local_value 1 true (ok (some new_rec)) ≡ some (41, 1)
unfolding local_value
local_run = refl

found_run :
    find_peer_answer true none 4
      (ok (record {
        peers = 3 ∷ 4 ∷ [];
        state = heard ∷ unreachable ∷ [];
        closest = [];
        completed = true;
      }))
      false
      (full 4)
    ≡ found_peer (full 4)
unfolding find_peer_answer dialed_during_query
found_run = refl

-- With five seconds to go, a tenth is kept for the messages.
deadline_run : closer_deadline 1000000000 6000000000 ≡ some 5500000000
unfolding closer_deadline
deadline_run = refl

provide_run :
    classic_provide (some_closest (1 ∷ 2 ∷ [])) none none ≡ (1 ∷ 2 ∷ [], some deadline_exceeded)
unfolding classic_provide
provide_run = refl
