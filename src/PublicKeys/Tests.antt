-- ===== src/PublicKeys/Tests.antt =====
-- Runs of GetPublicKey, and the theorem at one.
use go_libp2p_kad_dht.Prelude.{ℕ, ◌==◌, none, some, [], ◌∷◌, true, false, ◌≡◌, refl, arith}
use go_libp2p_kad_dht.Prelude.Maps.{lookup}
use go_libp2p_kad_dht.Handlers.{Env, ok, Rec, get_record_from_datastore}
use go_libp2p_kad_dht.Values.{
  check_quorum, new_val, take_best, against_best, handle_value, process_values,
}
use go_libp2p_kad_dht.Routing.{get_local, get_value_from, local_value}
use go_libp2p_kad_dht.Routing.Searching.{answered, arrivals_of, search_value, get_value}
use go_libp2p_kad_dht.PublicKeys.{
  KeySources, DhtSearch, public_key, value, get_public_key_from_dht, get_public_key_from_node,
  first_key, get_public_key, key_error, other_peer,
}
use go_libp2p_kad_dht.PublicKeys.Matching.{IsPublicKeyValidator, IsKeyOf, get_public_key-IsKeyOf}

-- A record key is the peer, and a value is valid if it is that number.
abbrev validating : Env
validating = record {
  length = λ k. k;
  ds_key = λ k. k;
  marshal = λ r. some r.value;
  unmarshal = λ b. none;
  valid = λ k v. v == k;
  select = λ k a b. some 0;
  parse_time = λ t. some t;
  format_time = λ t. t;
  empty_time = 0;
  max_record_age = 60;
  get_fails = λ k. false;
  put_fails = λ k. false;
  delete_fails = λ k. false;
}

-- Peer 4 answers with the key of another peer.
abbrev sources : KeySources
sources = record {
  pub_key = λ p. none;
  ask_peer = λ p. value 5;
  store = validating;
  datastore = [];
  self = 1;
  nil_value = 0;
  pk_key = λ p. p;
  unmarshal = λ b. some b;
  unmarshal_error = 7;
  id_of = λ k. some k;
  id_error = 8;
}

abbrev with_value : ℕ → Rec
with_value v = record { key = 4; value = v; time_received = 0 }

-- In the search one peer has the wrong key and another the right one.
abbrev two_answers : DhtSearch
two_answers = record {
  sent = true;
  delivered = true;
  events =
      answered 6 (ok (some (with_value 5), [])) true true
      ∷ answered 7 (ok (some (with_value 4), [])) true true
      ∷ [];
  context_error = false;
}

key_run : get_public_key sources two_answers true true 4 ≡ public_key 4
unfolding get_public_key get_public_key_from_node get_public_key_from_dht first_key get_value
    search_value arrivals_of get_local get_record_from_datastore local_value get_value_from
    process_values handle_value against_best take_best new_val check_quorum lookup
key_run = refl

lying_run : get_public_key_from_node sources 4 ≡ key_error other_peer
unfolding get_public_key_from_node
lying_run = refl

sources-IsPublicKeyValidator : IsPublicKeyValidator sources
sources-IsPublicKeyValidator p b k h u = ground arith

get_public_key-IsKeyOf_example : IsKeyOf sources 4 (get_public_key sources two_answers true true 4)
get_public_key-IsKeyOf_example =
    get_public_key-IsKeyOf sources two_answers true true 4 sources-IsPublicKeyValidator
