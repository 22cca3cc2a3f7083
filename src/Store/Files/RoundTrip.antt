-- ===== src/Store/Files/RoundTrip.antt =====
-- A run's state file of ge_runtime/store.py, written and read again.
use hermes_graph_engineering.Base.{
  String, string_eq, ◌≡◌, refl, true, false, Option, none, some, lookup, ◌==◌, map_option,
}
use hermes_graph_engineering.Values.{
  Value, null, bool, int, float, str, obj, arr, Fields, entries, py_eq,
}
use hermes_graph_engineering.Admission.Json.{canonical, canonical_fields, lookup-canonical_fields}
use hermes_graph_engineering.Admission.Nodes.{get_or}
use hermes_graph_engineering.Store.Names.{is_run_id}
use hermes_graph_engineering.Store.Files.{
  File, readable, stored, get_is, envelope, save, load, load_file, load_envelope, load_state,
}

get_is-canonical :
    (fs : Fields) (key s : String)
    → get_is fs key (str s) ≡ true
    → get_is (canonical_fields fs) key (str s) ≡ true
unfolding py_eq canonical
get_is-canonical fs key s h =
    rw (lookup-canonical_fields fs key) (by_value (lookup (entries fs) key) h)
  where
    by_value :
        (o : Option Value)
        → py_eq (get_or null o) (str s) ≡ true
        → py_eq (get_or null (map_option canonical o)) (str s) ≡ true
    by_value none h = cc
    by_value (some (str t)) h = h
    by_value (some null) h = cc
    by_value (some (bool true)) h = cc
    by_value (some (bool false)) h = cc
    by_value (some (int n)) h = cc
    by_value (some (float f)) h = cc
    by_value (some (obj gs)) h = cc
    by_value (some (arr vs)) h = cc

-- For a well-formed run id that is the one in the state, `save` writes a file, and `load` of that
-- file returns the state, with the keys of every object sorted.
pub load-save :
    (digest_of : Fields → String) (run_id : String) (state : Fields)
    → is_run_id run_id ≡ true
    → get_is state "run_id" (str run_id) ≡ true
    → (file : File) × (save digest_of run_id state ≡ stored file)
      × (load digest_of run_id file ≡ stored (canonical_fields state))
unfolding save load load_file load_envelope load_state py_eq
load-save digest_of run_id state valid own =
    let own' = get_is-canonical state "run_id" run_id own in
    let digest : (digest_of (canonical_fields state) == digest_of (canonical_fields state)) ≡ true =
      (string_eq.equal_iff _ _).1 refl in
    (
      readable (obj (envelope digest_of (canonical_fields state))),
      rw (own, valid) refl,
      rw (valid, digest, own') refl,
    )
