-- ===== src/Store/Files.antt =====
-- `save` and `load` of ge_runtime/store.py: the checksummed envelope of a run's state.
pub mod RoundTrip
use hermes_graph_engineering.Base.{
  String, Bool, true, false, not, Option, none, some, List, [], ◌∷◌, lookup, ◌==◌, string_eq,
  if◌then◌else◌,
}
use hermes_graph_engineering.Base.Int.{pos}
use hermes_graph_engineering.Values.{Value, null, int, str, obj, Fields, end, field, entries, py_eq}
use hermes_graph_engineering.States.{ErrorCode, state_corrupt, run_not_found, invalid_argument}
use hermes_graph_engineering.Admission.Json.{canonical_fields}
use hermes_graph_engineering.Admission.Nodes.{get_or}
use hermes_graph_engineering.Store.Names.{is_run_id}

-- What is at a path: nothing, a file that is no JSON text, or one that is.
pub data File : Type 0 where
  absent unreadable : File
  readable : Value → File

-- A value, or the error code that is raised.
pub data Stored {ℓ} (A : Type ℓ) : Type ℓ where
  stored : A → Stored A
  fails : ErrorCode → Stored A

abbrev state_kind : String
state_kind = "ge-run-state"

-- `t.get(key) == value`
abbrev pub get_is : Fields → String → Value → Bool
get_is t key v = py_eq (get_or null (lookup (entries t) key)) v

module _ (digest_of : Fields → String) where
  abbrev pub envelope : Fields → Fields
  envelope payload = field "schema_version" (int (pos 1)) (
      field "kind" (str state_kind)
        (field "checksum" (str (digest_of payload)) (field "state" (obj payload) end)))

  -- `save`: the file that is written.
  unfoldable pub save : String → Fields → Stored File
  save run_id state =
      if not (get_is state "run_id" (str run_id))
      then fails invalid_argument
      else if not (is_run_id run_id)
      then fails invalid_argument
      else stored (readable (obj (envelope (canonical_fields state))))

  load_state : String → Fields → Option Value → Stored Fields
  load_state run_id e (some (obj state)) =
      if not (get_is e "checksum" (str (digest_of state)))
      then fails state_corrupt
      else if not (get_is state "run_id" (str run_id))
      then fails state_corrupt
      else stored state
  load_state run_id e v = fails state_corrupt

  load_envelope : String → Value → Stored Fields
  unfolding load_state
  load_envelope run_id (obj e) =
      if not (get_is e "kind" (str state_kind))
      then fails state_corrupt
      else if not (get_is e "schema_version" (int (pos 1)))
      then fails state_corrupt
      else load_state run_id e (lookup (entries e) "state")
  load_envelope run_id v = fails state_corrupt

  load_file : String → File → Stored Fields
  unfolding load_envelope
  load_file run_id absent = fails run_not_found
  load_file run_id unreadable = fails state_corrupt
  load_file run_id (readable v) = load_envelope run_id v

  -- `load`
  unfoldable pub load : String → File → Stored Fields
  unfolding load_file
  load run_id file =
      if not (is_run_id run_id) then fails invalid_argument else load_file run_id file
