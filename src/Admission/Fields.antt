-- ===== src/Admission/Fields.antt =====
-- `_normalize_outputs`, `_normalize_inputs` and `_normalize_gates` of ge_runtime/spec.py. Where an
-- error is reported for an entry that is kept, the entry holds a value of the right type in place
-- of the raw one: `admit` raises then, and nothing reads it before.
use text.Mathlib.Text.{find?}
use hermes_graph_engineering.Base.{
  ℕ, suc, String, Bool, true, false, not, Option, none, some, List, [], ◌∷◌, ◌++◌, Table, lookup,
  keys, all, contains, ◌==◌, string_eq, if◌then◌else◌,
}
use hermes_graph_engineering.Values.{Value, null, bool, str, obj, arr, ValueType, items, entries}
use hermes_graph_engineering.Contracts.{OutputSpec, value_type_of}
use hermes_graph_engineering.Spec.{Gate, GateType, approval, review, InputSpec}
use hermes_graph_engineering.Admission.Patterns.{is_node_id, is_name}
use hermes_graph_engineering.Admission.Errors.{
  NodeError, outputs_not_mapping, inputs_not_mapping, gates_not_list, bad_output_name, bad_output,
  unknown_output_type, bad_output_required, bad_input_name, bad_input, bad_source,
  unknown_input_type, bad_input_required, bad_gate, bad_gate_id, bad_gate_type, bad_gate_owner,
  repeated_gate_id, Checked, valid, invalid, error_unless, concat,
}

abbrev pub Raw : Type 0
Raw = Table String Value

-- `not set(t) - names`
abbrev pub has_only : List String → Raw → Bool
has_only names t = all (λ k. contains names k) (keys t)

abbrev pub or_else {ℓ} : {A : Type ℓ} → A → Option A → A
or_else d none = d
or_else d (some a) = a

abbrev pub is_some {ℓ} : {A : Type ℓ} → Option A → Bool
is_some none = false
is_some (some a) = true

-- A value that is a text, and one that is a Boolean.
abbrev pub text_of : Option Value → Option String
text_of (some (str s)) = some s
text_of v = none

-- `t.get(k, default)`, if it is a Boolean.
abbrev pub flag_or : Bool → Option Value → Option Bool
flag_or d none = some d
flag_or d (some (bool b)) = some b
flag_or d (some v) = none

-- `spec.get("type", "any")`, if it is one of VALUE_TYPES.
abbrev pub type_or_any : Option Value → Option ValueType
type_or_any none = some ValueType.any
type_or_any (some (str s)) = value_type_of s
type_or_any (some v) = none

-- An entry is a mapping, or a text that stands for one.
abbrev entry_of : String → Value → Option Raw
entry_of key (str s) = some ((key, str s) ∷ [])
entry_of key (obj fs) = some (entries fs)
entry_of key v = none

-- An entry that is left out with `continue`.
abbrev skip {ℓ} : {A : Type ℓ} → NodeError → Checked (Option A)
skip e = invalid e none

-- What is kept of an entry under its name.
abbrev keep_entry : {A : Type 0} → String → Option A → Table String A → Table String A
keep_entry name none t = t
keep_entry name (some a) t = (name, a) ∷ t

abbrev pub output_fields : List String
output_fields = "type" ∷ "required" ∷ "description" ∷ []

output_entry : String → Raw → Checked (Option OutputSpec)
output_entry name spec =
    let type = type_or_any (lookup spec "type") in
    let required = flag_or true (lookup spec "required") in
    record {
      errors =
          error_unless (is_some type) (unknown_output_type name)
          ++ error_unless (is_some required) (bad_output_required name);
      value = some (record {
        type = or_else ValueType.any type;
        required = or_else true required;
        description = text_of (lookup spec "description");
      });
    }

output_of : String → Option Raw → Checked (Option OutputSpec)
unfolding output_entry
output_of name none = skip (bad_output name)
output_of name (some spec) =
    if has_only output_fields spec then output_entry name spec else skip (bad_output name)

named_output : String → Value → Checked (Option OutputSpec)
unfolding output_of
named_output name v =
    if is_name name then output_of name (entry_of "type" v) else skip (bad_output_name name)

-- The loop over `raw.items()`; the names of a mapping are distinct.
outputs_from : Raw → Checked (Table String OutputSpec)
outputs_from [] = valid []
outputs_from ((name, v) ∷ t) =
    let first = named_output name v in
    let rest = outputs_from t in
    record { errors = first.errors ++ rest.errors; value = keep_entry name first.value rest.value }

unfoldable pub normalize_outputs : Option Value → Checked (Table String OutputSpec)
unfolding outputs_from named_output output_of output_entry
normalize_outputs none = valid []
normalize_outputs (some null) = valid []
normalize_outputs (some (obj fs)) = outputs_from (entries fs)
normalize_outputs (some v) = invalid outputs_not_mapping []

abbrev pub input_fields : List String
input_fields = "from" ∷ "type" ∷ "required" ∷ "description" ∷ []

-- `from`, if it is a text with a "."
abbrev pub source_text : Option Value → Option String
source_text (some (str s)) = if is_some (find? s ".") then some s else none
source_text v = none

input_entry : String → Raw → Option String → Checked (Option InputSpec)
input_entry name spec none = skip (bad_source name)
input_entry name spec (some source) =
    let type = type_or_any (lookup spec "type") in
    let required = flag_or true (lookup spec "required") in
    record {
      errors =
          error_unless (is_some type) (unknown_input_type name)
          ++ error_unless (is_some required) (bad_input_required name);
      value = some (record {
        from = source;
        type = or_else ValueType.any type;
        required = or_else true required;
        description = text_of (lookup spec "description");
      });
    }

input_of : String → Option Raw → Checked (Option InputSpec)
unfolding input_entry
input_of name none = skip (bad_input name)
input_of name (some spec) =
    if has_only input_fields spec
    then input_entry name spec (source_text (lookup spec "from"))
    else skip (bad_input name)

named_input : String → Value → Checked (Option InputSpec)
unfolding input_of
named_input name v =
    if is_name name then input_of name (entry_of "from" v) else skip (bad_input_name name)

inputs_from : Raw → Checked (Table String InputSpec)
inputs_from [] = valid []
inputs_from ((name, v) ∷ t) =
    let first = named_input name v in
    let rest = inputs_from t in
    record { errors = first.errors ++ rest.errors; value = keep_entry name first.value rest.value }

unfoldable pub normalize_inputs : Option Value → Checked (Table String InputSpec)
unfolding inputs_from named_input input_of input_entry
normalize_inputs none = valid []
normalize_inputs (some null) = valid []
normalize_inputs (some (obj fs)) = inputs_from (entries fs)
normalize_inputs (some v) = invalid inputs_not_mapping []

abbrev pub gate_fields : List String
gate_fields = "id" ∷ "type" ∷ "owner" ∷ "description" ∷ []

-- GATE_TYPES
abbrev pub gate_type_of : Option Value → Option GateType
gate_type_of (some (str s)) =
    if s == "approval" then some approval else if s == "review" then some review else none
gate_type_of v = none

-- `t.get(k, default)`, if it matches NAME_RE.
abbrev pub name_or : String → Option Value → Option String
name_or d none = if is_name d then some d else none
name_or d (some (str s)) = if is_name s then some s else none
name_or d (some v) = none

-- A gate's id, if it is a text that matches NODE_ID_RE.
abbrev pub id_text : Option Value → Option String
id_text (some (str s)) = if is_node_id s then some s else none
id_text v = none

-- A gate of which the id is known, and the ids seen before it. A type that is not valid is not
-- "approval", which is all that is read of it.
gate_entry : ℕ → List String → Raw → String → Checked Gate
gate_entry index seen gate gate_id =
    let type = gate_type_of (lookup gate "type") in
    let owner = name_or "operator" (lookup gate "owner") in
    record {
      errors = concat (
          error_unless (not (contains seen gate_id)) (repeated_gate_id index gate_id)
          ∷ error_unless (is_some type) (bad_gate_type index)
          ∷ error_unless (is_some owner) (bad_gate_owner index)
          ∷ []);
      value = record {
        id = gate_id;
        type = or_else review type;
        owner = or_else "" owner;
        description = or_else "" (text_of (lookup gate "description"));
      };
    }

-- A gate goes in front of the gates after it, which have seen its id; or it is left out.
abbrev with_gate : Checked Gate → Checked (List Gate) → Checked (List Gate)
with_gate first rest = record {
  errors = first.errors ++ rest.errors;
  value = first.value ∷ rest.value;
}

abbrev without_gate : NodeError → Checked (List Gate) → Checked (List Gate)
without_gate e rest = record { errors = e ∷ rest.errors; value = rest.value }

-- The mapping of a gate, and its id.
abbrev gate_mapping : Value → Option Raw
gate_mapping (obj fs) = if has_only gate_fields (entries fs) then some (entries fs) else none
gate_mapping v = none

-- One round of the loop, from what the rounds after it do with the ids seen.
add_gate : ℕ → List String → Option Raw → (List String → Checked (List Gate)) → Checked (List Gate)
unfolding gate_entry
add_gate index seen none next = without_gate (bad_gate index) (next seen)
add_gate index seen (some gate) next = elim (id_text (lookup gate "id")) [
  | none ↦ without_gate (bad_gate_id index) (next seen)
  | some gate_id ↦ with_gate (gate_entry index seen gate gate_id) (next (gate_id ∷ seen))
]

gates_from : ℕ → List String → List Value → Checked (List Gate)
gates_from index seen [] = valid []
gates_from index seen (v ∷ vs) =
    add_gate index seen (gate_mapping v) (λ (ids : List String). gates_from (suc index) ids vs)

unfoldable pub normalize_gates : Option Value → Checked (List Gate)
unfolding gates_from add_gate gate_entry
normalize_gates none = valid []
normalize_gates (some null) = valid []
normalize_gates (some (arr vs)) = gates_from 0 [] (items vs)
normalize_gates (some v) = invalid gates_not_list []
