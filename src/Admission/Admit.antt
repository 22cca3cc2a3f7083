-- ===== src/Admission/Admit.antt =====
-- `load_spec_text` and `admit` of ge_runtime/spec.py.
pub mod Known
pub mod Outcome
pub mod Facts
pub mod Shape
pub mod Wiring
pub mod Capable
use Prim.Native.String.{len}
use hermes_graph_engineering.Base.{
  ℕ, suc, String, Bool, true, false, not, Option, none, some, List, [], ◌∷◌, ◌++◌, Table, lookup,
  has, keys, keep, find, map, contains, length, leb, ltb, sorted, ◌==◌, string_eq, if◌then◌else◌,
}
use hermes_graph_engineering.Base.Int.{pos}
use hermes_graph_engineering.Values.{
  Value, null, int, str, obj, arr, Fields, end, items, entries, has_text, py_eq,
}
use hermes_graph_engineering.Contracts.{Outputs, Regex}
use hermes_graph_engineering.Spec.{
  InputSpec, Node, GraphSpec, node_ids, Source, graph_input, node_output, source_of,
}
use hermes_graph_engineering.Spec.Topology.{Sorting, ordered, cycle, out_of_fuel, topological_order}
use hermes_graph_engineering.Spec.Ancestors.{ancestors}
use hermes_graph_engineering.States.{ErrorCode}
use hermes_graph_engineering.Engine.State.{Executor, Env}
use hermes_graph_engineering.Engine.Gates.{catalog_get}
use hermes_graph_engineering.Admission.Patterns.{is_graph_id}
use hermes_graph_engineering.Admission.Json.{are_json_fields, canonical_fields}
use hermes_graph_engineering.Admission.Errors.{
  NodeError, Checked, SpecError, not_a_mapping, empty_text, text_too_long, unreadable_text,
  unknown_top_level, bad_schema_version, bad_graph_id, bad_title, bad_description, bad_inputs,
  inputs_not_json, no_nodes, too_many_nodes, in_node, repeated_ids, unknown_dependency,
  dependency_cycle, missing_graph_input, unknown_source, not_upstream, undeclared_source,
  executor_missing, lacks_capability, error_unless, concat,
}
use hermes_graph_engineering.Admission.Fields.{Raw, or_else, is_some, text_of}
use hermes_graph_engineering.Admission.Nodes.{get_or, normalize_node}
use hermes_graph_engineering.Admission.Cycles.{Search, found, searched, exhausted, find_cycle}

abbrev max_spec_bytes : ℕ
max_spec_bytes = 1000000

abbrev pub max_nodes : ℕ
max_nodes = 200

abbrev graph_fields : List String
graph_fields = "schema_version" ∷ "graph_id" ∷ "title" ∷ "description" ∷ "inputs" ∷ "nodes" ∷ []

-- The data that the digest is taken of.
pub record SpecData : Type 0 where
  pub graph_id : String
  pub title : String
  pub description : String
  pub inputs : Outputs
  pub nodes : List Node

-- The two parsers, `none` where they raise, and the SHA-256 of the canonical JSON of a spec.
pub record Formats : Type 0 where
  pub json : String → Option Value
  pub yaml : String → Option Value
  pub digest_of : SpecData → String

-- The value of `admit`, or what it raises. `type_error` is the TypeError of a value with no hash;
-- `stuck` is the model's own, for a loop that runs out of fuel.
pub data Admission : Type 0 where
  admitted : GraphSpec → Admission
  rejected : ErrorCode → List SpecError → Admission
  type_error stuck : Admission

-- The spec text that is read, or the error.
pub data Reading : Type 0 where
  read : Value → Reading
  unread : SpecError → Reading

abbrev or_yaml : Option Value → Option Value → Reading
or_yaml (some v) w = read v
or_yaml none (some w) = read w
or_yaml none none = unread unreadable_text

unfoldable pub load_spec_text : Formats → String → Reading
load_spec_text formats text =
    if not (has_text text)
    then unread empty_text
    else if ltb max_spec_bytes (len text)
    then unread text_too_long
    else or_yaml (formats.json text) (formats.yaml text)

-- `sorted({nid for nid in ids if ids.count(nid) > 1})`
abbrev repeated : List String → List String
repeated [] = []
repeated (k ∷ ks) =
    let rest = repeated ks in
    if contains ks k then (if contains rest k then rest else k ∷ rest) else rest

abbrev repeated_errors : List String → List SpecError
repeated_errors [] = []
repeated_errors (k ∷ ks) = repeated_ids (sorted (k ∷ ks)) ∷ []

missing_dependencies : List String → String → List String → List SpecError
missing_dependencies known id [] = []
missing_dependencies known id (d ∷ ds) =
    error_unless (contains known d) (unknown_dependency id d) ++ missing_dependencies known id ds

pub dependency_errors : List String → List Node → List SpecError
unfolding missing_dependencies
dependency_errors known [] = []
dependency_errors known (n ∷ ns) =
    missing_dependencies known n.id n.depends_on ++ dependency_errors known ns

-- The list of the nodes, or [] with an error.
abbrev node_list : Option Value → Option (List Value)
node_list (some (arr vs)) = elim (items vs) [ [] ↦ none | w ∷ ws ↦ some (w ∷ ws) ]
node_list v = none

-- `raw.get("inputs", {})`
abbrev graph_inputs_of : Option Value → Option Fields
graph_inputs_of none = some end
graph_inputs_of (some (obj fs)) = some fs
graph_inputs_of (some v) = none

abbrev input_errors_of : Option Fields → List SpecError
input_errors_of none = bad_inputs ∷ []
input_errors_of (some fs) = error_unless (are_json_fields fs) inputs_not_json

abbrev top_level_errors : List String → List SpecError
top_level_errors [] = []
top_level_errors (k ∷ ks) = unknown_top_level (k ∷ ks) ∷ []

abbrev graph_id_of : Raw → Option String
graph_id_of raw = elim (text_of (lookup raw "graph_id")) [
  | none ↦ none
  | some s ↦ if is_graph_id s then some s else none
]

abbrev title_of : Raw → Option String
title_of raw =
    text_of
      (some (get_or (str (or_else "" (text_of (lookup raw "graph_id")))) (lookup raw "title")))

abbrev description_of : Raw → Option String
description_of raw = text_of (some (get_or (str "") (lookup raw "description")))

-- Up to the nodes.
abbrev header_errors : Raw → List SpecError
header_errors raw = concat (
    top_level_errors (sorted (keep (λ k. not (contains graph_fields k)) (keys raw)))
    ∷ error_unless (py_eq (get_or null (lookup raw "schema_version")) (int (pos 1)))
        bad_schema_version
    ∷ error_unless (is_some (graph_id_of raw)) bad_graph_id
    ∷ error_unless (is_some (title_of raw)) bad_title
    ∷ error_unless (is_some (description_of raw)) bad_description
    ∷ input_errors_of (graph_inputs_of (lookup raw "inputs"))
    ∷ [])

-- The nodes that are kept, with all errors; `none` where TypeError is raised.
pub data Nodes : Type 0 where
  normalized : List SpecError → List Node → Nodes
  raised : Nodes

abbrev with_node : ℕ → Option (Checked (Option Node)) → Nodes → Nodes
with_node index none rest = raised
with_node index (some first) raised = raised
with_node index (some first) (normalized errors ns) =
    normalized (map (in_node index) first.errors ++ errors)
      (elim first.value [ none ↦ ns | some n ↦ n ∷ ns ])

pub normalize_nodes : Regex → ℕ → List Value → Nodes
normalize_nodes re index [] = normalized [] []
normalize_nodes re index (v ∷ vs) =
    with_node index (normalize_node re v) (normalize_nodes re (suc index) vs)

abbrev node_count_errors : Option (List Value) → List SpecError
node_count_errors none = no_nodes ∷ []
node_count_errors (some vs) = error_unless (leb (length vs) max_nodes) too_many_nodes

-- All structural errors; the first of them decide whether a search for cycles is made.
abbrev pub structural_errors : Raw → List SpecError → List Node → List SpecError
structural_errors raw in_nodes ns = concat (
    header_errors raw
    ∷ node_count_errors (node_list (lookup raw "nodes"))
    ∷ in_nodes
    ∷ repeated_errors (repeated (node_ids ns))
    ∷ dependency_errors (node_ids ns) ns
    ∷ [])

-- Where one input of a node comes from.
abbrev pub declares : Option Node → String → Bool
declares none name = false
declares (some n) name = has n.outputs name

source_errors : Outputs → List Node → List String → String → String → Bool → Source → List SpecError
source_errors graph_inputs ns upstream id name required (graph_input key) =
    if has graph_inputs key
    then []
    else error_unless (not required) (missing_graph_input id name key)
source_errors graph_inputs ns upstream id name required (node_output src output) =
    if not (contains (node_ids ns) src)
    then unknown_source id name src ∷ []
    else if not (contains upstream src)
    then not_upstream id name src ∷ []
    else error_unless (declares (find (λ n. n.id == src) ns) output)
        (undeclared_source id name output)

node_source_errors :
    Outputs → List Node → List String → String → Table String InputSpec → List SpecError
unfolding source_errors source_of
node_source_errors graph_inputs ns upstream id [] = []
node_source_errors graph_inputs ns upstream id ((name, spec) ∷ t) =
    source_errors graph_inputs ns upstream id name spec.required (source_of spec.from)
    ++ node_source_errors graph_inputs ns upstream id t

abbrev join_errors : List SpecError → Option (List SpecError) → Option (List SpecError)
join_errors es none = none
join_errors es (some fs) = some (es ++ fs)

-- `none` where `ancestors` runs out of fuel.
pub wiring_errors : Outputs → List Node → List Node → Option (List SpecError)
unfolding node_source_errors
wiring_errors graph_inputs all_nodes [] = some []
wiring_errors graph_inputs all_nodes (n ∷ ns) =
    let rest = wiring_errors graph_inputs all_nodes ns in
    elim (ancestors all_nodes n.id) [
      | none ↦ none
      | some upstream ↦
          join_errors (node_source_errors graph_inputs all_nodes upstream n.id n.inputs) rest
    ]

abbrev missing_capabilities : Node → Executor → List String
missing_capabilities n ex = sorted (keep (λ c. not (contains ex.capabilities c)) n.requires)

abbrev lacking : Node → List String → List SpecError
lacking n [] = []
lacking n (c ∷ cs) = lacks_capability n.id (c ∷ cs) ∷ []

abbrev executor_errors : Node → Option Executor → List SpecError
executor_errors n none = executor_missing n.id n.executor ∷ []
executor_errors n (some ex) = lacking n (missing_capabilities n ex)

pub executor_problems : Env → List Node → List SpecError
executor_problems env [] = []
executor_problems env (n ∷ ns) =
    executor_errors n (catalog_get env n.executor) ++ executor_problems env ns

abbrev data_of : Raw → List Node → SpecData
data_of raw ns = record {
  graph_id = or_else "" (graph_id_of raw);
  title = or_else "" (title_of raw);
  description = or_else "" (description_of raw);
  inputs = entries (canonical_fields (or_else end (graph_inputs_of (lookup raw "inputs"))));
  nodes = ns;
}

module _ (env : Env) (formats : Formats) where
  abbrev pub spec_of : SpecData → List String → GraphSpec
  spec_of d order = record {
    graph_id = d.graph_id;
    title = d.title;
    description = d.description;
    inputs = d.inputs;
    nodes = d.nodes;
    order = order;
    digest = formats.digest_of d;
  }

  -- `GraphSpec(data=data, order=topological_order(nodes), digest=digest_of(data))`
  with_order : SpecData → Sorting → Admission
  with_order d (ordered ks) = admitted (spec_of d ks)
  with_order d cycle = rejected ErrorCode.dependency_cycle []
  with_order d out_of_fuel = stuck

  available : Raw → List Node → List SpecError → Admission
  unfolding with_order
  available raw ns (e ∷ es) = rejected ErrorCode.executor_unavailable (e ∷ es)
  available raw ns [] = with_order (data_of raw ns) (topological_order ns)

  wired : Raw → List Node → Option (List SpecError) → Admission
  unfolding available
  wired raw ns none = stuck
  wired raw ns (some (e ∷ es)) = rejected ErrorCode.graph_invalid (e ∷ es)
  wired raw ns (some []) = available raw ns (executor_problems env ns)

  abbrev graph_inputs : Raw → Outputs
  graph_inputs raw = entries (or_else end (graph_inputs_of (lookup raw "inputs")))

  acyclic : Raw → List Node → Search → Admission
  unfolding wired
  acyclic raw ns (found ks) = rejected ErrorCode.dependency_cycle (dependency_cycle ks ∷ [])
  acyclic raw ns exhausted = stuck
  acyclic raw ns (searched c) = wired raw ns (wiring_errors (graph_inputs raw) ns ns)

  well_formed : Raw → List Node → List SpecError → Admission
  unfolding acyclic
  well_formed raw ns (e ∷ es) = rejected ErrorCode.graph_invalid (e ∷ es)
  well_formed raw ns [] = acyclic raw ns (find_cycle ns)

  admit_nodes : Raw → Nodes → Admission
  unfolding well_formed
  admit_nodes raw raised = type_error
  admit_nodes raw (normalized in_nodes ns) = well_formed raw ns (structural_errors raw in_nodes ns)

  unfoldable pub admit_value : Value → Admission
  unfolding admit_nodes normalize_nodes dependency_errors missing_dependencies wiring_errors
      node_source_errors source_errors executor_problems
  admit_value (obj fs) =
      admit_nodes (entries fs)
        (normalize_nodes env.re 0 (or_else [] (node_list (lookup (entries fs) "nodes"))))
  admit_value v = rejected ErrorCode.graph_invalid (not_a_mapping ∷ [])

  abbrev admit_reading : Reading → Admission
  admit_reading (unread e) = rejected ErrorCode.graph_invalid (e ∷ [])
  admit_reading (read v) = admit_value v

  -- `admit`: a text is parsed first.
  unfoldable pub admit : Value → Admission
  unfolding admit_value
  admit (str text) = admit_reading (load_spec_text formats text)
  admit v = admit_value v
