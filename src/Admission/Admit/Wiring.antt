-- ===== src/Admission/Admit/Wiring.antt =====
-- The inputs of the nodes of a spec that `admit` of ge_runtime/spec.py returns.
use mathlib.Core.Path.{subst}
use hermes_graph_engineering.Base.{
  String, string_eq, ◌≡◌, refl, sym, ap, ◌∙◌, not, true, false, Bool, Option, none, some, List, [],
  ◌∷◌, lookup, has, find, contains, inl, inr, ◌⊎◌, arith, All, Table, Bool-cases, ◌==◌,
}
use hermes_graph_engineering.Values.{Value, Fields, end, entries}
use hermes_graph_engineering.Contracts.{Outputs}
use hermes_graph_engineering.Engine.State.{Env}
use hermes_graph_engineering.Spec.{
  InputSpec, Node, GraphSpec, node_ids, Source, graph_input, node_output, source_of,
}
use hermes_graph_engineering.Spec.Topology.{dependencies}
use hermes_graph_engineering.Spec.Ancestors.{ancestors}
use hermes_graph_engineering.Spec.Ancestors.Closure.{Above, ancestors-Above}
use hermes_graph_engineering.Admission.Errors.{
  SpecError, missing_graph_input, unknown_source, not_upstream, undeclared_source, error_unless,
}
use hermes_graph_engineering.Admission.Fields.{or_else}
use hermes_graph_engineering.Admission.Json.{canonical_fields, has-canonical_fields}
use hermes_graph_engineering.Admission.Nodes.Governance.{append_nil, error_unless_nil}
use hermes_graph_engineering.Admission.Admit.{
  Formats, admitted, declares, source_errors, node_source_errors, join_errors, wiring_errors, admit,
  graph_inputs_of,
}
use hermes_graph_engineering.Admission.Admit.Facts.{admit-Passed}

-- An input has its source: an input of the graph, if it is required; or a declared output of a node
-- that comes before.
abbrev pub Fed : Outputs → List Node → String → Bool → Source → Type 0
Fed inputs ns id required (graph_input key) = (has inputs key ≡ true) ⊎ (required ≡ false)
Fed inputs ns id required (node_output src output) =
    Above (dependencies ns) id src
    × ((m : Node) × (find (λ n. n.id == src) ns ≡ some m) × (has m.outputs output ≡ true))

abbrev pub InputsFed : Outputs → List Node → Node → Type 0
InputsFed inputs ns n =
    All (λ (e : String × InputSpec). Fed inputs ns n.id e.1.required (source_of e.1.from)) n.inputs

declares-some :
    (o : Option Node) (output : String)
    → declares o output ≡ true
    → (m : Node) × (o ≡ some m) × (has m.outputs output ≡ true)
declares-some none output h = cc
declares-some (some m) output h = (m, refl, h)

source_errors-Fed :
    (inputs : Outputs) (ns : List Node) (upstream : List String) (id name : String)
    (required : Bool) (s : Source)
    → ((x : String) → contains upstream x ≡ true → Above (dependencies ns) id x)
    → source_errors inputs ns upstream id name required s ≡ []
    → Fed inputs ns id required s
unfolding source_errors
source_errors-Fed inputs ns upstream id name required (graph_input key) above h =
    elim (Bool-cases (has inputs key)) [
      | inl there ↦ inl there
      | inr missing ↦
          let h' : error_unless (not required) (missing_graph_input id name key) ≡ [] =
            rw missing at h in
          let e = error_unless_nil (not required) (missing_graph_input id name key) h' in
          inr (ground arith)
    ]
source_errors-Fed inputs ns upstream id name required (node_output src output) above h =
    elim (Bool-cases (contains (node_ids ns) src)) [
      | inr missing ↦ let h' : unknown_source id name src ∷ [] ≡ [] = rw missing at h in cc
      | inl known ↦ elim (Bool-cases (contains upstream src)) [
        | inr apart ↦ let h' : not_upstream id name src ∷ [] ≡ [] = rw (known, apart) at h in cc
        | inl before ↦
            let h' : error_unless (declares (find (λ n. n.id == src) ns) output)
                  (undeclared_source id name output)
                ≡ [] =
              rw (known, before) at h in
            (
              above src before,
              declares-some (find (λ n. n.id == src) ns) output (
                  error_unless_nil (declares (find (λ n. n.id == src) ns) output)
                    (undeclared_source id name output) h'),
            )
      ]
    ]

node_source_errors-Fed :
    (inputs : Outputs) (ns : List Node) (upstream : List String) (id : String)
    (t : Table String InputSpec)
    → ((x : String) → contains upstream x ≡ true → Above (dependencies ns) id x)
    → node_source_errors inputs ns upstream id t ≡ []
    → All (λ (e : String × InputSpec). Fed inputs ns id e.1.required (source_of e.1.from)) t
unfolding node_source_errors
node_source_errors-Fed inputs ns upstream id [] above h = tt
node_source_errors-Fed inputs ns upstream id ((name, spec) ∷ t) above h =
    let (here, rest) =
      append_nil (source_errors inputs ns upstream id name spec.required (source_of spec.from))
        (node_source_errors inputs ns upstream id t) h in
    (
      source_errors-Fed inputs ns upstream id name spec.required (source_of spec.from) above here,
      node_source_errors-Fed inputs ns upstream id t above rest,
    )

wiring_errors-Fed :
    (inputs : Outputs) (all_nodes ns : List Node)
    → wiring_errors inputs all_nodes ns ≡ some []
    → All (InputsFed inputs all_nodes) ns
unfolding wiring_errors
wiring_errors-Fed inputs all_nodes [] h = tt
wiring_errors-Fed inputs all_nodes (n ∷ ns) h =
    at_ancestors (ancestors all_nodes n.id) refl (wiring_errors-Fed inputs all_nodes ns) h
  where
    at_rest :
        (es : List SpecError) (o : Option (List SpecError))
        → join_errors es o ≡ some []
        → (es ≡ []) × (o ≡ some [])
    at_rest es none e = cc
    at_rest es (some fs) e = let (f, g) = append_nil es fs (cc) in (f, ap some g)

    at_ancestors :
        (o : Option (List String))
        → ancestors all_nodes n.id ≡ o
        → (wiring_errors inputs all_nodes ns ≡ some [] → All (InputsFed inputs all_nodes) ns)
        → (elim o as (λ x. Option (List SpecError)) [
          | none ↦ none
          | some upstream ↦
              join_errors
                (node_source_errors inputs all_nodes upstream n.id n.inputs)
                (wiring_errors inputs all_nodes ns)
        ])
          ≡ some []
        → All (InputsFed inputs all_nodes) (n ∷ ns)
    at_ancestors none is again e = cc
    at_ancestors (some upstream) is again e =
        let (here, rest) =
          at_rest (node_source_errors inputs all_nodes upstream n.id n.inputs)
            (wiring_errors inputs all_nodes ns) e in
        let (r, f, members) = ancestors-Above all_nodes n.id in
        let same : r ≡ upstream = cc in
        (
          node_source_errors-Fed inputs all_nodes upstream n.id n.inputs
              (λ x m. (members x).0 (subst (λ (l : List String). contains l x ≡ true) (sym same) m))
              here,
          again rest,
        )

-- The inputs of the graph are read from the raw spec and kept in canonical order.
Fed-canonical :
    (fs : Fields) (ns : List Node) (id : String) (required : Bool) (s : Source)
    → Fed (entries fs) ns id required s
    → Fed (entries (canonical_fields fs)) ns id required s
Fed-canonical fs ns id required (graph_input key) (inl h) = inl (has-canonical_fields fs key ∙ h)
Fed-canonical fs ns id required (graph_input key) (inr h) = inr h
Fed-canonical fs ns id required (node_output src output) h = h

All-map {ℓ κ} :
    {A : Type ℓ} (P Q : A → Type κ) → ((a : A) → P a → Q a) → (xs : List A) → All P xs → All Q xs
All-map P Q f [] h = tt
All-map P Q f (x ∷ xs) h = (f x h.0, All-map P Q f xs h.1)

-- In a spec that `admit` returns each input of each node has its source: an input of the graph that
-- is there, or need not be; or an output that is declared by a node that the node waits for,
-- directly or through other nodes.
pub admit-InputsFed :
    (env : Env) (formats : Formats) (v : Value) (spec : GraphSpec)
    → admit env formats v ≡ admitted spec
    → All (InputsFed spec.inputs spec.nodes) spec.nodes
admit-InputsFed env formats v spec h =
    let p = admit-Passed env formats spec v h in
    let fs = or_else end (graph_inputs_of (lookup p.raw "inputs")) in
    let nodes : p.ns ≡ spec.nodes = sym (ap (λ (s : GraphSpec). s.nodes) p.is_spec) in
    let inputs : entries (canonical_fields fs) ≡ spec.inputs =
      sym (ap (λ (s : GraphSpec). s.inputs) p.is_spec) in
    let fed : All (InputsFed (entries (canonical_fields fs)) p.ns) p.ns =
      All-map (InputsFed (entries fs) p.ns) (InputsFed (entries (canonical_fields fs)) p.ns)
        (λ n.
          All-map _ _ (λ e. Fed-canonical fs p.ns n.id e.1.required (source_of e.1.from)) n.inputs)
        p.ns (wiring_errors-Fed (entries fs) p.ns p.ns p.wiring) in
    subst (λ (t : Outputs). All (InputsFed t spec.nodes) spec.nodes) inputs
      (subst (λ (ns : List Node). All (InputsFed (entries (canonical_fields fs)) ns) ns) nodes fed)
