-- ===== src/Admission/Admit/Outcome.antt =====
-- What `admit` of ge_runtime/spec.py ends with.
use hermes_graph_engineering.Base.{
  ℕ, String, string_eq, ◌≡◌, ◌≢◌, refl, some, List, [], ◌∷◌, ◌++◌, lookup, inl, inr,
}
use hermes_graph_engineering.Values.{Value, null, bool, int, float, str, obj, arr, entries}
use hermes_graph_engineering.Contracts.{Outputs}
use hermes_graph_engineering.Engine.State.{Env}
use hermes_graph_engineering.Spec.{Node, node_ids}
use hermes_graph_engineering.Spec.Topology.{dependencies, cycle, topological_order}
use hermes_graph_engineering.Spec.Topology.Total.{topological_order_total}
use hermes_graph_engineering.Spec.Topology.Acyclic.{topological_order-Ranked}
use hermes_graph_engineering.Spec.Ancestors.Closure.{ancestors-Above}
use hermes_graph_engineering.Admission.Errors.{SpecError}
use hermes_graph_engineering.Admission.Fields.{Raw, or_else}
use hermes_graph_engineering.Admission.Nodes.Governance.{concat_nil}
use hermes_graph_engineering.Admission.Cycles.{find_cycle}
use hermes_graph_engineering.Admission.Cycles.Correct.{Layered, find_cycle_total}
use hermes_graph_engineering.Admission.Admit.{
  Formats, Admission, admitted, rejected, type_error, stuck, Reading, read, unread, load_spec_text,
  admit_reading, Nodes, normalized, raised, normalize_nodes, node_list, structural_errors,
  header_errors, node_count_errors, repeated, repeated_errors, dependency_errors,
  node_source_errors, wiring_errors, executor_problems, with_order, available, wired, graph_inputs,
  acyclic, well_formed, admit_nodes, admit_value, admit,
}
use hermes_graph_engineering.Admission.Admit.Known.{dependency_errors-nil, Layered-Ranked}

-- A spec, at least one error, or a TypeError.
abbrev pub Decided : Admission → Type 0
Decided (admitted spec) = Unit
Decided (rejected code errors) = errors ≢ []
Decided type_error = Unit
Decided stuck = ⊥

some-errors : (e : SpecError) (es : List SpecError) → e ∷ es ≢ []
some-errors e es h = cc

wiring_errors_total :
    (graph_inputs : Outputs) (all_nodes ns : List Node)
    → (es : List SpecError) × (wiring_errors graph_inputs all_nodes ns ≡ some es)
unfolding wiring_errors
wiring_errors_total graph_inputs all_nodes [] = ([], refl)
wiring_errors_total graph_inputs all_nodes (n ∷ ns) =
    let (upstream, e, _) = ancestors-Above all_nodes n.id in
    let (es, rest) = wiring_errors_total graph_inputs all_nodes ns in
    (
      node_source_errors graph_inputs all_nodes upstream n.id n.inputs ++ es,
      rw (e, rest, wiring_errors) refl,
    )

module _ (env : Env) (formats : Formats) (raw : Raw) (ns : List Node) where
  available-Decided :
      topological_order ns ≢ cycle
      → (es : List SpecError) → Decided (available env formats raw ns es)
  unfolding available with_order
  available-Decided acyclic (e ∷ es) = some-errors e es
  available-Decided acyclic [] = elim (topological_order_total ns) [
    | inl c ↦ absurd (acyclic c)
    | inr (ks, e, _) ↦ rw e tt
  ]

  wired-Decided :
      topological_order ns ≢ cycle
      → (es : List SpecError) → Decided (wired env formats raw ns (some es))
  unfolding wired
  wired-Decided acyclic (e ∷ es) = some-errors e es
  wired-Decided acyclic [] = available-Decided acyclic (executor_problems env ns)

  -- After the structural errors: no dependency is unknown.
  no_cycle :
      (in_nodes : List SpecError)
      → structural_errors raw in_nodes ns ≡ []
      → (c : (rank : String → ℕ) × Layered rank (dependencies ns)) → topological_order ns ≢ cycle
  no_cycle in_nodes clean (rank, layered) =
      let parts =
        concat_nil
          (header_errors raw
            ∷ node_count_errors (node_list (lookup raw "nodes"))
            ∷ in_nodes
            ∷ repeated_errors (repeated (node_ids ns))
            ∷ dependency_errors (node_ids ns) ns
            ∷ [])
          clean in
      topological_order-Ranked rank ns
        (Layered-Ranked rank ns (dependency_errors-nil (node_ids ns) ns parts.1.1.1.1.0) layered)

  acyclic-Decided :
      (in_nodes : List SpecError)
      → structural_errors raw in_nodes ns ≡ []
      → Decided (acyclic env formats raw ns (find_cycle ns))
  unfolding acyclic
  acyclic-Decided in_nodes clean = elim (find_cycle_total ns) [
    | inl (ks, e, _) ↦ rw e (some-errors _ _)
    | inr (c, e, ranked) ↦
        let (es, wiring) = wiring_errors_total (graph_inputs env formats raw) ns ns in
        rw (e, wiring) (wired-Decided (no_cycle in_nodes clean ranked) es)
  ]

  well_formed-Decided :
      (in_nodes es : List SpecError)
      → structural_errors raw in_nodes ns ≡ es
      → Decided (well_formed env formats raw ns es)
  unfolding well_formed
  well_formed-Decided in_nodes [] clean = acyclic-Decided in_nodes clean
  well_formed-Decided in_nodes (e ∷ es) clean = some-errors e es

module _ (env : Env) (formats : Formats) where
  admit_nodes-Decided : (raw : Raw) (r : Nodes) → Decided (admit_nodes env formats raw r)
  unfolding admit_nodes
  admit_nodes-Decided raw raised = tt
  admit_nodes-Decided raw (normalized in_nodes ns) =
      well_formed-Decided env formats raw ns in_nodes (structural_errors raw in_nodes ns) refl

  admit_value-Decided : (v : Value) → Decided (admit_value env formats v)
  unfolding admit_value
  admit_value-Decided (obj fs) =
      admit_nodes-Decided (entries fs)
        (normalize_nodes env.re 0 (or_else [] (node_list (lookup (entries fs) "nodes"))))
  admit_value-Decided null = some-errors _ _
  admit_value-Decided (bool b) = some-errors _ _
  admit_value-Decided (int n) = some-errors _ _
  admit_value-Decided (float f) = some-errors _ _
  admit_value-Decided (str s) = some-errors _ _
  admit_value-Decided (arr vs) = some-errors _ _

  admit_reading-Decided : (r : Reading) → Decided (admit_reading env formats r)
  admit_reading-Decided (read v) = admit_value-Decided v
  admit_reading-Decided (unread e) = some-errors e []

  -- `admit` always ends: with a spec, with an error code and at least one problem, or with the
  -- TypeError of a value that has no hash. No loop in it runs out of fuel, and the cycle that
  -- `topological_order` reports is never met, since `find_cycle` has excluded it.
  pub admit-Decided : (v : Value) → Decided (admit env formats v)
  unfolding admit
  admit-Decided (str text) = admit_reading-Decided (load_spec_text formats text)
  admit-Decided (obj fs) = admit_value-Decided (obj fs)
  admit-Decided null = admit_value-Decided null
  admit-Decided (bool b) = admit_value-Decided (bool b)
  admit-Decided (int n) = admit_value-Decided (int n)
  admit-Decided (float f) = admit_value-Decided (float f)
  admit-Decided (arr vs) = admit_value-Decided (arr vs)
