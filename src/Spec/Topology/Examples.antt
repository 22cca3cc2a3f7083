-- ===== src/Spec/Topology/Examples.antt =====
-- The order of two nodes, at which the theorems on the topology are applied.
use hermes_graph_engineering.Base.{
  ◌↔◌, contains, ℕ, String, ◌≡◌, ◌≢◌, ◌||◌, refl, true, false, none, some, List, [], ◌∷◌, ◌==◌,
  string_eq, if◌then◌else◌, Bool-cases, inl, inr, ◌⊎◌, arith,
}
use hermes_graph_engineering.Spec.{Node, FailurePolicy}
use hermes_graph_engineering.Spec.Topology.{
  dependencies, dependencies_from, ordered, cycle, order_from, topological_order,
}
use hermes_graph_engineering.Spec.Ancestors.{ancestors}
use hermes_graph_engineering.Spec.Ancestors.Closure.{Above, ancestors-Above}
use hermes_graph_engineering.Spec.Topology.Total.{Topological, topological_order_total}
use hermes_graph_engineering.Spec.Topology.Acyclic.{Ranked, topological_order-Ranked}

abbrev named : String → List String → Node
named id depends_on = record {
  id = id;
  name = id;
  purpose = "";
  depends_on = depends_on;
  executor = "builtin";
  requires = [];
  operation = none;
  instructions = "";
  inputs = [];
  outputs = [];
  success_criteria = [];
  on_failure = FailurePolicy.stop;
  max_attempts = 1;
  idempotent = true;
  side_effects = false;
  gates = [];
  owner = "";
  rollback_boundary = none;
}

-- The second is declared first.
abbrev two_nodes : List Node
two_nodes = named "b" ("a" ∷ []) ∷ named "a" [] ∷ []

abbrev loop_nodes : List Node
loop_nodes = named "b" ("a" ∷ []) ∷ named "a" ("b" ∷ []) ∷ []

two_nodes_order : topological_order two_nodes ≡ ordered ("a" ∷ "b" ∷ [])
unfolding topological_order dependencies dependencies_from order_from
two_nodes_order = refl

loop_nodes_order : topological_order loop_nodes ≡ cycle
unfolding topological_order dependencies dependencies_from order_from
loop_nodes_order = refl

topological_order_total_example :
    (topological_order two_nodes ≡ cycle)
    ⊎ ((ks : List String) × (topological_order two_nodes ≡ ordered ks)
        × Topological (dependencies two_nodes) ks)
topological_order_total_example = topological_order_total two_nodes

abbrev rank : String → ℕ
rank k = if k == "b" then 1 else 0

two_nodes-Ranked : Ranked rank (dependencies two_nodes)
unfolding dependencies dependencies_from
two_nodes-Ranked = record {
  below = λ k ds at_k x m. elim (Bool-cases ("b" == k)) [
    | inl b ↦
        let e : some ("a" ∷ []) ≡ some ds = rw b at at_k in
        let same : "a" ∷ [] ≡ ds = cc in
        let m' : ("a" == x || false) ≡ true = rw (← same) at m in
        let kb : "b" ≡ k = (string_eq.equal_iff "b" k).0 b in
        let xa : "a" ≡ x = (string_eq.equal_iff "a" x).0 (ground arith) in
        rw (← kb, ← xa) (omega arith, ([], refl))
    | inr other ↦ elim (Bool-cases ("a" == k)) [
      | inl a ↦
          let e : some [] ≡ some ds = rw (other, a) at at_k in
          let same : [] ≡ ds = cc in let m' : false ≡ true = rw (← same) at m in cc
      | inr neither ↦ let e : none ≡ some ds = rw (other, neither) at at_k in cc
    ]
  ];
}

topological_order-Ranked_example : topological_order two_nodes ≢ cycle
topological_order-Ranked_example = topological_order-Ranked rank two_nodes two_nodes-Ranked

ancestors-two_nodes : ancestors two_nodes "b" ≡ some ("a" ∷ [])
unfolding ancestors dependencies dependencies_from
ancestors-two_nodes = refl

ancestors-Above_example :
    (r : List String) × (ancestors two_nodes "b" ≡ some r)
    × ((x : String) → (contains r x ≡ true) ↔ Above (dependencies two_nodes) "b" x)
ancestors-Above_example = ancestors-Above two_nodes "b"
