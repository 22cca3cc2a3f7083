-- ===== src/Admission/Admit/Shape.antt =====
-- The nodes of a spec that `admit` of ge_runtime/spec.py returns, and their order.
use mathlib.Core.Path.{subst}
use hermes_graph_engineering.Base.{
  ℕ, suc, String, string_eq, ◌≡◌, refl, sym, ap, ◌∙◌, true, Option, none, some, List, [], ◌∷◌, map,
  lookup, contains, distinct, inl, inr, All, Bool-cases,
}
use hermes_graph_engineering.Values.{Value}
use hermes_graph_engineering.Contracts.{Regex}
use hermes_graph_engineering.Engine.State.{Env}
use hermes_graph_engineering.Spec.{Node, GraphSpec, node_ids}
use hermes_graph_engineering.Spec.Topology.{dependencies, ordered, topological_order}
use hermes_graph_engineering.Spec.Topology.Listed.{Listed, topological_order-Listed}
use hermes_graph_engineering.Spec.Topology.Total.{Topological, topological_order_total}
use hermes_graph_engineering.Admission.Errors.{NodeError, Checked, SpecError, in_node}
use hermes_graph_engineering.Admission.Nodes.{normalize_node}
use hermes_graph_engineering.Admission.Nodes.Governance.{
  Governed, normalize_node-Governed, append_nil, concat_nil,
}
use hermes_graph_engineering.Admission.Admit.{
  Formats, admitted, Nodes, normalized, raised, with_node, normalize_nodes, node_list,
  header_errors, node_count_errors, repeated, repeated_errors, dependency_errors, admit,
}
use hermes_graph_engineering.Admission.Admit.Known.{KnowsDeps, dependency_errors-nil}
use hermes_graph_engineering.Admission.Admit.Facts.{admit-Passed}

map-nil {ℓ} : {A B : Type ℓ} (f : A → B) (xs : List A) → map f xs ≡ [] → xs ≡ []
map-nil f [] h = refl
map-nil f (x ∷ xs) h = cc

abbrev add_node : Option Node → List Node → List Node
add_node none ns = ns
add_node (some n) ns = n ∷ ns

-- One more node with no error, if the nodes have none.
with_node-Governed :
    (re : Regex) (index : ℕ) (v : Value) (o : Option (Checked (Option Node))) (rest : Nodes)
    (ns : List Node)
    → normalize_node re v ≡ o
    → ((ms : List Node) → rest ≡ normalized [] ms → All Governed ms)
    → with_node index o rest ≡ normalized [] ns
    → All Governed ns
with_node-Governed re index v none rest ns e again h = cc
with_node-Governed re index v (some first) raised ns e again h = cc
with_node-Governed re index v (some first) (normalized es ms) ns e again h =
    let (f, g) = parts _ _ _ _ h in
    let (here, later) = append_nil (map (in_node index) first.errors) es f in
    let none_here : first.errors ≡ [] = map-nil (in_node index) first.errors here in
    let all : All Governed ms = again ms (ap (λ l. normalized l ms) later) in
    add first.value first.errors none_here (e ∙ refl) all g
  where
    parts :
        (a b : List SpecError) (x y : List Node)
        → normalized a x ≡ normalized b y
        → (a ≡ b) × (x ≡ y)
    parts a b x y p = (cc, cc)

    add :
        (o : Option Node) (errors : List NodeError)
        → errors ≡ []
        → normalize_node re v ≡ some (record { errors = errors; value = o })
        → All Governed ms
        → (elim o as (λ x. List Node) [ none ↦ ms | some n ↦ n ∷ ms ]) ≡ ns
        → All Governed ns
    add none errors clean is all g = rw (← g) all
    add (some n) errors clean is all g =
        let is' : normalize_node re v ≡ some (record { errors = []; value = some n }) =
          subst
            (λ (es : List NodeError).
              normalize_node re v ≡ some (record { errors = es; value = some n }))
            clean is in
        rw (← g) (normalize_node-Governed re v n is', all)

normalize_nodes-Governed :
    (re : Regex) (index : ℕ) (vs : List Value) (ns : List Node)
    → normalize_nodes re index vs ≡ normalized [] ns
    → All Governed ns
unfolding normalize_nodes
normalize_nodes-Governed re index [] [] h = tt
normalize_nodes-Governed re index [] (n ∷ ns) h = cc
normalize_nodes-Governed re index (v ∷ vs) ns h =
    with_node-Governed re index v (normalize_node re v) (normalize_nodes re (suc index) vs) ns refl
      (normalize_nodes-Governed re (suc index) vs) h

repeated-nil : (ks : List String) → repeated ks ≡ [] → distinct ks ≡ true
repeated-nil [] h = refl
repeated-nil (k ∷ ks) h = elim (Bool-cases (contains ks k)) [
  | inl twice ↦ elim (Bool-cases (contains (repeated ks) k)) [
    | inl known ↦
        let none_left : repeated ks ≡ [] = rw (twice, known) at h in
        let m : contains [] k ≡ true =
          subst (λ (l : List String). contains l k ≡ true) none_left known in
        cc
    | inr new ↦ let e : k ∷ repeated ks ≡ [] = rw (twice, new) at h in cc
  ]
  | inr once ↦ let rest : repeated ks ≡ [] = rw once at h in rw (once, repeated-nil ks rest) refl
]

repeated_errors-nil : (ks : List String) → repeated_errors ks ≡ [] → ks ≡ []
repeated_errors-nil [] h = refl
repeated_errors-nil (k ∷ ks) h = cc

-- What is promised of the nodes of a spec and of its order.
pub record WellShaped (spec : GraphSpec) : Type 0 where
  pub governed : All Governed spec.nodes
  pub ids_differ : distinct (node_ids spec.nodes) ≡ true
  pub deps_known : All (KnowsDeps (node_ids spec.nodes)) spec.nodes
  pub in_order : Topological (dependencies spec.nodes) spec.order
  pub listed : Listed (dependencies spec.nodes) spec.order

sorted-Topological :
    (ns : List Node) (ks : List String)
    → topological_order ns ≡ ordered ks
    → Topological (dependencies ns) ks
sorted-Topological ns ks e = elim (topological_order_total ns) [
  | inl c ↦ cc
  | inr (js, f, t) ↦
      let same : js ≡ ks = ordered_inj js ks (sym f ∙ e) in
      subst (λ (l : List String). Topological (dependencies ns) l) same t
]
  where
    ordered_inj : (a b : List String) → ordered a ≡ ordered b → a ≡ b
    ordered_inj a b p = cc

-- In a spec that `admit` returns each node keeps the governance invariants; the ids are distinct;
-- each dependency is the id of a node; and the order has every id of a node once and no other, each
-- after its dependencies.
pub admit-WellShaped :
    (env : Env) (formats : Formats) (v : Value) (spec : GraphSpec)
    → admit env formats v ≡ admitted spec
    → WellShaped spec
admit-WellShaped env formats v spec h =
    let p = admit-Passed env formats spec v h in
    let parts =
      concat_nil
        (header_errors p.raw
          ∷ node_count_errors (node_list (lookup p.raw "nodes"))
          ∷ p.in_nodes
          ∷ repeated_errors (repeated (node_ids p.ns))
          ∷ dependency_errors (node_ids p.ns) p.ns
          ∷ [])
        p.structural in
    let normal = p.normal ∙ ap (λ es. normalized es p.ns) parts.1.1.0 in
    let nodes : p.ns ≡ spec.nodes = sym (ap (λ (s : GraphSpec). s.nodes) p.is_spec) in
    let order : p.order ≡ spec.order = sym (ap (λ (s : GraphSpec). s.order) p.is_spec) in
    record {
      governed =
          subst (λ (ns : List Node). All Governed ns) nodes
            (normalize_nodes-Governed env.re 0 _ p.ns normal);
      ids_differ =
          subst (λ (ns : List Node). distinct (node_ids ns) ≡ true) nodes
            (repeated-nil (node_ids p.ns) (repeated_errors-nil _ parts.1.1.1.0));
      deps_known =
          subst (λ (ns : List Node). All (KnowsDeps (node_ids ns)) ns) nodes
            (dependency_errors-nil (node_ids p.ns) p.ns parts.1.1.1.1.0);
      in_order =
          subst (λ (ns : List Node). Topological (dependencies ns) spec.order) nodes
            (subst (λ (ks : List String). Topological (dependencies p.ns) ks) order
              (sorted-Topological p.ns p.order p.sorted));
      listed =
          subst (λ (ns : List Node). Listed (dependencies ns) spec.order) nodes
            (subst (λ (ks : List String). Listed (dependencies p.ns) ks) order
              (topological_order-Listed p.ns p.order p.sorted));
    }
