-- ===== src/Admission/Admit/Known.antt =====
-- The check of ge_runtime/spec.py that each dependency is the id of a node.
use hermes_graph_engineering.Base.{
  ℕ, String, ◌≡◌, refl, sym, ◌∙◌, true, some, List, [], ◌∷◌, All, Table, lookup, insert, contains,
  lookup-insert, ◌==◌, string_eq, Bool-cases, inl, inr, ◌⊎◌,
}
use hermes_graph_engineering.Spec.{Node, node_ids}
use hermes_graph_engineering.Spec.Topology.{dependencies, dependencies_from}
use hermes_graph_engineering.Spec.Topology.Acyclic.{Ranked}
use hermes_graph_engineering.Admission.Errors.{unknown_dependency, error_unless}
use hermes_graph_engineering.Admission.Nodes.Governance.{append_nil, error_unless_nil}
use hermes_graph_engineering.Admission.Cycles.Correct.{Layered}
use hermes_graph_engineering.Admission.Admit.{missing_dependencies, dependency_errors}

-- Each dependency of the node is one of the ids.
pub record KnowsDeps (known : List String) (n : Node) : Type 0 where
  pub knows : (x : String) → contains n.depends_on x ≡ true → contains known x ≡ true

missing-nil :
    (known : List String) (id : String) (ds : List String)
    → missing_dependencies known id ds ≡ []
    → (x : String) → contains ds x ≡ true
    → contains known x ≡ true
unfolding missing_dependencies
missing-nil known id [] h x m = cc
missing-nil known id (d ∷ ds) h x m =
    let (here, rest) =
      append_nil (error_unless (contains known d) (unknown_dependency id d))
        (missing_dependencies known id ds) h in
    elim (Bool-cases (d == x)) [
      | inl same ↦
          let e : d ≡ x = (string_eq.equal_iff d x).0 same in
          let k : contains known d ≡ true =
            error_unless_nil (contains known d) (unknown_dependency id d) here in
          rw (← e) k
      | inr other ↦ missing-nil known id ds rest x (rw other at m)
    ]

pub dependency_errors-nil :
    (known : List String) (ns : List Node)
    → dependency_errors known ns ≡ []
    → All (KnowsDeps known) ns
unfolding dependency_errors
dependency_errors-nil known [] h = tt
dependency_errors-nil known (n ∷ ns) h =
    let (here, rest) =
      append_nil (missing_dependencies known n.id n.depends_on) (dependency_errors known ns) h in
    (
      record { knows = missing-nil known n.id n.depends_on here },
      dependency_errors-nil known ns rest,
    )

-- Where an entry of `dependencies` comes from.
pub dependencies-All :
    (P : Node → Type 0) (t : Table String (List String)) (ns : List Node)
    → All P ns
    → (k : String) (ds : List String) → lookup (dependencies_from t ns) k ≡ some ds
    → (lookup t k ≡ some ds) ⊎ ((n : Node) × P n × (n.id ≡ k) × (n.depends_on ≡ ds))
unfolding dependencies_from
dependencies-All P t [] all k ds e = inl e
dependencies-All P t (n ∷ ns) all k ds e =
    elim (dependencies-All P (insert t n.id n.depends_on) ns all.1 k ds e) [
      | inr later ↦ inr later
      | inl here ↦ elim (Bool-cases (n.id == k)) [
        | inl same ↦
            let e' : some n.depends_on ≡ some ds =
              sym (lookup-insert t n.id k n.depends_on ∙ rw same refl) ∙ here in
            inr (n, all.0, (string_eq.equal_iff n.id k).0 same, cc)
        | inr other ↦ inl (sym (lookup-insert t n.id k n.depends_on ∙ rw other refl) ∙ here)
      ]
    ]

-- An id has an entry in `dependencies`.
kept-entry :
    (t : Table String (List String)) (ns : List Node) (k : String) (ds : List String)
    → lookup t k ≡ some ds
    → (es : List String) × (lookup (dependencies_from t ns) k ≡ some es)
unfolding dependencies_from
kept-entry t [] k ds e = (ds, e)
kept-entry t (n ∷ ns) k ds e = elim (Bool-cases (n.id == k)) [
  | inl same ↦
      kept-entry (insert t n.id n.depends_on) ns k n.depends_on
        (lookup-insert t n.id k n.depends_on ∙ rw same refl)
  | inr other ↦
      kept-entry (insert t n.id n.depends_on) ns k ds
        (lookup-insert t n.id k n.depends_on ∙ rw other e)
]

pub dependencies-entry :
    (t : Table String (List String)) (ns : List Node) (k : String)
    → contains (node_ids ns) k ≡ true
    → (es : List String) × (lookup (dependencies_from t ns) k ≡ some es)
unfolding dependencies_from
dependencies-entry t [] k m = cc
dependencies-entry t (n ∷ ns) k m = elim (Bool-cases (n.id == k)) [
  | inl same ↦
      kept-entry (insert t n.id n.depends_on) ns k n.depends_on
        (lookup-insert t n.id k n.depends_on ∙ rw same refl)
  | inr other ↦ dependencies-entry (insert t n.id n.depends_on) ns k (rw other at m)
]

-- With known dependencies, a numbering that rises along them ranks the graph.
pub Layered-Ranked :
    (rank : String → ℕ) (ns : List Node)
    → All (KnowsDeps (node_ids ns)) ns
    → Layered rank (dependencies ns)
    → Ranked rank (dependencies ns)
unfolding dependencies
Layered-Ranked rank ns all layered = record {
  below = λ k ds e x m. elim (dependencies-All (KnowsDeps (node_ids ns)) [] ns all k ds e) [
    | inl nothing ↦ cc
    | inr (n, known, _, deps) ↦
        let m' : contains n.depends_on x ≡ true = rw deps m in
        let (es, there) = dependencies-entry [] ns x (known.knows x m') in
        (layered.lower k ds e x es m there, (es, there))
  ];
}
