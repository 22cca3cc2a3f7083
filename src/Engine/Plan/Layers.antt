-- ===== src/Engine/Plan/Layers.antt =====
-- The depths of the nodes in `plan_view` of ge_runtime/engine.py.
use hermes_graph_engineering.Base.{
  sym, ℕ, suc, ◌<◌, String, string_eq, ◌≡◌, refl, ◌∙◌, ◌||◌, Bool, true, false, some, List, [], ◌∷◌,
  Table, lookup, insert, contains, distinct, lookup-insert, ◌==◌, ==_refl, leb, if◌then◌else◌,
  Bool-cases, inl, inr, arith,
}
use hermes_graph_engineering.Spec.{Node, GraphSpec, node}
use hermes_graph_engineering.Spec.Topology.{dependencies}
use hermes_graph_engineering.Spec.Topology.Order.{InOrder}
use hermes_graph_engineering.Spec.Topology.Listed.{dependencies-found, dependencies-node}
use hermes_graph_engineering.Admission.Admit.Shape.{WellShaped}
use hermes_graph_engineering.Engine.Plan.{deepest, depths_from, depths}

abbrev Depths : Type 0
Depths = Table String ℕ

-- Every one of the ids has a depth.
abbrev Deep : Depths → List String → Type 0
Deep t ks = (x : String) → contains ks x ≡ true → (d : ℕ) × (lookup t x ≡ some d)

-- The depth is above those of all dependencies.
deepest-above :
    (t : Depths) (ds : List String)
    → Deep t ds
    → (m : ℕ) × (deepest t ds ≡ some m)
      × ((x : String) (b : ℕ) → contains ds x ≡ true → lookup t x ≡ some b → b < m)
unfolding deepest
deepest-above t [] h = (0, refl, λ x b m e. cc)
deepest-above t (d ∷ ds) h =
    let (a, at_d) = h d (rw ==_refl refl) in
    let (m, e, above) = deepest-above t ds (λ x p. h x (ground arith)) in
    (
      if leb (suc a) m then m else suc a,
      rw (at_d, e, deepest) refl,
      λ x b p at_x. elim (Bool-cases (d == x)) [
        | inl same ↦
            let is : d ≡ x = (string_eq.equal_iff d x).0 same in let ab : a ≡ b = cc in ground arith
        | inr other ↦ let low : b < m = above x b (rw other at p) at_x in ground arith
      ],
    )

-- Every dependency of a node that has been gone through has a lower depth.
pub record Lowered (spec : GraphSpec) (seen : List String) (t : Depths) : Type 0 where
  pub deep : (x : String) → contains seen x ≡ true → (d : ℕ) × (lookup t x ≡ some d)
  pub lower :
      (k : String) (n : Node)
      → contains seen k ≡ true
      → node spec k ≡ some n
      → (x : String) → contains n.depends_on x ≡ true
      → (contains seen x ≡ true)
        × ((a : ℕ) × (b : ℕ) × (lookup t k ≡ some a) × (lookup t x ≡ some b) × (b < a))

module _ (spec : GraphSpec) (shape : WellShaped spec) where
  add-Lowered :
      (seen : List String) (t : Depths) (k : String) (n : Node) (m : ℕ)
      → Lowered spec seen t
      → contains seen k ≡ false
      → node spec k ≡ some n
      → ((x : String) → contains n.depends_on x ≡ true → contains seen x ≡ true)
      → ((x : String) (b : ℕ) → contains n.depends_on x ≡ true → lookup t x ≡ some b → b < m)
      → Lowered spec (k ∷ seen) (insert t k m)
  add-Lowered seen t k n m g fresh at_k before above = record {
    deep = λ x p. elim (Bool-cases (k == x)) [
      | inl same ↦ (m, lookup-insert t k x m ∙ rw same refl)
      | inr other ↦ let (d, e) = g.deep x (rw other at p) in (d, lookup-insert t k x m ∙ rw other e)
    ];
    lower = λ j o p at_j x q. elim (Bool-cases (k == j)) [
      | inl same ↦
          let is : k ≡ j = (string_eq.equal_iff k j).0 same in
          let on : n ≡ o = cc in
          let q' : contains n.depends_on x ≡ true = rw on q in
          let (b, e) = g.deep x (before x q') in
          (
            rw (before x q') (ground arith),
            (
              m,
              b,
              lookup-insert t k j m ∙ rw same refl,
              lookup-insert t k x m ∙ rw (apart x (before x q')) e,
              above x b q' e,
            ),
          )
      | inr other ↦
          let (in_seen, (a, b, e, f, low)) = g.lower j o (rw other at p) at_j x q in
          (
            rw in_seen (ground arith),
            (
              a,
              b,
              lookup-insert t k j m ∙ rw other e,
              lookup-insert t k x m ∙ rw (apart x in_seen) f,
              low,
            ),
          )
    ];
  }
    where
      apart : (x : String) → contains seen x ≡ true → (k == x) ≡ false
      apart x p = elim (Bool-cases (k == x)) [
        | inl same ↦
            let is : k ≡ x = (string_eq.equal_iff k x).0 same in
            let p' : contains seen k ≡ true = rw is p in cc
        | inr other ↦ other
      ]

  -- The ids that are left are new, known, and come after their dependencies.
  depths_from-Lowered :
      (seen ks : List String) (t : Depths)
      → Lowered spec seen t
      → InOrder (dependencies spec.nodes) seen ks
      → distinct ks ≡ true
      → ((x : String) → contains ks x ≡ true → contains seen x ≡ false)
      → ((x : String) → contains ks x ≡ true → (n : Node) × (node spec x ≡ some n))
      → (u : Depths) × (depths_from spec t ks ≡ some u)
        × ((all : List String) × Lowered spec all u
            × ((x : String) → contains all x ≡ (contains seen x || contains ks x)))
  unfolding depths_from
  depths_from-Lowered seen [] t g o d fresh known = (t, refl, (seen, g, λ x. ground arith))
  depths_from-Lowered seen (k ∷ ks) t g o d fresh known =
      let (n, at_k) = known k (rw ==_refl refl) in
      let entry = dependencies-found spec.nodes k n shape.ids_differ at_k in
      let before = o.0 n.depends_on entry in
      let (m, e, above) = deepest-above t n.depends_on (λ x p. g.deep x (before x p)) in
      let new : contains seen k ≡ false = fresh k (rw ==_refl refl) in
      let g' = add-Lowered seen t k n m g new at_k before above in
      let once : contains ks k ≡ false = ground arith in
      let (u, f, (all, h, same)) =
        depths_from-Lowered (k ∷ seen) ks (insert t k m) g' o.1 (ground arith)
          (λ x p. later x p once (fresh x (ground arith))) (λ x p. known x (ground arith)) in
      (
        u,
        rw (at_k, e, depths_from) f,
        (all, h, λ x. same x ∙ shuffle (k == x) (contains seen x) (contains ks x)),
      )
    where
      later :
          (x : String)
          → contains ks x ≡ true
          → contains ks k ≡ false
          → contains seen x ≡ false
          → contains (k ∷ seen) x ≡ false
      later x p once old = elim (Bool-cases (k == x)) [
        | inl is ↦
            let e : k ≡ x = (string_eq.equal_iff k x).0 is in
            let p' : contains ks k ≡ true = rw e p in cc
        | inr other ↦ rw (other, old) refl
      ]

      shuffle : (a b c : Bool) → ((a || b) || c) ≡ (b || (a || c))
      shuffle a b c = ground arith

-- The depths of a spec with the shape of an admitted one: each node of the spec has one, and it is
-- above the depth of each dependency; all of these ids are in the order.
pub depths-Lowered :
    (spec : GraphSpec)
    → WellShaped spec
    → (t : Table String ℕ) × (depths spec ≡ some t)
      × ((k : String) (n : Node)
          → node spec k ≡ some n
          → (contains spec.order k ≡ true)
            × ((a : ℕ) × (lookup t k ≡ some a))
            × ((x : String)
                → contains n.depends_on x ≡ true
                → (contains spec.order x ≡ true)
                  × ((a : ℕ) × (b : ℕ) × (lookup t k ≡ some a) × (lookup t x ≡ some b) × (b < a))))
unfolding depths
depths-Lowered spec shape =
    let empty : Lowered spec [] [] = record { deep = λ x p. cc; lower = λ k n p e x q. cc } in
    let (t, e, (all, g, same)) =
      depths_from-Lowered spec shape [] spec.order [] empty shape.in_order.in_order
        shape.listed.once (λ x p. refl)
        (λ x p. let (ds, f) = shape.listed.known x p in dependencies-node spec.nodes x ds f) in
    (
      t,
      e,
      λ k n at_k.
          let entry = dependencies-found spec.nodes k n shape.ids_differ at_k in
          let listed = shape.in_order.complete k n.depends_on entry in
          let seen = same k ∙ listed in
          (
            listed,
            g.deep k seen,
            λ x p. let (x_seen, low) = g.lower k n seen at_k x p in (sym (same x) ∙ x_seen, low),
          ),
    )
