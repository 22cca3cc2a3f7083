-- ===== src/Spec/Topology/Listed.antt =====
-- The ids that `topological_order` of ge_runtime/spec.py lists.
use hermes_graph_engineering.Base.{
  ap, keys, keep, ℕ, zero, suc, String, ◌≡◌, refl, Bool, true, false, Option, none, some, List, [],
  ◌∷◌, lookup, insert, find, contains, distinct, lookup-insert, sym, ◌⊎◌, ◌∙◌, ◌==◌, ==_refl,
  string_eq, Bool-cases, inl, inr, arith,
}
use hermes_graph_engineering.Spec.{Node, node_ids}
use hermes_graph_engineering.Spec.Topology.{
  dependencies, dependencies_from, ready_ids, is_free, without, Sorting, ordered, cycle,
  out_of_fuel, prepend, order_from, topological_order,
}
use hermes_graph_engineering.Spec.Topology.Order.{Deps, without-found}

-- Each id of the list is one of the graph, and none stands twice.
pub record Listed (t : Deps) (ks : List String) : Type 0 where
  pub known : (k : String) → contains ks k ≡ true → (ds : List String) × (lookup t k ≡ some ds)
  pub once : distinct ks ≡ true

-- `contains` answers what membership refutes.
absent : (ks : List String) (c : String) → (contains ks c ≡ true → ⊥) → contains ks c ≡ false
absent ks c h = elim (Bool-cases (contains ks c)) [ inl m ↦ absurd (h m) | inr n ↦ n ]

add-Listed :
    (t : Deps) (c : String) (ds : List String) (ks : List String)
    → lookup t c ≡ some ds
    → Listed (without c t) ks
    → Listed t (c ∷ ks)
add-Listed t c ds ks at_c rest = record {
  known = λ k m. elim (Bool-cases (c == k)) [
    | inl same ↦ (ds, rw (← (string_eq.equal_iff c k).0 same) at_c)
    | inr other ↦
        let (es, e) = rest.known k (rw other at m) in
        let (_, (old, found, _)) = without-found c t k es e in (old, found)
  ];
  once =
      let new = absent ks c (λ m.
        let (es, e) = rest.known c m in
        let (other, _) = without-found c t c es e in
        let same : (c == c) ≡ true = ==_refl c in cc (other, same)) in
      rw (new, rest.once) refl;
}

prepend-inv :
    (c : String) (r : Sorting) (ks : List String)
    → prepend c r ≡ ordered ks
    → (js : List String) × (r ≡ ordered js) × (c ∷ js ≡ ks)
prepend-inv c (ordered js) ks e = (js, refl, cc)
prepend-inv c cycle ks e = cc
prepend-inv c out_of_fuel ks e = cc

keep-found :
    (p : String → Bool) (xs : List String) (c : String) (rest : List String)
    → keep p xs ≡ c ∷ rest
    → p c ≡ true
keep-found p [] c rest e = cc
keep-found p (x ∷ xs) c rest e = elim (Bool-cases (p x)) [
  | inl yes_p ↦
      let e' : x ∷ keep p xs ≡ c ∷ rest = rw yes_p at e in
      let same : x ≡ c = cc in rw (← same) yes_p
  | inr no_p ↦ keep-found p xs c rest (rw no_p at e)
]

free-entry : (o : Option (List String)) → is_free o ≡ true → (ds : List String) × (o ≡ some ds)
free-entry none h = cc
free-entry (some ds) h = (ds, refl)

order_from-Listed :
    (fuel : ℕ) (t : Deps) (ks : List String) → order_from fuel t ≡ ordered ks → Listed t ks
unfolding order_from
order_from-Listed fuel [] [] e = record { known = λ k m. cc; once = refl }
order_from-Listed fuel [] (k ∷ ks) e = cc
order_from-Listed zero (v ∷ t) ks e = cc
order_from-Listed (suc fuel) (v ∷ t) ks e =
    at_ready (λ c ks'. order_from-Listed fuel (without c (v ∷ t)) ks') (ready_ids (v ∷ t)) refl e
  where
    at_ready :
        ((c : String) (ks' : List String)
          → order_from fuel (without c (v ∷ t)) ≡ ordered ks'
          → Listed (without c (v ∷ t)) ks')
        → (r : List String) → ready_ids (v ∷ t) ≡ r
        → (elim r as (λ x. Sorting) [
          | [] ↦ cycle
          | current ∷ rest ↦ prepend current (order_from fuel (without current (v ∷ t)))
        ])
          ≡ ordered ks
        → Listed (v ∷ t) ks
    at_ready again [] is e = cc
    at_ready again (c ∷ rest) is e =
        let (js, f, g) = prepend-inv c (order_from fuel (without c (v ∷ t))) ks e in
        let free = keep-found (λ k. is_free (lookup (v ∷ t) k)) (keys (v ∷ t)) c rest is in
        let (ds, at_c) = free-entry (lookup (v ∷ t) c) free in
        rw (← g) (add-Listed (v ∷ t) c ds js at_c (again c js f))

pub topological_order-Listed :
    (nodes : List Node) (ks : List String)
    → topological_order nodes ≡ ordered ks
    → Listed (dependencies nodes) ks
unfolding topological_order
topological_order-Listed nodes ks e = order_from-Listed _ (dependencies nodes) ks e

absent-entry :
    (t : Deps) (ns : List Node) (k : String)
    → contains (node_ids ns) k ≡ false
    → lookup (dependencies_from t ns) k ≡ lookup t k
unfolding dependencies_from
absent-entry t [] k h = refl
absent-entry t (n ∷ ns) k h =
    let other : (n.id == k) ≡ false = ground arith in
    absent-entry (insert t n.id n.depends_on) ns k (ground arith)
    ∙ lookup-insert t n.id k n.depends_on
    ∙ rw other refl

found-entry :
    (t : Deps) (ns : List Node) (k : String) (n : Node)
    → distinct (node_ids ns) ≡ true
    → find (λ m. m.id == k) ns ≡ some n
    → lookup (dependencies_from t ns) k ≡ some n.depends_on
unfolding dependencies_from
found-entry t [] k n d h = cc
found-entry t (m ∷ ns) k n d h = elim (Bool-cases (m.id == k)) [
  | inl same ↦
      let e : some m ≡ some n = rw same at h in
      let mn : m ≡ n = cc in
      let is : m.id ≡ k = (string_eq.equal_iff m.id k).0 same in
      let new : contains (node_ids ns) m.id ≡ false = ground arith in
      absent-entry (insert t m.id m.depends_on) ns k (rw (← is) new)
      ∙ lookup-insert t m.id k m.depends_on
      ∙ rw same (ap (λ (x : Node). some x.depends_on) mn)
  | inr other ↦ found-entry (insert t m.id m.depends_on) ns k n (ground arith) (rw other at h)
]

-- With distinct ids, the entry of an id has the dependencies of its node.
pub dependencies-found :
    (ns : List Node) (k : String) (n : Node)
    → distinct (node_ids ns) ≡ true
    → find (λ m. m.id == k) ns ≡ some n
    → lookup (dependencies ns) k ≡ some n.depends_on
unfolding dependencies
dependencies-found ns k n d h = found-entry [] ns k n d h

entry-found :
    (t : Deps) (ns : List Node) (k : String) (ds : List String)
    → lookup (dependencies_from t ns) k ≡ some ds
    → (lookup t k ≡ some ds) ⊎ ((n : Node) × (find (λ m. m.id == k) ns ≡ some n))
unfolding dependencies_from
entry-found t [] k ds e = inl e
entry-found t (m ∷ ns) k ds e = elim (Bool-cases (m.id == k)) [
  | inl same ↦ inr (m, rw same refl)
  | inr other ↦ elim (entry-found (insert t m.id m.depends_on) ns k ds e) [
    | inr (n, found) ↦ inr (n, rw (other, found) refl)
    | inl here ↦ inl (sym (lookup-insert t m.id k m.depends_on ∙ rw other refl) ∙ here)
  ]
]

-- An id with an entry is the id of a node.
pub dependencies-node :
    (ns : List Node) (k : String) (ds : List String)
    → lookup (dependencies ns) k ≡ some ds
    → (n : Node) × (find (λ m. m.id == k) ns ≡ some n)
unfolding dependencies
dependencies-node ns k ds e = elim (entry-found [] ns k ds e) [
  | inl nothing ↦ cc
  | inr found ↦ found
]
