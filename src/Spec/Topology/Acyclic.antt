-- ===== src/Spec/Topology/Acyclic.antt =====
-- The cycles that `topological_order` of ge_runtime/spec.py reports.
use hermes_graph_engineering.Base.{
  ◌≢◌, ℕ, zero, suc, ◌<◌, String, ◌≡◌, refl, Bool, true, false, ◌||◌, some, List, [], ◌∷◌, Table,
  lookup, keys, contains, keep, ◌==◌, string_eq, Bool-cases, inl, inr, arith,
}
use hermes_graph_engineering.Spec.{Node}
use hermes_graph_engineering.Spec.Topology.{
  dependencies, is_free, ready_ids, discard, without, Sorting, ordered, cycle, out_of_fuel, prepend,
  order_from, topological_order,
}
use hermes_graph_engineering.Spec.Topology.Order.{without-found}
use hermes_graph_engineering.Spec.Topology.Total.{without-kept}

abbrev Deps : Type 0
Deps = Table String (List String)

-- Each dependency is an id of the graph, of a lower rank.
pub record Ranked (rank : String → ℕ) (t : Table String (List String)) : Type 0 where
  pub below :
      (k : String) (ds : List String)
      → lookup t k ≡ some ds
      → (x : String) → contains ds x ≡ true
      → (rank x < rank k) × ((es : List String) × (lookup t x ≡ some es))

contains-discard :
    (c : String) (xs : List String) (x : String)
    → contains (discard c xs) x ≡ true
    → (contains xs x ≡ true) × ((c == x) ≡ false)
contains-discard c [] x h = cc
contains-discard c (y ∷ xs) x h = elim (Bool-cases (y == c)) [
  | inl dropped ↦
      let (m, other) = contains-discard c xs x (rw dropped at h) in (ground (arith, m), other)
  | inr kept ↦ elim (Bool-cases (y == x)) [
    | inl same ↦
        let eq : y ≡ x = (string_eq.equal_iff y x).0 same in
        (rw same refl, ground (arith, string_eq.equal_iff c x, string_eq.equal_iff y c, eq))
    | inr different ↦
        let h' : (y == x || contains (discard c xs) x) ≡ true = rw kept at h in
        let (m, other) = contains-discard c xs x (rw different at h') in (ground (arith, m), other)
  ]
]

without-Ranked :
    (rank : String → ℕ) (c : String) (t : Deps) → Ranked rank t → Ranked rank (without c t)
without-Ranked rank c t h = record {
  below = λ k ds at_k x m.
      let (other, (old, found, same)) = without-found c t k ds at_k in
      let (member, different) = contains-discard c old x (rw (← same) at m) in
      let (lower, (es, there)) = h.below k old found x member in
      (lower, (discard c es, without-kept c t x es there different));
}

found-key :
    (t : Deps) (k : String) (ds : List String) → lookup t k ≡ some ds → contains (keys t) k ≡ true
found-key [] k ds e = cc
found-key ((j, v) ∷ t) k ds e = elim (Bool-cases (j == k)) [
  | inl here ↦ rw here refl
  | inr later ↦ rw (later, found-key t k ds (rw later at e)) refl
]

keep-none :
    (p : String → Bool) (xs : List String) (x : String)
    → keep p xs ≡ []
    → contains xs x ≡ true
    → p x ≡ false
keep-none p [] x e m = cc
keep-none p (y ∷ xs) x e m = elim (Bool-cases (p y)) [
  | inl kept ↦ let e' : y ∷ keep p xs ≡ [] = rw kept at e in cc
  | inr dropped ↦ elim (Bool-cases (y == x)) [
    | inl same ↦ let eq : y ≡ x = (string_eq.equal_iff y x).0 same in rw (← eq) dropped
    | inr different ↦ keep-none p xs x (rw dropped at e) (rw different at m)
  ]
]

-- Where no id is free, each id has a dependency below it, and so on for ever.
stuck :
    (rank : String → ℕ) (t : Deps)
    → Ranked rank t
    → ready_ids t ≡ []
    → (n : ℕ) (k : String) (ds : List String) → lookup t k ≡ some ds
    → rank k < n
    → ⊥
stuck rank t h e zero k ds found b = omega (arith, b)
stuck rank t h e (suc n) k [] found b =
    let bound = keep-none (λ j. is_free (lookup t j)) (keys t) k e (found-key t k [] found) in
    let free : is_free (lookup t k) ≡ true = rw found refl in cc (bound, free)
stuck rank t h e (suc n) k (x ∷ ds) found b =
    let (lower, (es, there)) =
      h.below k (x ∷ ds) found x (rw ((string_eq.equal_iff x x).1 refl) refl) in
    stuck rank t h e n x es there (omega (arith, b, lower))

prepend-cycle : (k : String) (r : Sorting) → prepend k r ≡ cycle → r ≡ cycle
prepend-cycle k (ordered ks) e = cc
prepend-cycle k cycle e = refl
prepend-cycle k out_of_fuel e = cc

order_from-Ranked :
    (rank : String → ℕ) (fuel : ℕ) (t : Deps) → Ranked rank t → order_from fuel t ≡ cycle → ⊥
unfolding order_from
order_from-Ranked rank fuel [] h e = cc
order_from-Ranked rank zero (v ∷ t) h e = cc
order_from-Ranked rank (suc fuel) ((j, v) ∷ t) h e =
    at_ready (λ c. order_from-Ranked rank fuel (without c ((j, v) ∷ t))) (ready_ids ((j, v) ∷ t))
      refl e
  where
    at_ready :
        ((c : String)
          → Ranked rank (without c ((j, v) ∷ t))
          → order_from fuel (without c ((j, v) ∷ t)) ≡ cycle
          → ⊥)
        → (r : List String) → ready_ids ((j, v) ∷ t) ≡ r
        → (elim r as (λ x. Sorting) [
          | [] ↦ cycle
          | current ∷ rest ↦ prepend current (order_from fuel (without current ((j, v) ∷ t)))
        ])
          ≡ cycle
        → ⊥
    at_ready again [] is e =
        stuck rank ((j, v) ∷ t) h is (suc (rank j)) j v (rw ((string_eq.equal_iff j j).1 refl) refl)
          (omega arith)
    at_ready again (c ∷ rest) is e =
        again c (without-Ranked rank c ((j, v) ∷ t) h) (prepend-cycle c _ e)

-- Where the ids can be ranked so that each dependency is an id of a lower rank than the id that
-- wants it, `topological_order` reports no cycle.
pub topological_order-Ranked :
    (rank : String → ℕ) (nodes : List Node)
    → Ranked rank (dependencies nodes)
    → topological_order nodes ≢ cycle
unfolding topological_order
topological_order-Ranked rank nodes h e = order_from-Ranked rank _ (dependencies nodes) h e
