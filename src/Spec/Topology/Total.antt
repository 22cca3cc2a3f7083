-- ===== src/Spec/Topology/Total.antt =====
-- The loop of `topological_order` of ge_runtime/spec.py: its fuel, and the ids that it orders.
use hermes_graph_engineering.Spec.Topology.Order.{
  Deps, InOrder, order_from-InOrder, Left, keep-head, prepend-ordered, lookup-remove, length-remove,
  length-map_values,
}
use hermes_graph_engineering.Base.{
  ℕ, zero, suc, ◌≤◌, ◌<◌, String, ◌≡◌, refl, true, false, some, List, [], ◌∷◌, Table, lookup, keys,
  contains, length, ◌==◌, string_eq, Bool-cases, inl, inr, ◌⊎◌, arith, lookup-map_values,
}
use hermes_graph_engineering.Spec.{Node}
use hermes_graph_engineering.Spec.Topology.{
  remove, dependencies, is_free, ready_ids, discard, without, Sorting, ordered, cycle, out_of_fuel,
  prepend, order_from, topological_order,
}

-- An id that is left is ordered now or left after the round.
pub without-kept :
    (c : String) (t : Deps) (k : String) (ds : List String)
    → lookup t k ≡ some ds
    → (c == k) ≡ false
    → lookup (without c t) k ≡ some (discard c ds)
without-kept c t k ds e other =
    rw (lookup-map_values (remove t c) k (discard c), lookup-remove t c k, other, e) refl

-- Each id is ordered.
abbrev pub Complete : Table String (List String) → List String → Type 0
Complete t ks = (k : String) (ds : List String) → lookup t k ≡ some ds → contains ks k ≡ true

order_from-Complete :
    (fuel : ℕ) (t : Deps) (ks : List String) → order_from fuel t ≡ ordered ks → Complete t ks
unfolding order_from
order_from-Complete fuel [] ks e = λ k ds f. cc (f)
order_from-Complete zero (v ∷ t) ks e = cc
order_from-Complete (suc fuel) (v ∷ t) ks e =
    at_ready (λ c ks'. order_from-Complete fuel (without c (v ∷ t)) ks') (ready_ids (v ∷ t)) e
  where
    at_ready :
        ((c : String) (ks' : List String)
          → order_from fuel (without c (v ∷ t)) ≡ ordered ks'
          → Complete (without c (v ∷ t)) ks')
        → (r : List String)
        → (elim r as (λ x. Sorting) [
          | [] ↦ cycle
          | current ∷ rest ↦ prepend current (order_from fuel (without current (v ∷ t)))
        ])
          ≡ ordered ks
        → Complete (v ∷ t) ks
    at_ready again [] e = cc
    at_ready again (c ∷ rest) e = λ k ds f.
        let (ks', e', same) = prepend-ordered c (order_from fuel (without c (v ∷ t))) ks e in
        rw (← same) (elim (Bool-cases (c == k)) [
          | inl here ↦ rw here refl
          | inr other ↦
              let m = again c ks' e' k (discard c ds) (without-kept c (v ∷ t) k ds f other) in
              rw (other, m) refl
        ])

length-without :
    (c : String) (t : Deps) → contains (keys t) c ≡ true → length (without c t) < length t
length-without c t h =
    omega (arith, length-remove t c h, length-map_values (discard c) (remove t c))

prepend-fuel : (k : String) (r : Sorting) → prepend k r ≡ out_of_fuel → r ≡ out_of_fuel
prepend-fuel k (ordered ks) e = cc
prepend-fuel k cycle e = cc
prepend-fuel k out_of_fuel e = refl

order_from-fuel : (fuel : ℕ) (t : Deps) → length t ≤ fuel → order_from fuel t ≡ out_of_fuel → ⊥
unfolding order_from
order_from-fuel fuel [] b e = cc
order_from-fuel zero (v ∷ t) b e = omega (arith, b)
order_from-fuel (suc fuel) (v ∷ t) b e =
    at_ready (λ c. order_from-fuel fuel (without c (v ∷ t))) (ready_ids (v ∷ t)) refl e
  where
    at_ready :
        ((c : String)
          → length (without c (v ∷ t)) ≤ fuel
          → order_from fuel (without c (v ∷ t)) ≡ out_of_fuel
          → ⊥)
        → (r : List String) → ready_ids (v ∷ t) ≡ r
        → (elim r as (λ x. Sorting) [
          | [] ↦ cycle
          | current ∷ rest ↦ prepend current (order_from fuel (without current (v ∷ t)))
        ])
          ≡ out_of_fuel
        → ⊥
    at_ready again [] is e = cc
    at_ready again (c ∷ rest) is e =
        let (_, member) = keep-head (λ k. is_free (lookup (v ∷ t) k)) (keys (v ∷ t)) c rest is in
        again c (omega (arith, b, length-without c (v ∷ t) member)) (prepend-fuel c _ e)

all-Left : (d : Deps) → Left d d []
all-Left d = record {
  left = λ k all_deps ds e f x m. let same : all_deps ≡ ds = cc (e, f) in inl (rw (← same) m);
}

-- Every dependency comes before the id that wants it, and no id is left out.
pub record Topological (d : Table String (List String)) (ks : List String) : Type 0 where
  pub in_order : InOrder d [] ks
  pub complete : Complete d ks

-- `topological_order` always ends: it reports a cycle, or gives an order with every id of the
-- nodes, in which each id comes after all of its dependencies.
pub topological_order_total :
    (nodes : List Node)
    → (topological_order nodes ≡ cycle)
      ⊎ ((ks : List String) × (topological_order nodes ≡ ordered ks)
          × Topological (dependencies nodes) ks)
unfolding topological_order
topological_order_total nodes =
    by_result (order_from (length (dependencies nodes)) (dependencies nodes)) refl
  where
    by_result :
        (r : Sorting)
        → order_from (length (dependencies nodes)) (dependencies nodes) ≡ r
        → (order_from (length (dependencies nodes)) (dependencies nodes) ≡ cycle)
          ⊎ ((ks : List String) × (order_from (length (dependencies nodes)) (dependencies nodes)
                ≡ ordered ks)
              × Topological (dependencies nodes) ks)
    by_result cycle e = inl e
    by_result out_of_fuel e =
        absurd (order_from-fuel (length (dependencies nodes)) (dependencies nodes) (omega arith) e)
    by_result (ordered ks) e = inr (
      ks,
      e,
      record {
        in_order =
            order_from-InOrder (dependencies nodes) _ (dependencies nodes) [] ks e
              (all-Left (dependencies nodes));
        complete = order_from-Complete _ (dependencies nodes) ks e;
      },
    )
