-- ===== src/Spec/Topology/Order.antt =====
-- The place of dependencies in what `topological_order` of ge_runtime/spec.py gives.
use mathlib.Core.Path.{subst}
use hermes_graph_engineering.Base.{
  ℕ, zero, suc, ◌≤◌, ◌<◌, String, ◌≡◌, refl, Bool, true, false, not, Option, none, some, List, [],
  ◌∷◌, Table, lookup, keys, contains, keep, map_values, length, ◌==◌, string_eq, if◌then◌else◌,
  Bool-cases, inl, inr, ◌⊎◌, arith, map_option, lookup-map_values,
}
use hermes_graph_engineering.Spec.Topology.{
  remove, is_free, ready_ids, discard, without, Sorting, ordered, cycle, out_of_fuel, prepend,
  order_from,
}

abbrev pub Deps : Type 0
Deps = Table String (List String)

-- Each key's dependencies come before it; `seen` comes before all.
abbrev pub InOrder : Table String (List String) → List String → List String → Type 0
InOrder d seen [] = Unit
InOrder d seen (k ∷ ks) =
    ((ds : List String)
      → lookup d k ≡ some ds
      → (x : String) → contains ds x ≡ true
      → contains seen x ≡ true)
    × InOrder d (k ∷ seen) ks

pub lookup-remove :
    (t : Table String (List String)) (k j : String)
    → lookup (remove t k) j ≡ (if k == j then none else lookup t j)
lookup-remove [] k j = ground arith
lookup-remove ((i, v) ∷ t) k j = ground (
  arith,
  lookup-remove t k j,
  string_eq.equal_iff i k,
  string_eq.equal_iff i j,
  string_eq.equal_iff k j,
)

pub contains-keep :
    (p : String → Bool) (xs : List String) (x : String)
    → contains xs x ≡ true
    → p x ≡ true
    → contains (keep p xs) x ≡ true
contains-keep p [] x h q = h
contains-keep p (y ∷ xs) x h q = elim (Bool-cases (y == x)) [
  | inl same ↦
      let eq : y ≡ x = (string_eq.equal_iff y x).0 same in
      rw (eq, q, (string_eq.equal_iff x x).1 refl)
  | inr other ↦ ground (arith, contains-keep p xs x)
]

-- The head of the ready ids is a key with no dependency left.
pub keep-head :
    (p : String → Bool) (xs : List String) (k : String) (ks : List String)
    → keep p xs ≡ k ∷ ks
    → (p k ≡ true) × (contains xs k ≡ true)
keep-head p [] k ks e = cc
keep-head p (x ∷ xs) k ks e = elim (Bool-cases (p x)) [
  | inl free ↦
      let e' : x ∷ keep p xs ≡ k ∷ ks = rw free at e in
      let same : x ≡ k = cc in (rw (← same) free, rw (same, (string_eq.equal_iff k k).1 refl) refl)
  | inr bound ↦ let (q, h) = keep-head p xs k ks (rw bound at e) in (q, ground (arith, h))
]

length-remove-le : (t : Table String (List String)) (k : String) → length (remove t k) ≤ length t
length-remove-le [] k = omega arith
length-remove-le ((j, v) ∷ t) k = ground (arith, length-remove-le t k)

pub length-remove :
    (t : Table String (List String)) (k : String)
    → contains (keys t) k ≡ true
    → length (remove t k) < length t
length-remove [] k h = cc
length-remove ((j, v) ∷ t) k h = ground (arith, length-remove t k, length-remove-le t k)

pub length-map_values :
    (f : List String → List String) (t : Table String (List String))
    → length (map_values f t) ≡ length t
length-map_values f [] = refl
length-map_values f ((j, v) ∷ t) = ground (arith, length-map_values f t)

pub free-found : (o : Option (List String)) → is_free o ≡ true → o ≡ some []
free-found none h = cc
free-found (some []) h = refl
free-found (some (d ∷ ds)) h = cc

-- What is found after a round was there before it.
pub without-found :
    (c : String) (t : Deps) (k : String) (ds : List String)
    → lookup (without c t) k ≡ some ds
    → ((c == k) ≡ false) × ((old : List String) × (lookup t k ≡ some old) × (discard c old ≡ ds))
without-found c t k ds e = elim (Bool-cases (c == k)) [
  | inl same ↦
      let gone : none ≡ some ds =
        rw (lookup-map_values (remove t c) k (discard c), lookup-remove t c k, same) at e in
      cc
  | inr other ↦ (
    other,
    at_key (lookup t k) refl
        (rw (lookup-map_values (remove t c) k (discard c), lookup-remove t c k, other) at e),
  )
]
  where
    at_key :
        (o : Option (List String))
        → lookup t k ≡ o
        → map_option (discard c) o ≡ some ds
        → (old : List String) × (lookup t k ≡ some old) × (discard c old ≡ ds)
    at_key none l m = cc
    at_key (some old) l m = (old, l, cc)

pub prepend-ordered :
    (k : String) (r : Sorting) (ks : List String)
    → prepend k r ≡ ordered ks
    → (rest : List String) × (r ≡ ordered rest) × (k ∷ rest ≡ ks)
prepend-ordered k (ordered rest) ks e = (rest, refl, cc)
prepend-ordered k cycle ks e = cc
prepend-ordered k out_of_fuel ks e = cc

module _ (d : Deps) where
  -- Each dependency of an id that is left is left in its set, or has been ordered.
  pub record Left (t : Deps) (seen : List String) : Type 0 where
    pub left :
        (k : String) (all_deps ds : List String)
        → lookup d k ≡ some all_deps
        → lookup t k ≡ some ds
        → (x : String) → contains all_deps x ≡ true
        → (contains ds x ≡ true) ⊎ (contains seen x ≡ true)

  without-Left :
      (c : String) (t : Deps) (seen : List String) → Left t seen → Left (without c t) (c ∷ seen)
  without-Left c t seen h = record {
    left = λ k all_deps ds at_d at_k x m.
        let (other, (old, found, kept)) = without-found c t k ds at_k in
        elim (h.left k all_deps old at_d found x m) [
          | inr before ↦ inr (ground arith)
          | inl still ↦ elim (Bool-cases (x == c)) [
            | inl same ↦ inr (ground (arith, string_eq.equal_iff x c, string_eq.equal_iff c x))
            | inr different ↦
                inl
                  (rw (← kept) (contains-keep (λ y. not (y == c)) old x still (rw different refl)))
          ]
        ];
  }

  pub order_from-InOrder :
      (fuel : ℕ) (t : Deps) (seen ks : List String)
      → order_from fuel t ≡ ordered ks
      → Left t seen
      → InOrder d seen ks
  unfolding order_from
  order_from-InOrder fuel [] seen [] e h = tt
  order_from-InOrder fuel [] seen (k ∷ ks) e h = cc
  order_from-InOrder zero (v ∷ t) seen ks e h = cc
  order_from-InOrder (suc fuel) (v ∷ t) seen ks e h =
      at_ready (λ c ks'. order_from-InOrder fuel (without c (v ∷ t)) (c ∷ seen) ks')
        (ready_ids (v ∷ t)) refl e
    where
      at_ready :
          ((c : String) (ks' : List String)
            → order_from fuel (without c (v ∷ t)) ≡ ordered ks'
            → Left (without c (v ∷ t)) (c ∷ seen)
            → InOrder d (c ∷ seen) ks')
          → (r : List String) → ready_ids (v ∷ t) ≡ r
          → (elim r as (λ x. Sorting) [
            | [] ↦ cycle
            | current ∷ rest ↦ prepend current (order_from fuel (without current (v ∷ t)))
          ])
            ≡ ordered ks
          → InOrder d seen ks
      at_ready again [] is e = cc
      at_ready again (c ∷ rest) is e =
          let (ks', e', same) = prepend-ordered c (order_from fuel (without c (v ∷ t))) ks e in
          let (free, _) = keep-head (λ k. is_free (lookup (v ∷ t) k)) (keys (v ∷ t)) c rest is in
          let found = free-found (lookup (v ∷ t) c) free in
          subst (λ (l : List String). InOrder d seen l) same
            (
              (λ ds at_d x m. elim (h.left c ds [] at_d found x m) [
                | inl nothing ↦ cc (nothing)
                | inr before ↦ before
              ]),
              again c ks' e' (without-Left c (v ∷ t) seen h),
            )
