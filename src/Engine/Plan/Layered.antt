-- ===== src/Engine/Plan/Layered.antt =====
-- The layers of `plan_view` of ge_runtime/engine.py.
use hermes_graph_engineering.Base.{
  ℕ, ◌<◌, ◌≤◌, String, string_eq, nat_eq, ◌≡◌, refl, ◌∙◌, ◌||◌, Bool, true, false, Option, none,
  some, List, [], ◌∷◌, ◌++◌, Table, lookup, has, keys, map, contains, contains-append,
  lookup-insert, lookup-modify, ◌==◌, ==_refl, leb, if◌then◌else◌, Bool-cases, inl, inr, ◌⊎◌, arith,
}
use hermes_graph_engineering.Spec.{Node, GraphSpec, node}
use hermes_graph_engineering.Admission.Admit.Shape.{WellShaped}
use hermes_graph_engineering.Engine.Plan.{
  append_to, layers_by, insert_level, sorted_levels, or_empty, layers_of, plan_view, PlanView,
  plan_at, plan_of,
}
use hermes_graph_engineering.Engine.Plan.Layers.{depths-Lowered}

abbrev Levels : Type 0
Levels = Table ℕ (List String)

-- The id is in the layer of a level.
abbrev In : Levels → ℕ → String → Type 0
In t d k = contains (or_empty (lookup t d)) k ≡ true

In-key : (t : Levels) (d : ℕ) (k : String) → In t d k → contains (keys t) d ≡ true
In-key [] d k p = cc
In-key ((e, ks) ∷ t) d k p = elim (Bool-cases (e == d)) [
  | inl same ↦ rw same refl
  | inr other ↦ let q = In-key t d k (rw other at p) in rw (other, q) refl
]

has-lookup : (t : Levels) (d : ℕ) → has t d ≡ true → (ks : List String) × (lookup t d ≡ some ks)
has-lookup [] d p = cc
has-lookup ((e, ks) ∷ t) d p = elim (Bool-cases (e == d)) [
  | inl same ↦ (ks, rw same refl)
  | inr other ↦ let (js, f) = has-lookup t d (rw other at p) in (js, rw other f)
]

append_to-lookup :
    (t : Levels) (d e : ℕ) (k : String)
    → or_empty (lookup (append_to t d k) e)
      ≡ (if d == e then or_empty (lookup t d) ++ k ∷ [] else or_empty (lookup t e))
append_to-lookup t d e k = elim (Bool-cases (has t d)) [
  | inl there ↦
      let (ks, f) = has-lookup t d there in
      rw (there, lookup-modify t d e (λ vs. vs ++ k ∷ []))
        (elim (Bool-cases (d == e)) [
          | inl same ↦
              let is : d ≡ e = (nat_eq.equal_iff d e).0 same in
              let g : lookup t e ≡ some ks = rw (← is) f in rw (same, f, g) refl
          | inr other ↦ rw other refl
        ])
  | inr absent ↦
      rw (absent, lookup-insert t d e (k ∷ []))
        (elim (Bool-cases (d == e)) [
          | inl same ↦ rw (same, missing t d absent) refl
          | inr other ↦ rw other refl
        ])
]
  where
    missing : (u : Levels) (b : ℕ) → has u b ≡ false → lookup u b ≡ none
    missing [] b h = refl
    missing ((c, ks) ∷ u) b h =
        let other : (c == b) ≡ false = ground arith in rw other (missing u b (rw other at h))

append_to-there : (t : Levels) (d : ℕ) (k : String) → In (append_to t d k) d k
append_to-there t d k =
    rw (append_to-lookup t d d k, ==_refl d)
      (contains-append (or_empty (lookup t d)) (k ∷ []) k ∙ rw ==_refl (ground arith))

append_to-keeps : (t : Levels) (d e : ℕ) (k x : String) → In t e x → In (append_to t d k) e x
append_to-keeps t d e k x p = elim (Bool-cases (d == e)) [
  | inl same ↦
      let is : d ≡ e = (nat_eq.equal_iff d e).0 same in
      rw (append_to-lookup t d e k, same)
        (contains-append (or_empty (lookup t d)) (k ∷ []) x ∙ rw is (rw p refl))
  | inr other ↦ rw (append_to-lookup t d e k, other) p
]

layers_by-keeps :
    (depth : Table String ℕ) (t : Levels) (ks : List String) (d : ℕ) (x : String)
    → In t d x
    → In (layers_by depth t ks) d x
unfolding layers_by
layers_by-keeps depth t [] d x p = p
layers_by-keeps depth t (k ∷ ks) d x p =
    at_depth (λ u q. layers_by-keeps depth u ks d x q) (lookup depth k)
  where
    at_depth :
        ((u : Levels) → In u d x → In (layers_by depth u ks) d x)
        → (o : Option ℕ)
        → In
            (layers_by depth (elim o as (λ y. Levels) [ none ↦ t | some e ↦ append_to t e k ]) ks)
            d
            x
    at_depth rest none = rest t p
    at_depth rest (some e) = rest (append_to t e k) (append_to-keeps t e d k x p)

layers_by-In :
    (depth : Table String ℕ) (t : Levels) (ks : List String) (d : ℕ) (x : String)
    → contains ks x ≡ true
    → lookup depth x ≡ some d
    → In (layers_by depth t ks) d x
unfolding layers_by
layers_by-In depth t [] d x m e = cc
layers_by-In depth t (k ∷ ks) d x m e = elim (Bool-cases (k == x)) [
  | inl same ↦
      let is : k ≡ x = (string_eq.equal_iff k x).0 same in
      let e' : lookup depth k ≡ some d = rw is e in
      rw e' (layers_by-keeps depth (append_to t d k) ks d x (rw (← is) (append_to-there t d k)))
  | inr other ↦
      layers_by-In depth (elim (lookup depth k) [ none ↦ t | some f ↦ append_to t f k ]) ks d x
        (rw other at m) e
]

-- One level stands before another.
abbrev Before : List ℕ → ℕ → ℕ → Type 0
Before [] b a = ⊥
Before (y ∷ ys) b a = ((y ≡ b) × (contains ys a ≡ true)) ⊎ Before ys b a

abbrev Sorted : List ℕ → Type 0
Sorted [] = Unit
Sorted (y ∷ ys) = ((z : ℕ) → contains ys z ≡ true → y ≤ z) × Sorted ys

insert_level-contains :
    (d : ℕ) (es : List ℕ) (x : ℕ) → contains (insert_level d es) x ≡ (d == x || contains es x)
unfolding insert_level
insert_level-contains d [] x = refl
insert_level-contains d (e ∷ es) x = elim (Bool-cases (leb d e)) [
  | inl low ↦ rw (low, insert_level) refl
  | inr high ↦
      rw (high, insert_level)
        (rw (insert_level-contains d es x) (swap (e == x) (d == x) (contains es x)))
]
  where
    swap : (a b c : Bool) → (a || (b || c)) ≡ (b || (a || c))
    swap a b c = ground arith

insert_level-Sorted : (d : ℕ) (es : List ℕ) → Sorted es → Sorted (insert_level d es)
unfolding insert_level
insert_level-Sorted d [] h = (λ z m. cc, tt)
insert_level-Sorted d (e ∷ es) h = elim (Bool-cases (leb d e)) [
  | inl low ↦
      rw (low, insert_level)
        (
          (λ z m. elim (Bool-cases (e == z)) [
            | inl same ↦ let is : e ≡ z = (nat_eq.equal_iff e z).0 same in ground arith
            | inr other ↦ let le = h.0 z (rw other at m) in ground arith
          ]),
          h,
        )
  | inr high ↦
      rw (high, insert_level)
        (
          (λ z m. elim (Bool-cases (d == z)) [
            | inl same ↦ let is : d ≡ z = (nat_eq.equal_iff d z).0 same in ground arith
            | inr other ↦
                let m' : contains es z ≡ true = rw (insert_level-contains d es z, other) at m in
                h.0 z m'
          ]),
          insert_level-Sorted d es h.1,
        )
]

sorted_levels-Sorted : (ds : List ℕ) → Sorted (sorted_levels ds)
unfolding sorted_levels
sorted_levels-Sorted [] = tt
sorted_levels-Sorted (d ∷ ds) = insert_level-Sorted d (sorted_levels ds) (sorted_levels-Sorted ds)

sorted_levels-contains : (ds : List ℕ) (x : ℕ) → contains (sorted_levels ds) x ≡ contains ds x
unfolding sorted_levels
sorted_levels-contains [] x = refl
sorted_levels-contains (d ∷ ds) x =
    insert_level-contains d (sorted_levels ds) x ∙ rw (sorted_levels-contains ds x) refl

Sorted-Before :
    (ys : List ℕ) (b a : ℕ)
    → Sorted ys
    → contains ys b ≡ true
    → contains ys a ≡ true
    → b < a
    → Before ys b a
Sorted-Before [] b a h m n lt = cc
Sorted-Before (y ∷ ys) b a h m n lt = elim (Bool-cases (y == b)) [
  | inl same ↦
      let is : y ≡ b = (nat_eq.equal_iff y b).0 same in
      let apart : (y == a) ≡ false = ground (arith, nat_eq.equal_iff y a) in inl (is, rw apart at n)
  | inr other ↦
      let m' : contains ys b ≡ true = rw other at m in
      let le = h.0 b m' in
      let apart : (y == a) ≡ false = ground (arith, nat_eq.equal_iff y a) in
      inr (Sorted-Before ys b a h.1 m' (rw apart at n) lt)
]

-- The id stands in one of the layers.
abbrev pub Layered : List (List String) → String → Type 0
Layered [] k = ⊥
Layered (l ∷ ls) k = (contains l k ≡ true) ⊎ Layered ls k

-- The first id stands in a layer before one in which the second stands.
abbrev pub Earlier : List (List String) → String → String → Type 0
Earlier [] x k = ⊥
Earlier (l ∷ ls) x k = ((contains l x ≡ true) × Layered ls k) ⊎ Earlier ls x k

module _ (t : Levels) where
  abbrev layer : ℕ → List String
  layer level = or_empty (lookup t level)

  at-Layered :
      (ys : List ℕ) (a : ℕ) (k : String)
      → contains ys a ≡ true
      → In t a k
      → Layered (map layer ys) k
  at-Layered [] a k m p = cc
  at-Layered (y ∷ ys) a k m p = elim (Bool-cases (y == a)) [
    | inl same ↦ let is : y ≡ a = (nat_eq.equal_iff y a).0 same in inl (rw is p)
    | inr other ↦ inr (at-Layered ys a k (rw other at m) p)
  ]

  Before-Earlier :
      (ys : List ℕ) (b a : ℕ) (x k : String)
      → Before ys b a
      → In t b x
      → In t a k
      → Earlier (map layer ys) x k
  Before-Earlier [] b a x k h p q = absurd h
  Before-Earlier (y ∷ ys) b a x k (inl h) p q = inl (rw h.0 p, at-Layered ys a k h.1 q)
  Before-Earlier (y ∷ ys) b a x k (inr h) p q = inr (Before-Earlier ys b a x k h p q)

layers_of-Earlier :
    (depth : Table String ℕ) (order : List String) (x k : String) (b a : ℕ)
    → contains order x ≡ true
    → contains order k ≡ true
    → lookup depth x ≡ some b
    → lookup depth k ≡ some a
    → b < a
    → Earlier (layers_of depth order) x k
unfolding layers_of
layers_of-Earlier depth order x k b a m n e f lt =
    let t = layers_by depth [] order in
    let p = layers_by-In depth [] order b x m e in
    let q = layers_by-In depth [] order a k n f in
    Before-Earlier t (sorted_levels (keys t)) b a x k
      (Sorted-Before (sorted_levels (keys t)) b a (sorted_levels-Sorted (keys t))
        (sorted_levels-contains (keys t) b ∙ In-key t b x p)
        (sorted_levels-contains (keys t) a ∙ In-key t a k q) lt)
      p q

layers_of-Layered :
    (depth : Table String ℕ) (order : List String) (k : String) (a : ℕ)
    → contains order k ≡ true
    → lookup depth k ≡ some a
    → Layered (layers_of depth order) k
unfolding layers_of
layers_of-Layered depth order k a n f =
    let t = layers_by depth [] order in
    let q = layers_by-In depth [] order a k n f in
    at-Layered t (sorted_levels (keys t)) a k (sorted_levels-contains (keys t) a ∙ In-key t a k q) q

pub plan_view-Layered :
    (spec : GraphSpec)
    → WellShaped spec
    → (view : PlanView) × (plan_view spec ≡ some view)
      × ((k : String) (n : Node)
          → node spec k ≡ some n
          → Layered view.layers k
            × ((x : String) → contains n.depends_on x ≡ true → Earlier view.layers x k))
unfolding plan_view plan_at plan_of
plan_view-Layered spec shape =
    let (t, e, low) = depths-Lowered spec shape in
    (
      plan_of spec t,
      rw (e, plan_view) refl,
      λ k n at_k.
          let (listed, (a, at_a), below) = low k n at_k in
          (
            layers_of-Layered t spec.order k a listed at_a,
            λ x p.
                let (x_listed, (c, b, at_c, at_b, lt)) = below x p in
                layers_of-Earlier t spec.order x k b c x_listed listed at_b at_c lt,
          ),
    )
