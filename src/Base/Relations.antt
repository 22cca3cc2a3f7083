-- ===== src/Base/Relations.antt =====
-- How the table lookups see a change, and tables that are related key by key.
use mathlib.Core.Path.{ap, ◌≡◌, refl, ◌∙◌}
use mathlib.Core.Bool.{Bool, true}
use mathlib.Core.List.{[], ◌∷◌}
use mathlib.Core.Option.{Option, none, some}
use mathlib.Core.Logic.{inl, inr}
use native.Mathlib.Omega.{arith}
use hermes_graph_engineering.Base.Tests.{Eq, ◌==◌, if◌then◌else◌, Bool-cases, ==_refl}
use hermes_graph_engineering.Base.Tables.{Table, keys, lookup, modify, insert, map_values}

abbrev pub map_option {ℓ} : {A B : Type ℓ} → (A → B) → Option A → Option B
map_option f none = none
map_option f (some a) = some (f a)

module _ {ℓ} {K V : Type ℓ} ⦃e : Eq K⦄ where
  pub lookup-modify :
      (t : Table K V) (k j : K) (f : V → V)
      → lookup (modify k f t) j ≡ (if k == j then map_option f (lookup t j) else lookup t j)
  lookup-modify [] k j f = ground arith
  lookup-modify ((i, v) ∷ t) k j f =
      ground (arith, lookup-modify t k j f, e.equal_iff i k, e.equal_iff i j, e.equal_iff k j)

  pub lookup-modify_self :
      (t : Table K V) (k : K) (f : V → V) → lookup (modify k f t) k ≡ map_option f (lookup t k)
  lookup-modify_self t k f = lookup-modify t k k f ∙ rw ==_refl

  pub lookup-map_values :
      (t : Table K V) (j : K) (f : V → V) → lookup (map_values f t) j ≡ map_option f (lookup t j)
  lookup-map_values [] j f = refl
  lookup-map_values ((i, v) ∷ t) j f = ground (arith, lookup-map_values t j f)

  pub lookup-insert :
      (t : Table K V) (k j : K) (v : V)
      → lookup (insert t k v) j ≡ (if k == j then some v else lookup t j)
  lookup-insert [] k j v = refl
  lookup-insert ((i, w) ∷ t) k j v =
      ground (arith, lookup-insert t k j v, e.equal_iff i k, e.equal_iff i j, e.equal_iff k j)

  pub lookup-insert_self : (t : Table K V) (k : K) (v : V) → lookup (insert t k v) k ≡ some v
  lookup-insert_self t k v =
      let here : (k == k) ≡ true = (e.equal_iff k k).1 refl in
      lookup-insert t k k v ∙ ap (λ (b : Bool). if b then some v else lookup t k) here

  pub modify-modify :
      (t : Table K V) (k : K) (f g : V → V) → modify k g (modify k f t) ≡ modify k (λ v. g (f v)) t
  modify-modify [] k f g = refl
  modify-modify ((i, v) ∷ t) k f g = ground (arith, modify-modify t k f g)

  pub keys-modify : (t : Table K V) (k : K) (f : V → V) → keys (modify k f t) ≡ keys t
  keys-modify [] k f = refl
  keys-modify ((i, v) ∷ t) k f = ground (arith, keys-modify t k f)

abbrev pub OptionRel : {V : Type 0} → (V → V → Type 0) → Option V → Option V → Type 0
OptionRel R none none = Unit
OptionRel R (some v) (some w) = R v w
OptionRel R none (some w) = ⊥
OptionRel R (some v) none = ⊥

-- The same keys, and related values under each.
pub record TableRel {K V : Type 0} ⦃e : Eq K⦄ (R : V → V → Type 0) (t t' : Table K V) : Type 0 where
  pub at : (k : K) → OptionRel R (lookup t k) (lookup t' k)

module _ {V : Type 0} (R : V → V → Type 0) where
  OptionRel-refl : ((v : V) → R v v) → (o : Option V) → OptionRel R o o
  OptionRel-refl r none = tt
  OptionRel-refl r (some v) = r v

  OptionRel-map :
      (f : V → V) (o : Option V)
      → ((v : V) → o ≡ some v → R v (f v))
      → OptionRel R o (map_option f o)
  OptionRel-map f none h = tt
  OptionRel-map f (some v) h = h v refl

  OptionRel-trans :
      ((a b c : V) → R a b → R b c → R a c)
      → (o p q : Option V) → OptionRel R o p
      → OptionRel R p q
      → OptionRel R o q
  OptionRel-trans r none none none h k = tt
  OptionRel-trans r (some a) (some b) (some c) h k = r a b c h k
  OptionRel-trans r none (some b) q h k = absurd h
  OptionRel-trans r (some a) none q h k = absurd h
  OptionRel-trans r none none (some c) h k = absurd k
  OptionRel-trans r (some a) (some b) none h k = absurd k

module _ {K V : Type 0} ⦃e : Eq K⦄ (R : V → V → Type 0) (r : (v : V) → R v v) where
  pub TableRel-refl : (t : Table K V) → TableRel R t t
  TableRel-refl t = record { at = λ k. OptionRel-refl R r (lookup t k) }

  -- A change under one key is a change of the table, if it is one at the value that is there.
  pub TableRel-modify :
      (t : Table K V) (k : K) (f : V → V)
      → ((v : V) → lookup t k ≡ some v → R v (f v))
      → TableRel R t (modify k f t)
  TableRel-modify t k f h = record {
    at = λ j. rw (lookup-modify t k j f) (elim (Bool-cases (k == j)) [
      | inl same ↦
          rw same (OptionRel-map R f (lookup t j) λ v p. h v (rw ((e.equal_iff k j).0 same) p))
      | inr other ↦ rw other (OptionRel-refl R r (lookup t j))
    ]);
  }

  pub TableRel-map_values :
      (t : Table K V) (f : V → V) → ((v : V) → R v (f v)) → TableRel R t (map_values f t)
  TableRel-map_values t f h = record {
    at = λ j. rw (lookup-map_values t j f) (OptionRel-map R f (lookup t j) (λ v p. h v));
  }

module _ {K V : Type 0} ⦃e : Eq K⦄ (R : V → V → Type 0)
    (r : (a b c : V) → R a b → R b c → R a c) where
  pub TableRel-trans : (t u v : Table K V) → TableRel R t u → TableRel R u v → TableRel R t v
  TableRel-trans t u v h k = record {
    at = λ j. OptionRel-trans R r (lookup t j) (lookup u j) (lookup v j) (h.at j) (k.at j);
  }
