-- ===== src/Base/Tables.antt =====
-- Python's `dict` as an association list: the order of insertion is the order of the entries.
use mathlib.Core.Path.{◌≡◌, refl, ap}
use mathlib.Core.Bool.{Bool, false, ◌||◌}
use mathlib.Core.List.{List, [], ◌∷◌}
use mathlib.Core.Option.{Option, none, some}
use hermes_graph_engineering.Base.Tests.{Eq, ◌==◌, if◌then◌else◌}

abbrev pub Table {ℓ} : Type ℓ → Type ℓ → Type ℓ
Table K V = List (K × V)

module _ {ℓ} {K V : Type ℓ} where
  -- `list(t)`
  abbrev pub keys : Table K V → List K
  keys [] = []
  keys ((k, v) ∷ t) = k ∷ keys t

  -- `t.values()`
  abbrev pub values : Table K V → List V
  values [] = []
  values ((k, v) ∷ t) = v ∷ values t

  -- `for v in t.values(): f(v)`, where `f` changes the value
  abbrev pub map_values : (V → V) → Table K V → Table K V
  map_values f [] = []
  map_values f ((k, v) ∷ t) = (k, f v) ∷ map_values f t

  pub keys-map_values : (f : V → V) (t : Table K V) → keys (map_values f t) ≡ keys t
  keys-map_values f [] = refl
  keys-map_values f ((k, v) ∷ t) = ap (λ l. k ∷ l) (keys-map_values f t)

module _ {ℓ} {K V : Type ℓ} ⦃e : Eq K⦄ where
  -- `t.get(k)`
  abbrev pub lookup : Table K V → K → Option V
  lookup [] k = none
  lookup ((j, v) ∷ t) k = let rest = lookup t k in if j == k then some v else rest

  -- `k in t`
  abbrev pub has : Table K V → K → Bool
  has [] k = false
  has ((j, v) ∷ t) k = j == k || has t k

  -- `t[k] = v`
  abbrev pub insert : Table K V → K → V → Table K V
  insert [] k v = (k, v) ∷ []
  insert ((j, w) ∷ t) k v = let rest = insert t k v in if j == k then (j, v) ∷ t else (j, w) ∷ rest

  -- a change, through a reference, of the value that is stored under `k`
  abbrev pub modify : K → (V → V) → Table K V → Table K V
  modify k f [] = []
  modify k f ((j, v) ∷ t) =
      let rest = modify k f t in if j == k then (j, f v) ∷ t else (j, v) ∷ rest
