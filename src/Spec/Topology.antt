-- ===== src/Spec/Topology.antt =====
-- `topological_order` of ge_runtime/spec.py. A dictionary is a table with one entry for each key,
-- which `insert` keeps, and a set is a list.
pub mod Order
pub mod Total
pub mod Acyclic
pub mod Listed
pub mod Examples
use hermes_graph_engineering.Base.{
  ℕ, zero, suc, String, Bool, true, false, not, Option, none, some, List, [], ◌∷◌, Table, lookup,
  keys, insert, keep, map_values, length, ◌==◌, string_eq, if◌then◌else◌,
}
use hermes_graph_engineering.Spec.{Node}

-- `del t[k]`
abbrev remove : Table String (List String) → String → Table String (List String)
remove [] k = []
remove ((j, v) ∷ t) k = let rest = remove t k in if j == k then rest else (j, v) ∷ rest

-- `{node["id"]: set(node["depends_on"]) for node in nodes}`, after the entries of `t`.
unfoldable pub dependencies_from :
    Table String (List String) → List Node → Table String (List String)
dependencies_from t [] = t
dependencies_from t (n ∷ ns) = dependencies_from (insert t n.id n.depends_on) ns

unfoldable pub dependencies : List Node → Table String (List String)
unfolding dependencies_from
dependencies nodes = dependencies_from [] nodes

abbrev is_free : Option (List String) → Bool
is_free none = false
is_free (some []) = true
is_free (some (d ∷ ds)) = false

-- The ids with no dependency left. The ids of a spec are distinct, so that the order of insertion
-- is the order of `position`.
abbrev ready_ids : Table String (List String) → List String
ready_ids t = keep (λ k. is_free (lookup t k)) (keys t)

-- `deps.discard(current)`
abbrev discard : String → List String → List String
discard current deps = keep (λ d. not (d == current)) deps

abbrev without : String → Table String (List String) → Table String (List String)
without current t = map_values (discard current) (remove t current)

-- `cycle` stands for DEPENDENCY_CYCLE, and `out_of_fuel` is the model's own.
pub data Sorting : Type 0 where
  ordered : List String → Sorting
  cycle : Sorting
  out_of_fuel : Sorting

abbrev prepend : String → Sorting → Sorting
prepend k (ordered ks) = ordered (k ∷ ks)
prepend k cycle = cycle
prepend k out_of_fuel = out_of_fuel

-- The `while` loop, on fuel.
pub order_from : ℕ → Table String (List String) → Sorting
order_from fuel [] = ordered []
order_from zero (e ∷ t) = out_of_fuel
order_from (suc fuel) (e ∷ t) = elim (ready_ids (e ∷ t)) [
  | [] ↦ cycle
  | current ∷ rest ↦ prepend current (order_from fuel (without current (e ∷ t)))
]

-- Each round takes an entry away, so the number of entries is fuel enough.
unfoldable pub topological_order : List Node → Sorting
unfolding order_from
topological_order nodes = order_from (length (dependencies nodes)) (dependencies nodes)
