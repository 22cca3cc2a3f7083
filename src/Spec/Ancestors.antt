-- ===== src/Spec/Ancestors.antt =====
-- `ancestors` of ge_runtime/spec.py.
pub mod Closure
use hermes_graph_engineering.Base.{
  ℕ, zero, suc, ◌+◌, ◌≤◌, ◌<◌, String, ◌≡◌, refl, sym, Bool, true, false, ◌||◌, not, Option, none,
  some, List, [], ◌∷◌, Table, lookup, contains, length, ◌==◌, string_eq, if◌then◌else◌, Bool-cases,
  inl, inr, arith,
}
use hermes_graph_engineering.Spec.{Node}
use hermes_graph_engineering.Spec.Topology.{dependencies}

abbrev pub Deps : Type 0
Deps = Table String (List String)

-- `pending.extend(ds)`; the last of `pending` is the head here.
abbrev extend : List String → List String → List String
extend [] pending = pending
extend (d ∷ ds) pending = extend ds (d ∷ pending)

-- `pending` and `seen` after a round, from what `deps` has for the popped id.
next : List String → List String → String → Option (List String) → List String × List String
next pending seen current none = (pending, seen)
next pending seen current (some ds) =
    if contains seen current then (pending, seen) else (extend ds pending, current ∷ seen)

-- The `while` loop, on fuel; `none` where the fuel runs out.
gather : Deps → ℕ → List String → List String → Option (List String)
unfolding next
gather deps fuel [] seen = some seen
gather deps zero (current ∷ pending) seen = none
gather deps (suc fuel) (current ∷ pending) seen =
    let (rest, found) = next pending seen current (lookup deps current) in
    gather deps fuel rest found

abbrev or_none_at_all : Option (List String) → List String
or_none_at_all none = []
or_none_at_all (some ds) = ds

-- The dependencies of the ids that have not been seen.
abbrev unseen : List String → Deps → ℕ
unseen seen [] = 0
unseen seen ((k, ds) ∷ t) = (if contains seen k then 0 else length ds) + unseen seen t

-- Each id puts its dependencies on `pending` once.
unfoldable pub ancestors : List Node → String → Option (List String)
unfolding gather
ancestors nodes node_id =
    let deps = dependencies nodes in
    let pending = extend (or_none_at_all (lookup deps node_id)) [] in
    gather deps (length pending + unseen [] deps) pending []
