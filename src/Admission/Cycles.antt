-- ===== src/Admission/Cycles.antt =====
-- `find_cycle` of ge_runtime/spec.py. The stack of `visit` is passed down to the calls inside, so
-- that `stack.pop()` is the return from a call.
pub mod Paths
pub mod Colored
pub mod Invariant
pub mod Visit
pub mod Correct
use hermes_graph_engineering.Base.{
  ℕ, zero, suc, String, Option, none, some, List, [], ◌∷◌, ◌++◌, Table, lookup, keys, insert,
  length, ◌==◌, string_eq, if◌then◌else◌,
}
use hermes_graph_engineering.Spec.{Node}
use hermes_graph_engineering.Spec.Topology.{dependencies}

pub data Color : Type 0 where
  white grey black : Color

abbrev pub Colors : Type 0
Colors = Table String Color

abbrev pub Deps : Type 0
Deps = Table String (List String)

-- A cycle, the colors after a search that found none, or the model's own lack of fuel.
pub data Search : Type 0 where
  found : List String → Search
  searched : Colors → Search
  exhausted : Search

-- `stack[stack.index(dep):]`
abbrev pub from_first : String → List String → List String
from_first dep [] = []
from_first dep (k ∷ ks) = let rest = from_first dep ks in if k == dep then k ∷ ks else rest

abbrev pub or_no_deps : Option (List String) → List String
or_no_deps none = []
or_no_deps (some ds) = ds

-- `color[node_id] = black` after the loop
abbrev pub finish : String → Search → Search
finish id (searched c) = searched (insert c id black)
finish id (found ks) = found ks
finish id exhausted = exhausted

abbrev pub and_then : Search → (Colors → Search) → Search
and_then (searched c) next = next c
and_then (found ks) next = found ks
and_then exhausted next = exhausted

-- The loop over `deps[node_id]`; `visit` is the recursive call.
pub visit_deps : (String → Colors → Search) → List String → List String → Colors → Search
visit_deps visit stack [] c = searched c
visit_deps visit stack (dep ∷ ds) c = elim (lookup c dep) [
  | none ↦ visit_deps visit stack ds c
  | some color ↦ elim color [
    | grey ↦ found (from_first dep stack ++ dep ∷ [])
    | white ↦ and_then (visit dep c) (visit_deps visit stack ds)
    | black ↦ visit_deps visit stack ds c
  ]
]

module _ (deps : Deps) where
  pub visit : ℕ → List String → String → Colors → Search
  unfolding visit_deps
  visit zero stack id c = exhausted
  visit (suc fuel) stack id c =
      let pushed = stack ++ id ∷ [] in
      finish id
        (visit_deps (visit fuel pushed) pushed (or_no_deps (lookup deps id)) (insert c id grey))

  -- The loop over the ids; a stack is empty between two visits.
  pub search_from : ℕ → List String → Colors → Search
  unfolding visit
  search_from fuel [] c = searched c
  search_from fuel (id ∷ ids) c = elim (lookup c id) [
    | none ↦ search_from fuel ids c
    | some color ↦ elim color [
      | white ↦ and_then (visit fuel [] id c) (search_from fuel ids)
      | grey ↦ search_from fuel ids c
      | black ↦ search_from fuel ids c
    ]
  ]

abbrev pub all_white : List String → Colors
all_white [] = []
all_white (k ∷ ks) = (k, white) ∷ all_white ks

-- Each nested visit makes a white id grey, so the number of ids is fuel enough.
unfoldable pub find_cycle : List Node → Search
unfolding search_from visit visit_deps
find_cycle nodes =
    let deps = dependencies nodes in
    search_from deps (length deps) (keys deps) (all_white (keys deps))
