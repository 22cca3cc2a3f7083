-- ===== src/Admission/Admit/Capable.antt =====
-- The executors of a spec that `admit` of ge_runtime/spec.py returns.
use mathlib.Core.Path.{subst}
use hermes_graph_engineering.Base.{
  Among, if◌then◌else◌, ◌∙◌, String, string_eq, ◌≡◌, refl, sym, ap, not, true, Bool, Option, none,
  some, List, [], ◌∷◌, keep, contains, sorted-eq-nil, inl, inr, All, Bool-cases, ◌==◌,
}
use hermes_graph_engineering.Values.{Value}
use hermes_graph_engineering.Engine.State.{Executor, Env}
use hermes_graph_engineering.Engine.Gates.{catalog_get}
use hermes_graph_engineering.Spec.{Node, GraphSpec}
use hermes_graph_engineering.Admission.Nodes.Governance.{append_nil}
use hermes_graph_engineering.Admission.Admit.{
  find, false, Formats, admitted, admit, executor_problems, executor_errors, lacking,
  missing_capabilities,
}
use hermes_graph_engineering.Admission.Admit.Facts.{admit-Passed}

-- The element is in the list.

-- The node's executor is in the catalog under that name, is not disabled, and can do what the node
-- requires.
pub record Capable (env : Env) (n : Node) : Type 0 where
  pub executor : Executor
  pub in_catalog : Among env.executors executor
  pub named : executor.name ≡ n.executor
  pub enabled : contains env.disabled n.executor ≡ false
  pub can : (c : String) → contains n.requires c ≡ true → contains executor.capabilities c ≡ true

kept-none :
    (p : String → Bool) (xs : List String) (x : String)
    → keep (λ c. not (p c)) xs ≡ []
    → contains xs x ≡ true
    → p x ≡ true
kept-none p [] x h m = cc
kept-none p (y ∷ xs) x h m = elim (Bool-cases (p y)) [
  | inr bad ↦ let h' : y ∷ keep (λ c. not (p c)) xs ≡ [] = rw bad at h in cc
  | inl good ↦ elim (Bool-cases (y == x)) [
    | inl same ↦ rw (← (string_eq.equal_iff y x).0 same) good
    | inr other ↦ kept-none p xs x (rw good at h) (rw other at m)
  ]
]

find-Among :
    (name : String) (es : List Executor) (ex : Executor)
    → find (λ e. e.name == name) es ≡ some ex
    → Among es ex × (ex.name ≡ name)
find-Among name [] ex h = cc
find-Among name (e ∷ es) ex h = elim (Bool-cases (e.name == name)) [
  | inl same ↦
      let h' : some e ≡ some ex = rw same at h in
      let is : e ≡ ex = some_inj e ex h' in
      (inl is, rw (← is) ((string_eq.equal_iff e.name name).0 same))
  | inr other ↦ let (among, named) = find-Among name es ex (rw other at h) in (inr among, named)
]
  where
    some_inj : (a b : Executor) → some a ≡ some b → a ≡ b
    some_inj a b p = cc

-- What the catalog answers is listed and not disabled.
catalog_get-found :
    (env : Env) (name : String) (ex : Executor)
    → catalog_get env name ≡ some ex
    → Among env.executors ex × (ex.name ≡ name) × (contains env.disabled name ≡ false)
unfolding catalog_get
catalog_get-found env name ex h = at_found (find (λ e. e.name == name) env.executors) refl h
  where
    at_found :
        (o : Option Executor)
        → find (λ e. e.name == name) env.executors ≡ o
        → elim o [ none ↦ none | some e ↦ if contains env.disabled name then none else some e ]
          ≡ some ex
        → Among env.executors ex × (ex.name ≡ name) × (contains env.disabled name ≡ false)
    at_found none f g = cc
    at_found (some e) f g = elim (Bool-cases (contains env.disabled name)) [
      | inl off ↦ let g' : none ≡ some ex = rw off at g in cc
      | inr on ↦
          let g' : some e ≡ some ex = rw on at g in
          let (among, named) = find-Among name env.executors ex (f ∙ g') in (among, named, on)
    ]

executor_errors-Capable :
    (env : Env) (n : Node) (o : Option Executor)
    → catalog_get env n.executor ≡ o
    → executor_errors n o ≡ []
    → Capable env n
executor_errors-Capable env n none e h = cc
executor_errors-Capable env n (some ex) e h =
    let (among, named, on) = catalog_get-found env n.executor ex e in
    record {
      executor = ex;
      in_catalog = among;
      named = named;
      enabled = on;
      can = λ c m.
          kept-none (λ d. contains ex.capabilities d) n.requires c
            (sorted-eq-nil _ (nothing (missing_capabilities n ex) h)) m;
    }
  where
    nothing : (cs : List String) → lacking n cs ≡ [] → cs ≡ []
    nothing [] p = refl
    nothing (c ∷ cs) p = cc

executor_problems-Capable :
    (env : Env) (ns : List Node) → executor_problems env ns ≡ [] → All (Capable env) ns
unfolding executor_problems
executor_problems-Capable env [] h = tt
executor_problems-Capable env (n ∷ ns) h =
    let (here, rest) =
      append_nil (executor_errors n (catalog_get env n.executor)) (executor_problems env ns) h in
    (
      executor_errors-Capable env n (catalog_get env n.executor) refl here,
      executor_problems-Capable env ns rest,
    )

-- In a spec that `admit` returns each node names an executor that is in the catalog under that name,
-- is not disabled, and has every capability that the node requires.
pub admit-Capable :
    (env : Env) (formats : Formats) (v : Value) (spec : GraphSpec)
    → admit env formats v ≡ admitted spec
    → All (Capable env) spec.nodes
admit-Capable env formats v spec h =
    let p = admit-Passed env formats spec v h in
    subst (λ (ns : List Node). All (Capable env) ns)
      (sym (ap (λ (s : GraphSpec). s.nodes) p.is_spec))
      (executor_problems-Capable env p.ns p.executors)
