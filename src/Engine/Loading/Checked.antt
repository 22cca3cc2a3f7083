-- ===== src/Engine/Loading/Checked.antt =====
-- What `load` of ge_runtime/engine.py makes sure of.
use mathlib.Core.Path.{subst}
use hermes_graph_engineering.Base.{
  String, string_eq, ◌≡◌, refl, true, ◌&&◌, Option, some, List, [], ◌∷◌, Table, lookup, keys, all,
  contains, all-contains, Bool-cases, inl, inr, arith, ◌==◌,
}
use hermes_graph_engineering.States.{state_corrupt}
use hermes_graph_engineering.Spec.{Node, GraphSpec, node_ids}
use hermes_graph_engineering.Engine.State.{
  NodeState, RunState, Env, ExecutionRequest, ExecutorResult,
}
use hermes_graph_engineering.Engine.Verify.Trust.{Tabled}
use hermes_graph_engineering.Admission.Admit.{
  Formats, Admission, admitted, rejected, type_error, stuck, admit,
}
use hermes_graph_engineering.Admission.Admit.Shape.{WellShaped, admit-WellShaped}
use hermes_graph_engineering.Store.Files.{Stored, stored, fails}
use hermes_graph_engineering.Engine.Loading.{
  same_list, same_set, StoredRun, opened, refused, default_env, load_checked, load_admitted,
  load_run,
}

same_list-eq : (xs ys : List String) → same_list xs ys ≡ true → xs ≡ ys
same_list-eq [] [] h = refl
same_list-eq [] (y ∷ ys) h = cc
same_list-eq (x ∷ xs) [] h = cc
same_list-eq (x ∷ xs) (y ∷ ys) h =
    let rest = same_list-eq xs ys (ground arith) in
    let first : x ≡ y = (string_eq.equal_iff x y).0 (ground arith) in rw (first, rest) refl

key-entry :
    (t : Table String NodeState) (k : String)
    → contains (keys t) k ≡ true
    → (ns : NodeState) × (lookup t k ≡ some ns)
key-entry [] k m = cc
key-entry ((j, v) ∷ t) k m = elim (Bool-cases (j == k)) [
  | inl here ↦ (v, rw here refl)
  | inr later ↦ rw later (key-entry t k (rw later at m))
]

all-Tabled :
    (env : Env) (spec : GraphSpec) (s : RunState) (ns : List Node)
    → all (λ k. contains (keys s.nodes) k) (node_ids ns) ≡ true
    → Tabled env spec s ns
all-Tabled env spec s [] h = tt
all-Tabled env spec s (n ∷ ns) h =
    (key-entry s.nodes n.id (ground arith), all-Tabled env spec s ns (ground arith))

-- What an opened run keeps.
pub record Ready (env : Env) (s : RunState) (spec : GraphSpec) : Type 0 where
  pub shape : WellShaped spec
  pub order : spec.order ≡ s.order
  pub digest : spec.digest ≡ s.spec_digest
  pub tabled : Tabled env spec s spec.nodes
  pub only :
      (k : String) → contains (keys s.nodes) k ≡ true → contains (node_ids spec.nodes) k ≡ true

opened_inj : (s t : RunState) (a b : GraphSpec) → opened s a ≡ opened t b → (s ≡ t) × (a ≡ b)
opened_inj s t a b p = (cc, cc)

module _ (env : Env) (formats : Formats)
    (builtin_execute : ExecutionRequest → Option ExecutorResult) where
  load_checked-Ready :
      (s s' : RunState) (spec spec' : GraphSpec)
      → WellShaped spec
      → load_checked env formats builtin_execute s spec ≡ opened s' spec'
      → Ready env s' spec'
  unfolding load_checked
  load_checked-Ready s s' spec spec' shape h =
      elim (Bool-cases (spec.digest == s.spec_digest && same_list spec.order s.order)) [
        | inr bad ↦ let h' : refused state_corrupt ≡ opened s' spec' = rw bad at h in cc
        | inl good ↦ elim (Bool-cases (same_set (keys s.nodes) (node_ids spec.nodes))) [
          | inr bad ↦ let h' : refused state_corrupt ≡ opened s' spec' = rw (good, bad) at h in cc
          | inl table ↦
              let h' : opened s spec ≡ opened s' spec' = rw (good, table) at h in
              let (ss, sp) = opened_inj s s' spec spec' h' in
              let ready : Ready env s spec = record {
                shape = shape;
                order = same_list-eq spec.order s.order (ground arith);
                digest = (string_eq.equal_iff spec.digest s.spec_digest).0 (ground arith);
                tabled = all-Tabled env spec s spec.nodes (ground arith);
                only = λ k m.
                    all-contains (λ x. contains (node_ids spec.nodes) x) (keys s.nodes) k
                      (ground arith) m;
              } in
              subst (λ (x : GraphSpec). Ready env s' x) sp
                (subst (λ (x : RunState). Ready env x spec) ss ready)
        ]
      ]

  -- A run that `load` opens has a spec of the shape that admission makes sure of, the order and the
  -- digest of that spec, a state for each of its nodes, and no state for anything else.
  pub load_run-Ready :
      (file : Stored StoredRun) (s : RunState) (spec : GraphSpec)
      → load_run env formats builtin_execute file ≡ opened s spec
      → Ready env s spec
  unfolding load_run load_admitted
  load_run-Ready (fails code) s spec h = cc
  load_run-Ready (stored run) s spec h =
      at_admission (admit (default_env env formats builtin_execute) formats run.spec_value) refl h
    where
      at_admission :
          (r : Admission)
          → admit (default_env env formats builtin_execute) formats run.spec_value ≡ r
          → load_admitted env formats builtin_execute run.state r ≡ opened s spec
          → Ready env s spec
      at_admission (admitted a) e h =
          load_checked-Ready run.state s a spec
            (admit-WellShaped (default_env env formats builtin_execute) formats run.spec_value a e)
            h
      at_admission (rejected code errors) e h = cc
      at_admission type_error e h = cc
      at_admission stuck e h = cc
