-- ===== src/Engine/Loading.antt =====
-- `validate`, `create`, `load` and `list_runs` of ge_runtime/engine.py, over the admission of specs and
-- the store.
pub mod Checked
pub mod Examples
use hermes_graph_engineering.Base.{
  ℕ, zero, suc, String, string_eq, Bool, true, false, ◌&&◌, not, Option, none, some, List, [], ◌∷◌,
  Table, lookup, keys, all, contains, ◌==◌, ◌⊎◌, inl, inr, if◌then◌else◌,
}
use hermes_graph_engineering.Values.{Value, null, str, Fields, entries}
use hermes_graph_engineering.States.{ErrorCode, state_corrupt, invalid_argument, governance_blocked}
use hermes_graph_engineering.Spec.{Node, GraphSpec, node_ids}
use hermes_graph_engineering.Engine.State.{
  text, NodeState, RunState, World, Env, Executor, ExecutorResult, ExecutionRequest,
}
use hermes_graph_engineering.Engine.Operations.{create}
use hermes_graph_engineering.Admission.Nodes.{get_or}
use hermes_graph_engineering.Admission.Errors.{SpecError}
use hermes_graph_engineering.Admission.Admit.{
  Formats, Admission, admitted, rejected, type_error, stuck, admit,
}
use hermes_graph_engineering.Store.Names.{new_run_id}
use hermes_graph_engineering.Store.Files.{File, Stored, stored, fails}

-- `list(a) != list(b)`, the other way round
abbrev pub same_list : List String → List String → Bool
same_list [] [] = true
same_list (a ∷ as_) (b ∷ bs) = a == b && same_list as_ bs
same_list [] (b ∷ bs) = false
same_list (a ∷ as_) [] = false

-- `set(a) == set(b)`
abbrev pub same_set : List String → List String → Bool
same_set xs ys = all (λ x. contains ys x) xs && all (λ y. contains xs y) ys

-- `ExecutorCatalog()`; what its executors do is not asked for.
abbrev agent_capabilities : List String
agent_capabilities =
    "agent.reasoning" ∷ "agent.generation" ∷ "agent.tools" ∷ "agent.code" ∷ "agent.research"
    ∷ "agent.review" ∷ []

-- AgentExecutor.execute
abbrev agent_execute : ExecutionRequest → Option ExecutorResult
agent_execute req = some (record {
  outcome = governance_blocked;
  outputs = [];
  detail = text "agent work is submitted, not executed";
})

abbrev pub default_executors : (ExecutionRequest → Option ExecutorResult) → List Executor
default_executors builtin_execute =
    record {
      name = "builtin";
      deferred = false;
      capabilities = "compute.pure" ∷ [];
      execute = builtin_execute;
    }
    ∷ record {
      name = "agent";
      deferred = true;
      capabilities = agent_capabilities;
      execute = agent_execute;
    }
    ∷ []

-- The state that the store returned: the value under "spec", and the rest. The statuses in it are
-- those of the types, which `load` checks too.
pub record StoredRun : Type 0 where
  pub spec_value : Value
  pub state : RunState

pub data Loading : Type 0 where
  opened : RunState → GraphSpec → Loading
  refused : ErrorCode → Loading
  crashed : Loading

module _ (env : Env) (formats : Formats)
    (builtin_execute : ExecutionRequest → Option ExecutorResult) where
  abbrev pub default_env : Env
  default_env = record env { executors = default_executors builtin_execute; disabled = [] }

  -- Up to the tests that the statuses are valid, which a typed state passes.
  load_checked : RunState → GraphSpec → Loading
  load_checked s spec =
      if not (spec.digest == s.spec_digest && same_list spec.order s.order)
      then refused state_corrupt
      else if not (same_set (keys s.nodes) (node_ids spec.nodes))
      then refused state_corrupt
      else opened s spec

  load_admitted : RunState → Admission → Loading
  unfolding load_checked
  load_admitted s (admitted spec) = load_checked s spec
  load_admitted s (rejected code errors) = refused state_corrupt
  load_admitted s type_error = crashed
  load_admitted s stuck = crashed

  -- `load`: the stored spec is admitted again.
  unfoldable pub load_run : Stored StoredRun → Loading
  unfolding load_admitted
  load_run (fails code) = refused code
  load_run (stored run) = load_admitted run.state (admit default_env formats run.spec_value)

-- What `create` returns or raises.
pub data Creation : Type 0 where
  created_run : World → Creation
  not_admitted : Admission → Creation
  no_run_id : ErrorCode → Creation

abbrev create_with : Env → GraphSpec → Option String → String → Creation
create_with env spec none by = no_run_id invalid_argument
create_with env spec (some run_id) by = created_run (create env spec run_id by)

create_admitted : Env → Admission → (String → Option String) → String → Creation
create_admitted env (admitted spec) run_id by = create_with env spec (run_id spec.graph_id) by
create_admitted env (rejected code errors) run_id by = not_admitted (rejected code errors)
create_admitted env type_error run_id by = not_admitted type_error
create_admitted env stuck run_id by = not_admitted stuck

-- `create`, from the raw spec; the store's run ids, the time stamp and the tokens are given.
unfoldable pub create_run :
    Env → Formats → (String → Bool) → String → List String → Value → String → Creation
unfolding create_admitted
create_run env formats taken stamp tokens raw by =
    create_admitted env (admit env formats raw) (λ graph_id. new_run_id taken graph_id stamp tokens)
      by

-- A row of `list_runs`: what is in the state, or the error code.
pub record RunRow : Type 0 where
  pub run_id : String
  pub graph_id : Value
  pub status : Value ⊎ ErrorCode
  pub updated_at : Value

abbrev row_of : String → Stored Fields → RunRow
row_of run_id (stored s) = record {
  run_id = run_id;
  graph_id = get_or null (lookup (entries s) "graph_id");
  status = inl (get_or null (lookup (entries s) "status"));
  updated_at = get_or null (lookup (entries s) "updated_at");
}
row_of run_id (fails code) = record {
  run_id = run_id;
  graph_id = null;
  status = inr code;
  updated_at = null;
}

-- `list_runs`, at the run ids that the store lists and what it loads for each.
unfoldable pub list_runs : (String → Stored Fields) → ℕ → List String → List RunRow
list_runs load zero run_ids = []
list_runs load (suc limit) [] = []
list_runs load (suc limit) (run_id ∷ run_ids) =
    row_of run_id (load run_id) ∷ list_runs load limit run_ids
