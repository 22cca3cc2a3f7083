-- ===== src/Engine/Lifecycle.antt =====
-- The operations of ge_runtime/engine.py as one type, and the states that a run can reach.
pub mod Reach
pub mod Finished
use hermes_graph_engineering.Base.{ℕ, String, ◌≡◌, Bool, Option, List, [], ◌∷◌}
use hermes_graph_engineering.Spec.{GraphSpec}
use hermes_graph_engineering.Engine.State.{RunState, World, Env, Effect, saved, Target}
use hermes_graph_engineering.Engine.Operations.{Outcome, Submission, create, execute, submit}
use hermes_graph_engineering.Engine.Recovery.{resume, retry_node, cancel}
use hermes_graph_engineering.Engine.Decisions.{decide}
use hermes_graph_engineering.Engine.Verify.{verify}

-- A call of the engine on an existing run.
pub data Operation : Type 0 where
  execute_run : Option ℕ → Operation
  submit_node : String → Submission → String → Operation
  decide_target : Target → Bool → String → Operation
  resume_run : Operation
  retry : String → String → Operation
  cancel_run : String → Operation

-- The state as `load` returns it, before anything has happened.
abbrev pub loaded : RunState → World
loaded s = record { state = s; effects = [] }

unfoldable pub perform : Env → GraphSpec → Operation → RunState → Outcome
perform env spec (execute_run max_steps) s = execute env spec max_steps (loaded s)
perform env spec (submit_node node_id submission by) s =
    submit env spec node_id submission by (loaded s)
perform env spec (decide_target target approve by) s = decide env spec approve by target (loaded s)
perform env spec resume_run s = resume env spec (loaded s)
perform env spec (retry node_id by) s = retry_node env spec node_id by (loaded s)
perform env spec (cancel_run by) s = cancel env by (loaded s)

-- The state is saved somewhere among the effects.
pub data SavedIn (s : RunState) : List Effect → Type 0 where
  here : {es : List Effect} → SavedIn s (saved s ∷ es)
  there : {e : Effect} {es : List Effect} → SavedIn s es → SavedIn s (e ∷ es)

-- What `load` can find: the state after `create`, or one that an operation saved, also when the
-- process died before the operation was over. The settings may differ from call to call.
pub data Reachable (spec : GraphSpec) : RunState → Type 0 where
  created : (env : Env) (run_id by : String) → Reachable spec (create env spec run_id by).state
  performed :
      {s s' : RunState}
      → Reachable spec s
      → (env : Env) (op : Operation) → SavedIn s' (perform env spec op s).effects
      → Reachable spec s'
  verified :
      {s s' : RunState}
      → Reachable spec s
      → (env : Env) (trace_ok : Bool) → SavedIn s' (verify env spec trace_ok (loaded s)).0.effects
      → Reachable spec s'
