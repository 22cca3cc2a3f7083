-- ===== src/Engine/Lifecycle/Finished.antt =====
-- The operations of ge_runtime/engine.py on a run that is over.
use hermes_graph_engineering.Base.{
  ℕ, String, ◌≡◌, refl, true, false, not, Option, none, some, [], ◌∷◌, lookup, ◌==◌, string_eq,
  Bool-cases, inl, inr, arith, Table, if_ind,
}
use hermes_graph_engineering.Values.{has_text}
use hermes_graph_engineering.States.{
  NodeStatus, node_terminal, RunStatus, run_terminal, ErrorCode, invalid_transition,
  invalid_argument,
}
use hermes_graph_engineering.Spec.{GraphSpec}
use hermes_graph_engineering.Engine.State.{Wait, wait_is_attention, NodeState, RunState, Env}
use hermes_graph_engineering.Engine.Progress.{open_nodes, weight, wait_fits}
use hermes_graph_engineering.Engine.Readiness.Dependencies.{Consistent}
use hermes_graph_engineering.Engine.Operations.{
  Outcome, raise, execute_at, execute, Submission, acceptable, submit_at, submit,
}
use hermes_graph_engineering.Engine.Recovery.{resume, retry_at, retry_node, cancel}
use hermes_graph_engineering.Engine.Decisions.{decide}
use hermes_graph_engineering.Engine.Lifecycle.Reach.{Reachable-Consistent}
use hermes_graph_engineering.Engine.Lifecycle.{
  Operation, execute_run, submit_node, decide_target, resume_run, retry, cancel_run, loaded,
  perform, Reachable,
}

-- The operation raises, and has done nothing before.
pub record Refused (s : RunState) (o : Outcome) : Type 0 where
  pub code : ErrorCode
  pub unchanged : o ≡ raise code (loaded s)

refuse : (s : RunState) (code : ErrorCode) → Refused s (raise code (loaded s))
refuse s code = record { code = code; unchanged = refl }

execute_at-Refused :
    (env : Env) (spec : GraphSpec) (s : RunState) (m : Option ℕ) (st : RunStatus)
    → run_terminal st ≡ true
    → Refused s (execute_at env spec st m (loaded s))
unfolding execute_at
execute_at-Refused env spec s m RunStatus.draft h = cc
execute_at-Refused env spec s m RunStatus.approved h = cc
execute_at-Refused env spec s m RunStatus.running h = cc
execute_at-Refused env spec s m RunStatus.waiting h = cc
execute_at-Refused env spec s m RunStatus.succeeded h = refuse s invalid_transition
execute_at-Refused env spec s m RunStatus.failed h = refuse s invalid_transition
execute_at-Refused env spec s m RunStatus.cancelled h = refuse s invalid_transition

submit_at-Refused :
    (env : Env) (spec : GraphSpec) (s : RunState) (id : String) (sub : Submission) (by : String)
    (o : Option NodeState)
    → run_terminal s.status ≡ true
    → Refused s (submit_at env spec id sub by o (loaded s))
unfolding submit_at
submit_at-Refused env spec s id sub by none h = refuse s invalid_argument
submit_at-Refused env spec s id sub by (some ns) h = rw h (refuse s invalid_transition)

closed-terminal :
    (t : Table String NodeState) (k : String) (v : NodeState)
    → open_nodes t ≡ 0
    → lookup t k ≡ some v
    → node_terminal v.status ≡ true
closed-terminal [] k v h e = cc
closed-terminal ((j, w) ∷ t) k v h e = elim (Bool-cases (j == k)) [
  | inl here_it ↦
      let e' : some w ≡ some v = rw here_it at e in
      let same : w ≡ v = cc in rw (← same) (weightless w (omega arith))
  | inr later ↦ closed-terminal t k v (omega arith) (rw later at e)
]
  where
    weightless : (u : NodeState) → weight u ≡ 0 → node_terminal u.status ≡ true
    weightless u z = ground arith

not_held :
    (w : Option Wait) (st : NodeStatus)
    → wait_fits w st ≡ true
    → node_terminal st ≡ true
    → wait_is_attention w ≡ false
not_held w st f t = ground arith

retry_at-Refused :
    (env : Env) (spec : GraphSpec) (s : RunState) (id by : String) (o : Option NodeState)
    → lookup s.nodes id ≡ o
    → run_terminal s.status ≡ true
    → Consistent spec s
    → Refused s (retry_at env spec id by o (loaded s))
unfolding retry_at
retry_at-Refused env spec s id by none e h c = refuse s invalid_argument
retry_at-Refused env spec s id by (some ns) e h c =
    let free =
      not_held ns.wait ns.status (c.fitting id ns e)
        (closed-terminal s.nodes id ns (c.closed h) e) in
    rw free (refuse s invalid_transition)

-- Once a run that any calls have led to, also with crashes between, is SUCCEEDED, FAILED or
-- CANCELLED, every further operation raises, and neither saves, nor traces, nor executes anything.
pub finished-Refused :
    (env : Env) (spec : GraphSpec) (op : Operation) (s : RunState)
    → Reachable spec s
    → run_terminal s.status ≡ true
    → Refused s (perform env spec op s)
unfolding perform execute submit decide resume retry_node cancel
finished-Refused env spec (execute_run m) s r h = execute_at-Refused env spec s m s.status h
finished-Refused env spec (submit_node id sub by) s r h =
    if_ind (Refused s) (not (acceptable env spec sub)) (refuse s invalid_argument)
      (submit_at-Refused env spec s id sub by (lookup s.nodes id) h)
finished-Refused env spec (decide_target t approve by) s r h =
    if_ind (Refused s) (not (has_text by)) (refuse s invalid_argument)
      (rw h (refuse s invalid_transition))
finished-Refused env spec resume_run s r h = rw h (refuse s invalid_transition)
finished-Refused env spec (retry id by) s r h =
    retry_at-Refused env spec s id by (lookup s.nodes id) refl h (Reachable-Consistent spec s r)
finished-Refused env spec (cancel_run by) s r h = rw h (refuse s invalid_transition)
