-- ===== src/Engine/Lifecycle/Reach.antt =====
-- The states of a run that `load` of ge_runtime/engine.py can find, and the operations on them.
use hermes_graph_engineering.Base.{
  if◌then◌else◌, String, ◌≡◌, refl, Bool, true, false, some, List, [], ◌∷◌, lookup, ◌==◌, string_eq,
  Bool-cases, inl, inr,
}
use hermes_graph_engineering.States.{RunStatus, run_terminal}
use hermes_graph_engineering.Spec.{Node, GraphSpec}
use hermes_graph_engineering.Engine.State.{
  NodeState, RunState, Env, Effect, saved, traced, executed, receipt_written,
}
use hermes_graph_engineering.Engine.Progress.{has_started}
use hermes_graph_engineering.Engine.Readiness.Dependencies.{Consistent, Consistent-nodes}
use hermes_graph_engineering.Engine.Trail.{Trail, WorldOk}
use hermes_graph_engineering.Engine.Operations.{initial_node, initial_nodes, create}
use hermes_graph_engineering.Engine.Safety.Operations.{execute-Trail, submit-Trail}
use hermes_graph_engineering.Engine.Safety.Recovery.{resume-Trail, retry_node-Trail, cancel-Trail}
use hermes_graph_engineering.Engine.Decisions.Trails.{decide-Trail}
use hermes_graph_engineering.Engine.Verify.{verify}
use hermes_graph_engineering.Engine.Lifecycle.{
  Operation, execute_run, submit_node, decide_target, resume_run, retry, cancel_run, loaded,
  perform, SavedIn, here, there, Reachable, created, performed, verified,
}

loaded-WorldOk :
    (env : Env) (spec : GraphSpec) (s : RunState) → Consistent spec s → WorldOk env spec (loaded s)
loaded-WorldOk env spec s c = record { deps = c; trail = tt }

-- From a state in which every node that has begun (READY, RUNNING, SUCCEEDED or held for attention)
-- has only SUCCEEDED dependencies, every wait fits its node's status, and no node is open if the
-- run is over, no operation saves a state of another kind; and the effect before each call of an
-- executor is a save of a state in which the node is RUNNING with the attempt counted, no approval
-- gate of it is pending, no gate of it is denied, and all of its dependencies have SUCCEEDED.
pub perform-Trail :
    (env : Env) (spec : GraphSpec) (op : Operation) (s : RunState)
    → Consistent spec s
    → Trail env spec (perform env spec op s).effects
unfolding perform
perform-Trail env spec (execute_run m) s c =
    execute-Trail env spec m (loaded s) (loaded-WorldOk env spec s c)
perform-Trail env spec (submit_node id sub by) s c =
    submit-Trail env spec id sub by (loaded s) (loaded-WorldOk env spec s c)
perform-Trail env spec (decide_target t approve by) s c =
    decide-Trail env spec approve by t (loaded s) (loaded-WorldOk env spec s c)
perform-Trail env spec resume_run s c =
    resume-Trail env spec (loaded s) (loaded-WorldOk env spec s c)
perform-Trail env spec (retry id by) s c =
    retry_node-Trail env spec id by (loaded s) (loaded-WorldOk env spec s c)
perform-Trail env spec (cancel_run by) s c =
    cancel-Trail env spec by (loaded s) (loaded-WorldOk env spec s c)

saved-Consistent :
    (env : Env) (spec : GraphSpec) (s : RunState) {es : List Effect}
    → SavedIn s es
    → Trail env spec es
    → Consistent spec s
saved-Consistent env spec s here t = t.0
saved-Consistent env spec s (there {e = traced e} p) t = saved-Consistent env spec s p t
saved-Consistent env spec s (there {e = receipt_written r} p) t = saved-Consistent env spec s p t
saved-Consistent env spec s (there {e = saved r} p) t = saved-Consistent env spec s p t.1
saved-Consistent env spec s (there {e = executed r} p) t = saved-Consistent env spec s p t.1

initial-found :
    (ns : List Node) (k : String) (v : NodeState)
    → lookup (initial_nodes ns) k ≡ some v
    → v ≡ initial_node
initial-found [] k v e = cc
initial-found (n ∷ ns) k v e = elim (Bool-cases (n.id == k)) [
  | inl here_it ↦ let e' : some initial_node ≡ some v = rw here_it at e in cc
  | inr later ↦ initial-found ns k v (rw later at e)
]

unstarted : (ns : NodeState) → ns ≡ initial_node → has_started ns ≡ true → ⊥
unstarted ns e h = let h' : has_started initial_node ≡ true = rw e at h in cc

fresh : (b : Bool) → run_terminal (if b then RunStatus.draft else RunStatus.approved) ≡ true → ⊥
fresh true h = cc
fresh false h = cc

created-Consistent :
    (env : Env) (spec : GraphSpec) (run_id by : String)
    → Consistent spec (create env spec run_id by).state
unfolding create
created-Consistent env spec run_id by = record {
  done =
      λ k n ns found at_k begun. absurd (unstarted ns (initial-found spec.nodes k ns at_k) begun);
  fitting = λ k ns at_k. rw (initial-found spec.nodes k ns at_k) refl;
  closed = λ h. absurd (fresh env.require_plan_approval h);
}

verify-Trail :
    (env : Env) (spec : GraphSpec) (trace_ok : Bool) (s : RunState)
    → Consistent spec s
    → Trail env spec (verify env spec trace_ok (loaded s)).0.effects
unfolding verify
verify-Trail env spec trace_ok s c = (Consistent-nodes spec s _ refl c.closed c, tt)

-- In every state that a run can reach, by any calls of the operations and of `verify`, under any settings and with
-- a crash at any moment, each node that has begun (READY, RUNNING, SUCCEEDED or held for attention)
-- has only SUCCEEDED dependencies, only a READY node waits for an approval, and only a RUNNING node
-- waits for anything else; and a run that is over has only terminal nodes.
pub Reachable-Consistent : (spec : GraphSpec) (s : RunState) → Reachable spec s → Consistent spec s
Reachable-Consistent spec s (created env run_id by) = created-Consistent env spec run_id by
Reachable-Consistent spec s (performed {s = before} r env op p) =
    saved-Consistent env spec s p
      (perform-Trail env spec op before (Reachable-Consistent spec before r))
Reachable-Consistent spec s (verified {s = before} r env trace_ok p) =
    saved-Consistent env spec s p
      (verify-Trail env spec trace_ok before (Reachable-Consistent spec before r))
