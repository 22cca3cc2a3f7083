-- ===== src/Hermes/Host.antt =====
-- A run as the dispatcher of ge_hermes/dispatch.py works on it: the state on disk, what has been
-- done so far, and what others do to the run in the meantime; `_claim` and `_release`.
use hermes_graph_engineering.Base.{
  ℕ, suc, String, Bool, true, false, ◌&&◌, not, Option, none, some, List, [], ◌∷◌, ◌++◌, lookup,
  map, ltb, ◌==◌, string_eq, nat_eq, if◌then◌else◌,
}
use hermes_graph_engineering.Spec.{Node, GraphSpec}
use hermes_graph_engineering.Engine.State.{
  NodeState, RunState, Env, Effect, receipt_written, traced, saved, executed,
}
use hermes_graph_engineering.Engine.Operations.{Outcome, awaits_submission}
use hermes_graph_engineering.Engine.Lifecycle.{Operation, perform}
use hermes_graph_engineering.Engine.Recovery.{replay_safe}
use hermes_graph_engineering.Engine.Views.{WorkOrder}
use hermes_graph_engineering.Hermes.Guard.{Process}
use hermes_graph_engineering.Hermes.WorkerContext.{WorkerContext}

-- An effect of the engine, a trace entry of the dispatcher, or work of the host in a process.
pub data Step : Type 0 where
  engine : Effect → Step
  dispatched : String → ℕ → ℕ → Step
  dispatch_released : String → ℕ → ℕ → String → Step
  worked : Process → WorkOrder → WorkerContext → Step

-- The log has the newest step first. `others` has the operations of operators and agents for each
-- moment at which the lock of the run is free, the next moment first. `process` is what guard.py keeps.
pub record Host : Type 0 where
  pub process : Process
  pub state : RunState
  pub log : List Step
  pub others : List (List Operation)

-- The newest saved state of an operation's effects.
abbrev pub on_disk : RunState → List Effect → RunState
on_disk s [] = s
on_disk s (saved s' ∷ es) = s'
on_disk s (traced e ∷ es) = on_disk s es
on_disk s (receipt_written r ∷ es) = on_disk s es
on_disk s (executed req ∷ es) = on_disk s es

abbrev pub note : Step → Host → Host
note step h = record h { log = step ∷ h.log }

module _ (env : Env) (spec : GraphSpec) where
  -- A call of the engine by the dispatcher or by others, and what it leaves.
  abbrev pub outcome_of : Operation → Host → Outcome
  outcome_of op h = perform env spec op h.state

  unfoldable pub call : Operation → Host → Host
  call op h = record h {
    state = on_disk h.state (outcome_of op h).effects;
    log = map engine (outcome_of op h).effects ++ h.log;
  }

  unfoldable pub call_all : List Operation → Host → Host
  call_all [] h = h
  call_all (op ∷ ops) h = call_all ops (call op h)

  unfoldable pub gap : List (List Operation) → Host → Host
  unfolding call_all
  gap [] h = h
  gap (ops ∷ rest) h = call_all ops (record h { others = rest })

  -- The lock is free for a moment.
  unfoldable pub interlude : Host → Host
  unfolding gap
  interlude h = gap h.others h

abbrev pub is_claim : String → ℕ → Step → Bool
is_claim node attempt (dispatched n a k) = n == node && a == attempt
is_claim node attempt step = false

abbrev pub is_release : String → ℕ → Step → Bool
is_release node attempt (dispatch_released n a k reason) = n == node && a == attempt
is_release node attempt step = false

abbrev pub is_work : String → ℕ → Step → Bool
is_work node attempt (worked p order context) = order.node == node && order.attempt == attempt
is_work node attempt step = false

-- `sum(1 for e in events if …)`
abbrev pub count_if : (Step → Bool) → List Step → ℕ
count_if p [] = 0
count_if p (s ∷ ss) = let rest = count_if p ss in if p s then suc rest else rest

abbrev pub claims : String → ℕ → List Step → ℕ
claims node attempt log = count_if (is_claim node attempt) log

abbrev pub releases : String → ℕ → List Step → ℕ
releases node attempt log = count_if (is_release node attempt) log

-- The number of the dispatch, 0 if a replay is unsafe, or None if the state moved.
pub data Claim : Type 0 where
  claimed : ℕ → Claim
  replay_unsafe state_moved : Claim

abbrev pub still_waits : WorkOrder → Option NodeState → Bool
still_waits order none = false
still_waits order (some ns) = awaits_submission ns && ns.attempts == order.attempt

-- `claims > released and not replay_safe`
abbrev pub unsafe_replay : Node → WorkOrder → Host → Bool
unsafe_replay n order h =
    ltb (releases order.node order.attempt h.log) (claims order.node order.attempt h.log)
    && not (replay_safe n)

abbrev pub claim_note : WorkOrder → ℕ → Host → Host
claim_note order k h = note (dispatched order.node order.attempt k) h

-- By whether the node still waits, and whether a replay is unsafe.
unfoldable pub claim_if : Bool → Bool → WorkOrder → ℕ → Host → Claim × Host
claim_if false unsafe order k h = (state_moved, h)
claim_if true true order k h = (replay_unsafe, h)
claim_if true false order k h = (claimed k, claim_note order k h)

-- `_claim`, with the lock held.
unfoldable pub claim : Node → WorkOrder → Host → Claim × Host
unfolding claim_if
claim n order h =
    claim_if (still_waits order (lookup h.state.nodes order.node)) (unsafe_replay n order h) order
      (suc (claims order.node order.attempt h.log)) h

-- `_release`
unfoldable pub release_claim : WorkOrder → ℕ → String → Host → Host
release_claim order dispatch reason h =
    note (dispatch_released order.node order.attempt dispatch reason) h
