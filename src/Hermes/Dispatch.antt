-- ===== src/Hermes/Dispatch.antt =====
-- `drive` and `_drive_locked` of ge_hermes/dispatch.py. The engine's `load` is taken to succeed.
pub mod Kept
pub mod Once
pub mod Reached
pub mod Bounded
pub mod Exclusive
pub mod Stops
pub mod Examples
use hermes_graph_engineering.Base.{
  ℕ, zero, suc, String, Bool, true, false, ◌&&◌, Option, none, some, List, [], ◌∷◌, ◌++◌, leb, ltb,
  if◌then◌else◌,
}
use hermes_graph_engineering.States.{RunStatus, run_terminal, ErrorCode, invalid_argument}
use hermes_graph_engineering.Spec.{Node, GraphSpec, node}
use hermes_graph_engineering.Engine.State.{RunState, Env}
use hermes_graph_engineering.Engine.Views.{WorkOrder, pending_work}
use hermes_graph_engineering.Hermes.Guard.{WorkerScope, Process, acquire, release}
use hermes_graph_engineering.Hermes.Host.{
  Host, interlude, Claim, claimed, replay_unsafe, state_moved, claim,
}
use hermes_graph_engineering.Hermes.Delivery.{
  Dispatcher, Stop, run_finished, no_pending_work, interrupted_dispatch, state_changed,
  plan_not_approved, budget_exhausted, time_budget_exhausted, dispatch_in_progress, worker_context,
  Entry, Turn, went_on, stopped_at, raised_in, stuck, execute_and_submit,
}

-- The report, with its entries in their order, or the error that is raised. `out_of_fuel` is the
-- model's own.
pub data Ending : Type 0 where
  stopped : List Entry → Stop → Ending
  raised : ErrorCode → Ending
  out_of_fuel : Ending

pub record Driven : Type 0 where
  pub ending : Ending
  pub host : Host

abbrev pub stop : List Entry → Stop → Host → Driven
stop entries reason h = record { ending = stopped entries reason; host = h }

abbrev pub is_draft : RunStatus → Bool
is_draft RunStatus.draft = true
is_draft status = false

module _ (env : Env) (spec : GraphSpec) (d : Dispatcher) where
  -- `dispatches and self.call_budget_seconds is not None and …`
  abbrev pub over_time : ℕ → Bool
  over_time dispatches = ltb 0 dispatches && elim d.call_budget_seconds [
    | none ↦ false
    | some seconds ↦ leb seconds (d.elapsed dispatches)
  ]

  -- `next` is the next round.
  after_turn : (List Entry → Host → Driven) → List Entry → Turn × Host → Driven
  after_turn next entries (went_on e, h) = next (entries ++ e ∷ []) h
  after_turn next entries (stopped_at e reason, h) = stop (entries ++ e ∷ []) reason h
  after_turn next entries (raised_in code, h) = record { ending = raised code; host = h }
  after_turn next entries (stuck, h) = record { ending = out_of_fuel; host = h }

  after_claim :
      (List Entry → Host → Driven) → List Entry → RunState → WorkOrder → Claim × Host → Driven
  unfolding after_turn execute_and_submit
  after_claim next entries s order (claimed k, h) =
      after_turn next entries (execute_and_submit env spec d s order k h)
  after_claim next entries s order (replay_unsafe, h) =
      stop entries (interrupted_dispatch order.node) h
  after_claim next entries s order (state_moved, h) = stop entries (state_changed none) h

  -- From the choice of the order on. `spec.node` raises for an unknown id.
  dispatch_order :
      (List Entry → Host → Driven) → List Entry → WorkOrder → Option Node → Host → Driven
  unfolding after_claim claim
  dispatch_order next entries order none h = record { ending = raised invalid_argument; host = h }
  dispatch_order next entries order (some n) h =
      after_claim next entries h.state order (claim n order (interlude env spec h))

  dispatch_first : (List Entry → Host → Driven) → ℕ → List Entry → List WorkOrder → Host → Driven
  unfolding dispatch_order
  dispatch_first next dispatches entries [] h = stop entries (no_pending_work h.state.holds) h
  dispatch_first next dispatches entries (order ∷ orders) h =
      if leb d.max_dispatches dispatches
      then stop entries budget_exhausted h
      else if over_time dispatches
      then stop entries time_budget_exhausted h
      else dispatch_order next entries order (node spec order.node) h

  -- One round, on the state that is loaded.
  round : (List Entry → Host → Driven) → ℕ → List Entry → Host → Driven
  unfolding dispatch_first pending_work
  round next dispatches entries h =
      if run_terminal h.state.status
      then stop entries (run_finished h.state.status) h
      else if is_draft h.state.status
      then stop entries plan_not_approved h
      else dispatch_first next dispatches entries (pending_work h.state spec) h

  -- `_drive_locked`: the `while` loop, on fuel.
  drive_from : ℕ → ℕ → List Entry → Host → Driven
  unfolding round interlude
  drive_from zero dispatches entries h = record { ending = out_of_fuel; host = h }
  drive_from (suc fuel) dispatches entries h =
      round (drive_from fuel (suc dispatches)) dispatches entries (interlude env spec h)

  -- Each round but the last makes a dispatch.
  unfoldable pub drive_locked : Host → Driven
  unfolding drive_from
  drive_locked h = drive_from (suc d.max_dispatches) 0 [] h

  -- What `exclusive_dispatch` does after its body.
  abbrev pub leave_dispatch : Bool → Driven → Driven
  leave_dispatch acquired r = record r {
    host = record r.host { process = release d.state_key acquired r.host.process };
  }

  drive_acquired : Bool × Process → Host → Driven
  unfolding drive_locked release
  drive_acquired (false, p) h =
      leave_dispatch false (stop [] dispatch_in_progress (record h { process = p }))
  drive_acquired (true, p) h = leave_dispatch true (drive_locked (record h { process = p }))

  -- `drive`, by the scope of the calling context.
  drive_in : Option WorkerScope → Host → Driven
  unfolding drive_acquired acquire
  drive_in none h = drive_acquired (acquire d.state_key h.state.run_id h.process) h
  drive_in (some scope) h = stop [] worker_context h

  -- `drive`: what it returns or raises, and the host after it.
  unfoldable pub drive : Host → Driven
  unfolding drive_in
  drive h = drive_in h.process.worker h
