-- ===== src/Hermes/Delivery/Ends.antt =====
-- That a turn of the dispatcher of ge_hermes/dispatch.py ends, since a submission does, and how.
use hermes_graph_engineering.Base.{
  refl, ◌∷◌, ◌⊎◌, List, if◌then◌else◌, string_eq, not, lookup, ℕ, String, ◌≡◌, Bool, true, false,
  Bool-cases, inl, inr, Option, none, some, if_cases,
}
use hermes_graph_engineering.States.{
  run_terminal, invalid_argument, invalid_transition, ExecutorOutcome, success, retryable_failure,
  non_retryable_failure, timeout, cancelled, governance_blocked, executor_unavailable, ErrorCode,
}
use hermes_graph_engineering.Spec.{Node, GraphSpec, node}
use hermes_graph_engineering.Contracts.{Outputs}
use hermes_graph_engineering.Engine.State.{NodeState, RunState, World, Env}
use hermes_graph_engineering.Engine.Advance.{Control, going, returned, raised}
use hermes_graph_engineering.Engine.Advance.Termination.{advance_total}
use hermes_graph_engineering.Engine.Operations.{
  awaits_submission, acceptable, raise, Result, done, raises, out_of_fuel, Outcome, Submission,
  after_loop, after_advance, advance_settle, submit, submit_at, submit_to,
}
use hermes_graph_engineering.Engine.Lifecycle.{loaded, submit_node, perform}
use hermes_graph_engineering.Engine.Views.{WorkOrder}
use hermes_graph_engineering.Hermes.Reply.{Extracted, extracted, not_found}
use hermes_graph_engineering.Hermes.WorkerContext.{build_worker_context}
use hermes_graph_engineering.Hermes.Host.{
  dispatch_released, Host, outcome_of, interlude, release_claim,
}
use hermes_graph_engineering.Hermes.Delivery.{
  Step, Entry, host_declined, host_unavailable, Stop, state_changed, entry_of, Dispatcher,
  HostResult, Turn, went_on, stopped_at, raised_in, stuck, after_raise, is_success,
  is_invalid_argument, is_invalid_transition, failure_call, outputs_call, after_failure,
  submit_failure, after_outputs, submit_extracted, submit_result, after_outcome, after_work, work,
  refusal, execute_and_submit, invalid_result,
}

-- The engine's call returns or raises.
abbrev pub Answers : Result → Type 0
Answers (done s) = Unit
Answers (raises code) = Unit
Answers out_of_fuel = ⊥

-- What a reason to stop that a turn gives says of its entry and of the run that it leaves.
abbrev pub FromTurn : Entry → Host → Stop → Type 0
FromTurn e h (host_unavailable detail) =
    (e.outcome ≡ executor_unavailable)
    × (e.submitted ≡ false)
    × ((k : ℕ) × (log : List Step) × (h.log
          ≡ dispatch_released e.node e.attempt k "host unavailable" ∷ log))
FromTurn e h (host_declined detail) =
    ((e.outcome ≡ cancelled) ⊎ (e.outcome ≡ governance_blocked)) × (e.submitted ≡ false)
FromTurn e h (state_changed (some code)) = (code ≡ invalid_transition) × (e.submitted ≡ false)
FromTurn e h reason = ⊥

abbrev pub TurnEnds : Turn × Host → Type 0
TurnEnds (went_on e, h) = Unit
TurnEnds (stopped_at e reason, h) = FromTurn e h reason
TurnEnds (raised_in code, h) = Unit
TurnEnds (stuck, h) = ⊥

invalid : (code : ErrorCode) → is_invalid_transition code ≡ true → code ≡ invalid_transition
invalid invalid_transition e = refl
invalid code e = cc

either-Answers :
    (b : Bool) (o o' : Outcome)
    → Answers o.result
    → Answers o'.result
    → Answers (if b then o else o').result
either-Answers true o o' a a' = a
either-Answers false o o' a a' = a'

module _ (env : Env) (spec : GraphSpec) where
  after_loop-Answers : (c : Control) (w : World) → Answers (after_loop env spec c w).result
  unfolding after_loop
  after_loop-Answers (raised code) w = tt
  after_loop-Answers going w = tt
  after_loop-Answers returned w = tt

  advance_settle-Answers :
      (budget : ℕ) (w : World) → Answers (advance_settle env spec budget w).result
  unfolding advance_settle after_advance
  advance_settle-Answers budget w =
      let (l, e, b) = advance_total env spec budget w in rw e (after_loop-Answers l.control l.world)

  submit_to-Answers :
      (id : String) (sub : Submission) (by : String) (ns : NodeState) (n : Option Node) (w : World)
      → Answers (submit_to env spec id sub by ns n w).result
  unfolding submit_to
  submit_to-Answers id sub by ns none w = tt
  submit_to-Answers id sub by ns (some n) w = advance_settle-Answers env.max_steps _

  submit_at-Answers :
      (id : String) (sub : Submission) (by : String) (ns : Option NodeState) (w : World)
      → Answers (submit_at env spec id sub by ns w).result
  unfolding submit_at
  submit_at-Answers id sub by none w = tt
  submit_at-Answers id sub by (some ns) w =
      let o = submit_to env spec id sub by ns (node spec id) w in
      let refused = raise invalid_transition w in
      either-Answers (run_terminal w.state.status) refused
        (if not (awaits_submission ns) then refused else o) tt
        (either-Answers (not (awaits_submission ns)) refused o tt
          (submit_to-Answers id sub by ns (node spec id) w))

  -- A submission by the dispatcher returns or raises.
  pub submit_node-Answers :
      (id : String) (sub : Submission) (by : String) (h : Host)
      → Answers (outcome_of env spec (submit_node id sub by) h).result
  unfolding perform submit
  submit_node-Answers id sub by h =
      let w = loaded h.state in
      let ns = lookup h.state.nodes id in
      either-Answers (not (acceptable env spec sub)) (raise invalid_argument w)
        (submit_at env spec id sub by ns w) tt (submit_at-Answers id sub by ns w)

after_raise-TurnEnds :
    (order : WorkOrder) (r : HostResult) (code : ErrorCode) (h : Host)
    → TurnEnds (after_raise order r code, h)
after_raise-TurnEnds order r code h =
    if_cases (λ (t : Turn). TurnEnds (t, h)) (is_invalid_transition code)
      {x = stopped_at (entry_of order r false) (state_changed (some code))} {y = raised_in code}
      (λ moved. (invalid code moved, refl)) (λ other. tt)

module _ (env : Env) (spec : GraphSpec) (d : Dispatcher) where
  after_failure-TurnEnds :
      (order : WorkOrder) (r : HostResult) (detail : String) (res : Result) (h : Host)
      → Answers res
      → TurnEnds (after_failure env spec d order r detail res h)
  unfolding after_failure
  after_failure-TurnEnds order r detail (done s) h a = tt
  after_failure-TurnEnds order r detail (raises code) h a = after_raise-TurnEnds order r code h
  after_failure-TurnEnds order r detail out_of_fuel h a = a

  submit_failure-TurnEnds :
      (order : WorkOrder) (r : HostResult) (detail : String) (h : Host)
      → TurnEnds (submit_failure env spec d order r detail h)
  unfolding submit_failure
  submit_failure-TurnEnds order r detail h =
      after_failure-TurnEnds order r detail
        (outcome_of env spec (failure_call env spec d order detail) h).result _
        (submit_node-Answers env spec _ _ _ h)

  after_outputs-TurnEnds :
      (order : WorkOrder) (r : HostResult) (o : Outputs) (res : Result) (h : Host)
      → Answers res
      → TurnEnds (after_outputs env spec d order r o res h)
  unfolding after_outputs
  after_outputs-TurnEnds order r o (done s) h a = tt
  after_outputs-TurnEnds order r o out_of_fuel h a = a
  after_outputs-TurnEnds order r o (raises code) h a =
      elim (Bool-cases (is_invalid_argument code)) [
        | inl is ↦
            rw (is, after_outputs)
              (submit_failure-TurnEnds order r (invalid_result (refusal env o))
                (interlude env spec h))
        | inr other ↦ rw (other, after_outputs) (after_raise-TurnEnds order r code h)
      ]

  submit_extracted-TurnEnds :
      (order : WorkOrder) (r : HostResult) (x : Extracted) (h : Host)
      → TurnEnds (submit_extracted env spec d order r x h)
  unfolding submit_extracted
  submit_extracted-TurnEnds order r (extracted o) h =
      after_outputs-TurnEnds order r o
        (outcome_of env spec (outputs_call env spec d order o) h).result _
        (submit_node-Answers env spec _ _ _ h)
  submit_extracted-TurnEnds order r (not_found why) h =
      submit_failure-TurnEnds order r (invalid_result why) h

  submit_result-TurnEnds :
      (order : WorkOrder) (r : HostResult) (h : Host)
      → TurnEnds (submit_result env spec d order r h)
  unfolding submit_result
  submit_result-TurnEnds order r h = elim (Bool-cases (is_success r.outcome)) [
    | inl is ↦ rw (is, submit_result) (submit_extracted-TurnEnds order r _ h)
    | inr other ↦ rw (other, submit_result) (submit_failure-TurnEnds order r _ h)
  ]

  after_outcome-TurnEnds :
      (order : WorkOrder) (k : ℕ) (r : HostResult) (outcome : ExecutorOutcome) (h : Host)
      → r.outcome ≡ outcome
      → TurnEnds (after_outcome env spec d order k r outcome h)
  unfolding after_outcome release_claim
  after_outcome-TurnEnds order k r executor_unavailable h e = (e, refl, (k, h.log, refl))
  after_outcome-TurnEnds order k r cancelled h e = (inl e, refl)
  after_outcome-TurnEnds order k r governance_blocked h e = (inr e, refl)
  after_outcome-TurnEnds order k r success h e = submit_result-TurnEnds order r h
  after_outcome-TurnEnds order k r retryable_failure h e = submit_result-TurnEnds order r h
  after_outcome-TurnEnds order k r non_retryable_failure h e = submit_result-TurnEnds order r h
  after_outcome-TurnEnds order k r timeout h e = submit_result-TurnEnds order r h

  -- A turn of the host goes on, stops or raises.
  pub execute_and_submit-TurnEnds :
      (s : RunState) (order : WorkOrder) (k : ℕ) (h : Host)
      → TurnEnds (execute_and_submit env spec d s order k h)
  unfolding execute_and_submit after_work
  execute_and_submit-TurnEnds s order k h =
      let c = build_worker_context d.dumps s.graph_id order k d.node_timeout_seconds in
      let (r, h') = work env spec d order c h in
      after_outcome-TurnEnds order k r r.outcome (interlude env spec h') refl
