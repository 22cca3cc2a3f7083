-- ===== src/Hermes/Delivery/Kept.antt =====
-- Properties of a run that every step of the dispatcher of ge_hermes/dispatch.py keeps.
use hermes_graph_engineering.Base.{
  ℕ, suc, String, ◌≡◌, false, Bool-cases, inl, inr, Option, none, some, List, [], ◌∷◌,
}
use hermes_graph_engineering.States.{
  ExecutorOutcome, success, retryable_failure, non_retryable_failure, timeout, cancelled,
  governance_blocked, executor_unavailable,
}
use hermes_graph_engineering.Spec.{Node, GraphSpec, node}
use hermes_graph_engineering.Contracts.{Outputs}
use hermes_graph_engineering.Engine.State.{RunState, Env}
use hermes_graph_engineering.Hermes.Guard.{Process, worker_scope, reset_worker}
use hermes_graph_engineering.Engine.Operations.{Submission, Result, done, raises, out_of_fuel}
use hermes_graph_engineering.Engine.Lifecycle.{Operation, submit_node}
use hermes_graph_engineering.Engine.Views.{WorkOrder}
use hermes_graph_engineering.Hermes.Reply.{Extracted, extracted, not_found}
use hermes_graph_engineering.Hermes.WorkerContext.{WorkerContext, build_worker_context}
use hermes_graph_engineering.Hermes.Host.{
  worked, Host, note, outcome_of, call, call_all, gap, interlude, release_claim, unsafe_replay,
  claim_note,
}
use hermes_graph_engineering.Hermes.Delivery.{
  Dispatcher, HostResult, is_success, is_invalid_argument, failure_call, outputs_call,
  after_failure, submit_failure, after_outputs, submit_extracted, submit_result, after_outcome,
  after_work, in_scope, work, submitter, refusal, execute_and_submit, invalid_result,
}

-- The process in which the host works on an order.
abbrev pub in_worker : WorkOrder → Host → Process
in_worker order h = record h.process {
  worker = some (record { run_id = order.run_id; node_id = order.node });
}

-- A property of the run after a number of dispatches, which a submission by the dispatcher, the calls
-- of others and a release of a claim keep, and which a claim, with the work or without it, carries on
-- to one more.
pub record Kept (env : Env) (spec : GraphSpec) (P : ℕ → Host → Type 0) : Type 0 where
  pub submitted :
      (m : ℕ) (id : String) (sub : Submission) (h : Host)
      → P m h
      → P m (call env spec (submit_node id sub submitter) h)
  pub waited : (m : ℕ) (h : Host) → P m h → P m (interlude env spec h)
  pub released :
      (m : ℕ) (order : WorkOrder) (k : ℕ) (reason : String) (h : Host)
      → P m h
      → P m (release_claim order k reason h)
  pub claims_only :
      (m : ℕ) (n : Node) (order : WorkOrder) (k : ℕ) (h : Host)
      → node spec order.node ≡ some n
      → unsafe_replay n order h ≡ false
      → P m h
      → P (suc m) (claim_note order k h)
  pub claims_and_works :
      (m : ℕ) (n : Node) (order : WorkOrder) (k : ℕ) (h : Host) (context : WorkerContext)
      → node spec order.node ≡ some n
      → unsafe_replay n order h ≡ false
      → P m h
      → P (suc m) (note (worked (in_worker order h) order context) (claim_note order k h))

-- What each call of the engine keeps, the calls of others keep.
module _ (env : Env) (spec : GraphSpec) (P : ℕ → Host → Type 0)
    (called : (m : ℕ) (op : Operation) (h : Host) → P m h → P m (call env spec op h))
    (forgets : (m : ℕ) (rest : List (List Operation)) (h : Host)
      → P m h
      → P m (record h { others = rest })) where
  call_all-kept : (m : ℕ) (ops : List Operation) (h : Host) → P m h → P m (call_all env spec ops h)
  unfolding call_all
  call_all-kept m [] h p = p
  call_all-kept m (op ∷ ops) h p = call_all-kept m ops (call env spec op h) (called m op h p)

  gap-kept : (m : ℕ) (os : List (List Operation)) (h : Host) → P m h → P m (gap env spec os h)
  unfolding gap
  gap-kept m [] h p = p
  gap-kept m (ops ∷ rest) h p =
      call_all-kept m ops (record h { others = rest }) (forgets m rest h p)

  pub interlude-kept : (m : ℕ) (h : Host) → P m h → P m (interlude env spec h)
  unfolding interlude
  interlude-kept m h p = gap-kept m h.others h p

module _ (env : Env) (spec : GraphSpec) (d : Dispatcher) (P : ℕ → Host → Type 0)
    (kept : Kept env spec P) where
  after_failure-kept :
      (m : ℕ) (order : WorkOrder) (r : HostResult) (detail : String) (res : Result) (h : Host)
      → P m h
      → P m (after_failure env spec d order r detail res h).1
  unfolding after_failure
  after_failure-kept m order r detail (done s) h p = p
  after_failure-kept m order r detail (raises code) h p = p
  after_failure-kept m order r detail out_of_fuel h p = p

  submit_failure-kept :
      (m : ℕ) (order : WorkOrder) (r : HostResult) (detail : String) (h : Host)
      → P m h
      → P m (submit_failure env spec d order r detail h).1
  unfolding submit_failure
  submit_failure-kept m order r detail h p =
      after_failure-kept m order r detail
        (outcome_of env spec (failure_call env spec d order detail) h).result
        (call env spec (failure_call env spec d order detail) h) (kept.submitted m _ _ h p)

  after_outputs-kept :
      (m : ℕ) (order : WorkOrder) (r : HostResult) (o : Outputs) (res : Result) (h : Host)
      → P m h
      → P m (after_outputs env spec d order r o res h).1
  unfolding after_outputs
  after_outputs-kept m order r o (done s) h p = p
  after_outputs-kept m order r o out_of_fuel h p = p
  after_outputs-kept m order r o (raises code) h p = elim (Bool-cases (is_invalid_argument code)) [
    | inl is ↦
        rw (is, after_outputs)
          (submit_failure-kept m order r (invalid_result (refusal env o)) (interlude env spec h)
            (kept.waited m h p))
    | inr other ↦ rw (other, after_outputs) p
  ]

  submit_extracted-kept :
      (m : ℕ) (order : WorkOrder) (r : HostResult) (x : Extracted) (h : Host)
      → P m h
      → P m (submit_extracted env spec d order r x h).1
  unfolding submit_extracted
  submit_extracted-kept m order r (extracted o) h p =
      after_outputs-kept m order r o
        (outcome_of env spec (outputs_call env spec d order o) h).result
        (call env spec (outputs_call env spec d order o) h) (kept.submitted m _ _ h p)
  submit_extracted-kept m order r (not_found why) h p =
      submit_failure-kept m order r (invalid_result why) h p

  submit_result-kept :
      (m : ℕ) (order : WorkOrder) (r : HostResult) (h : Host)
      → P m h
      → P m (submit_result env spec d order r h).1
  unfolding submit_result
  submit_result-kept m order r h p = elim (Bool-cases (is_success r.outcome)) [
    | inl is ↦ rw (is, submit_result) (submit_extracted-kept m order r _ h p)
    | inr other ↦ rw (other, submit_result) (submit_failure-kept m order r _ h p)
  ]

  after_outcome-kept :
      (m : ℕ) (order : WorkOrder) (k : ℕ) (r : HostResult) (outcome : ExecutorOutcome) (h : Host)
      → P m h
      → P m (after_outcome env spec d order k r outcome h).1
  unfolding after_outcome
  after_outcome-kept m order k r executor_unavailable h p =
      kept.released m order k "host unavailable" h p
  after_outcome-kept m order k r cancelled h p = p
  after_outcome-kept m order k r governance_blocked h p = p
  after_outcome-kept m order k r success h p = submit_result-kept m order r h p
  after_outcome-kept m order k r retryable_failure h p = submit_result-kept m order r h p
  after_outcome-kept m order k r non_retryable_failure h p = submit_result-kept m order r h p
  after_outcome-kept m order k r timeout h p = submit_result-kept m order r h p

  after_work-kept :
      (m : ℕ) (order : WorkOrder) (k : ℕ) (r : HostResult) (h : Host)
      → P m h
      → P m (after_work env spec d order k r h).1
  unfolding after_work
  after_work-kept m order k r h p = after_outcome-kept m order k r r.outcome h p

  -- The work and what follows, at the context that was built, or at none.
  work-kept :
      (m : ℕ) (n : Node) (order : WorkOrder) (k : ℕ) (h : Host)
      → node spec order.node ≡ some n
      → unsafe_replay n order h ≡ false
      → P m h
      → (c : Option WorkerContext)
      → P
          (suc m)
          (after_work env spec d order k
            (work env spec d order c (claim_note order k h)).0
            (interlude env spec (work env spec d order c (claim_note order k h)).1)).1
  unfolding work in_scope worker_scope reset_worker
  work-kept m n order k h found safe p none =
      let h' = claim_note order k h in
      after_work-kept (suc m) order k (work env spec d order none h').0 (interlude env spec h')
        (kept.waited (suc m) h' (kept.claims_only m n order k h found safe p))
  work-kept m n order k h found safe p (some c) =
      let h' = claim_note order k h in
      after_work-kept (suc m) order k (work env spec d order (some c) h').0
        (interlude env spec (note (worked (in_worker order h) order c) h'))
        (kept.waited (suc m) (note (worked (in_worker order h) order c) h')
          (kept.claims_and_works m n order k h c found safe p))

  pub execute_and_submit-kept :
      (m : ℕ) (n : Node) (order : WorkOrder) (k : ℕ) (s : RunState) (h : Host)
      → node spec order.node ≡ some n
      → unsafe_replay n order h ≡ false
      → P m h
      → P (suc m) (execute_and_submit env spec d s order k (claim_note order k h)).1
  unfolding execute_and_submit
  execute_and_submit-kept m n order k s h found safe p =
      work-kept m n order k h found safe p
        (build_worker_context d.dumps s.graph_id order k d.node_timeout_seconds)
