-- ===== src/Engine/Attempt/Outcome.antt =====
-- How an attempt may end in `_complete_attempt` of ge_runtime/engine.py.
use hermes_graph_engineering.Base.{
  ℕ, ◌<◌, String, ◌≡◌, refl, ◌∙◌, Bool, true, false, Option, none, some, List, [], ◌∷◌, arith,
  lookup, all, Bool-cases, inl, inr, string_eq,
}
use hermes_graph_engineering.Contracts.{
  Outputs, ContractError, CriterionResult, evaluate_criteria, output_contract_errors,
}
use hermes_graph_engineering.States.{NodeStatus, ExecutorOutcome, success, retryable_failure}
use hermes_graph_engineering.Spec.{Node, GraphSpec, review}
use hermes_graph_engineering.Engine.State.{
  NodeState, RunState, World, Env, ExecutorResult, Message, contract_violated, attempt_failed,
  append_trace, update_node, on_state,
}
use hermes_graph_engineering.Engine.Gates.{pending_gate}
use hermes_graph_engineering.Engine.Progress.{update-found}
use hermes_graph_engineering.Engine.Readiness.Dependencies.{OptionRel-back}
use hermes_graph_engineering.Engine.Attempt.Forward.{record_failure-Frame}
use hermes_graph_engineering.Engine.Attempt.{
  ErrorCode, retryable, record_failure, criteria_of, give_up, retry_later, store_outputs,
  review_or_succeed, add_history, accept, retry_allowed, failure_code, or_outcome, reject,
  check_success, complete, complete_attempt,
}

-- The node under a key, if there is one, has this status.
abbrev pub Has : RunState → String → NodeStatus → Type 0
Has s k st = (v : NodeState) → lookup s.nodes k ≡ some v → v.status ≡ st

module _ (env : Env) (spec : GraphSpec) (n : Node) (attempt : ℕ) where
  -- An attempt may be made again: it failed in a way that may pass, timed out, or reported a success
  -- that was not accepted; attempts are left, and the node is idempotent and without side effects.
  pub data Passing : ExecutorOutcome → Type 0 where
    failed_for_now : Passing retryable_failure
    timed_out : Passing ExecutorOutcome.timeout
    unacceptable : Passing success

  pub record MayRetry (r : ExecutorResult) : Type 0 where
    pub passing : Passing r.outcome
    pub left : attempt < n.max_attempts
    pub idempotent : n.idempotent ≡ true
    pub no_effects : n.side_effects ≡ false

  -- The status after an attempt that was not accepted.
  pub data Rejected (r : ExecutorResult) : NodeStatus → Type 0 where
    again : MayRetry r → Rejected r NodeStatus.ready
    given_up : (MayRetry r → ⊥) → Rejected r NodeStatus.failed

  -- A success whose outputs meet the contract and all criteria.
  pub record Accepted (r : ExecutorResult) : Type 0 where
    pub succeeded : r.outcome ≡ success
    pub conforms : output_contract_errors n.outputs r.outputs ≡ []
    pub passed :
        all
          (λ (c : CriterionResult). c.passed)
          (evaluate_criteria env.re n.success_criteria r.outputs)
        ≡ true

  -- The run once the criteria and the outputs are stored in the node.
  abbrev pub with_outputs : ExecutorResult → RunState → RunState
  with_outputs r s = update_node n.id (store_outputs env spec n attempt r.outputs) (
      update_node n.id
        (λ ns. record ns { criteria = evaluate_criteria env.re n.success_criteria r.outputs }) s)

  pub data Ends (r : ExecutorResult) (s : RunState) : NodeStatus → Type 0 where
    accepted :
        Accepted r
        → pending_gate env spec (with_outputs r s) n review ≡ none
        → Ends r s NodeStatus.succeeded
    to_review :
        Accepted r
        → (g : String) → pending_gate env spec (with_outputs r s) n review ≡ some g
        → Ends r s NodeStatus.running
    rejected : {st : NodeStatus} → (Accepted r → ⊥) → Rejected r st → Ends r s st

  -- The outcome that `reject` is given for a result, and what it says of the result.
  pub data Counted (r : ExecutorResult) : ExecutorOutcome → Type 0 where
    as_reported : (r.outcome ≡ success → ⊥) → Counted r r.outcome
    as_retryable : r.outcome ≡ success → Counted r retryable_failure

  passing_for : (o : ExecutorOutcome) → retryable o ≡ true → Passing o
  passing_for retryable_failure h = failed_for_now
  passing_for ExecutorOutcome.timeout h = timed_out
  passing_for success h = cc
  passing_for ExecutorOutcome.non_retryable_failure h = cc
  passing_for ExecutorOutcome.cancelled h = cc
  passing_for ExecutorOutcome.governance_blocked h = cc
  passing_for ExecutorOutcome.executor_unavailable h = cc

  retryable_for : (o : ExecutorOutcome) → (o ≡ success → ⊥) → Passing o → retryable o ≡ true
  retryable_for retryable_failure u failed_for_now = refl
  retryable_for ExecutorOutcome.timeout u timed_out = refl
  retryable_for success u unacceptable = absurd (u refl)
  retryable_for ExecutorOutcome.non_retryable_failure u p = elim p [ ]
  retryable_for ExecutorOutcome.cancelled u p = elim p [ ]
  retryable_for ExecutorOutcome.governance_blocked u p = elim p [ ]
  retryable_for ExecutorOutcome.executor_unavailable u p = elim p [ ]

  retry_allowed-MayRetry :
      (r : ExecutorResult) (o : ExecutorOutcome)
      → Counted r o
      → retry_allowed env spec n attempt o ≡ true
      → MayRetry r
  unfolding retry_allowed
  retry_allowed-MayRetry r o (as_reported u) h = record {
    passing = passing_for r.outcome (ground arith);
    left = ground arith;
    idempotent = ground arith;
    no_effects = ground arith;
  }
  retry_allowed-MayRetry r o (as_retryable e) h = record {
    passing = rw e unacceptable;
    left = ground arith;
    idempotent = ground arith;
    no_effects = ground arith;
  }

  MayRetry-retry_allowed :
      (r : ExecutorResult) (o : ExecutorOutcome)
      → Counted r o
      → MayRetry r
      → retry_allowed env spec n attempt o ≡ true
  unfolding retry_allowed
  MayRetry-retry_allowed r o (as_reported u) m =
      let may = retryable_for r.outcome u m.passing in
      ground (arith, may, m.left, m.idempotent, m.no_effects)
  MayRetry-retry_allowed r o (as_retryable e) m = ground (arith, m.left, m.idempotent, m.no_effects)

  failed-kept :
      (code : ErrorCode) (m : Message) (w : World)
      → Has w.state n.id NodeStatus.failed
      → Has (record_failure env n code m w).state n.id NodeStatus.failed
  failed-kept code m w h v e =
      let w' = record_failure env n code m w in
      let (a, found, p) =
        OptionRel-back (lookup w.state.nodes n.id) (lookup w'.state.nodes n.id) v
          ((record_failure-Frame env n code m w).nodes.at n.id) e in
      let failed = h a found in (p.final (rw failed refl)).0 ∙ failed

  reject-Rejected :
      (r : ExecutorResult) (o : ExecutorOutcome) (m : Message) (w : World) (v : NodeState)
      → Counted r o
      → lookup (reject env spec n attempt o m w).state.nodes n.id ≡ some v
      → Rejected r v.status
  unfolding reject
  reject-Rejected r o m w v counted e =
      let w' = λ (b : Bool).
        append_trace (attempt_failed n.id attempt o m b)
          (on_state (update_node n.id (add_history env spec n attempt o m)) w) in
      elim (Bool-cases (retry_allowed env spec n attempt o)) [
        | inl may ↦
            let st : v.status ≡ NodeStatus.ready =
              update-found (λ u. u.status ≡ NodeStatus.ready) (w' true).state n.id
                (retry_later env spec n attempt m) (λ u f. refl) v (rw may at e) in
            rw st (again (retry_allowed-MayRetry r o counted may))
        | inr may_not ↦
            let st : v.status ≡ NodeStatus.failed =
              failed-kept (failure_code env spec n attempt o) (or_outcome env spec n attempt m o)
                (on_state (update_node n.id (give_up env spec n attempt)) (w' false))
                (update-found (λ u. u.status ≡ NodeStatus.failed) (w' false).state n.id
                  (give_up env spec n attempt) (λ u f. refl))
                v (rw may_not at e) in
            rw st (given_up (λ may. cc (may_not, MayRetry-retry_allowed r o counted may)))
      ]

  update-Has :
      (s : RunState) (f : NodeState → NodeState) (st : NodeStatus)
      → Has s n.id st
      → ((v : NodeState) → (f v).status ≡ v.status)
      → Has (update_node n.id f s) n.id st
  update-Has s f st h same = update-found (λ v. v.status ≡ st) s n.id f (λ v e. same v ∙ h v e)

  review_or_succeed-Ends :
      (r : ExecutorResult) (s : RunState) (w : World) (g : Option String)
      → Accepted r
      → pending_gate env spec (with_outputs r s) n review ≡ g
      → Has w.state n.id NodeStatus.running
      → (v : NodeState)
      → lookup (review_or_succeed env spec n attempt g r.outputs w).state.nodes n.id ≡ some v
      → Ends r s v.status
  unfolding review_or_succeed
  review_or_succeed-Ends r s w none a p run v e =
      let st : v.status ≡ NodeStatus.succeeded =
        update-found (λ u. u.status ≡ NodeStatus.succeeded) w.state n.id _ (λ u f. refl) v e in
      rw st (accepted a p)
  review_or_succeed-Ends r s w (some g) a p run v e =
      let st : v.status ≡ NodeStatus.running =
        update-Has w.state _ NodeStatus.running run (λ u. refl) v e in
      rw st (to_review a g p)

  abbrev with_criteria : List CriterionResult → World → World
  with_criteria criteria w = on_state (update_node n.id (λ ns. record ns { criteria = criteria })) w

  check_success-Ends :
      (r : ExecutorResult) (errors : List ContractError) (w : World)
      → r.outcome ≡ success
      → output_contract_errors n.outputs r.outputs ≡ errors
      → Has w.state n.id NodeStatus.running
      → (v : NodeState)
      → lookup
          (check_success env spec n attempt r.outputs errors
            (criteria_of env spec n attempt r.outputs errors)
            (with_criteria (criteria_of env spec n attempt r.outputs errors) w)).state.nodes
          n.id
        ≡ some v
      → Ends r w.state v.status
  unfolding check_success accept
  check_success-Ends r (x ∷ xs) w o errs run v e =
      rejected (λ a. cc (errs, a.conforms))
        (reject-Rejected r retryable_failure (contract_violated (x ∷ xs)) (with_criteria [] w) v
          (as_retryable o) e)
  check_success-Ends r [] w o errs run v e =
      let criteria = evaluate_criteria env.re n.success_criteria r.outputs in
      elim (Bool-cases (all (λ (c : CriterionResult). c.passed) criteria)) [
        | inl pass ↦
            review_or_succeed-Ends r w.state
              (on_state (update_node n.id (store_outputs env spec n attempt r.outputs))
                (with_criteria criteria w))
              _ (record { succeeded = o; conforms = errs; passed = pass }) refl
              (update-Has (with_criteria criteria w).state
                (store_outputs env spec n attempt r.outputs) NodeStatus.running
                (update-Has w.state (λ ns. record ns { criteria = criteria }) NodeStatus.running run
                  (λ u. refl))
                (λ u. refl))
              v (rw pass at e)
        | inr fail ↦
            rejected (λ a. cc (fail, a.passed))
              (reject-Rejected r retryable_failure _ (with_criteria criteria w) v (as_retryable o)
                (rw fail at e))
      ]

  complete-Ends :
      (o : ExecutorOutcome) (outputs : Outputs) (m : Message) (w : World)
      → Has w.state n.id NodeStatus.running
      → (v : NodeState)
      → lookup (complete env spec n attempt o outputs m w).state.nodes n.id ≡ some v
      → Ends (record { outcome = o; outputs = outputs; detail = m }) w.state v.status
  unfolding complete
  complete-Ends success outputs m w run v e =
      check_success-Ends (record { outcome = success; outputs = outputs; detail = m })
        (output_contract_errors n.outputs outputs) w refl refl run v e
  complete-Ends ExecutorOutcome.retryable_failure outputs m w run v e =
      rejected (λ a. cc (a.succeeded))
        (reject-Rejected
          (record { outcome = ExecutorOutcome.retryable_failure; outputs = outputs; detail = m })
          ExecutorOutcome.retryable_failure m w v (as_reported (λ f. cc (f))) e)
  complete-Ends ExecutorOutcome.non_retryable_failure outputs m w run v e =
      rejected (λ a. cc (a.succeeded))
        (reject-Rejected
          (record {
            outcome = ExecutorOutcome.non_retryable_failure;
            outputs = outputs;
            detail = m;
          })
          ExecutorOutcome.non_retryable_failure m w v (as_reported (λ f. cc (f))) e)
  complete-Ends ExecutorOutcome.timeout outputs m w run v e =
      rejected (λ a. cc (a.succeeded))
        (reject-Rejected
          (record { outcome = ExecutorOutcome.timeout; outputs = outputs; detail = m })
          ExecutorOutcome.timeout m w v (as_reported (λ f. cc (f))) e)
  complete-Ends ExecutorOutcome.cancelled outputs m w run v e =
      rejected (λ a. cc (a.succeeded))
        (reject-Rejected
          (record { outcome = ExecutorOutcome.cancelled; outputs = outputs; detail = m })
          ExecutorOutcome.cancelled m w v (as_reported (λ f. cc (f))) e)
  complete-Ends ExecutorOutcome.governance_blocked outputs m w run v e =
      rejected (λ a. cc (a.succeeded))
        (reject-Rejected
          (record { outcome = ExecutorOutcome.governance_blocked; outputs = outputs; detail = m })
          ExecutorOutcome.governance_blocked m w v (as_reported (λ f. cc (f))) e)
  complete-Ends ExecutorOutcome.executor_unavailable outputs m w run v e =
      rejected (λ a. cc (a.succeeded))
        (reject-Rejected
          (record { outcome = ExecutorOutcome.executor_unavailable; outputs = outputs; detail = m })
          ExecutorOutcome.executor_unavailable m w v (as_reported (λ f. cc (f))) e)

-- When an attempt of a RUNNING node ends, the node is SUCCEEDED only if the executor reported a
-- success whose outputs meet the output contract and all the success criteria, and no review gate
-- is pending with these outputs; it stays RUNNING only if such a success has a pending review gate;
-- if it was not accepted it is READY again where the executor reported RETRYABLE_FAILURE, TIMEOUT or
-- such an unaccepted success, attempts are left, and the node is idempotent and without side
-- effects; and in all other cases it is FAILED.
pub complete_attempt-Ends :
    (env : Env) (spec : GraphSpec) (n : Node) (r : ExecutorResult) (w : World) (ns : NodeState)
    → lookup w.state.nodes n.id ≡ some ns
    → ns.status ≡ NodeStatus.running
    → (v : NodeState) → lookup (complete_attempt env spec n r w).state.nodes n.id ≡ some v
    → Ends env spec n ns.attempts r w.state v.status
unfolding complete_attempt
complete_attempt-Ends env spec n r w ns at_n run v e =
    complete-Ends env spec n ns.attempts r.outcome r.outputs r.detail w
      (λ u f. let same : ns ≡ u = cc (at_n, f) in rw (← same) run) v
      (completed (lookup w.state.nodes n.id) at_n e)
  where
    completed :
        (o : Option NodeState)
        → o ≡ some ns
        → lookup
            (elim o as (λ x. World) [
              | none ↦ w
              | some u ↦ complete env spec n u.attempts r.outcome r.outputs r.detail w
            ]).state.nodes
            n.id
          ≡ some v
        → lookup (complete env spec n ns.attempts r.outcome r.outputs r.detail w).state.nodes n.id
          ≡ some v
    completed none f e = cc
    completed (some u) f e = let same : u ≡ ns = cc in rw same at e
