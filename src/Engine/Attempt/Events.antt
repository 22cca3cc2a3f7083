-- ===== src/Engine/Attempt/Events.antt =====
-- The effects of `_record_failure` and `_complete_attempt` of ge_runtime/engine.py.
use hermes_graph_engineering.Base.{
  ℕ, String, Bool, true, false, Option, none, some, List, [], ◌∷◌, lookup, all, string_eq,
  if◌then◌else◌,
}
use hermes_graph_engineering.Contracts.{Outputs, ContractError, CriterionResult}
use hermes_graph_engineering.States.{ErrorCode, ExecutorOutcome, success}
use hermes_graph_engineering.Spec.{Node, GraphSpec}
use hermes_graph_engineering.Engine.State.{NodeState, Message, World, Env, Effect, ExecutorResult}
use hermes_graph_engineering.Engine.Trail.{Quiet, same, more, Quiet-trans}
use hermes_graph_engineering.Engine.Attempt.{
  record_failure, review_or_succeed, accept, reject, retry_allowed, check_success, complete,
  complete_attempt, failure_code,
}

pub Quiet-if :
    (b : Bool) (es : List Effect) (t u : World)
    → Quiet es t.effects
    → Quiet es u.effects
    → Quiet es (if b then t else u).effects
Quiet-if true es t u p q = p
Quiet-if false es t u p q = q

pub record_failure-Quiet :
    (env : Env) (n : Node) (code : ErrorCode) (m : Message) (w : World)
    → Quiet w.effects (record_failure env n code m w).effects
unfolding record_failure
record_failure-Quiet env n code m w = more same _

module _ (env : Env) (spec : GraphSpec) (n : Node) (attempt : ℕ) where
  reject-Quiet :
      (o : ExecutorOutcome) (m : Message) (w : World)
      → Quiet w.effects (reject env spec n attempt o m w).effects
  unfolding reject
  reject-Quiet o m w = Quiet-if (retry_allowed env spec n attempt o) w.effects _ _ (more same _) (
      Quiet-trans (more same _)
        (record_failure-Quiet env n (failure_code env spec n attempt o) _ _))

  review_or_succeed-Quiet :
      (g : Option String) (outputs : Outputs) (w : World)
      → Quiet w.effects (review_or_succeed env spec n attempt g outputs w).effects
  unfolding review_or_succeed
  review_or_succeed-Quiet (some g) outputs w = more same _
  review_or_succeed-Quiet none outputs w = more same _

  accept-Quiet :
      (outputs : Outputs) (w : World)
      → Quiet w.effects (accept env spec n attempt outputs w).effects
  unfolding accept
  accept-Quiet outputs w = review_or_succeed-Quiet _ outputs _

  check_success-Quiet :
      (outputs : Outputs) (errors : List ContractError) (criteria : List CriterionResult)
      (w : World)
      → Quiet w.effects (check_success env spec n attempt outputs errors criteria w).effects
  unfolding check_success
  check_success-Quiet outputs (e ∷ es) criteria w = reject-Quiet _ _ w
  check_success-Quiet outputs [] criteria w =
      Quiet-if (all (λ (c : CriterionResult). c.passed) criteria) w.effects
        (accept env spec n attempt outputs w) (reject env spec n attempt _ _ w)
        (accept-Quiet outputs w) (reject-Quiet _ _ w)

  complete-Quiet :
      (o : ExecutorOutcome) (outputs : Outputs) (m : Message) (w : World)
      → Quiet w.effects (complete env spec n attempt o outputs m w).effects
  unfolding complete
  complete-Quiet success outputs m w = check_success-Quiet outputs _ _ _
  complete-Quiet o outputs m w = reject-Quiet o m w

pub complete_attempt-Quiet :
    (env : Env) (spec : GraphSpec) (n : Node) (r : ExecutorResult) (w : World)
    → Quiet w.effects (complete_attempt env spec n r w).effects
unfolding complete_attempt
complete_attempt-Quiet env spec n r w = at_state (lookup w.state.nodes n.id)
  where
    at_state :
        (found : Option NodeState)
        → Quiet w.effects
            (elim found as (λ x. World) [
              | none ↦ w
              | some ns ↦ complete env spec n ns.attempts r.outcome r.outputs r.detail w
            ]).effects
    at_state none = same
    at_state (some ns) = complete-Quiet env spec n ns.attempts r.outcome r.outputs r.detail w
