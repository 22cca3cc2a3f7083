-- ===== src/Engine/Attempt/Forward.antt =====
-- How `_record_failure` and `_complete_attempt` of ge_runtime/engine.py move the nodes.
use mathlib.Core.Path.{subst}
use hermes_graph_engineering.Base.{
  modify-modify, sym, Table, ap, ℕ, String, ◌≡◌, refl, ◌∙◌, true, Option, none, some, List, [], ◌∷◌,
  arith, lookup, all, map_values, string_eq,
}
use hermes_graph_engineering.Contracts.{
  Outputs, ContractError, CriterionResult, output_contract_errors,
}
use hermes_graph_engineering.States.{ErrorCode, ExecutorOutcome, success}
use hermes_graph_engineering.Spec.{Node, GraphSpec}
use hermes_graph_engineering.Engine.State.{
  NodeState, Message, RunState, World, Env, ExecutorResult, update_node,
}
use hermes_graph_engineering.Engine.Progress.{
  is_fitting, Progresses, Frame, Frame-refl, Frame-trans, Frame-update, Frame-nodes,
  Frame-map_values, Frame-if, Frame-if_world, Runs, Active, update-found,
}
use hermes_graph_engineering.Engine.Attempt.{
  contract_violated, criteria_of, retryable_failure, give_up, retry_later, attempt_failed,
  append_trace, store_outputs, review_or_succeed, on_state, stops, stop_other, fail_node,
  first_failure, stop_run, record_failure, add_history, accept, retry_allowed, failure_code, reject,
  check_success, complete, complete_attempt,
}

stop_other-Progresses : (id : String) (v : NodeState) → Progresses v (stop_other id v)
stop_other-Progresses id v = ground arith

stop_run-Frame : (n : Node) (s : RunState) → Frame s (stop_run n s)
stop_run-Frame n s =
    Frame-if (stops n.on_failure) s _ s
      (Frame-trans s (record s { nodes = map_values (stop_other n.id) s.nodes }) _
        (Frame-map_values s (stop_other n.id) (stop_other-Progresses n.id))
        (Frame-nodes _ _ refl refl refl refl refl))
      (Frame-refl s)

first_failure-Frame :
    (code : ErrorCode) (id : String) (m : Message) (s : RunState)
    → Frame s (first_failure code id m s)
first_failure-Frame code id m s =
    Frame-nodes s _ (ground arith) (ground arith) (ground arith) (ground arith) (ground arith)

-- Recording a failure changes no status but those that it skips.
pub record_failure-Frame :
    (env : Env) (n : Node) (code : ErrorCode) (m : Message) (w : World)
    → Frame w.state (record_failure env n code m w).state
unfolding record_failure
record_failure-Frame env n code m w =
    let s1 = update_node n.id (fail_node env.now code m) w.state in
    let s2 = first_failure code n.id m s1 in
    Frame-trans w.state s1 _
      (Frame-update w.state n.id (fail_node env.now code m) (λ v e. ground arith))
      (Frame-trans s1 s2 _ (first_failure-Frame code n.id m s1) (stop_run-Frame n s2))

-- A change of the node, and then its failure.
pub changed-Frame :
    (env : Env) (n : Node) (code : ErrorCode) (m : Message) (f : NodeState → NodeState) (w : World)
    → ((v : NodeState)
        → lookup w.state.nodes n.id ≡ some v
        → Progresses v (fail_node env.now code m (f v)))
    → Frame w.state (record_failure env n code m (on_state (update_node n.id f) w)).state
unfolding record_failure
changed-Frame env n code m f w h =
    let fail = fail_node env.now code m in
    let s1 = update_node n.id fail (update_node n.id f w.state) in
    let s2 = first_failure code n.id m s1 in
    let same : (update_node n.id (λ v. fail (f v)) w.state) ≡ s1 =
      ap (λ (t : Table String NodeState). record w.state { nodes = t })
        (sym (modify-modify w.state.nodes n.id f fail)) in
    Frame-trans w.state s1 _
      (subst (λ (s : RunState). Frame w.state s) same
        (Frame-update w.state n.id (λ v. fail (f v)) h))
      (Frame-trans s1 s2 _ (first_failure-Frame code n.id m s1) (stop_run-Frame n s2))

-- A RUNNING node may go anywhere but back to PENDING.
run-Progresses :
    (v w : NodeState) → Active v → w.attempts ≡ v.attempts → is_fitting w ≡ true → Progresses v w
run-Progresses v w r a fit = record {
  final = λ h. cc (r.status);
  attempts = omega arith;
  opened = λ h. rw r.status;
  fitting = λ h. fit;
}

module _ (env : Env) (spec : GraphSpec) (n : Node) (attempt : ℕ) where
  -- A change of a RUNNING node that counts no attempt back.
  Active-Frame :
      (s : RunState) (f : NodeState → NodeState)
      → Runs s n.id
      → ((v : NodeState) → (f v).attempts ≡ v.attempts)
      → ((v : NodeState) → Active v → is_fitting (f v) ≡ true)
      → Frame s (update_node n.id f s)
  Active-Frame s f runs same fit =
      Frame-update s n.id f (λ v e. run-Progresses v (f v) (runs v e) (same v) (fit v (runs v e)))

  Active-Runs :
      (s : RunState) (f : NodeState → NodeState)
      → Runs s n.id
      → ((v : NodeState) → (f v).status ≡ v.status)
      → ((v : NodeState) → (f v).wait ≡ v.wait)
      → Runs (update_node n.id f s) n.id
  Active-Runs s f runs same kept =
      update-found Active s n.id f
        (λ v e. record { status = same v ∙ (runs v e).status; free = rw (kept v) (runs v e).free })

  reject-Frame :
      (o : ExecutorOutcome) (m : Message) (w : World)
      → Runs w.state n.id
      → Frame w.state (reject env spec n attempt o m w).state
  unfolding reject
  reject-Frame o m w runs =
      let history = add_history env spec n attempt o m in
      let w1 = on_state (update_node n.id history) w in
      let runs1 = Active-Runs w.state history runs (λ v. refl) (λ v. refl) in
      let w2 =
        append_trace (attempt_failed n.id attempt o m (retry_allowed env spec n attempt o)) w1 in
      Frame-trans w.state w1.state _
        (Active-Frame w.state history runs (λ v. refl) (λ v a. rw a.free refl))
        (Frame-if_world (retry_allowed env spec n attempt o) w1.state _ _
          (Active-Frame w1.state (retry_later env spec n attempt m) runs1 (λ v. refl)
            (λ v a. rw a.free refl))
          (Frame-trans w1.state _ _
            (Active-Frame w1.state (give_up env spec n attempt) runs1 (λ v. refl)
              (λ v a. rw a.free refl))
            (record_failure-Frame env n (failure_code env spec n attempt o) _
              (on_state (update_node n.id (give_up env spec n attempt)) w2))))

  review_or_succeed-Frame :
      (g : Option String) (outputs : Outputs) (w : World)
      → Runs w.state n.id
      → Frame w.state (review_or_succeed env spec n attempt g outputs w).state
  unfolding review_or_succeed
  review_or_succeed-Frame (some g) outputs w runs =
      Active-Frame w.state _ runs (λ v. refl) (λ v a. rw a.status refl)
  review_or_succeed-Frame none outputs w runs =
      Active-Frame w.state _ runs (λ v. refl) (λ v a. rw a.free refl)

  accept-Frame :
      (outputs : Outputs) (w : World)
      → Runs w.state n.id
      → Frame w.state (accept env spec n attempt outputs w).state
  unfolding accept
  accept-Frame outputs w runs =
      let store = store_outputs env spec n attempt outputs in
      Frame-trans w.state (update_node n.id store w.state) _
        (Active-Frame w.state store runs (λ v. refl) (λ v a. rw a.free refl))
        (review_or_succeed-Frame _ outputs _
          (Active-Runs w.state store runs (λ v. refl) (λ v. refl)))

  check_success-Frame :
      (outputs : Outputs) (errors : List ContractError) (criteria : List CriterionResult)
      (w : World)
      → Runs w.state n.id
      → Frame w.state (check_success env spec n attempt outputs errors criteria w).state
  unfolding check_success
  check_success-Frame outputs (e ∷ es) criteria w runs =
      reject-Frame retryable_failure (contract_violated (e ∷ es)) w runs
  check_success-Frame outputs [] criteria w runs =
      Frame-if_world (all (λ (c : CriterionResult). c.passed) criteria) w.state
        (accept env spec n attempt outputs w) (reject env spec n attempt retryable_failure _ w)
        (accept-Frame outputs w runs) (reject-Frame retryable_failure _ w runs)

  complete-Frame :
      (o : ExecutorOutcome) (outputs : Outputs) (m : Message) (w : World)
      → Runs w.state n.id
      → Frame w.state (complete env spec n attempt o outputs m w).state
  unfolding complete
  complete-Frame success outputs m w runs =
      let errors = output_contract_errors n.outputs outputs in
      let criteria = criteria_of env spec n attempt outputs errors in
      let set_criteria = λ (v : NodeState). record v { criteria = criteria } in
      Frame-trans w.state (update_node n.id set_criteria w.state) _
        (Active-Frame w.state set_criteria runs (λ v. refl) (λ v a. rw a.free refl))
        (check_success-Frame outputs errors criteria (on_state (update_node n.id set_criteria) w)
          (Active-Runs w.state set_criteria runs (λ v. refl) (λ v. refl)))
  complete-Frame o outputs m w runs = reject-Frame o m w runs

-- The end of an attempt of a RUNNING node moves nodes forward only.
pub complete_attempt-Frame :
    (env : Env) (spec : GraphSpec) (n : Node) (r : ExecutorResult) (w : World)
    → Runs w.state n.id
    → Frame w.state (complete_attempt env spec n r w).state
unfolding complete_attempt
complete_attempt-Frame env spec n r w runs = at_state (lookup w.state.nodes n.id)
  where
    at_state :
        (found : Option NodeState)
        → Frame w.state
            (elim found as (λ x. World) [
              | none ↦ w
              | some ns ↦ complete env spec n ns.attempts r.outcome r.outputs r.detail w
            ]).state
    at_state none = Frame-refl w.state
    at_state (some ns) = complete-Frame env spec n ns.attempts r.outcome r.outputs r.detail w runs
