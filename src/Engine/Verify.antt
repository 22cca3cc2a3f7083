-- ===== src/Engine/Verify.antt =====
-- `verify` of ge_runtime/engine.py: the checks of a run, its receipt, and what is kept of them. The
-- texts beside the checks are left out.
pub mod Trust
use hermes_graph_engineering.Base.{
  String, string_eq, Bool, true, false, ◌&&◌, not, Option, none, some, List, [], ◌∷◌, ◌++◌, lookup,
  all, if◌then◌else◌,
}
use hermes_graph_engineering.Contracts.{
  Outputs, ContractError, CriterionResult, Regex, output_contract_errors, evaluate_criteria,
}
use hermes_graph_engineering.States.{TerminalOutcome, NodeStatus, node_status_eq, RunStatus}
use hermes_graph_engineering.Spec.{Gate, Node, GraphSpec}
use hermes_graph_engineering.Engine.State.{
  NodeState, plan, target_eq, ApprovalRecord, Decision, approved, not_required, CheckName,
  state_integrity, spec_digest, trace_chain, run_succeeded, plan_approval, node_status,
  output_contract, success_criteria, gate_approval, CheckResult, Receipt, RunState, Effect,
  receipt_written, run_verified, World, Env, append_trace, emit, save, on_state,
}
use hermes_graph_engineering.Engine.Gates.{decision_eq, counts, plan_digest, approved_now}

abbrev is_nil {ℓ} : {A : Type ℓ} → List A → Bool
is_nil [] = true
is_nil (x ∷ xs) = false

abbrev check : CheckName → Bool → CheckResult
check name passed = record { name = name; passed = passed }

abbrev pub is_succeeded_run : RunStatus → Bool
is_succeeded_run RunStatus.succeeded = true
is_succeeded_run RunStatus.draft = false
is_succeeded_run RunStatus.approved = false
is_succeeded_run RunStatus.running = false
is_succeeded_run RunStatus.waiting = false
is_succeeded_run RunStatus.failed = false
is_succeeded_run RunStatus.cancelled = false

-- `ns.get("outputs") or {}`
abbrev pub or_no_outputs : Option Outputs → Outputs
or_no_outputs none = []
or_no_outputs (some o) = o

abbrev pub criteria_pass : List CriterionResult → Bool
criteria_pass results = all (λ r. r.passed) results

abbrev outcome_of : RunStatus → Option TerminalOutcome
outcome_of RunStatus.succeeded = some TerminalOutcome.succeeded
outcome_of RunStatus.failed = some TerminalOutcome.failed
outcome_of RunStatus.cancelled = some TerminalOutcome.cancelled
outcome_of RunStatus.draft = none
outcome_of RunStatus.approved = none
outcome_of RunStatus.running = none
outcome_of RunStatus.waiting = none

abbrev failing : List CheckResult → List CheckName
failing [] = []
failing (c ∷ cs) = let rest = failing cs in if c.passed then rest else c.name ∷ rest

module _ (env : Env) (spec : GraphSpec) where
  -- The plan's approval, at the record of it.
  abbrev pub plan_valid : RunState → Option ApprovalRecord → Bool
  plan_valid s none = false
  plan_valid s (some r) =
      if decision_eq r.status not_required then true else counts (some r) (plan_digest env spec s)

  -- The checks of a node that are made where it has succeeded.
  outcome_checks : Node → NodeState → List CheckResult
  outcome_checks n ns =
      let outputs = or_no_outputs ns.outputs in
      if node_status_eq ns.status NodeStatus.succeeded
      then check (output_contract n.id) (is_nil (output_contract_errors n.outputs outputs))
        ∷ check (success_criteria n.id)
            (criteria_pass (evaluate_criteria env.re n.success_criteria outputs))
        ∷ []
      else []

  gate_checks : RunState → Node → List Gate → List CheckResult
  gate_checks s n [] = []
  gate_checks s n (g ∷ gs) =
      check (gate_approval n.id g.id) (approved_now env spec s n g) ∷ gate_checks s n gs

  -- The state of every node is there, as `load` checks.
  node_checks : RunState → Node → Option NodeState → List CheckResult
  unfolding outcome_checks gate_checks
  node_checks s n none = []
  node_checks s n (some ns) =
      check (node_status n.id) (node_status_eq ns.status NodeStatus.succeeded)
      ∷ (outcome_checks n ns ++ gate_checks s n n.gates)

  all_node_checks : RunState → List Node → List CheckResult
  unfolding node_checks
  all_node_checks s [] = []
  all_node_checks s (n ∷ ns) = node_checks s n (lookup s.nodes n.id) ++ all_node_checks s ns

  -- The checks, from what `verify_trace` answered.
  unfoldable pub checks_of : Bool → RunState → List CheckResult
  unfolding all_node_checks
  checks_of trace_ok s =
      check state_integrity true
      ∷ check spec_digest true
      ∷ check trace_chain trace_ok
      ∷ check run_succeeded (is_succeeded_run s.status)
      ∷ check plan_approval (plan_valid s (lookup s.approvals plan))
      ∷ all_node_checks s spec.nodes

  unfoldable pub receipt_of : Bool → RunState → Receipt
  receipt_of trace_ok s =
      let checks = checks_of trace_ok s in
      record {
        run_id = s.run_id;
        graph_id = spec.graph_id;
        spec_version = spec.digest;
        run_status = s.status;
        terminal_outcome = outcome_of s.status;
        verified = all (λ c. c.passed) checks;
        checks = checks;
        verified_at = env.now;
      }

  abbrev noted : Receipt → RunState → RunState
  noted r s = record s {
    verification = some (record {
      verified = r.verified;
      verified_at = r.verified_at;
      failed_checks = failing r.checks;
    });
  }

  -- `verify`: the receipt is written, then the trace, then the state. It returns the receipt.
  unfoldable pub verify : Bool → World → World × Receipt
  unfolding receipt_of
  verify trace_ok w =
      let r = receipt_of trace_ok w.state in
      (
        save env (
            on_state (noted r) (
              append_trace (run_verified r.verified (failing r.checks))
                (emit (receipt_written r) w))),
        r,
      )
