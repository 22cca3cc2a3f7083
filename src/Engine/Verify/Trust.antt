-- ===== src/Engine/Verify/Trust.antt =====
-- What it means that `verify` of ge_runtime/engine.py says "verified".
use mathlib.Core.Path.{subst}
use hermes_graph_engineering.Base.{
  String, string_eq, ◌≡◌, refl, sym, ap, ◌∙◌, ◌↔◌, Bool, true, false, ◌&&◌, Option, none, some,
  List, [], ◌∷◌, ◌++◌, lookup, all, Bool-cases, inl, inr, ◌⊎◌, arith, if◌then◌else◌, ◌==◌,
}
use hermes_graph_engineering.Contracts.{ContractError, output_contract_errors, evaluate_criteria}
use hermes_graph_engineering.Contracts.Conformance.{Conforms, output_contract_errors_iff}
use hermes_graph_engineering.States.{NodeStatus, node_status_eq, RunStatus}
use hermes_graph_engineering.Spec.{Gate, Node, GraphSpec}
use hermes_graph_engineering.Engine.State.{
  NodeState, plan, target_eq, ApprovalRecord, Decision, approved, denied, not_required, CheckResult,
  RunState, World, Env,
}
use hermes_graph_engineering.Engine.Gates.{decision_eq, plan_digest, approved_now}
use hermes_graph_engineering.Engine.Verify.{
  is_nil, is_succeeded_run, or_no_outputs, criteria_pass, plan_valid, outcome_checks, gate_checks,
  node_checks, all_node_checks, checks_of, receipt_of, verify,
}

passes : List CheckResult → Bool
passes cs = all (λ c. c.passed) cs

passes-append : (xs ys : List CheckResult) → passes (xs ++ ys) ≡ (passes xs && passes ys)
unfolding passes
passes-append [] ys = refl
passes-append (x ∷ xs) ys = ground (arith, passes-append xs ys)

and_iff : (a b : Bool) → ((a && b) ≡ true) ↔ ((a ≡ true) × (b ≡ true))
and_iff a b = (λ h. (ground arith, ground arith), λ h. ground arith)

module _ (env : Env) (spec : GraphSpec) (s : RunState) where
  -- The plan needs no approval, or was approved for the binding that it has now.
  abbrev pub PlanSettled : Type 0
  PlanSettled =
      (r : ApprovalRecord) × (lookup s.approvals plan ≡ some r)
      × ((r.status ≡ not_required)
          ⊎ ((r.status ≡ approved) × (r.binding_digest ≡ some (plan_digest env spec s))))

  -- The node has succeeded with outputs that keep its contract and pass its criteria, and each of
  -- its gates is approved for the binding that it has now.
  pub record Proven (n : Node) (ns : NodeState) : Type 0 where
    pub succeeded : ns.status ≡ NodeStatus.succeeded
    pub conforms : Conforms n.outputs (or_no_outputs ns.outputs)
    pub criteria :
        criteria_pass (evaluate_criteria env.re n.success_criteria (or_no_outputs ns.outputs))
        ≡ true
    pub gates : all (approved_now env spec s n) n.gates ≡ true

  -- What is checked of the nodes; each has a state, which `load` makes sure of.
  abbrev pub AllProven : List Node → Type 0
  AllProven [] = Unit
  AllProven (n ∷ ns) =
      ((st : NodeState) × (lookup s.nodes n.id ≡ some st) × Proven n st) × AllProven ns

  abbrev pub Tabled : List Node → Type 0
  Tabled [] = Unit
  Tabled (n ∷ ns) = ((st : NodeState) × (lookup s.nodes n.id ≡ some st)) × Tabled ns

  pub record Trustworthy (trace_ok : Bool) : Type 0 where
    pub trace : trace_ok ≡ true
    pub run : s.status ≡ RunStatus.succeeded
    pub plan_settled : PlanSettled
    pub nodes : AllProven spec.nodes

  plan_valid-Settled :
      (o : Option ApprovalRecord)
      → lookup s.approvals plan ≡ o
      → (plan_valid env spec s o ≡ true) ↔ PlanSettled
  plan_valid-Settled none e = (λ h. cc, λ (r, at_plan, _). cc)
  plan_valid-Settled (some r) e = (
    λ h. (r, e, forward r.status r.binding_digest h),
    λ (q, at_plan, why).
        let same : q ≡ r = cc in
        backward r.status r.binding_digest (
          subst
            (λ (t : ApprovalRecord).
              (t.status ≡ not_required)
              ⊎ ((t.status ≡ approved) × (t.binding_digest ≡ some (plan_digest env spec s))))
            same why),
  )
    where
      forward :
          (d : Decision) (b : Option String)
          → (if decision_eq d not_required
              then true
              else (decision_eq d approved && (elim b as (λ x. Bool) [
                | none ↦ false
                | some t ↦ t == plan_digest env spec s
              ])))
            ≡ true
          → (d ≡ not_required) ⊎ ((d ≡ approved) × (b ≡ some (plan_digest env spec s)))
      forward not_required b h = inl refl
      forward denied b h = cc
      forward approved none h = cc
      forward approved (some t) h =
          inr (refl, ap some ((string_eq.equal_iff t (plan_digest env spec s)).0 h))

      backward :
          (d : Decision) (b : Option String)
          → (d ≡ not_required) ⊎ ((d ≡ approved) × (b ≡ some (plan_digest env spec s)))
          → (if decision_eq d not_required
              then true
              else (decision_eq d approved && (elim b as (λ x. Bool) [
                | none ↦ false
                | some t ↦ t == plan_digest env spec s
              ])))
            ≡ true
      backward d b (inl e) = rw e refl
      backward d b (inr (e, f)) = rw (e, f) ((string_eq.equal_iff _ _).1 refl)

  gate_checks-all :
      (n : Node) (gs : List Gate)
      → passes (gate_checks env spec s n gs) ≡ all (approved_now env spec s n) gs
  unfolding gate_checks passes
  gate_checks-all n [] = refl
  gate_checks-all n (g ∷ gs) =
      ap (λ (b : Bool). approved_now env spec s n g && b) (gate_checks-all n gs)

  is_nil_iff : (es : List ContractError) → (is_nil es ≡ true) ↔ (es ≡ [])
  is_nil_iff [] = (λ h. refl, λ h. refl)
  is_nil_iff (e ∷ es) = (λ h. cc, λ h. cc)

  succeeded_iff :
      (st : NodeStatus)
      → (node_status_eq st NodeStatus.succeeded ≡ true) ↔ (st ≡ NodeStatus.succeeded)
  succeeded_iff NodeStatus.succeeded = (λ h. refl, λ h. refl)
  succeeded_iff NodeStatus.pending = (λ h. cc, λ h. cc)
  succeeded_iff NodeStatus.ready = (λ h. cc, λ h. cc)
  succeeded_iff NodeStatus.running = (λ h. cc, λ h. cc)
  succeeded_iff NodeStatus.failed = (λ h. cc, λ h. cc)
  succeeded_iff NodeStatus.blocked = (λ h. cc, λ h. cc)
  succeeded_iff NodeStatus.skipped = (λ h. cc, λ h. cc)

  -- The checks of a succeeded node are those of its contract, its criteria and its gates.
  succeeded_checks :
      (n : Node) (st : NodeState)
      → node_status_eq st.status NodeStatus.succeeded ≡ true
      → passes (node_checks env spec s n (some st)) ≡ (
          is_nil (output_contract_errors n.outputs (or_no_outputs st.outputs))
          && (criteria_pass (evaluate_criteria env.re n.success_criteria (or_no_outputs st.outputs))
              && all (approved_now env spec s n) n.gates))
  unfolding node_checks outcome_checks passes
  succeeded_checks n st e = rw (e, gate_checks-all n n.gates) refl

  failed_node :
      (n : Node) (st : NodeState)
      → node_status_eq st.status NodeStatus.succeeded ≡ false
      → passes (node_checks env spec s n (some st)) ≡ false
  unfolding node_checks passes
  failed_node n st e = rw e refl

  node_checks_iff :
      (n : Node) (st : NodeState)
      → (passes (node_checks env spec s n (some st)) ≡ true) ↔ Proven n st
  node_checks_iff n st = (
    λ h. elim (Bool-cases (node_status_eq st.status NodeStatus.succeeded)) [
      | inr other ↦ cc (failed_node n st other)
      | inl won ↦
          let h' = sym (succeeded_checks n st won) ∙ h in
          let (contract, rest) = (and_iff _ _).0 h' in
          let (criteria, gates) = (and_iff _ _).0 rest in
          record {
            succeeded = (succeeded_iff st.status).0 won;
            conforms =
                (output_contract_errors_iff n.outputs (or_no_outputs st.outputs)).0
                  ((is_nil_iff _).0 contract);
            criteria = criteria;
            gates = gates;
          }
    ],
    λ p.
        succeeded_checks n st ((succeeded_iff st.status).1 p.succeeded)
        ∙ (and_iff _ _).1 (
          (is_nil_iff _).1
              ((output_contract_errors_iff n.outputs (or_no_outputs st.outputs)).1 p.conforms),
          (and_iff _ _).1 (p.criteria, p.gates),
        ),
  )

  all_node_checks_iff :
      (ns : List Node) → Tabled ns → (passes (all_node_checks env spec s ns) ≡ true) ↔ AllProven ns
  unfolding all_node_checks passes
  all_node_checks_iff [] t = (λ h. tt, λ h. refl)
  all_node_checks_iff (n ∷ ns) ((st, at_n), t) =
      let again = all_node_checks_iff ns t in
      let split =
        passes-append (node_checks env spec s n (lookup s.nodes n.id))
          (all_node_checks env spec s ns) in
      let here : passes (node_checks env spec s n (lookup s.nodes n.id))
          ≡ passes (node_checks env spec s n (some st)) =
        ap (λ (o : Option NodeState). passes (node_checks env spec s n o)) at_n in
      (
        λ h.
            let (p, q) = (and_iff _ _).0 (sym split ∙ h) in
            ((st, at_n, (node_checks_iff n st).0 (sym here ∙ p)), again.0 q),
        λ h.
            let (st', at_n', proven) = h.0 in
            let same : st' ≡ st = cc in
            split
            ∙ (and_iff _ _).1 (
              here ∙ (node_checks_iff n st).1 (subst (λ (x : NodeState). Proven n x) same proven),
              again.1 h.1,
            ),
      )

  run_iff : (st : RunStatus) → (is_succeeded_run st ≡ true) ↔ (st ≡ RunStatus.succeeded)
  run_iff RunStatus.succeeded = (λ h. refl, λ h. refl)
  run_iff RunStatus.draft = (λ h. cc, λ h. cc)
  run_iff RunStatus.approved = (λ h. cc, λ h. cc)
  run_iff RunStatus.running = (λ h. cc, λ h. cc)
  run_iff RunStatus.waiting = (λ h. cc, λ h. cc)
  run_iff RunStatus.failed = (λ h. cc, λ h. cc)
  run_iff RunStatus.cancelled = (λ h. cc, λ h. cc)

  receipt_of-Trustworthy :
      (trace_ok : Bool)
      → Tabled spec.nodes
      → ((receipt_of env spec trace_ok s).verified ≡ true) ↔ Trustworthy trace_ok
  unfolding receipt_of checks_of passes
  receipt_of-Trustworthy trace_ok t =
      let nodes = all_node_checks_iff spec.nodes t in
      let the_plan = plan_valid-Settled (lookup s.approvals plan) refl in
      (
        λ h.
            let (trace, h1) = (and_iff _ _).0 h in
            let (run, h2) = (and_iff _ _).0 h1 in
            let (valid, h3) = (and_iff _ _).0 h2 in
            record {
              trace = trace;
              run = (run_iff s.status).0 run;
              plan_settled = the_plan.0 valid;
              nodes = nodes.0 h3;
            },
        λ p. (and_iff _ _).1 (
          p.trace,
          (and_iff _ _).1 (
            (run_iff s.status).1 p.run,
            (and_iff _ _).1 (the_plan.1 p.plan_settled, nodes.1 p.nodes),
          ),
        ),
      )

-- Where each node of the spec has a state, the receipt of `verify` says "verified" exactly if the
-- trace is verified, the run has SUCCEEDED, its plan needs no approval or is approved for the
-- binding that it has now, and each node has SUCCEEDED with outputs that keep its output contract
-- and pass its success criteria, and with each of its gates approved for its binding of now.
pub verify-Trustworthy :
    (env : Env) (spec : GraphSpec) (trace_ok : Bool) (w : World)
    → Tabled env spec w.state spec.nodes
    → ((verify env spec trace_ok w).1.verified ≡ true) ↔ Trustworthy env spec w.state trace_ok
unfolding verify
verify-Trustworthy env spec trace_ok w t = receipt_of-Trustworthy env spec w.state trace_ok t
