-- ===== src/Engine/Gates/Stable.antt =====
-- What the open gates of ge_runtime/engine.py depend on.
use mathlib.Core.Path.{ap₂}
use hermes_graph_engineering.Base.{
  Table, ap, ◌≡◌, refl, List, [], ◌∷◌, arith, lookup, ◌⊎◌, inl, inr,
}
use hermes_graph_engineering.Spec.{Gate, GateType, approval, review, Node, GraphSpec}
use hermes_graph_engineering.Engine.State.{RunState, Env, ApprovalRecord, gate, target_eq}
use hermes_graph_engineering.Engine.Gates.{
  counts, Target, bind, gate_action_of, approved_now, gate_digest, pending_among, pending_gate,
  denied_among, denied_gate,
}

Type-cases : (t : GateType) → (t ≡ approval) ⊎ (t ≡ review)
Type-cases approval = inl refl
Type-cases review = inr refl

module _ (s s' : RunState) (approvals : s'.approvals ≡ s.approvals) where
  pub denied_gate-same : (n : Node) → denied_gate s' n ≡ denied_gate s n
  unfolding denied_gate
  denied_gate-same n = ap (λ a. denied_among a n n.gates) approvals

  module _ (env : Env) (spec : GraphSpec) (n : Node) (run_id : s'.run_id ≡ s.run_id) where
    -- The digest of an approval gate does not depend on the nodes' states.
    gate_digest-same :
        (g : Gate) → g.type ≡ approval → gate_digest env spec s' n g ≡ gate_digest env spec s n g
    unfolding gate_digest
    gate_digest-same g t =
        let action : gate_action_of s' n g ≡ gate_action_of s n g = ground arith in
        ap₂ (λ r a. env.binding_digest (bind env spec r (gate n.id g.id) a)) run_id action

    approved_now-same :
        (g : Gate) → g.type ≡ approval → approved_now env spec s' n g ≡ approved_now env spec s n g
    unfolding approved_now
    approved_now-same g t =
        ap₂ (λ (a : Table Target ApprovalRecord) d. counts (lookup a (gate n.id g.id)) d) approvals
          (gate_digest-same g t)

    pending_among-same :
        (gs : List Gate)
        → pending_among env spec s' n approval gs ≡ pending_among env spec s n approval gs
    unfolding pending_among
    pending_among-same [] = refl
    pending_among-same (g ∷ gs) = elim (Type-cases g.type) [
      | inl t ↦ ground (arith, pending_among-same gs, approved_now-same g t)
      | inr t ↦ ground (arith, pending_among-same gs)
    ]

    pub pending_approval-same :
        pending_gate env spec s' n approval ≡ pending_gate env spec s n approval
    unfolding pending_gate
    pending_approval-same = pending_among-same n.gates
