-- ===== src/Engine/Decisions/Binding.antt =====
-- The actions that a decision recorded by ge_runtime/engine.py counts for.
use hermes_graph_engineering.Contracts.{Outputs}
use mathlib.Core.Path.{ap}
use hermes_graph_engineering.Base.{
  none, sym, Option, String, ◌≡◌, refl, ◌∙◌, ◌↔◌, Bool, true, false, some, Table, lookup,
  lookup-insert_self, string_eq, arith, if◌then◌else◌,
}
use hermes_graph_engineering.Spec.{approval, Node, Gate, GraphSpec}
use hermes_graph_engineering.Engine.State.{
  review_action, gate_action, Target, gate, target_eq, Action, ApprovalBinding, ApprovalRecord,
  approved, denied, RunState, World, Env,
}
use hermes_graph_engineering.Engine.Gates.{bind, gate_action_of, gate_digest, counts, approved_now}
use hermes_graph_engineering.Engine.Decisions.{GateType, review, recorded}

abbrev made : Bool → ApprovalBinding → String → String → String → ApprovalRecord
made approve b digest by now = record {
  status = if approve then approved else denied;
  binding = some b;
  binding_digest = some digest;
  decided_by = by;
  decided_at = now;
}

counts-made :
    (approve : Bool) (b : ApprovalBinding) (d e by now : String)
    → (counts (some (made approve b d by now)) e ≡ true) ↔ ((approve ≡ true) × (d ≡ e))
counts-made true b d e by now = (
  λ h. (refl, (string_eq.equal_iff d e).0 (ground arith)),
  λ h. let same = (string_eq.equal_iff d e).1 h.1 in ground arith,
)
counts-made false b d e by now = (λ h. cc (h), λ h. cc (h.0))

-- The outputs of a node of a run.
abbrev pub stored_outputs : RunState → String → Option Outputs
stored_outputs s k = elim (lookup s.nodes k) [ none ↦ none | some v ↦ v.outputs ]

-- What a gate asks to approve is the same for a node and a gate of two states: the whole node and the
-- whole gate, and for a review the outputs of the node, too.
pub record SameAction (s : RunState) (n : Node) (g : Gate) (s' : RunState) (n' : Node) (g' : Gate)
    : Type 0 where
  pub same_node : n ≡ n'
  pub same_gate : g ≡ g'
  pub same_outputs : g.type ≡ review → stored_outputs s n.id ≡ stored_outputs s' n'.id

-- All that an approval is bound to.
pub record SameBinding (spec : GraphSpec) (s : RunState) (n : Node) (g : Gate) (later : GraphSpec)
    (s' : RunState) (n' : Node) (g' : Gate) : Type 0 where
  pub graph_id : spec.graph_id ≡ later.graph_id
  pub version : spec.digest ≡ later.digest
  pub run_id : s.run_id ≡ s'.run_id
  pub action : SameAction s n g s' n' g'

approval_inj : (n m : Node) (g h : Gate) → gate_action n g ≡ gate_action m h → (n ≡ m) × (g ≡ h)
approval_inj n m g h e = (cc, cc)

review_inj :
    (n m : Node) (g h : Gate) (o p : Option Outputs)
    → review_action n g o ≡ review_action m h p
    → (n ≡ m) × (g ≡ h) × (o ≡ p)
review_inj n m g h o p e = (cc, cc, cc)

-- The action, by the type of the gate.
abbrev typed_action : GateType → RunState → Node → Gate → Action
typed_action type s n g = elim type [
  | approval ↦ gate_action n g
  | review ↦ review_action n g (stored_outputs s n.id)
]

same_typed :
    (s s' : RunState) (n n' : Node) (g g' : Gate) (a b : GateType)
    → g.type ≡ a
    → g'.type ≡ b
    → typed_action a s n g ≡ typed_action b s' n' g'
    → SameAction s n g s' n' g'
same_typed s s' n n' g g' approval approval e f h =
    let (x, y) = approval_inj n n' g g' h in
    record { same_node = x; same_gate = y; same_outputs = λ r. cc (e, r) }
same_typed s s' n n' g g' review review e f h =
    let (x, y, z) = review_inj n n' g g' (stored_outputs s n.id) (stored_outputs s' n'.id) h in
    record { same_node = x; same_gate = y; same_outputs = λ r. z }
same_typed s s' n n' g g' approval review e f h = cc
same_typed s s' n n' g g' review approval e f h = cc

typed_same :
    (s s' : RunState) (n : Node) (g : Gate) (a : GateType)
    → g.type ≡ a
    → (g.type ≡ review → stored_outputs s n.id ≡ stored_outputs s' n.id)
    → typed_action a s n g ≡ typed_action a s' n g
typed_same s s' n g approval e h = refl
typed_same s s' n g review e h = ap (λ (o : Option Outputs). review_action n g o) (h e)

SameAction-iff :
    (s s' : RunState) (n n' : Node) (g g' : Gate)
    → (gate_action_of s n g ≡ gate_action_of s' n' g') ↔ SameAction s n g s' n' g'
SameAction-iff s s' n n' g g' = (
  λ h. same_typed s s' n n' g g' g.type g'.type refl refl h,
  λ a.
      typed_same s s' n g g.type refl
        (λ r. a.same_outputs r ∙ ap (λ (m : Node). stored_outputs s' m.id) (sym a.same_node))
      ∙ ap (λ (m : Node). typed_action g.type s' m g) a.same_node
      ∙ ap (λ (h : Gate). typed_action h.type s' n' h) a.same_gate,
)

pub approved_now-recorded :
    (env : Env) (spec later : GraphSpec) (approve : Bool) (by : String) (w : World) (n : Node)
    (g : Gate) (s : RunState) (n' : Node) (g' : Gate)
    → n.id ≡ n'.id
    → g.id ≡ g'.id
    → (env.binding_digest
            (bind env spec w.state.run_id (gate n.id g.id) (gate_action_of w.state n g))
          ≡ env.binding_digest (bind env later s.run_id (gate n'.id g'.id) (gate_action_of s n' g'))
        → bind env spec w.state.run_id (gate n.id g.id) (gate_action_of w.state n g)
          ≡ bind env later s.run_id (gate n'.id g'.id) (gate_action_of s n' g'))
    → (env.action_digest (gate_action_of w.state n g) ≡ env.action_digest (gate_action_of s n' g')
        → gate_action_of w.state n g ≡ gate_action_of s n' g')
    → s.approvals
      ≡ (recorded env spec approve by
          (gate n.id g.id)
          (gate_action_of w.state n g)
          w).state.approvals
    → (approved_now env later s n' g' ≡ true)
      ↔ ((approve ≡ true) × SameBinding spec w.state n g later s n' g')
unfolding approved_now gate_digest recorded
approved_now-recorded env spec later approve by w n g s n' g' ids gates distinct differ e =
    let action = gate_action_of w.state n g in
    let now = gate_action_of s n' g' in
    let b = bind env spec w.state.run_id (gate n.id g.id) action in
    let c = bind env later s.run_id (gate n'.id g'.id) now in
    let r = made approve b (env.binding_digest b) by env.now in
    let found : lookup s.approvals (gate n'.id g'.id) ≡ some r =
      ap (λ (t : Table Target ApprovalRecord). lookup t (gate n'.id g'.id)) e
      ∙ rw (← ids, ← gates) (lookup-insert_self w.state.approvals (gate n.id g.id) r) in
    let iff = counts-made approve b (env.binding_digest b) (env.binding_digest c) by env.now in
    (
      λ h.
          let p = iff.0 (rw found at h) in
          let same = distinct p.1 in
          (
            p.0,
            record {
              graph_id = ap (λ (x : ApprovalBinding). x.graph_id) same;
              version = ap (λ (x : ApprovalBinding). x.spec_version) same;
              run_id = ap (λ (x : ApprovalBinding). x.run_id) same;
              action =
                  (SameAction-iff w.state s n n' g g').0
                    (differ (ap (λ (x : ApprovalBinding). x.action_digest) same));
            },
          ),
      λ h.
          let q = h.1 in
          let acts = (SameAction-iff w.state s n n' g g').1 q.action in
          let same : b ≡ c = cc (q.graph_id, q.version, q.run_id, ids, gates, acts) in
          rw found (iff.1 (h.0, ap env.binding_digest same)),
    )
