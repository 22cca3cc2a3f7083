-- ===== src/Engine/Trail.antt =====
-- When the effects of ge_runtime/engine.py are in order: which states are saved, and what the save
-- before a call of an executor has to show.
use hermes_graph_engineering.Base.{◌≡◌, true, none, some, List, [], ◌∷◌, lookup, all, string_eq}
use hermes_graph_engineering.States.{NodeStatus}
use hermes_graph_engineering.Spec.{Node, GraphSpec, node, approval}
use hermes_graph_engineering.Engine.State.{
  NodeState, RunState, Env, ExecutionRequest, Effect, Event, traced, saved, executed,
  receipt_written, World,
}
use hermes_graph_engineering.Engine.Gates.{pending_gate, denied_gate}
use hermes_graph_engineering.Engine.Readiness.{status_is, is_succeeded}
use hermes_graph_engineering.Engine.Readiness.Dependencies.{Consistent}

-- The saved state allows and shows the attempt that the executor is called for.
pub record Cleared (env : Env) (spec : GraphSpec) (req : ExecutionRequest) (s : RunState)
    : Type 0 where
  pub n : Node
  pub ns : NodeState
  pub found : node spec req.node_id ≡ some n
  pub stored : lookup s.nodes req.node_id ≡ some ns
  pub running : ns.status ≡ NodeStatus.running
  pub counted : ns.attempts ≡ req.attempt
  pub approved : pending_gate env spec s n approval ≡ none
  pub not_denied : denied_gate s n ≡ none
  pub dependencies : all (status_is is_succeeded s) n.depends_on ≡ true

module _ (env : Env) (spec : GraphSpec) where
  -- The newest effect before the call is the save.
  abbrev pub ClearedBy : ExecutionRequest → List Effect → Type 0
  ClearedBy req (saved s ∷ es) = Cleared env spec req s
  ClearedBy req (traced e ∷ es) = ⊥
  ClearedBy req (receipt_written r ∷ es) = ⊥
  ClearedBy req (executed r ∷ es) = ⊥
  ClearedBy req [] = ⊥

  -- Every saved state keeps the dependency order, and every executor call is cleared by a save.
  abbrev pub Trail : List Effect → Type 0
  Trail [] = Unit
  Trail (traced e ∷ es) = Trail es
  Trail (receipt_written r ∷ es) = Trail es
  Trail (saved s ∷ es) = Consistent spec s × Trail es
  Trail (executed req ∷ es) = ClearedBy req es × Trail es

  -- The state in memory and the trail.
  pub record WorldOk (w : World) : Type 0 where
    pub deps : Consistent spec w.state
    pub trail : Trail w.effects

-- Only events are added.
pub data Quiet (es : List Effect) : List Effect → Type 0 where
  same : Quiet es es
  more : {es' : List Effect} → Quiet es es' → (e : Event) → Quiet es (traced e ∷ es')

pub Quiet-Trail :
    (env : Env) (spec : GraphSpec) {es es' : List Effect}
    → Quiet es es'
    → Trail env spec es
    → Trail env spec es'
Quiet-Trail env spec same t = t
Quiet-Trail env spec (more q e) t = Quiet-Trail env spec q t

pub Quiet-trans : {es es' es'' : List Effect} → Quiet es es' → Quiet es' es'' → Quiet es es''
Quiet-trans p same = p
Quiet-trans p (more q e) = more (Quiet-trans p q) e
