-- ===== src/Engine/Recovery/Cancelled.antt =====
-- What `cancel` of ge_runtime/engine.py leaves.
use hermes_graph_engineering.Base.{
  String, ◌≡◌, refl, true, false, some, [], ◌∷◌, lookup, map_values, all, values, Table, string_eq,
  arith, lookup-map_values,
}
use hermes_graph_engineering.States.{node_terminal, RunStatus, run_terminal}
use hermes_graph_engineering.Engine.State.{
  Message, NodeState, RunState, World, Env, traced, saved, Event,
}
use hermes_graph_engineering.Engine.Readiness.{skip_open}
use hermes_graph_engineering.Engine.Settle.{all_terminal}
use hermes_graph_engineering.Engine.Operations.{Outcome, done}
use hermes_graph_engineering.Engine.Recovery.{cancelled_state, cancel}

-- The run is over and saved, nothing was executed, and what was terminal is as it was.
pub record Cancelled (by : String) (w : World) (o : Outcome) : Type 0 where
  pub s : RunState
  pub result : o.result ≡ done s
  pub effects : o.effects ≡ saved s ∷ traced (Event.run_cancelled by) ∷ w.effects
  pub status : s.status ≡ RunStatus.cancelled
  pub over : all_terminal s ≡ true
  pub kept :
      (k : String) (v : NodeState)
      → lookup w.state.nodes k ≡ some v
      → node_terminal v.status ≡ true
      → lookup s.nodes k ≡ some v

skipped-terminal :
    (reason : Message) (t : Table String NodeState)
    → all (λ ns. node_terminal ns.status) (values (map_values (skip_open reason) t)) ≡ true
skipped-terminal reason [] = refl
skipped-terminal reason ((k, v) ∷ t) = let rest = skipped-terminal reason t in ground arith

skip_open-kept :
    (reason : Message) (t : Table String NodeState) (k : String) (v : NodeState)
    → lookup t k ≡ some v
    → node_terminal v.status ≡ true
    → lookup (map_values (skip_open reason) t) k ≡ some v
skip_open-kept reason t k v e over = rw (lookup-map_values t k (skip_open reason), e, over) refl

-- `cancel` of a run that is not over leaves it CANCELLED with all its nodes terminal, in its result
-- as on disk; each node that was terminal is as it was, and no executor is called.
pub cancel-Cancelled :
    (env : Env) (by : String) (w : World)
    → run_terminal w.state.status ≡ false
    → Cancelled by w (cancel env by w)
unfolding cancel
cancel-Cancelled env by w live = rw live (record {
  s = record (cancelled_state env w.state) { updated_at = env.now };
  result = refl;
  effects = refl;
  status = refl;
  over = skipped-terminal Message.run_cancelled w.state.nodes;
  kept = skip_open-kept Message.run_cancelled w.state.nodes;
})
