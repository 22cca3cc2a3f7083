-- ===== src/Engine/Safety.antt =====
-- What is on disk in the course of `_advance`, `_settle` and `_save` of ge_runtime/engine.py.
pub mod Operations
pub mod Recovery
use hermes_graph_engineering.Base.{
  values, all, if_cases, Table, ℕ, String, ◌≡◌, refl, sym, ◌∙◌, Bool, true, false, Option, none,
  some, List, [], ◌∷◌, arith, lookup, Bool-cases, inl, inr, if◌then◌else◌, string_eq,
}
use hermes_graph_engineering.States.{node_terminal, NodeStatus, RunStatus, run_terminal, ErrorCode}
use hermes_graph_engineering.Spec.{Node, GraphSpec, node}
use hermes_graph_engineering.Engine.State.{
  NodeState, RunState, World, Env, Effect, Event, traced, saved, append_trace, save, update_node,
  on_state,
}
use hermes_graph_engineering.Engine.Progress.{open_nodes, Frame}
use hermes_graph_engineering.Engine.Readiness.{refresh_readiness}
use hermes_graph_engineering.Engine.Readiness.Dependencies.{
  Consistent, Consistent-nodes, Frame-Consistent, refresh_readiness-Consistent,
}
use hermes_graph_engineering.Engine.Trail.{more, same, Trail, WorldOk, Quiet, Quiet-Trail}
use hermes_graph_engineering.Engine.Advance.{
  Control, going, returned, raised, Loop, loop_start, visit, advance,
}
use hermes_graph_engineering.Engine.Advance.WriteAhead.{visit-WorldOk}
use hermes_graph_engineering.Engine.Advance.Rule.{Rule, advance-keeps}
use hermes_graph_engineering.Engine.Settle.{settle, all_terminal}
use hermes_graph_engineering.Engine.Operations.{
  Outcome, Result, done, raises, out_of_fuel, after_loop, after_advance, raise, return,
  advance_settle, preflight_executors, PreflightProblem, if_available,
}

-- Where every node is terminal, none is open.
all_terminal-closed :
    (t : Table String NodeState)
    → all (λ ns. node_terminal ns.status) (values t) ≡ true
    → open_nodes t ≡ 0
all_terminal-closed [] h = refl
all_terminal-closed ((k, v) ∷ t) h =
    let rest = all_terminal-closed t in
    let first : node_terminal v.status ≡ true = ground arith in
    rw first (omega (arith, rest (ground arith)))

module _ (env : Env) (spec : GraphSpec) where
  WorldOk-rule : (budget : ℕ) → Rule env spec budget (λ l. WorldOk env spec l.world)
  WorldOk-rule budget = record {
    on_visit = visit-WorldOk env spec budget;
    on_refresh = λ l ok. record {
      deps = refresh_readiness-Consistent spec l.world.state ok.deps;
      trail = ok.trail;
    };
  }

  advance-WorldOk :
      (budget : ℕ) (w : World) (l : Loop)
      → WorldOk env spec w
      → advance env spec budget w ≡ some l
      → WorldOk env spec l.world
  advance-WorldOk budget w l ok e =
      advance-keeps env spec budget (WorldOk-rule budget) w l
        (record {
          deps = Consistent-nodes spec w.state _ refl ok.deps.closed ok.deps;
          trail = ok.trail;
        })
        e

  pub WorldOk-if :
      (b : Bool) (t u : World)
      → WorldOk env spec t
      → WorldOk env spec u
      → WorldOk env spec (if b then t else u)
  WorldOk-if true t u p q = p
  WorldOk-if false t u p q = q

  -- A change of the run's own fields, and some events.
  pub WorldOk-same :
      (w w' : World)
      → w'.state.nodes ≡ w.state.nodes
      → (run_terminal w'.state.status ≡ true → open_nodes w'.state.nodes ≡ 0)
      → Quiet w.effects w'.effects
      → WorldOk env spec w
      → WorldOk env spec w'
  WorldOk-same w w' e c q ok = record {
    deps = Consistent-nodes spec w.state w'.state e c ok.deps;
    trail = Quiet-Trail env spec q ok.trail;
  }

  pub settle-WorldOk : (w : World) → WorldOk env spec w → WorldOk env spec (settle env spec w)
  unfolding settle
  settle-WorldOk w ok =
      let w' = on_state (refresh_readiness spec) w in
      let ok' : WorldOk env spec w' = record {
        deps = refresh_readiness-Consistent spec w.state ok.deps;
        trail = ok.trail;
      } in
      WorldOk-if (run_terminal w'.state.status) _ _
        (WorldOk-same w' _ refl ok'.deps.closed same ok')
        (if_cases (WorldOk env spec) (all_terminal w'.state)
          (λ all.
            WorldOk-same w' _ refl (λ _. all_terminal-closed w'.state.nodes all) (more same _) ok')
          (λ _. WorldOk-same w' _ refl (λ h. cc (h)) same ok'))

  pub save-Trail : (w : World) → WorldOk env spec w → Trail env spec (save env w).effects
  save-Trail w ok = (Consistent-nodes spec w.state _ refl ok.deps.closed ok.deps, ok.trail)

  after_loop-Trail :
      (c : Control) (w : World)
      → WorldOk env spec w
      → Trail env spec (after_loop env spec c w).effects
  unfolding after_loop
  after_loop-Trail (raised code) w ok = ok.trail
  after_loop-Trail going w ok = save-Trail _ (settle-WorldOk w ok)
  after_loop-Trail returned w ok = save-Trail _ (settle-WorldOk w ok)

  after_advance-Trail :
      (w : World) (o : Option Loop)
      → ((l : Loop) → o ≡ some l → WorldOk env spec l.world)
      → Trail env spec w.effects
      → Trail env spec (after_advance env spec w o).effects
  unfolding after_advance
  after_advance-Trail w none h t = t
  after_advance-Trail w (some l) h t = after_loop-Trail l.control l.world (h l refl)

  pub advance_settle-Trail :
      (budget : ℕ) (w : World)
      → WorldOk env spec w
      → Trail env spec (advance_settle env spec budget w).effects
  advance_settle-Trail budget w ok =
      unfold advance_settle in
      after_advance-Trail w (advance env spec budget w) (λ l e. advance-WorldOk budget w l ok e)
        ok.trail
