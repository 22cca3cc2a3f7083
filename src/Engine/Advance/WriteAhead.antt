-- ===== src/Engine/Advance/WriteAhead.antt =====
-- What is on disk when `_advance` of ge_runtime/engine.py calls an executor.
use mathlib.Core.Path.{subst}
use hermes_graph_engineering.Base.{
  ℕ, suc, String, ◌≡◌, refl, sym, ◌∙◌, Bool, true, false, Option, none, some, List, [], ◌∷◌, arith,
  lookup, lookup-modify_self, map_option, leb, string_eq, Bool-cases, inl, inr, if◌then◌else◌, ap,
}
use hermes_graph_engineering.Contracts.{Outputs}
use hermes_graph_engineering.States.{NodeStatus}
use hermes_graph_engineering.Spec.{Node, GraphSpec, node, approval}
use hermes_graph_engineering.Engine.State.{
  NodeState, InputError, RunState, World, Env, Executor, update_node, on_state,
}
use hermes_graph_engineering.Engine.Gates.{pending_gate, denied_gate}
use hermes_graph_engineering.Engine.Gates.Stable.{denied_gate-same, pending_approval-same}
use hermes_graph_engineering.Engine.Progress.{Frame}
use hermes_graph_engineering.Engine.Readiness.{resolve_inputs}
use hermes_graph_engineering.Engine.Readiness.Dependencies.{Consistent, Frame-Consistent}
use hermes_graph_engineering.Engine.Trail.{Cleared, Trail, WorldOk, Quiet-Trail}
use hermes_graph_engineering.Engine.Attempt.Events.{record_failure-Quiet, complete_attempt-Quiet}
use hermes_graph_engineering.Engine.Advance.{
  Loop, wait_is_approval, starting, begin, run_node, waits_no_more, launch, start, pass_approval,
  pass_denied, visit_node, is_due, visit_state, visit, request,
}
use hermes_graph_engineering.Engine.Advance.Forward.{
  Startable, begin-Frame, due-Frame, is_due-ready, visit-Frame, node_id-eq,
}

-- What is known of a READY node once its gates have been passed.
record MayRun (env : Env) (spec : GraphSpec) (n : Node) (ns : NodeState) (s : RunState)
    : Type 0 where
  found : node spec n.id ≡ some n
  v : NodeState
  stored : lookup s.nodes n.id ≡ some v
  ready : Startable v
  counted : v.attempts ≡ ns.attempts
  approved : pending_gate env spec s n approval ≡ none
  not_denied : denied_gate s n ≡ none

Trail-if :
    (env : Env) (spec : GraphSpec) (b : Bool) (t u : World)
    → Trail env spec t.effects
    → Trail env spec u.effects
    → Trail env spec (if b then t else u).effects
Trail-if env spec true t u p q = p
Trail-if env spec false t u p q = q

module _ (env : Env) (spec : GraphSpec) (n : Node) (ns : NodeState) where
  begin-moves :
      (inputs : Outputs) (w : World)
      → MayRun env spec n ns w.state
      → Frame w.state (begin env spec n ns inputs w).state
  begin-moves inputs w may =
      begin-Frame env spec n ns inputs w
        (λ u e. let same : may.v ≡ u = cc (may.stored) in rw (← same) may.ready)

  begin-stored :
      (inputs : Outputs) (w : World) (may : MayRun env spec n ns w.state)
      → lookup (begin env spec n ns inputs w).state.nodes n.id
        ≡ some (starting env spec inputs may.v)
  unfolding begin
  begin-stored inputs w may =
      lookup-modify_self w.state.nodes n.id (starting env spec inputs)
      ∙ ap (map_option (starting env spec inputs)) may.stored

  -- The state that `begin` saves clears the call that follows.
  begin-Cleared :
      (inputs : Outputs) (w : World)
      → MayRun env spec n ns w.state
      → Consistent spec w.state
      → Cleared env spec
          (request env spec (begin env spec n ns inputs w).state n inputs (suc ns.attempts))
          (begin env spec n ns inputs w).state
  begin-Cleared inputs w may d =
      let s' = (begin env spec n ns inputs w).state in
      let f = begin-moves inputs w may in
      record {
        n = n;
        ns = starting env spec inputs may.v;
        found = may.found;
        stored = begin-stored inputs w may;
        running = refl;
        counted = ap suc may.counted;
        approved = pending_approval-same w.state s' f.approvals env spec n f.run_id ∙ may.approved;
        not_denied = denied_gate-same w.state s' f.approvals n ∙ may.not_denied;
        dependencies =
            (Frame-Consistent spec w.state s' f d).done n.id n _ may.found
              (begin-stored inputs w may) refl;
      }

  run_node-Trail :
      (inputs : Outputs) (ex : Executor) (w : World)
      → MayRun env spec n ns w.state
      → WorldOk env spec w
      → Trail env spec (run_node env spec n ns inputs ex w).effects
  run_node-Trail inputs ex w may ok =
      let d = Frame-Consistent spec w.state _ (begin-moves inputs w may) ok.deps in
      let clear = begin-Cleared inputs w may ok.deps in
      unfold run_node begin in
      Trail-if env spec ex.deferred _ _ (d, ok.trail)
        (Quiet-Trail env spec (complete_attempt-Quiet env spec n _ _) (clear, (d, ok.trail)))

  launch-Trail :
      (inputs : Outputs) (ex : Option Executor) (l : Loop)
      → MayRun env spec n ns l.world.state
      → WorldOk env spec l.world
      → Trail env spec (launch env spec n ns inputs ex l).world.effects
  unfolding launch
  launch-Trail inputs none l may ok = ok.trail
  launch-Trail inputs (some ex) l may ok = run_node-Trail inputs ex l.world may ok

  start-Trail :
      (r : Outputs × List InputError) (l : Loop)
      → MayRun env spec n ns l.world.state
      → WorldOk env spec l.world
      → Trail env spec (start env spec n ns r l).world.effects
  unfolding start
  start-Trail (inputs, e ∷ es) l may ok =
      Quiet-Trail env spec (record_failure-Quiet env n _ _ _) ok.trail
  start-Trail (inputs, []) l may ok = launch-Trail inputs _ l may ok

  -- No approval gate is pending: the node's wait is cleared.
  clear_wait-ok :
      (v : NodeState) (w : World)
      → node spec n.id ≡ some n
      → lookup w.state.nodes n.id ≡ some v
      → v.status ≡ NodeStatus.ready
      → v.attempts ≡ ns.attempts
      → pending_gate env spec w.state n approval ≡ none
      → denied_gate w.state n ≡ none
      → MayRun env spec n ns (update_node n.id (waits_no_more env spec) w.state)
  clear_wait-ok v w found stored ready counted p d = record {
    found = found;
    v = waits_no_more env spec v;
    stored =
        lookup-modify_self w.state.nodes n.id (waits_no_more env spec)
        ∙ ap (map_option (waits_no_more env spec)) stored;
    ready = record { status = ready; free = refl };
    counted = counted;
    approved =
        pending_approval-same w.state (update_node n.id (waits_no_more env spec) w.state) refl env
          spec n refl
        ∙ p;
    not_denied =
        denied_gate-same w.state (update_node n.id (waits_no_more env spec) w.state) refl n ∙ d;
  }

  pass_approval-Trail :
      (g : Option String) (l : Loop)
      → pending_gate env spec l.world.state n approval ≡ g
      → denied_gate l.world.state n ≡ none
      → node spec n.id ≡ some n
      → lookup l.world.state.nodes n.id ≡ some ns
      → ns.status ≡ NodeStatus.ready
      → WorldOk env spec l.world
      → Trail env spec (pass_approval env spec n ns g l).world.effects
  unfolding pass_approval
  pass_approval-Trail (some g) l p d found stored ready ok =
      elim (Bool-cases (wait_is_approval ns.wait)) [
        | inl old ↦ rw old ok.trail
        | inr new ↦ rw new ok.trail
      ]
  pass_approval-Trail none l p d found stored ready ok =
      let w = on_state (update_node n.id (waits_no_more env spec)) l.world in
      start-Trail (resolve_inputs w.state spec n.inputs) (record l { world = w })
        (clear_wait-ok ns l.world found stored ready refl p d)
        (record {
          deps =
              Frame-Consistent spec l.world.state w.state
                (due-Frame env spec n l.world.state (waits_no_more env spec)
                  (λ u e. let same : ns ≡ u = cc (stored) in rw (← same) ready) (λ v. omega arith)
                  (λ v e. refl))
                ok.deps;
          trail = ok.trail;
        })

  pass_denied-Trail :
      (g : Option String) (l : Loop)
      → denied_gate l.world.state n ≡ g
      → node spec n.id ≡ some n
      → lookup l.world.state.nodes n.id ≡ some ns
      → ns.status ≡ NodeStatus.ready
      → WorldOk env spec l.world
      → Trail env spec (pass_denied env spec n ns g l).world.effects
  unfolding pass_denied
  pass_denied-Trail (some g) l d found stored ready ok =
      Quiet-Trail env spec (record_failure-Quiet env n _ _ _) ok.trail
  pass_denied-Trail none l d found stored ready ok =
      pass_approval-Trail _ l refl d found stored ready ok

module _ (env : Env) (spec : GraphSpec) (budget : ℕ) where
  visit_node-Trail :
      (k : String) (ns : NodeState) (n : Option Node) (l : Loop)
      → node spec k ≡ n
      → lookup l.world.state.nodes k ≡ some ns
      → ns.status ≡ NodeStatus.ready
      → WorldOk env spec l.world
      → Trail env spec (visit_node env spec ns n l).world.effects
  unfolding visit_node
  visit_node-Trail k ns none l e stored ready ok = ok.trail
  visit_node-Trail k ns (some n) l e stored ready ok =
      let same : n.id ≡ k = node_id-eq spec k n e in
      pass_denied-Trail env spec n ns (denied_gate l.world.state n) l refl
        (subst (λ (j : String). node spec j ≡ some n) (sym same) e)
        (subst (λ (j : String). lookup l.world.state.nodes j ≡ some ns) (sym same) stored) ready ok

  visit_state-Trail :
      (k : String) (o : Option NodeState) (l : Loop)
      → lookup l.world.state.nodes k ≡ o
      → WorldOk env spec l.world
      → Trail env spec (visit_state env spec budget k o l).world.effects
  unfolding visit_state
  visit_state-Trail k none l e ok = ok.trail
  visit_state-Trail k (some ns) l e ok = elim (Bool-cases (is_due env spec ns)) [
    | inr idle ↦ rw idle ok.trail
    | inl due ↦ rw due (elim (Bool-cases (leb budget l.steps)) [
      | inl spent ↦ rw spent ok.trail
      | inr left ↦
          rw left
            (visit_node-Trail k ns (node spec k) l refl e (is_due-ready env spec budget ns due) ok)
    ])
  ]

  -- One round of the `for` loop keeps the trail and the dependency order.
  pub visit-WorldOk :
      (l : Loop) (k : String)
      → WorldOk env spec l.world
      → WorldOk env spec (visit env spec budget l k).world
  unfolding visit
  visit-WorldOk l k ok = record {
    deps = Frame-Consistent spec l.world.state _ (visit-Frame env spec budget l k) ok.deps;
    trail = visit_state-Trail k (lookup l.world.state.nodes k) l refl ok;
  }
