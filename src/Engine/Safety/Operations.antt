-- ===== src/Engine/Safety/Operations.antt =====
-- The trail of `execute` and `submit` of ge_runtime/engine.py.
use hermes_graph_engineering.Base.{
  ℕ, String, ◌≡◌, refl, false, not, Option, none, some, List, [], ◌∷◌, arith, lookup, if_cases,
  if_ind, string_eq,
}
use hermes_graph_engineering.States.{NodeStatus, RunStatus, run_terminal}
use hermes_graph_engineering.Spec.{Node, GraphSpec, node}
use hermes_graph_engineering.Engine.State.{
  NodeState, World, Env, append_trace, update_node, on_state, run_started,
}
use hermes_graph_engineering.Engine.Progress.{
  Frame, Frame-trans, Frame-update, Runs, Active, update-found,
}
use hermes_graph_engineering.Engine.Readiness.Dependencies.{Frame-Consistent}
use hermes_graph_engineering.Engine.Trail.{
  Quiet-trans, Trail, WorldOk, Quiet, same, more, Quiet-Trail,
}
use hermes_graph_engineering.Engine.Attempt.Forward.{complete_attempt-Frame}
use hermes_graph_engineering.Engine.Attempt.Events.{complete_attempt-Quiet}
use hermes_graph_engineering.Engine.Advance.Forward.{node_id-eq}
use hermes_graph_engineering.Engine.Operations.{
  Outcome, advance_settle, if_available, preflight_executors, PreflightProblem, Submission,
  execute_at, execute, submit_to, submit_at, submit, submitted_result, awaits_submission,
  acceptable, budget_of, set_status,
}
use hermes_graph_engineering.Engine.Safety.{advance_settle-Trail, WorldOk-same}

module _ (env : Env) (spec : GraphSpec) where
  abbrev pub OutcomeOk : Outcome → Type 0
  OutcomeOk o = Trail env spec o.effects

  pub if_available-Trail :
      (ps : List PreflightProblem) (w : World) (o : Outcome)
      → Trail env spec w.effects
      → Trail env spec o.effects
      → Trail env spec (if_available env spec ps w o).effects
  unfolding if_available
  if_available-Trail [] w o t u = u
  if_available-Trail (p ∷ ps) w o t u = t

  -- The run goes on, if every executor is there.
  start-Trail :
      (max_steps : Option ℕ) (w w' : World)
      → WorldOk env spec w
      → WorldOk env spec w'
      → Trail env spec
          (if_available env spec (preflight_executors env spec w.state) w (
            advance_settle env spec
              (budget_of env spec max_steps)
              (set_status env spec RunStatus.running w'))).effects
  start-Trail max_steps w w' ok ok' =
      if_available-Trail (preflight_executors env spec w.state) w _ ok.trail (
        advance_settle-Trail env spec (budget_of env spec max_steps) _
          (WorldOk-same env spec w' _ refl (λ h. cc (h)) same ok'))

  pub execute_at-Trail :
      (status : RunStatus) (max_steps : Option ℕ) (w : World)
      → WorldOk env spec w
      → Trail env spec (execute_at env spec status max_steps w).effects
  unfolding execute_at
  execute_at-Trail RunStatus.draft max_steps w ok = ok.trail
  execute_at-Trail RunStatus.succeeded max_steps w ok = ok.trail
  execute_at-Trail RunStatus.failed max_steps w ok = ok.trail
  execute_at-Trail RunStatus.cancelled max_steps w ok = ok.trail
  execute_at-Trail RunStatus.approved max_steps w ok =
      start-Trail max_steps w (append_trace run_started w) ok
        (WorldOk-same env spec w _ refl ok.deps.closed (more same run_started) ok)
  execute_at-Trail RunStatus.running max_steps w ok = start-Trail max_steps w w ok ok
  execute_at-Trail RunStatus.waiting max_steps w ok = start-Trail max_steps w w ok ok

  -- A change of the nodes that moves them forward, and some events.
  pub WorldOk-Frame :
      (w w' : World)
      → Frame w.state w'.state
      → Quiet w.effects w'.effects
      → WorldOk env spec w
      → WorldOk env spec w'
  WorldOk-Frame w w' f q ok = record {
    deps = Frame-Consistent spec w.state w'.state f ok.deps;
    trail = Quiet-Trail env spec q ok.trail;
  }

  awaits-running :
      (ns : NodeState) → not (awaits_submission ns) ≡ false → ns.status ≡ NodeStatus.running
  awaits-running ns h = ground arith

  submit_to-Trail :
      (id : String) (sub : Submission) (by : String) (ns : NodeState) (n : Option Node) (w : World)
      → node spec id ≡ n
      → ((v : NodeState) → lookup w.state.nodes id ≡ some v → v.status ≡ NodeStatus.running)
      → WorldOk env spec w
      → Trail env spec (submit_to env spec id sub by ns n w).effects
  unfolding submit_to
  submit_to-Trail id sub by ns none w e runs ok = ok.trail
  submit_to-Trail id sub by ns (some n) w e runs ok =
      let clear = λ (m : NodeState). record m { wait = none } in
      let w1 = on_state (update_node id clear) w in
      let runs1 : Runs w1.state n.id =
        rw (node_id-eq spec id n e) (
          update-found Active w.state id clear
            (λ v f. record { status = runs v f; free = refl })) in
      advance_settle-Trail env spec env.max_steps _ (
        WorldOk-Frame w _
          (Frame-trans w.state w1.state _
            (Frame-update w.state id clear (λ v f. record {
              final = λ h. cc (runs v f);
              attempts = omega arith;
              opened = λ h. rw (runs v f);
              fitting = λ h. refl;
            }))
            (complete_attempt-Frame env spec n (submitted_result env spec sub) _ runs1))
          (Quiet-trans (more same _) (complete_attempt-Quiet env spec n _ _)) ok)

  pub submit_at-Trail :
      (id : String) (sub : Submission) (by : String) (o : Option NodeState) (w : World)
      → lookup w.state.nodes id ≡ o
      → WorldOk env spec w
      → Trail env spec (submit_at env spec id sub by o w).effects
  unfolding submit_at
  submit_at-Trail id sub by none w e ok = ok.trail
  submit_at-Trail id sub by (some ns) w e ok =
      if_ind OutcomeOk (run_terminal w.state.status) ok.trail (
        if_cases OutcomeOk (not (awaits_submission ns)) (λ _. ok.trail)
          (λ waits.
            submit_to-Trail id sub by ns (node spec id) w refl
              (λ v f. let eq : ns ≡ v = cc (e) in rw (← eq) (awaits-running ns waits)) ok))

  pub execute-Trail :
      (max_steps : Option ℕ) (w : World)
      → WorldOk env spec w
      → Trail env spec (execute env spec max_steps w).effects
  unfolding execute
  execute-Trail max_steps w ok = execute_at-Trail w.state.status max_steps w ok

  pub submit-Trail :
      (id : String) (sub : Submission) (by : String) (w : World)
      → WorldOk env spec w
      → Trail env spec (submit env spec id sub by w).effects
  unfolding submit
  submit-Trail id sub by w ok =
      if_ind OutcomeOk (not (acceptable env spec sub)) ok.trail
        (submit_at-Trail id sub by (lookup w.state.nodes id) w refl ok)
