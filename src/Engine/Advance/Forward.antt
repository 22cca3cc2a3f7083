-- ===== src/Engine/Advance/Forward.antt =====
-- How `_advance` of ge_runtime/engine.py moves the nodes.
use hermes_graph_engineering.Base.{
  ℕ, suc, ◌≤◌, String, ◌≡◌, refl, true, Option, none, some, List, [], ◌∷◌, arith, lookup, ◌==◌,
  find_sound, leb, string_eq, Bool-cases, inl, inr,
}
use hermes_graph_engineering.Contracts.{Outputs}
use hermes_graph_engineering.States.{NodeStatus, ErrorCode, node_failed, gate_failed}
use hermes_graph_engineering.Spec.{Node, GraphSpec, node}
use hermes_graph_engineering.Engine.State.{
  Message, NodeState, InputError, inputs_violated, gate_denied, RunState, World, Env, Executor,
  update_node, on_state,
}
use hermes_graph_engineering.Engine.Readiness.{resolve_inputs}
use hermes_graph_engineering.Engine.Progress.{
  is_fitting, Active, Progresses, Frame, Frame-refl, Frame-trans, Frame-update, Frame-nodes,
  Frame-if_world, Runs, update-found,
}
use hermes_graph_engineering.Engine.Attempt.{fail_node, record_failure}
use hermes_graph_engineering.Engine.Attempt.Forward.{changed-Frame, complete_attempt-Frame}
use hermes_graph_engineering.Engine.Advance.{
  Loop, wait_is_approval, starting, begin, run_node, fails_inputs, fails, waits_approval,
  waits_no_more, launch, start, pass_approval, pass_denied, visit_node, is_due, visit_state, visit,
  result_of, request,
}

-- READY, and not waiting.
pub record Startable (v : NodeState) : Type 0 where
  pub status : v.status ≡ NodeStatus.ready
  pub free : v.wait ≡ none

-- The node under this key, if there is one, is READY.
abbrev pub ReadyAt : RunState → String → Type 0
ReadyAt s k = (v : NodeState) → lookup s.nodes k ≡ some v → v.status ≡ NodeStatus.ready

-- The node under this key, if there is one, may be started.
abbrev pub Due : RunState → String → Type 0
Due s k = (v : NodeState) → lookup s.nodes k ≡ some v → Startable v

ready-Progresses :
    (v w : NodeState)
    → v.status ≡ NodeStatus.ready
    → v.attempts ≤ w.attempts
    → is_fitting w ≡ true
    → Progresses v w
ready-Progresses v w r a fit = record {
  final = λ h. cc (r);
  attempts = a;
  opened = λ h. rw r;
  fitting = λ h. fit;
}

module _ (env : Env) (spec : GraphSpec) (n : Node) where
  pub due-Frame :
      (s : RunState) (f : NodeState → NodeState)
      → ReadyAt s n.id
      → ((v : NodeState) → v.attempts ≤ (f v).attempts)
      → ((v : NodeState) → lookup s.nodes n.id ≡ some v → is_fitting (f v) ≡ true)
      → Frame s (update_node n.id f s)
  due-Frame s f ready more fit =
      Frame-update s n.id f (λ v e. ready-Progresses v (f v) (ready v e) (more v) (fit v e))

  pub begin-Frame :
      (ns : NodeState) (inputs : Outputs) (w : World)
      → Due w.state n.id
      → Frame w.state (begin env spec n ns inputs w).state
  unfolding begin
  begin-Frame ns inputs w due =
      Frame-trans w.state (update_node n.id (starting env spec inputs) w.state) _
        (due-Frame w.state (starting env spec inputs) (λ v e. (due v e).status) (λ v. omega arith)
          (λ v e. rw (due v e).free refl))
        (Frame-nodes _ _ refl refl refl refl refl)

  begin-Runs :
      (ns : NodeState) (inputs : Outputs) (w : World)
      → Due w.state n.id
      → Runs (begin env spec n ns inputs w).state n.id
  unfolding begin
  begin-Runs ns inputs w due =
      update-found Active w.state n.id (starting env spec inputs)
        (λ v e. record { status = refl; free = (due v e).free })

  pub run_node-Frame :
      (ns : NodeState) (inputs : Outputs) (ex : Executor) (w : World)
      → Due w.state n.id
      → Frame w.state (run_node env spec n ns inputs ex w).state
  unfolding run_node
  run_node-Frame ns inputs ex w due =
      let w' = begin env spec n ns inputs w in
      let runs = begin-Runs ns inputs w due in
      Frame-trans w.state w'.state _ (begin-Frame ns inputs w due) (
        Frame-if_world ex.deferred w'.state _ _
          (Frame-update w'.state n.id _ (λ v e. record {
            final = λ h. cc ((runs v e).status);
            attempts = omega arith;
            opened = λ h. rw (runs v e).status;
            fitting = λ h. rw (runs v e).status refl;
          }))
          (complete_attempt-Frame env spec n
            (result_of env spec (ex.execute (request env spec w'.state n inputs (suc ns.attempts))))
            _ runs))

  launch-Frame :
      (ns : NodeState) (inputs : Outputs) (ex : Option Executor) (l : Loop)
      → Due l.world.state n.id
      → Frame l.world.state (launch env spec n ns inputs ex l).world.state
  unfolding launch
  launch-Frame ns inputs none l due = Frame-refl l.world.state
  launch-Frame ns inputs (some ex) l due = run_node-Frame ns inputs ex l.world due

  -- A READY node that fails before it is started.
  fail-Frame :
      (code : ErrorCode) (m : Message) (f : NodeState → NodeState) (w : World)
      → ReadyAt w.state n.id
      → ((v : NodeState) → v.attempts ≤ (f v).attempts)
      → Frame w.state (record_failure env n code m (on_state (update_node n.id f) w)).state
  fail-Frame code m f w ready more =
      changed-Frame env n code m f w
        (λ v e. ready-Progresses v (fail_node env.now code m (f v)) (ready v e) (more v) refl)

  start-Frame :
      (ns : NodeState) (r : Outputs × List InputError) (l : Loop)
      → Due l.world.state n.id
      → Frame l.world.state (start env spec n ns r l).world.state
  unfolding start
  start-Frame ns (inputs, e ∷ es) l due =
      fail-Frame node_failed (inputs_violated (e ∷ es)) (fails_inputs env spec) l.world
        (λ v e. (due v e).status) (λ v. omega arith)
  start-Frame ns (inputs, []) l due = launch-Frame ns inputs _ l due

  pass_approval-Frame :
      (ns : NodeState) (g : Option String) (l : Loop)
      → ReadyAt l.world.state n.id
      → Frame l.world.state (pass_approval env spec n ns g l).world.state
  unfolding pass_approval
  pass_approval-Frame ns (some g) l due = elim (Bool-cases (wait_is_approval ns.wait)) [
    | inl old ↦ rw old (Frame-refl l.world.state)
    | inr new ↦ rw new (
        due-Frame l.world.state (waits_approval env spec) due (λ v. omega arith)
          (λ v e. rw (due v e) refl))
  ]
  pass_approval-Frame ns none l due =
      let w = on_state (update_node n.id (waits_no_more env spec)) l.world in
      Frame-trans l.world.state w.state _
        (due-Frame l.world.state (waits_no_more env spec) due (λ v. omega arith) (λ v h. refl))
        (start-Frame ns (resolve_inputs w.state spec n.inputs) (record l { world = w })
          (update-found Startable l.world.state n.id (waits_no_more env spec)
            (λ v e. record { status = due v e; free = refl })))

  pass_denied-Frame :
      (ns : NodeState) (g : Option String) (l : Loop)
      → ReadyAt l.world.state n.id
      → Frame l.world.state (pass_denied env spec n ns g l).world.state
  unfolding pass_denied
  pass_denied-Frame ns (some g) l due =
      fail-Frame gate_failed (gate_denied g) (fails env spec) l.world due (λ v. omega arith)
  pass_denied-Frame ns none l due = pass_approval-Frame ns _ l due

-- `spec.node(node_id)` has the id that was asked for.
pub node_id-eq : (spec : GraphSpec) (k : String) (n : Node) → node spec k ≡ some n → n.id ≡ k
node_id-eq spec k n e = (string_eq.equal_iff n.id k).0 (find_sound (λ m. m.id == k) spec.nodes n e)

module _ (env : Env) (spec : GraphSpec) (budget : ℕ) where
  visit_node-Frame :
      (k : String) (ns : NodeState) (n : Option Node) (l : Loop)
      → node spec k ≡ n
      → ReadyAt l.world.state k
      → Frame l.world.state (visit_node env spec ns n l).world.state
  unfolding visit_node
  visit_node-Frame k ns none l e due = Frame-refl l.world.state
  visit_node-Frame k ns (some n) l e due =
      pass_denied-Frame env spec n ns _ l (rw (node_id-eq spec k n e) due)

  pub is_due-ready : (ns : NodeState) → is_due env spec ns ≡ true → ns.status ≡ NodeStatus.ready
  is_due-ready ns h = ground arith

  due-at :
      (s : RunState) (k : String) (ns : NodeState)
      → lookup s.nodes k ≡ some ns
      → ns.status ≡ NodeStatus.ready
      → ReadyAt s k
  due-at s k ns e r v f = let same : ns ≡ v = cc in rw (← same) r

  visit_state-Frame :
      (k : String) (o : Option NodeState) (l : Loop)
      → lookup l.world.state.nodes k ≡ o
      → Frame l.world.state (visit_state env spec budget k o l).world.state
  unfolding visit_state
  visit_state-Frame k none l e = Frame-refl l.world.state
  visit_state-Frame k (some ns) l e = elim (Bool-cases (is_due env spec ns)) [
    | inr idle ↦ rw idle (Frame-refl l.world.state)
    | inl due ↦ rw due (elim (Bool-cases (leb budget l.steps)) [
      | inl spent ↦ rw spent (Frame-nodes _ _ refl refl refl refl refl)
      | inr left ↦ rw left (
          visit_node-Frame k ns (node spec k) l refl
            (due-at l.world.state k ns e (is_due-ready ns due)))
    ])
  ]

  pub visit-Frame :
      (l : Loop) (k : String) → Frame l.world.state (visit env spec budget l k).world.state
  unfolding visit
  visit-Frame l k = visit_state-Frame k (lookup l.world.state.nodes k) l refl
