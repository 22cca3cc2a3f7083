-- ===== src/Engine/Advance/Termination.antt =====
-- The fuel and the budget of `_advance` of ge_runtime/engine.py.
use mathlib.Core.Path.{subst}
use hermes_graph_engineering.Base.{
  sym, map_option, ◌∙◌, lookup-modify_self, ap, ℕ, zero, suc, ◌+◌, ◌-◌, ◌≤◌, ◌<◌, String, ◌≡◌, refl,
  true, false, ◌⊎◌, Option, none, some, List, [], ◌∷◌, arith, lookup, leb, length, string_eq,
  Bool-cases, inl, inr, if◌then◌else◌, Table,
}
use hermes_graph_engineering.Contracts.{Outputs}
use hermes_graph_engineering.States.{node_terminal, NodeStatus, ErrorCode}
use hermes_graph_engineering.Spec.{Node, GraphSpec, node}
use hermes_graph_engineering.Engine.State.{
  NodeState, InputError, Message, World, Env, Executor, update_node, on_state,
}
use hermes_graph_engineering.Engine.Progress.{weight, open_nodes, open_nodes-modify}
use hermes_graph_engineering.Engine.Readiness.{refresh_readiness}
use hermes_graph_engineering.Engine.Readiness.Remaining.{refresh_readiness-Refreshes}
use hermes_graph_engineering.Engine.Attempt.{record_failure}
use hermes_graph_engineering.Engine.Attempt.Forward.{record_failure-Frame}
use hermes_graph_engineering.Engine.Advance.{
  is_going, gate_denied, resolve_inputs, inputs_violated, denied_gate, gate_failed, waits_approval,
  node_failed, Loop, wait_is_approval, fails_inputs, fails, waits_no_more, launch, start,
  pass_approval, pass_denied, visit_node, is_due, visit_state, visit, visit_all, round, continues,
  rounds, loop_start, enough, advance,
}
use hermes_graph_engineering.Engine.Advance.Forward.{Due, run_node-Frame, is_due-ready, node_id-eq}

abbrev remaining : Loop → ℕ
remaining l = open_nodes l.world.state.nodes

-- One round starts an attempt within the budget, or fails a node, or makes no progress.
record Falls (budget : ℕ) (l l' : Loop) : Type 0 where
  within : l'.steps ≤ budget
  no_more : (budget - l'.steps) + remaining l' ≤ (budget - l.steps) + remaining l
  less :
      l'.progress ≡ true
      → ((l.progress ≡ true)
          ⊎ ((budget - l'.steps) + remaining l' < (budget - l.steps) + remaining l))

ready-weight : (v : NodeState) → v.status ≡ NodeStatus.ready → weight v ≡ 1
ready-weight v r = rw r refl

module _ (env : Env) (spec : GraphSpec) (n : Node) (ns : NodeState) (budget : ℕ) where
  -- What is known of the loop and of the node when its round begins.
  record Starts (l : Loop) : Type 0 where
    left : l.steps < budget
    v : NodeState
    stored : lookup l.world.state.nodes n.id ≡ some v
    ready : v.status ≡ NodeStatus.ready

  Starts-Due : (l : Loop) (h : Starts l) → h.v.wait ≡ none → Due l.world.state n.id
  Starts-Due l h f u e =
      let same : h.v ≡ u = cc (h.stored) in rw (← same) (record { status = h.ready; free = f })

  fail-remaining :
      (code : ErrorCode) (m : Message) (f : NodeState → NodeState) (l : Loop) (h : Starts l)
      → weight (f h.v) ≡ 0
      → open_nodes (record_failure env n code m (on_state (update_node n.id f) l.world)).state.nodes
        < remaining l
  fail-remaining code m f l h zero_weight = omega (
    arith,
    (record_failure-Frame env n code m (on_state (update_node n.id f) l.world)).remaining,
    open_nodes-modify l.world.state.nodes n.id f h.v h.stored,
    ready-weight h.v h.ready,
    zero_weight,
  )

  launch-Falls :
      (inputs : Outputs) (ex : Option Executor) (l : Loop)
      → (h : Starts l) → h.v.wait ≡ none
      → Falls budget l (launch env spec n ns inputs ex l)
  unfolding launch
  launch-Falls inputs none l h free = record {
    within = omega (arith, h.left);
    no_more = omega arith;
    less = λ p. inl p;
  }
  launch-Falls inputs (some ex) l h free =
      let fewer =
        (run_node-Frame env spec n ns inputs ex l.world (Starts-Due l h free)).remaining in
      record {
        within = h.left;
        no_more = omega (arith, h.left, fewer);
        less = λ p. inr (omega (arith, h.left, fewer));
      }

  start-Falls :
      (r : Outputs × List InputError) (l : Loop)
      → (h : Starts l) → h.v.wait ≡ none
      → Falls budget l (start env spec n ns r l)
  unfolding start
  start-Falls (inputs, e ∷ es) l h free =
      let fewer =
        fail-remaining node_failed (inputs_violated (e ∷ es)) (fails_inputs env spec) l h refl in
      record {
        within = omega (arith, h.left);
        no_more = omega (arith, fewer);
        less = λ p. inr (omega (arith, fewer));
      }
  start-Falls (inputs, []) l h free = launch-Falls inputs _ l h free

  -- A change of the wait alone is no progress.
  wait-remaining :
      (f : NodeState → NodeState) (l : Loop) (h : Starts l)
      → (f h.v).status ≡ h.v.status
      → open_nodes (update_node n.id f l.world.state).nodes ≡ remaining l
  wait-remaining f l h same = omega (
    arith,
    open_nodes-modify l.world.state.nodes n.id f h.v h.stored,
    ap {B = ℕ} (λ st. if node_terminal st then 0 else 1) same,
  )

  Falls-same :
      (l l' : Loop)
      → l.steps ≤ budget
      → l'.steps ≡ l.steps
      → l'.progress ≡ l.progress
      → remaining l' ≡ remaining l
      → Falls budget l l'
  Falls-same l l' b s p r = record {
    within = omega arith;
    no_more = omega arith;
    less = λ q. inl (rw (← p) q);
  }

  pass_approval-Falls :
      (g : Option String) (l : Loop) → Starts l → Falls budget l (pass_approval env spec n ns g l)
  unfolding pass_approval
  pass_approval-Falls (some g) l h = elim (Bool-cases (wait_is_approval ns.wait)) [
    | inl old ↦ rw old (Falls-same l l (omega (arith, h.left)) refl refl refl)
    | inr new ↦ rw new (
        Falls-same l _ (omega (arith, h.left)) refl refl
          (wait-remaining (waits_approval env spec) l h refl))
  ]
  pass_approval-Falls none l h =
      let w = on_state (update_node n.id (waits_no_more env spec)) l.world in
      let l' = record l { world = w } in
      let f =
        start-Falls (resolve_inputs w.state spec n.inputs) l'
          (record {
            left = h.left;
            v = waits_no_more env spec h.v;
            stored =
                lookup-modify_self l.world.state.nodes n.id (waits_no_more env spec)
                ∙ ap (map_option (waits_no_more env spec)) h.stored;
            ready = h.ready;
          })
          refl in
      let even = wait-remaining (waits_no_more env spec) l h refl in
      record {
        within = f.within;
        no_more = omega (arith, f.no_more, even);
        less = λ p. elim (f.less p) [ inl q ↦ inl q | inr q ↦ inr (omega (arith, q, even)) ];
      }

  pass_denied-Falls :
      (g : Option String) (l : Loop) → Starts l → Falls budget l (pass_denied env spec n ns g l)
  unfolding pass_denied
  pass_denied-Falls (some g) l h =
      let fewer = fail-remaining gate_failed (gate_denied g) (fails env spec) l h refl in
      record {
        within = omega (arith, h.left);
        no_more = omega (arith, fewer);
        less = λ p. inr (omega (arith, fewer));
      }
  pass_denied-Falls none l h = pass_approval-Falls _ l h

module _ (env : Env) (spec : GraphSpec) (budget : ℕ) where
  Falls-refl : (l : Loop) → l.steps ≤ budget → Falls budget l l
  Falls-refl l b = record { within = b; no_more = omega arith; less = λ q. inl q }

  visit_node-Falls :
      (k : String) (ns : NodeState) (n : Option Node) (l : Loop)
      → node spec k ≡ n
      → lookup l.world.state.nodes k ≡ some ns
      → ns.status ≡ NodeStatus.ready
      → l.steps < budget
      → Falls budget l (visit_node env spec ns n l)
  unfolding visit_node
  visit_node-Falls k ns none l e stored ready left = record {
    within = omega arith;
    no_more = omega arith;
    less = λ q. inl q;
  }
  visit_node-Falls k ns (some n) l e stored ready left =
      pass_denied-Falls env spec n ns budget (denied_gate l.world.state n) l (record {
        left = left;
        v = ns;
        stored =
            subst (λ (j : String). lookup l.world.state.nodes j ≡ some ns)
              (sym (node_id-eq spec k n e)) stored;
        ready = ready;
      })

  visit_state-Falls :
      (k : String) (o : Option NodeState) (l : Loop)
      → lookup l.world.state.nodes k ≡ o
      → l.steps ≤ budget
      → Falls budget l (visit_state env spec budget k o l)
  unfolding visit_state
  visit_state-Falls k none l e b = Falls-refl l b
  visit_state-Falls k (some ns) l e b = elim (Bool-cases (is_due env spec ns)) [
    | inr idle ↦ rw idle (Falls-refl l b)
    | inl due ↦ rw due (elim (Bool-cases (leb budget l.steps)) [
      | inl spent ↦ rw spent (record { within = b; no_more = omega arith; less = λ q. inl q })
      | inr left ↦ rw left (
          visit_node-Falls k ns (node spec k) l refl e (is_due-ready env spec budget ns due)
            (ground arith))
    ])
  ]

  visit-Falls :
      (l : Loop) (k : String) → l.steps ≤ budget → Falls budget l (visit env spec budget l k)
  unfolding visit
  visit-Falls l k b = visit_state-Falls k (lookup l.world.state.nodes k) l refl b

  -- What a round has used up of what was there at its start.
  record Spent (start : ℕ) (l : Loop) : Type 0 where
    within : l.steps ≤ budget
    no_more : (budget - l.steps) + remaining l ≤ start
    less : l.progress ≡ true → (budget - l.steps) + remaining l < start

  visit-Spent :
      (start : ℕ) (l : Loop) (k : String) → Spent start l → Spent start (visit env spec budget l k)
  visit-Spent start l k h =
      let f = visit-Falls l k h.within in
      record {
        within = f.within;
        no_more = omega (arith, f.no_more, h.no_more);
        less = λ p. elim (f.less p) [
          | inl q ↦ omega (arith, f.no_more, h.less q)
          | inr q ↦ omega (arith, q, h.no_more)
        ];
      }

  visit_all-Spent :
      (start : ℕ) (order : List String) (l : Loop)
      → Spent start l
      → Spent start (visit_all env spec budget order l)
  unfolding visit_all
  visit_all-Spent start [] l h = h
  visit_all-Spent start (k ∷ order) l h = elim (Bool-cases (is_going l.control)) [
    | inl on ↦ rw on (visit_all-Spent start order _ (visit-Spent start l k h))
    | inr off ↦ rw off h
  ]

  round-Spent :
      (l : Loop)
      → l.steps ≤ budget
      → Spent ((budget - l.steps) + remaining l) (round env spec budget l)
  unfolding round
  round-Spent l b =
      let fewer = (refresh_readiness-Refreshes spec l.world.state).remaining in
      visit_all-Spent _ (refresh_readiness spec l.world.state).order
        (record l { world = on_state (refresh_readiness spec) l.world; progress = false })
        (record { within = b; no_more = omega (arith, fewer); less = λ p. cc (p) })

  rounds_total :
      (fuel : ℕ) (l : Loop)
      → l.steps ≤ budget
      → (budget - l.steps) + remaining l < fuel
      → (l' : Loop) × (rounds env spec budget fuel l ≡ some l') × (l'.steps ≤ budget)
  unfolding rounds
  rounds_total zero l b m = elim m [ ]
  rounds_total (suc fuel) l b m =
      let h = round-Spent l b in
      elim (Bool-cases (continues env spec (round env spec budget l))) [
        | inr off ↦ (round env spec budget l, rw off refl, h.within)
        | inl on ↦
            let p : (round env spec budget l).progress ≡ true = ground arith in
            let (l', e, w) =
              rounds_total fuel (round env spec budget l) h.within (omega (arith, h.less p)) in
            (l', rw on e, w)
      ]

open_nodes-le_length : (t : Table String NodeState) → open_nodes t ≤ length t
open_nodes-le_length [] = omega arith
open_nodes-le_length ((k, v) ∷ t) = ground (arith, open_nodes-le_length t)

-- `_advance` always ends, and the attempts that it starts are within its budget.
pub advance_total :
    (env : Env) (spec : GraphSpec) (budget : ℕ) (w : World)
    → (l : Loop) × (advance env spec budget w ≡ some l) × (l.steps ≤ budget)
unfolding advance
advance_total env spec budget w =
    rounds_total env spec budget (enough env spec budget w) (loop_start env spec w) (omega arith)
      (omega (arith, open_nodes-le_length w.state.nodes))
