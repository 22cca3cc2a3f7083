-- ===== src/Engine/Views/Pending.antt =====
-- What a work order of `pending_work` of ge_runtime/engine.py stands for.
use hermes_graph_engineering.Base.{
  String, string_eq, ◌≡◌, refl, true, false, ◌⊎◌, Option, none, some, List, [], ◌∷◌, ◌++◌, lookup,
  All, All-append, contains, ◌==◌, ==_refl, Bool-cases, inl, inr, arith,
}
use hermes_graph_engineering.States.{NodeStatus, node_status_eq, run_terminal}
use hermes_graph_engineering.Spec.{Node, GraphSpec, node}
use hermes_graph_engineering.Engine.State.{Wait, NodeState, RunState, World, Env}
use hermes_graph_engineering.Engine.Operations.{
  Submission, acceptable, submit, submit_at, submit_to,
}
use hermes_graph_engineering.Engine.Views.{
  WorkOrder, is_submission, has_work, orders_at, pending_from, pending_work,
}

-- The node of a work order, which runs and waits for a submission, and what the order says of it.
pub record Open (s : RunState) (spec : GraphSpec) (o : WorkOrder) : Type 0 where
  pub state : NodeState
  pub of : Node
  pub listed : contains s.order o.node ≡ true
  pub stored : lookup s.nodes o.node ≡ some state
  pub found : node spec o.node ≡ some of
  pub running : state.status ≡ NodeStatus.running
  pub waits : state.wait ≡ some Wait.submission
  pub of_run : o.run_id ≡ s.run_id
  pub inputs : o.inputs ≡ state.inputs
  pub attempt : o.attempt ≡ state.attempts
  pub max_attempts : o.max_attempts ≡ of.max_attempts
  pub outputs : o.outputs ≡ of.outputs
  pub success_criteria : o.success_criteria ≡ of.success_criteria
  pub name : o.name ≡ of.name
  pub purpose : o.purpose ≡ of.purpose
  pub instructions : o.instructions ≡ of.instructions
  pub requires : o.requires ≡ of.requires

-- A node of the order with work for an agent.
pub record Due (s : RunState) (spec : GraphSpec) (k : String) : Type 0 where
  pub listed : contains s.order k ≡ true
  pub state : NodeState
  pub of : Node
  pub stored : lookup s.nodes k ≡ some state
  pub found : node spec k ≡ some of
  pub running : state.status ≡ NodeStatus.running
  pub waits : state.wait ≡ some Wait.submission

abbrev pub Ordered : List WorkOrder → String → Type 0
Ordered [] k = ⊥
Ordered (o ∷ os) k = (o.node ≡ k) ⊎ Ordered os k

-- `submit` accepts the node of the order: with outputs that it can write, or with a failure, it goes on
-- with the end of the node's attempt.
abbrev pub Accepted : Env → GraphSpec → RunState → WorkOrder → NodeState → Node → Type 0
Accepted env spec s o state of =
    (submission : Submission) (by : String) (w : World)
    → w.state ≡ s
    → acceptable env spec submission ≡ true
    → submit env spec o.node submission by w
      ≡ submit_to env spec o.node submission by state (some of) w

is_running :
    (st : NodeStatus) → node_status_eq st NodeStatus.running ≡ true → st ≡ NodeStatus.running
is_running NodeStatus.running h = refl
is_running NodeStatus.pending h = cc
is_running NodeStatus.ready h = cc
is_running NodeStatus.succeeded h = cc
is_running NodeStatus.failed h = cc
is_running NodeStatus.blocked h = cc
is_running NodeStatus.skipped h = cc

waits_submission : (w : Option Wait) → is_submission w ≡ true → w ≡ some Wait.submission
waits_submission (some Wait.submission) h = refl
waits_submission (some Wait.approval) h = cc
waits_submission (some Wait.review) h = cc
waits_submission (some Wait.attention) h = cc
waits_submission none h = cc

orders_at-Open :
    (s : RunState) (spec : GraphSpec) (k : String) (a : Option NodeState) (b : Option Node)
    → contains s.order k ≡ true
    → lookup s.nodes k ≡ a
    → node spec k ≡ b
    → All (Open s spec) (orders_at s k a b)
unfolding orders_at
orders_at-Open s spec k none b m e f = tt
orders_at-Open s spec k (some ns) none m e f = tt
orders_at-Open s spec k (some ns) (some n) m e f = elim (Bool-cases (has_work ns)) [
  | inl w ↦
      rw (w, orders_at)
        (
          record {
            state = ns;
            of = n;
            listed = m;
            stored = e;
            found = f;
            running = is_running ns.status (ground arith);
            waits = waits_submission ns.wait (ground arith);
            of_run = refl;
            inputs = refl;
            attempt = refl;
            max_attempts = refl;
            outputs = refl;
            success_criteria = refl;
            name = refl;
            purpose = refl;
            instructions = refl;
            requires = refl;
          },
          tt,
        )
  | inr w ↦ rw (w, orders_at) tt
]

pending_from-Open :
    (s : RunState) (spec : GraphSpec) (ks : List String)
    → ((k : String) → contains ks k ≡ true → contains s.order k ≡ true)
    → All (Open s spec) (pending_from s spec ks)
unfolding pending_from
pending_from-Open s spec [] sub = tt
pending_from-Open s spec (k ∷ ks) sub =
    All-append (Open s spec) (orders_at s k (lookup s.nodes k) (node spec k))
      (pending_from s spec ks)
      (orders_at-Open s spec k (lookup s.nodes k) (node spec k) (sub k (rw ==_refl refl)) refl refl)
      (pending_from-Open s spec ks (λ j m. sub j (ground arith)))

Ordered-left : (os ps : List WorkOrder) (k : String) → Ordered os k → Ordered (os ++ ps) k
Ordered-left [] ps k h = absurd h
Ordered-left (o ∷ os) ps k (inl e) = inl e
Ordered-left (o ∷ os) ps k (inr h) = inr (Ordered-left os ps k h)

Ordered-right : (os ps : List WorkOrder) (k : String) → Ordered ps k → Ordered (os ++ ps) k
Ordered-right [] ps k h = h
Ordered-right (o ∷ os) ps k h = inr (Ordered-right os ps k h)

orders_at-Ordered :
    (s : RunState) (k : String) (ns : NodeState) (n : Node)
    → ns.status ≡ NodeStatus.running
    → ns.wait ≡ some Wait.submission
    → Ordered (orders_at s k (some ns) (some n)) k
unfolding orders_at
orders_at-Ordered s k ns n e f =
    let w : has_work ns ≡ true = rw (e, f) refl in rw (w, orders_at) (inl refl)

pending_from-Ordered :
    (s : RunState) (spec : GraphSpec) (k : String) (ks : List String)
    → Due s spec k
    → contains ks k ≡ true
    → Ordered (pending_from s spec ks) k
unfolding pending_from
pending_from-Ordered s spec k [] d m = cc
pending_from-Ordered s spec k (j ∷ ks) d m = elim (Bool-cases (j == k)) [
  | inl same ↦
      let is : j ≡ k = (string_eq.equal_iff j k).0 same in
      let here : Ordered (orders_at s k (lookup s.nodes k) (node spec k)) k =
        rw (d.stored, d.found) (orders_at-Ordered s k d.state d.of d.running d.waits) in
      Ordered-left (orders_at s j (lookup s.nodes j) (node spec j)) (pending_from s spec ks) k
        (rw is here)
  | inr other ↦
      Ordered-right (orders_at s j (lookup s.nodes j) (node spec j)) (pending_from s spec ks) k
        (pending_from-Ordered s spec k ks d (rw other at m))
]

accepted :
    (env : Env) (spec : GraphSpec) (s : RunState) (o : WorkOrder) (p : Open s spec o)
    → run_terminal s.status ≡ false
    → Accepted env spec s o p.state p.of
unfolding submit submit_at
accepted env spec s o p live submission by w same ok =
    rw (same, ok, p.stored, live, p.running, p.waits, p.found) refl

-- Each work order of `pending_work` is for a node of the order and of the spec that is RUNNING and
-- waits for a submission; it has that node's inputs and count of attempts, and the limit of attempts,
-- the outputs, the criteria and the texts of the node in the spec; and each such node has a work
-- order. Where the run is not over, a call of `submit` for the node of a work order, with outputs
-- that are JSON and not too large or with a failure, passes all of its guards.
pub pending_work-Open :
    (s : RunState) (spec : GraphSpec)
    → All
        (λ (o : WorkOrder).
          (p : Open s spec o) × ((env : Env)
            → run_terminal s.status ≡ false
            → Accepted env spec s o p.state p.of))
        (pending_work s spec)
      × ((k : String) → Due s spec k → Ordered (pending_work s spec) k)
unfolding pending_work
pending_work-Open s spec = (
  each (pending_from s spec s.order) (pending_from-Open s spec s.order (λ k m. m)),
  λ k d. pending_from-Ordered s spec k s.order d d.listed,
)
  where
    each :
        (os : List WorkOrder)
        → All (Open s spec) os
        → All
            (λ (o : WorkOrder).
              (p : Open s spec o) × ((env : Env)
                → run_terminal s.status ≡ false
                → Accepted env spec s o p.state p.of))
            os
    each [] h = tt
    each (o ∷ os) h = ((h.0, λ env live. accepted env spec s o h.0 live), each os h.1)
