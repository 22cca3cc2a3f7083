-- ===== src/Engine/Recovery/Interrupted.antt =====
-- What `resume` of ge_runtime/engine.py does with the nodes that were running when the process died.
use hermes_graph_engineering.Base.{
  if_ind, String, ◌≡◌, refl, ◌∙◌, Bool, true, false, not, ◌&&◌, ◌⊎◌, Option, none, some, List, [],
  ◌∷◌, ◌++◌, All, lookup, contains, distinct, ◌==◌, string_eq, lookup-modify, ==_refl, Bool-cases,
  inl, inr, arith, if◌then◌else◌,
}
use hermes_graph_engineering.States.{NodeStatus}
use hermes_graph_engineering.Spec.{Node, node_ids}
use hermes_graph_engineering.Engine.State.{Wait, NodeState, Message, RunState, Env, update_node}
use hermes_graph_engineering.Engine.Recovery.{
  no_wait, node_status_eq, is_interrupted, replay_safe, requeue, hold, recover_node, recover,
}

-- The attempt was running when the process died, and nobody else was to act on the node.
abbrev pub Interrupted : NodeState → Type 0
Interrupted v = (v.status ≡ NodeStatus.running) × (v.wait ≡ none)

-- The attempt is noted in the history as interrupted.
abbrev pub Noted : Env → NodeState → NodeState → Type 0
Noted env v after =
    (detail : Message) × (after.history
      ≡ v.history
        ++ record { attempt = v.attempts; outcome = none; detail = detail; at = env.now } ∷ [])

-- The state of a node before and after the recovery.
pub data Recovered (env : Env) (n : Node) (v after : NodeState) : Type 0 where
  untouched : (Interrupted v → ⊥) → after ≡ v → Recovered env n v after
  queued :
      Interrupted v
      → n.idempotent ≡ true
      → n.side_effects ≡ false
      → (after.status ≡ NodeStatus.ready) × (after.wait ≡ none) × (after.attempts ≡ v.attempts)
      → Noted env v after
      → Recovered env n v after
  held :
      Interrupted v
      → (n.idempotent ≡ false) ⊎ (n.side_effects ≡ true)
      → (after.status ≡ NodeStatus.running)
        × (after.wait ≡ some Wait.attention)
        × (after.attempts ≡ v.attempts)
      → Noted env v after
      → Recovered env n v after

-- A node of a run has been recovered in a later state of it.
abbrev pub RecoveredIn : Env → RunState → RunState → Node → Type 0
RecoveredIn env s t n =
    (v : NodeState)
    → lookup s.nodes n.id ≡ some v
    → (after : NodeState) × (lookup t.nodes n.id ≡ some after) × Recovered env n v after

is_interrupted-Interrupted : (v : NodeState) → is_interrupted v ≡ true → Interrupted v
is_interrupted-Interrupted v h = (status v.status (ground arith), wait v.wait (ground arith))
  where
    status :
        (st : NodeStatus) → node_status_eq st NodeStatus.running ≡ true → st ≡ NodeStatus.running
    status NodeStatus.running p = refl
    status NodeStatus.pending p = cc
    status NodeStatus.ready p = cc
    status NodeStatus.succeeded p = cc
    status NodeStatus.failed p = cc
    status NodeStatus.blocked p = cc
    status NodeStatus.skipped p = cc

    wait : (w : Option Wait) → no_wait w ≡ true → w ≡ none
    wait none p = refl
    wait (some w) p = cc

Interrupted-is : (v : NodeState) → Interrupted v → is_interrupted v ≡ true
Interrupted-is v h = rw (h.0, h.1) refl

unsafe_by : (a b : Bool) → (a && not b) ≡ false → (a ≡ false) ⊎ (b ≡ true)
unsafe_by false b h = inl refl
unsafe_by true true h = inr refl
unsafe_by true false h = cc

module _ (env : Env) where
  update-at :
      (s : RunState) (k : String) (f : NodeState → NodeState) (v : NodeState)
      → lookup s.nodes k ≡ some v
      → lookup (update_node k f s).nodes k ≡ some (f v)
  update-at s k f v e = lookup-modify s.nodes k k f ∙ rw (==_refl k, e) refl

  recover_node-here : (n : Node) (s : RunState) → RecoveredIn env s (recover_node env n s) n
  unfolding recover_node
  recover_node-here n s v e = elim (Bool-cases (is_interrupted v)) [
    | inr idle ↦ (
      v,
      rw (e, recover_node, idle) e,
      untouched (λ i. let on = Interrupted-is v i in cc (on, idle)) refl,
    )
    | inl on ↦
        let i = is_interrupted-Interrupted v on in
        elim (Bool-cases (replay_safe n)) [
          | inl safe ↦ (
            requeue env v,
            rw (e, recover_node, on, safe) (update-at s n.id (requeue env) v e),
            queued i (ground arith) (ground arith) (refl, i.1, refl) (_, refl),
          )
          | inr unsafe ↦ (
            hold env v,
            rw (e, recover_node, on, unsafe) (update-at s n.id (hold env) v e),
            held i (unsafe_by n.idempotent n.side_effects unsafe) (i.0, refl, refl) (_, refl),
          )
        ]
  ]

  recover_node-other :
      (n : Node) (s : RunState) (k : String)
      → (n.id == k) ≡ false
      → lookup (recover_node env n s).nodes k ≡ lookup s.nodes k
  unfolding recover_node
  recover_node-other n s k other = at_node (lookup s.nodes n.id)
    where
      at_node :
          (o : Option NodeState)
          → lookup
              (elim o as (λ x. RunState) [
                | none ↦ s
                | some ns ↦
                    if is_interrupted ns
                    then (if replay_safe n
                        then update_node n.id (requeue env) s
                        else update_node n.id (hold env) s)
                    else s
              ]).nodes
              k
            ≡ lookup s.nodes k
      at_node none = refl
      at_node (some ns) =
          if_ind (λ (t : RunState). lookup t.nodes k ≡ lookup s.nodes k) (is_interrupted ns)
            (if_ind (λ (t : RunState). lookup t.nodes k ≡ lookup s.nodes k) (replay_safe n)
              (lookup-modify s.nodes n.id k (requeue env) ∙ rw other refl)
              (lookup-modify s.nodes n.id k (hold env) ∙ rw other refl))
            refl

  recover-other :
      (ns : List Node) (s : RunState) (k : String)
      → contains (node_ids ns) k ≡ false
      → lookup (recover env ns s).nodes k ≡ lookup s.nodes k
  unfolding recover
  recover-other [] s k absent = refl
  recover-other (n ∷ ns) s k absent =
      recover-other ns (recover_node env n s) k (ground arith)
      ∙ recover_node-other n s k (ground arith)

  -- The nodes of a list without this one have the same state before its round and after it.
  before_round :
      (n : Node) (ms : List Node) (s t : RunState)
      → contains (node_ids ms) n.id ≡ false
      → All (RecoveredIn env (recover_node env n s) t) ms
      → All (RecoveredIn env s t) ms
  before_round n [] s t absent h = tt
  before_round n (m ∷ ms) s t absent h = (
    λ v e. h.0 v (recover_node-other n s m.id (apart (m.id == n.id) refl) ∙ e),
    before_round n ms s t (ground arith) h.1,
  )
    where
      apart : (b : Bool) → (m.id == n.id) ≡ b → (n.id == m.id) ≡ false
      apart true same = ground arith
      apart false other =
          ground (arith, string_eq.equal_iff n.id m.id, string_eq.equal_iff m.id n.id)

  -- After the recovery of `resume`, for nodes with different ids: a node whose attempt was interrupted
  -- (RUNNING with no wait) is READY again, with no wait, if it is idempotent and without side effects, and
  -- otherwise it is RUNNING and held for attention; in both cases its count of attempts is as before
  -- and its history has one more entry, for the interrupted attempt. Every other node is unchanged.
  pub recover-Recovered :
      (ns : List Node) (s : RunState)
      → distinct (node_ids ns) ≡ true
      → All (RecoveredIn env s (recover env ns s)) ns
  unfolding recover
  recover-Recovered [] s d = tt
  recover-Recovered (n ∷ ns) s d =
      let absent : contains (node_ids ns) n.id ≡ false = ground arith in
      let t = recover env ns (recover_node env n s) in
      (
        λ v e.
            let (after, f, r) = recover_node-here n s v e in
            (after, recover-other ns (recover_node env n s) n.id absent ∙ f, r),
        before_round n ns s t absent (recover-Recovered ns (recover_node env n s) (ground arith)),
      )
