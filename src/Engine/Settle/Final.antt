-- ===== src/Engine/Settle/Final.antt =====
-- How `_settle` of ge_runtime/engine.py leaves a run.
use mathlib.Core.Path.{subst}
use hermes_graph_engineering.Base.{
  none, lookup, Option, some, contains, Bool, String, string_eq, Table, All, All-append, ◌⊎◌, ◌==◌,
  ==_refl, ◌≡◌, refl, true, false, ◌↔◌, List, [], ◌∷◌, ◌++◌, arith, all, values, Bool-cases, inl,
  inr,
}
use hermes_graph_engineering.States.{node_terminal, RunStatus, run_terminal}
use hermes_graph_engineering.Spec.{GraphSpec}
use hermes_graph_engineering.Engine.State.{NodeState, RunState, World, Env, Hold, on_state}
use hermes_graph_engineering.Engine.Readiness.{refresh_readiness, is_succeeded}
use hermes_graph_engineering.Engine.Readiness.Remaining.{refresh_readiness-Refreshes}
use hermes_graph_engineering.Engine.Settle.{
  deadlocked, waiting_for_submission, needs_attention, waiting_for_review, step_budget,
  waiting_for_approval, HoldState, hold_of, Wait, all_terminal, all_succeeded, or_deadlocked,
  holds_of, node_holds, budget_holds, final_status, settled, settle,
}

all_succeeded-terminal :
    (vs : List NodeState)
    → all (λ ns. is_succeeded ns.status) vs ≡ true
    → all (λ ns. node_terminal ns.status) vs ≡ true
all_succeeded-terminal [] h = refl
all_succeeded-terminal (v ∷ vs) h =
    let rest = all_succeeded-terminal vs (ground arith) in ground arith

-- The kind of hold that a wait stands for.
abbrev pub kind_for : Wait → HoldState
kind_for Wait.approval = waiting_for_approval
kind_for Wait.review = waiting_for_review
kind_for Wait.submission = waiting_for_submission
kind_for Wait.attention = needs_attention

-- A node of the run's order that waits.
pub record Waits (order : List String) (nodes : Table String NodeState) (k : String) (wait : Wait)
    : Type 0 where
  pub listed : contains order k ≡ true
  pub state : NodeState
  pub stored : lookup nodes k ≡ some state
  pub waits : state.wait ≡ some wait

-- What a hold is about: a node that waits, the budget of attempts that was used up, or a run in which
-- no node waits, although its budget was not used up.
pub data Tells (order : List String) (nodes : Table String NodeState) (exhausted : Bool) (h : Hold)
    : Type 0 where
  of_node :
      (k : String) (wait : Wait)
      → Waits order nodes k wait
      → h.kind ≡ kind_for wait
      → h.node ≡ some k
      → h.detail ≡ none
      → Tells order nodes exhausted h
  of_budget :
      exhausted ≡ true
      → h.kind ≡ needs_attention
      → h.node ≡ none
      → h.detail ≡ some step_budget
      → Tells order nodes exhausted h
  of_deadlock :
      exhausted ≡ false
      → ((k : String) (wait : Wait) → Waits order nodes k wait → ⊥)
      → h.kind ≡ needs_attention
      → h.node ≡ none
      → h.detail ≡ some deadlocked
      → Tells order nodes exhausted h

abbrev pub Held : (Hold → Type 0) → List Hold → Type 0
Held P [] = ⊥
Held P (h ∷ hs) = P h ⊎ Held P hs

-- The holds say what the run waits for: each is true, each node that waits has one, and so has a
-- budget that was used up.
pub record Told (s : RunState) (exhausted : Bool) : Type 0 where
  pub sound : All (Tells s.order s.nodes exhausted) s.holds
  pub complete :
      (k : String) (wait : Wait)
      → Waits s.order s.nodes k wait
      → Held (λ h. (h.kind ≡ kind_for wait) × (h.node ≡ some k)) s.holds
  pub budget : exhausted ≡ true → Held (λ h. h.detail ≡ some step_budget) s.holds
  pub some_hold : s.holds ≡ [] → ⊥

-- What the status of a run says of its nodes.
pub record Settled (s : RunState) (exhausted : Bool) : Type 0 where
  pub won : (s.status ≡ RunStatus.succeeded) ↔ (all_succeeded s ≡ true)
  pub lost : (s.status ≡ RunStatus.failed) ↔ ((all_terminal s ≡ true) × (all_succeeded s ≡ false))
  pub held : (s.status ≡ RunStatus.waiting) ↔ (all_terminal s ≡ false)
  pub reason : s.status ≡ RunStatus.waiting → Told s exhausted
  pub nothing_held : (s.status ≡ RunStatus.waiting → ⊥) → s.holds ≡ []

Held-left : (P : Hold → Type 0) (hs gs : List Hold) → Held P hs → Held P (hs ++ gs)
Held-left P [] gs p = absurd p
Held-left P (h ∷ hs) gs (inl p) = inl p
Held-left P (h ∷ hs) gs (inr p) = inr (Held-left P hs gs p)

Held-right : (P : Hold → Type 0) (hs gs : List Hold) → Held P gs → Held P (hs ++ gs)
Held-right P [] gs p = p
Held-right P (h ∷ hs) gs p = inr (Held-right P hs gs p)

-- The holds of the nodes and of the budget, of which the run's holds are made.
record Gathered (order : List String) (nodes : Table String NodeState) (exhausted : Bool)
    (hs : List Hold) : Type 0 where
  sound : All (Tells order nodes exhausted) hs
  complete :
      (k : String) (wait : Wait)
      → Waits order nodes k wait
      → Held (λ h. (h.kind ≡ kind_for wait) × (h.node ≡ some k)) hs
  budget : exhausted ≡ true → Held (λ h. h.detail ≡ some step_budget) hs

module _ (env : Env) (spec : GraphSpec) where
  hold_of_sound :
      (s : RunState) (ex : Bool) (k : String) (o : Option Wait)
      → ((wait : Wait) → o ≡ some wait → Waits s.order s.nodes k wait)
      → All (Tells s.order s.nodes ex) (hold_of env spec s k o)
  unfolding hold_of
  hold_of_sound s ex k (some Wait.approval) w =
      (of_node k Wait.approval (w Wait.approval refl) refl refl refl, tt)
  hold_of_sound s ex k (some Wait.review) w =
      (of_node k Wait.review (w Wait.review refl) refl refl refl, tt)
  hold_of_sound s ex k (some Wait.submission) w =
      (of_node k Wait.submission (w Wait.submission refl) refl refl refl, tt)
  hold_of_sound s ex k (some Wait.attention) w =
      (of_node k Wait.attention (w Wait.attention refl) refl refl refl, tt)
  hold_of_sound s ex k none w = tt

  hold_of_complete :
      (s : RunState) (k : String) (wait : Wait)
      → Held (λ h. (h.kind ≡ kind_for wait) × (h.node ≡ some k)) (hold_of env spec s k (some wait))
  unfolding hold_of
  hold_of_complete s k Wait.approval = inl (refl, refl)
  hold_of_complete s k Wait.review = inl (refl, refl)
  hold_of_complete s k Wait.submission = inl (refl, refl)
  hold_of_complete s k Wait.attention = inl (refl, refl)

  abbrev holds_at : RunState → String → Option NodeState → List Hold
  holds_at s k o = elim o [ none ↦ [] | some ns ↦ hold_of env spec s k ns.wait ]

  node_holds_sound :
      (s : RunState) (ex : Bool) (ks : List String)
      → ((k : String) → contains ks k ≡ true → contains s.order k ≡ true)
      → All (Tells s.order s.nodes ex) (node_holds env spec s ks)
  unfolding node_holds
  node_holds_sound s ex [] sub = tt
  node_holds_sound s ex (k ∷ ks) sub =
      All-append (Tells s.order s.nodes ex) (holds_at s k (lookup s.nodes k))
        (node_holds env spec s ks) (at_node (lookup s.nodes k) refl)
        (node_holds_sound s ex ks (λ j m. sub j (ground arith)))
    where
      at_node :
          (o : Option NodeState)
          → lookup s.nodes k ≡ o
          → All (Tells s.order s.nodes ex) (holds_at s k o)
      at_node none e = tt
      at_node (some ns) e = hold_of_sound s ex k ns.wait (λ wait f. record {
        listed = sub k (rw (==_refl k) refl);
        state = ns;
        stored = e;
        waits = f;
      })

  node_holds_complete :
      (s : RunState) (k : String) (wait : Wait) (v : NodeState) (ks : List String)
      → contains ks k ≡ true
      → lookup s.nodes k ≡ some v
      → v.wait ≡ some wait
      → Held (λ h. (h.kind ≡ kind_for wait) × (h.node ≡ some k)) (node_holds env spec s ks)
  unfolding node_holds
  node_holds_complete s k wait v [] m e f = cc
  node_holds_complete s k wait v (j ∷ ks) m e f = elim (Bool-cases (j == k)) [
    | inl same ↦
        let is : j ≡ k = (string_eq.equal_iff j k).0 same in
        Held-left _ (holds_at s j (lookup s.nodes j)) (node_holds env spec s ks)
          (rw (is, e, f) (hold_of_complete s k wait))
    | inr other ↦
        Held-right _ (holds_at s j (lookup s.nodes j)) (node_holds env spec s ks)
          (node_holds_complete s k wait v ks (rw other at m) e f)
  ]

  budget_holds_sound :
      (s : RunState) (ex : Bool) → All (Tells s.order s.nodes ex) (budget_holds env spec ex)
  budget_holds_sound s true = (of_budget refl refl refl refl, tt)
  budget_holds_sound s false = tt

  gathered :
      (s : RunState)
      → Gathered s.order s.nodes s.budget_exhausted
          (node_holds env spec s s.order ++ budget_holds env spec s.budget_exhausted)
  gathered s = record {
    sound =
        All-append (Tells s.order s.nodes s.budget_exhausted) (node_holds env spec s s.order)
          (budget_holds env spec s.budget_exhausted)
          (node_holds_sound s s.budget_exhausted s.order (λ k m. m))
          (budget_holds_sound s s.budget_exhausted);
    complete = λ k wait w.
        Held-left _ (node_holds env spec s s.order) (budget_holds env spec s.budget_exhausted)
          (node_holds_complete s k wait w.state s.order w.listed w.stored w.waits);
    budget = λ used.
        Held-right _ (node_holds env spec s s.order) (budget_holds env spec s.budget_exhausted)
          (of_used s.budget_exhausted used);
  }
    where
      of_used :
          (ex : Bool)
          → ex ≡ true
          → Held (λ h. h.detail ≡ some step_budget) (budget_holds env spec ex)
      of_used true used = inl refl
      of_used false used = cc

  -- With nothing gathered, no node waits and no budget was used up.
  or_deadlocked-Gathered :
      (order : List String) (nodes : Table String NodeState) (ex : Bool) (hs : List Hold)
      → Gathered order nodes ex hs
      → Gathered order nodes ex (or_deadlocked env spec hs) × (or_deadlocked env spec hs ≡ [] → ⊥)
  or_deadlocked-Gathered order nodes ex (h ∷ hs) g = (g, λ e. cc (e))
  or_deadlocked-Gathered order nodes ex [] g = (
    record {
      sound =
          (of_deadlock (unused ex g.budget) (λ k wait w. g.complete k wait w) refl refl refl, tt);
      complete = λ k wait w. absurd (g.complete k wait w);
      budget = λ used. absurd (g.budget used);
    },
    λ e. cc (e),
  )
    where
      unused : (b : Bool) → (b ≡ true → ⊥) → b ≡ false
      unused true h = absurd (h refl)
      unused false h = refl

  -- The holds of a run that waits, in the state that `settled` makes of it.
  holds_of-Told :
      (s t : RunState)
      → t.order ≡ s.order
      → t.nodes ≡ s.nodes
      → t.holds ≡ holds_of env spec s
      → Told t s.budget_exhausted
  unfolding holds_of
  holds_of-Told s t e f g =
      let (r, some_of) = or_deadlocked-Gathered s.order s.nodes s.budget_exhausted _ (gathered s) in
      rw (e, f, g)
        (record { sound = r.sound; complete = r.complete; budget = r.budget; some_hold = some_of })

  settled-Settled :
      (w : World)
      → run_terminal w.state.status ≡ false
      → Settled (settled env spec w).state w.state.budget_exhausted
  unfolding settled final_status
  settled-Settled w live = elim (Bool-cases (all_terminal w.state)) [
    | inr open_still ↦
        let not_won : all_succeeded w.state ≡ false = elim (Bool-cases (all_succeeded w.state)) [
          | inl win ↦ cc (all_succeeded-terminal (values w.state.nodes) win, open_still)
          | inr loss ↦ loss
        ] in
        rw (live, open_still)
          (record {
            won = (λ h. cc (h), λ h. cc (h, not_won));
            lost = (λ h. cc (h), λ h. cc (h.0, open_still));
            held = (λ _. open_still, λ _. refl);
            reason = λ _. holds_of-Told w.state _ refl refl refl;
            nothing_held = λ h. absurd (h refl);
          })
    | inl over ↦ elim (Bool-cases (all_succeeded w.state)) [
      | inl win ↦
          rw (live, over, win)
            (record {
              won = (λ _. win, λ _. refl);
              lost = (λ h. cc (h), λ h. cc (h.1, win));
              held = (λ h. cc (h), λ h. cc (h, over));
              reason = λ h. cc (h);
              nothing_held = λ _. refl;
            })
      | inr loss ↦
          rw (live, over, loss)
            (record {
              won = (λ h. cc (h), λ h. cc (h, loss));
              lost = (λ _. (over, loss), λ _. refl);
              held = (λ h. cc (h), λ h. cc (h, over));
              reason = λ h. cc (h);
              nothing_held = λ _. refl;
            })
    ]
  ]

-- After `_settle`, a run that was not over is SUCCEEDED exactly if all its nodes have SUCCEEDED,
-- FAILED exactly if all its nodes are terminal and some has not SUCCEEDED, and otherwise WAITING.
-- Where it is WAITING it has a hold; each hold names a node of the order that waits, with the kind of
-- hold that its wait stands for, or says that the budget of attempts was used up, or, where neither is
-- the case, that the run is deadlocked; and each such node, and a budget that was used up, has a hold.
-- Where the run is not WAITING it has no holds.
pub settle-Settled :
    (env : Env) (spec : GraphSpec) (w : World)
    → run_terminal w.state.status ≡ false
    → Settled (settle env spec w).state w.state.budget_exhausted
unfolding settle
settle-Settled env spec w live =
    let p = refresh_readiness-Refreshes spec w.state in
    subst (λ (b : Bool). Settled (settled env spec (on_state (refresh_readiness spec) w)).state b)
      p.budget (settled-Settled env spec (on_state (refresh_readiness spec) w) (rw p.status live))
