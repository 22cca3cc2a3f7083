-- ===== src/Engine/Readiness/Dependencies.antt =====
-- When a run of ge_runtime/engine.py is consistent: the dependencies of the nodes that have begun,
-- the waits, and the nodes of a run that is over.
use mathlib.Core.Path.{subst}
use hermes_graph_engineering.Base.{
  String, ◌≡◌, refl, sym, ◌∙◌, Bool, true, false, Option, none, some, List, [], ◌∷◌, arith, Table,
  lookup, all, keep, map_option, lookup-modify, OptionRel, ◌⊎◌, string_eq, ◌==◌, Bool-cases, inl,
  inr, if◌then◌else◌,
}
use hermes_graph_engineering.States.{run_terminal, NodeStatus}
use hermes_graph_engineering.Spec.{Node, GraphSpec, node}
use hermes_graph_engineering.Engine.State.{NodeState, RunState, update_node}
use hermes_graph_engineering.Engine.Readiness.Remaining.{open-weight}
use hermes_graph_engineering.Engine.Progress.{
  open_nodes, open_nodes-modify_le, has_started, is_fitting, Progresses, Frame,
}
use hermes_graph_engineering.Engine.Readiness.{
  found_is, status_is, is_succeeded, is_bad, is_open, refreshed, refresh_node, refresh_from,
  refresh_readiness,
}

pub record Consistent (spec : GraphSpec) (s : RunState) : Type 0 where
  pub done :
      (k : String) (n : Node) (ns : NodeState)
      → node spec k ≡ some n
      → lookup s.nodes k ≡ some ns
      → has_started ns ≡ true
      → all (status_is is_succeeded s) n.depends_on ≡ true
  pub fitting : (k : String) (ns : NodeState) → lookup s.nodes k ≡ some ns → is_fitting ns ≡ true
  pub closed : run_terminal s.status ≡ true → open_nodes s.nodes ≡ 0

-- Whatever had succeeded still has.
pub record KeepsDone (s s' : RunState) : Type 0 where
  pub still : (k : String) → status_is is_succeeded s k ≡ true → status_is is_succeeded s' k ≡ true

all_mono :
    (p q : String → Bool) (xs : List String)
    → ((x : String) → p x ≡ true → q x ≡ true)
    → all p xs ≡ true
    → all q xs ≡ true
all_mono p q [] h a = refl
all_mono p q (x ∷ xs) h a = ground (arith, h x, all_mono p q xs h)

all-still :
    (s s' : RunState) (ks : List String)
    → KeepsDone s s'
    → all (status_is is_succeeded s) ks ≡ true
    → all (status_is is_succeeded s') ks ≡ true
all-still s s' ks h = all_mono (status_is is_succeeded s) (status_is is_succeeded s') ks h.still

pub OptionRel-back :
    (o p : Option NodeState) (b : NodeState)
    → OptionRel Progresses o p
    → p ≡ some b
    → (a : NodeState) × (o ≡ some a) × Progresses a b
OptionRel-back none none b r e = cc
OptionRel-back (some a) none b r e = absurd r
OptionRel-back none (some c) b r e = absurd r
OptionRel-back (some a) (some c) b r e = let same : c ≡ b = cc in (a, refl, rw same at r)

OptionRel-on :
    (o p : Option NodeState) (a : NodeState)
    → OptionRel Progresses o p
    → o ≡ some a
    → (b : NodeState) × (p ≡ some b) × Progresses a b
OptionRel-on none none a r e = cc
OptionRel-on (some c) none a r e = absurd r
OptionRel-on none (some c) a r e = absurd r
OptionRel-on (some c) (some b) a r e = let same : c ≡ a = cc in (b, refl, rw same at r)

succeeded-found :
    (o : Option NodeState)
    → elim o [ none ↦ false | some ns ↦ is_succeeded ns.status ] ≡ true
    → (a : NodeState) × (o ≡ some a) × (a.status ≡ NodeStatus.succeeded)
succeeded-found none h = cc
succeeded-found (some a) h = (a, refl, ground arith)

pub Frame-KeepsDone : (s s' : RunState) → Frame s s' → KeepsDone s s'
Frame-KeepsDone s s' f = record {
  still = λ k h.
      let (a, e, st) = succeeded-found (lookup s.nodes k) h in
      let (b, e', p) = OptionRel-on (lookup s.nodes k) (lookup s'.nodes k) a (f.nodes.at k) e in
      let st' : b.status ≡ NodeStatus.succeeded = (p.final (rw st)).0 ∙ st in ground arith;
}

pub Frame-Consistent :
    (spec : GraphSpec) (s s' : RunState) → Frame s s' → Consistent spec s → Consistent spec s'
Frame-Consistent spec s s' f d = record {
  done = λ k n ns found at_k st.
      let (a, e, p) =
        OptionRel-back (lookup s.nodes k) (lookup s'.nodes k) ns (f.nodes.at k) at_k in
      all-still s s' n.depends_on (Frame-KeepsDone s s' f) (d.done k n a found e (p.opened st));
  fitting = λ k ns at_k.
      let (a, e, p) =
        OptionRel-back (lookup s.nodes k) (lookup s'.nodes k) ns (f.nodes.at k) at_k in
      p.fitting (d.fitting k a e);
  closed = λ h. omega (arith, f.remaining, d.closed (rw f.status at h));
}

-- What `_refresh_readiness` makes of a node that is PENDING or READY.
refreshed-cases :
    (stopped : Bool) (bad : List String) (ready : Bool) (v : NodeState)
    → has_started (refreshed stopped bad ready v) ≡ true
    → ((ready ≡ true) ⊎ (has_started v ≡ true))
unfolding refreshed
refreshed-cases true bad ready v h = cc
refreshed-cases false (b ∷ bs) ready v h = cc
refreshed-cases false [] true v h = inl refl
refreshed-cases false [] false v h = inr (ground arith)

refreshed-fitting :
    (stopped : Bool) (bad : List String) (ready : Bool) (v : NodeState)
    → is_fitting v ≡ true
    → is_open v.status ≡ true
    → is_fitting (refreshed stopped bad ready v) ≡ true
unfolding refreshed
refreshed-fitting true bad ready v h o = refl
refreshed-fitting false (b ∷ bs) ready v h o = refl
refreshed-fitting false [] true v h o = ground arith
refreshed-fitting false [] false v h o = ground arith

found-is :
    (p : NodeStatus → Bool) (o : Option NodeState) (v : NodeState)
    → o ≡ some v
    → elim o [ none ↦ false | some ns ↦ p ns.status ] ≡ true
    → p v.status ≡ true
found-is p none v e h = cc
found-is p (some u) v e h = let same : u ≡ v = cc in rw (← same) h

is_open-at :
    (s : RunState) (k : String) (v : NodeState)
    → lookup s.nodes k ≡ some v
    → status_is is_open s k ≡ true
    → is_open v.status ≡ true
is_open-at s k v e o = found-is is_open (lookup s.nodes k) v e o

open-not_done :
    (s : RunState) (k : String)
    → status_is is_open s k ≡ true
    → status_is is_succeeded s k ≡ true
    → ⊥
open-not_done s k o d = ground arith

-- A change of a node that had not succeeded loses no success.
update-KeepsDone :
    (s : RunState) (k : String) (f : NodeState → NodeState)
    → status_is is_open s k ≡ true
    → KeepsDone s (update_node k f s)
update-KeepsDone s k f o = record {
  still = λ j h. elim (Bool-cases (k == j)) [
    | inl same ↦ absurd (open-not_done s j (rw ((string_eq.equal_iff k j).0 same) at o) h)
    | inr other ↦ let e = lookup-modify s.nodes k j f in ground arith
  ];
}

module _ (spec : GraphSpec) where
  -- The change of one node by `_refresh_readiness`.
  abbrev refresh_with : RunState → Node → NodeState → NodeState
  refresh_with s n =
      refreshed s.stopped (keep (status_is is_bad s) n.depends_on)
        (all (status_is is_succeeded s) n.depends_on)

  -- The node that is looked up after the change: the changed one, or as it was before.
  changed-cases :
      (s : RunState) (k j : String) (f : NodeState → NodeState) (ns : NodeState)
      → lookup (update_node k f s).nodes j ≡ some ns
      → ((k ≡ j) × ((v : NodeState) × (lookup s.nodes k ≡ some v) × (f v ≡ ns)))
        ⊎ (lookup s.nodes j ≡ some ns)
  changed-cases s k j f ns e = elim (Bool-cases (k == j)) [
    | inl same ↦
        let eq = (string_eq.equal_iff k j).0 same in
        inl (eq, at_key (lookup s.nodes k) refl (moved same eq))
    | inr other ↦ inr (rw (lookup-modify s.nodes k j f, other) at e)
  ]
    where
      moved : (k == j) ≡ true → k ≡ j → map_option f (lookup s.nodes k) ≡ some ns
      moved same eq = rw eq (rw (lookup-modify s.nodes k j f, same) at e)

      at_key :
          (o : Option NodeState)
          → lookup s.nodes k ≡ o
          → map_option f o ≡ some ns
          → (v : NodeState) × (lookup s.nodes k ≡ some v) × (f v ≡ ns)
      at_key none l m = cc
      at_key (some v) l m = (v, l, cc)

  refresh_one-Consistent :
      (s : RunState) (k : String) (n : Node)
      → node spec k ≡ some n
      → status_is is_open s k ≡ true
      → Consistent spec s
      → Consistent spec (update_node k (refresh_with s n) s)
  refresh_one-Consistent s k n found o d = record {
    done = λ j m ns found' at_j st.
        all-still s _ m.depends_on (update-KeepsDone s k (refresh_with s n) o)
          (elim (changed-cases s k j (refresh_with s n) ns at_j) [
            | inr before ↦ d.done j m ns found' before st
            | inl (eq, (v, at_k, made)) ↦
                let same : n ≡ m = cc in
                elim (refreshed-cases s.stopped (keep (status_is is_bad s) n.depends_on)
                  (all (status_is is_succeeded s) n.depends_on) v (rw made st)) [
                    | inl ready ↦ rw (← same) ready
                    | inr old ↦ rw (← same) (d.done k n v found at_k old)
                  ]
          ]);
    fitting = λ j ns at_j. elim (changed-cases s k j (refresh_with s n) ns at_j) [
      | inr before ↦ d.fitting j ns before
      | inl (eq, (v, at_k, made)) ↦ rw (← made) (
          refreshed-fitting s.stopped (keep (status_is is_bad s) n.depends_on)
            (all (status_is is_succeeded s) n.depends_on) v (d.fitting k v at_k)
            (is_open-at s k v at_k o))
    ];
    closed = λ h. omega (
      arith,
      d.closed h,
      open_nodes-modify_le s.nodes k (refresh_with s n)
          (λ v e. rw (open-weight s k v o e) (ground arith)),
    );
  }

  refresh_node-Consistent :
      (s : RunState) (k : String) → Consistent spec s → Consistent spec (refresh_node spec s k)
  unfolding refresh_node
  refresh_node-Consistent s k d = at_node (node spec k) refl
    where
      at_node :
          (o : Option Node)
          → node spec k ≡ o
          → Consistent spec (elim o as (λ x. RunState) [
            | none ↦ s
            | some n ↦ if status_is is_open s k then update_node k (refresh_with s n) s else s
          ])
      at_node none e = d
      at_node (some n) e = elim (Bool-cases (status_is is_open s k)) [
        | inl o ↦ rw o (refresh_one-Consistent s k n e o d)
        | inr o ↦ rw o d
      ]

  refresh_from-Consistent :
      (order : List String) (s : RunState)
      → Consistent spec s
      → Consistent spec (refresh_from spec order s)
  unfolding refresh_from
  refresh_from-Consistent [] s d = d
  refresh_from-Consistent (k ∷ order) s d =
      refresh_from-Consistent order (refresh_node spec s k) (refresh_node-Consistent s k d)

  pub refresh_readiness-Consistent :
      (s : RunState) → Consistent spec s → Consistent spec (refresh_readiness spec s)
  unfolding refresh_readiness
  refresh_readiness-Consistent s d = refresh_from-Consistent s.order s d

-- Only the nodes matter.
pub Consistent-nodes :
    (spec : GraphSpec) (s s' : RunState)
    → s'.nodes ≡ s.nodes
    → (run_terminal s'.status ≡ true → open_nodes s'.nodes ≡ 0)
    → Consistent spec s
    → Consistent spec s'
Consistent-nodes spec s s' e c d = record {
  done = λ k n ns found at_k st.
      subst
        (λ (t : Table String NodeState). all (λ j. found_is is_succeeded t j) n.depends_on ≡ true)
        (sym e) (d.done k n ns found (rw e at at_k) st);
  fitting = λ k ns at_k. d.fitting k ns (rw e at at_k);
  closed = c;
}
