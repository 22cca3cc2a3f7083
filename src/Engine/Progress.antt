-- ===== src/Engine/Progress.antt =====
-- The relation between a run of ge_runtime/engine.py before and after a change of its nodes.
use mathlib.Core.Path.{subst}
use hermes_graph_engineering.Base.{
  ℕ, ◌≤◌, ◌+◌, [], ◌∷◌, ◌==◌, ◌⊎◌, String, ◌≡◌, refl, ◌∙◌, Bool, true, false, ◌||◌, Option, none,
  some, arith, Table, lookup, modify, map_values, TableRel, TableRel-refl, TableRel-modify,
  TableRel-map_values, TableRel-trans, map_option, lookup-modify_self, string_eq, Bool-cases, inl,
  inr, if◌then◌else◌,
}
use hermes_graph_engineering.States.{NodeStatus, node_terminal, node_status_eq}
use hermes_graph_engineering.Engine.State.{
  Wait, wait_is_attention, NodeState, RunState, World, update_node,
}

-- READY, RUNNING or SUCCEEDED.
abbrev pub is_started : NodeStatus → Bool
is_started NodeStatus.ready = true
is_started NodeStatus.running = true
is_started NodeStatus.succeeded = true
is_started st = false

-- An attempt was cut off here, or may be made, is being made or was accepted.
abbrev pub has_started : NodeState → Bool
has_started ns = is_started ns.status || wait_is_attention ns.wait

-- Only a READY node waits for an approval, and only a RUNNING one for anything else.
abbrev pub wait_fits : Option Wait → NodeStatus → Bool
wait_fits none st = true
wait_fits (some Wait.approval) st = node_status_eq st NodeStatus.ready
wait_fits (some w) st = node_status_eq st NodeStatus.running

abbrev pub is_fitting : NodeState → Bool
is_fitting ns = wait_fits ns.wait ns.status

-- A terminal status is final, with its outputs; attempts are only added; and no node leaves PENDING
-- for an active status here (that is for `_refresh_readiness`).
pub record Progresses (a b : NodeState) : Type 0 where
  pub final : node_terminal a.status ≡ true → (b.status ≡ a.status) × (b.outputs ≡ a.outputs)
  pub attempts : a.attempts ≤ b.attempts
  pub opened : has_started b ≡ true → has_started a ≡ true
  pub fitting : is_fitting a ≡ true → is_fitting b ≡ true

pub Progresses-refl : (a : NodeState) → Progresses a a
Progresses-refl a = record {
  final = λ h. (refl, refl);
  attempts = omega arith;
  opened = λ h. h;
  fitting = λ h. h;
}

pub Progresses-trans : (a b c : NodeState) → Progresses a b → Progresses b c → Progresses a c
Progresses-trans a b c p q = record {
  final = λ h.
      let (st, out) = p.final h in let (st', out') = q.final (rw st h) in (st' ∙ st, out' ∙ out);
  attempts = omega arith;
  opened = λ h. p.opened (q.opened h);
  fitting = λ h. q.fitting (p.fitting h);
}

-- 1 for a node that is not terminal.
abbrev pub weight : NodeState → ℕ
weight ns = if node_terminal ns.status then 0 else 1

-- How many nodes are not terminal.
abbrev pub open_nodes : Table String NodeState → ℕ
open_nodes [] = 0
open_nodes ((k, ns) ∷ t) = weight ns + open_nodes t

-- A change under one key changes the count by the change of that node.
pub open_nodes-modify :
    (t : Table String NodeState) (k : String) (f : NodeState → NodeState) (v : NodeState)
    → lookup t k ≡ some v
    → open_nodes (modify k f t) + weight v ≡ open_nodes t + weight (f v)
open_nodes-modify [] k f v e = cc
open_nodes-modify ((j, w) ∷ t) k f v e = elim (Bool-cases (j == k)) [
  | inl here ↦
      let e' : some w ≡ some v = rw here at e in
      let same : w ≡ v = cc in rw here (rw same (omega arith))
  | inr there ↦ rw there (omega (arith, open_nodes-modify t k f v (rw there at e)))
]

open_nodes-none :
    (t : Table String NodeState) (k : String) (f : NodeState → NodeState)
    → lookup t k ≡ none
    → open_nodes (modify k f t) ≡ open_nodes t
open_nodes-none [] k f e = refl
open_nodes-none ((j, w) ∷ t) k f e = elim (Bool-cases (j == k)) [
  | inl here ↦ let e' : some w ≡ none = rw here at e in cc
  | inr there ↦ rw there (omega (arith, open_nodes-none t k f (rw there at e)))
]

pub open_nodes-modify_le :
    (t : Table String NodeState) (k : String) (f : NodeState → NodeState)
    → ((v : NodeState) → lookup t k ≡ some v → weight (f v) ≤ weight v)
    → open_nodes (modify k f t) ≤ open_nodes t
open_nodes-modify_le t k f h = at_key (lookup t k) refl
  where
    at_key : (o : Option NodeState) → lookup t k ≡ o → open_nodes (modify k f t) ≤ open_nodes t
    at_key none e = omega (arith, open_nodes-none t k f e)
    at_key (some v) e = omega (arith, open_nodes-modify t k f v e, h v e)

open_nodes-map_values :
    (t : Table String NodeState) (f : NodeState → NodeState)
    → ((v : NodeState) → weight (f v) ≤ weight v)
    → open_nodes (map_values f t) ≤ open_nodes t
open_nodes-map_values [] f h = omega arith
open_nodes-map_values ((j, w) ∷ t) f h = omega (arith, h w, open_nodes-map_values t f h)

Progresses-weight : (a b : NodeState) → Progresses a b → weight b ≤ weight a
Progresses-weight a b p = by_status (Bool-cases (node_terminal a.status))
  where
    by_status :
        ((node_terminal a.status ≡ true) ⊎ (node_terminal a.status ≡ false)) → weight b ≤ weight a
    by_status (inl done) = let (st, _) = p.final done in rw (st, done) (omega arith)
    by_status (inr still) = rw still (ground arith)

-- What an operation leaves alone, beside the progress of the nodes.
pub record Frame (s s' : RunState) : Type 0 where
  pub order : s'.order ≡ s.order
  pub run_id : s'.run_id ≡ s.run_id
  pub status : s'.status ≡ s.status
  pub approvals : s'.approvals ≡ s.approvals
  pub nodes : TableRel Progresses s.nodes s'.nodes
  pub remaining : open_nodes s'.nodes ≤ open_nodes s.nodes

pub Frame-nodes :
    (s s' : RunState)
    → s'.order ≡ s.order
    → s'.run_id ≡ s.run_id
    → s'.status ≡ s.status
    → s'.approvals ≡ s.approvals
    → s'.nodes ≡ s.nodes
    → Frame s s'
Frame-nodes s s' o r t a n = record {
  order = o;
  run_id = r;
  status = t;
  approvals = a;
  nodes = rw n (TableRel-refl Progresses Progresses-refl s.nodes);
  remaining = rw n (omega arith);
}

pub Frame-refl : (s : RunState) → Frame s s
Frame-refl s = Frame-nodes s s refl refl refl refl refl

pub Frame-trans : (s t u : RunState) → Frame s t → Frame t u → Frame s u
Frame-trans s t u p q = record {
  order = q.order ∙ p.order;
  run_id = q.run_id ∙ p.run_id;
  status = q.status ∙ p.status;
  approvals = q.approvals ∙ p.approvals;
  nodes = TableRel-trans Progresses Progresses-trans s.nodes t.nodes u.nodes p.nodes q.nodes;
  remaining = omega arith;
}

pub Frame-update :
    (s : RunState) (k : String) (f : NodeState → NodeState)
    → ((v : NodeState) → lookup s.nodes k ≡ some v → Progresses v (f v))
    → Frame s (update_node k f s)
Frame-update s k f h = record {
  order = refl;
  run_id = refl;
  status = refl;
  approvals = refl;
  nodes = TableRel-modify Progresses Progresses-refl s.nodes k f h;
  remaining = open_nodes-modify_le s.nodes k f (λ v e. Progresses-weight v (f v) (h v e));
}

pub Frame-map_values :
    (s : RunState) (f : NodeState → NodeState)
    → ((v : NodeState) → Progresses v (f v))
    → Frame s (record s { nodes = map_values f s.nodes })
Frame-map_values s f h = record {
  order = refl;
  run_id = refl;
  status = refl;
  approvals = refl;
  nodes = TableRel-map_values Progresses Progresses-refl s.nodes f h;
  remaining = open_nodes-map_values s.nodes f (λ v. Progresses-weight v (f v) (h v));
}

pub Frame-if : (b : Bool) (s t u : RunState) → Frame s t → Frame s u → Frame s (if b then t else u)
Frame-if true s t u p q = p
Frame-if false s t u p q = q

pub Frame-if_world :
    (b : Bool) (s : RunState) (t u : World)
    → Frame s t.state
    → Frame s u.state
    → Frame s (if b then t else u).state
Frame-if_world true s t u p q = p
Frame-if_world false s t u p q = q

-- RUNNING, and not waiting.
pub record Active (v : NodeState) : Type 0 where
  pub status : v.status ≡ NodeStatus.running
  pub free : v.wait ≡ none

-- The node under this key, if there is one, is active.
abbrev pub Runs : RunState → String → Type 0
Runs s k = (v : NodeState) → lookup s.nodes k ≡ some v → Active v

mapped :
    (P : NodeState → Type 0) (f : NodeState → NodeState) (o : Option NodeState)
    → ((v : NodeState) → o ≡ some v → P (f v))
    → (v : NodeState) → map_option f o ≡ some v
    → P v
mapped P f none h v e = cc
mapped P f (some u) h v e = let q : f u ≡ v = cc in subst P q (h u refl)

-- What holds of the changed value holds of what is found after the change.
pub update-found :
    (P : NodeState → Type 0) (s : RunState) (k : String) (f : NodeState → NodeState)
    → ((v : NodeState) → lookup s.nodes k ≡ some v → P (f v))
    → (v : NodeState) → lookup (update_node k f s).nodes k ≡ some v
    → P v
update-found P s k f h v e =
    mapped P f (lookup s.nodes k) h v (rw (lookup-modify_self s.nodes k f) at e)
