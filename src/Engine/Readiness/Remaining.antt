-- ===== src/Engine/Readiness/Remaining.antt =====
-- The node table and the open nodes across `_refresh_readiness` of ge_runtime/engine.py.
use hermes_graph_engineering.Base.{
  all, keep, ◌≤◌, String, ◌≡◌, refl, ◌∙◌, true, Option, none, some, List, [], ◌∷◌, arith, lookup,
  string_eq, Bool-cases, inl, inr, if◌then◌else◌, keys, keys-modify,
}
use hermes_graph_engineering.Spec.{Node, GraphSpec, node}
use hermes_graph_engineering.Engine.State.{NodeState, RunState, update_node}
use hermes_graph_engineering.Engine.Progress.{weight, open_nodes, open_nodes-modify_le}
use hermes_graph_engineering.Engine.Readiness.{
  is_succeeded, is_bad, status_is, is_open, refreshed, refresh_node, refresh_from,
  refresh_readiness,
}

-- What the refresh leaves alone.
pub record Refreshes (s s' : RunState) : Type 0 where
  pub order : s'.order ≡ s.order
  pub run_id : s'.run_id ≡ s.run_id
  pub approvals : s'.approvals ≡ s.approvals
  pub status : s'.status ≡ s.status
  pub budget : s'.budget_exhausted ≡ s.budget_exhausted
  pub keys : keys s'.nodes ≡ keys s.nodes
  pub remaining : open_nodes s'.nodes ≤ open_nodes s.nodes

Refreshes-refl : (s : RunState) → Refreshes s s
Refreshes-refl s = record {
  order = refl;
  run_id = refl;
  approvals = refl;
  status = refl;
  budget = refl;
  keys = refl;
  remaining = omega arith;
}

pub open-weight :
    (s : RunState) (k : String) (v : NodeState)
    → status_is is_open s k ≡ true
    → lookup s.nodes k ≡ some v
    → weight v ≡ 1
open-weight s k v o e = ground arith

module _ (spec : GraphSpec) where
  refresh_node-Refreshes : (s : RunState) (k : String) → Refreshes s (refresh_node spec s k)
  unfolding refresh_node
  refresh_node-Refreshes s k = at_node (node spec k)
    where
      at_node :
          (o : Option Node)
          → Refreshes s (elim o as (λ x. RunState) [
            | none ↦ s
            | some n ↦
                if status_is is_open s k
                then update_node k
                    (refreshed s.stopped
                      (keep (status_is is_bad s) n.depends_on)
                      (all (status_is is_succeeded s) n.depends_on))
                    s
                else s
          ])
      at_node none = Refreshes-refl s
      at_node (some n) = elim (Bool-cases (status_is is_open s k)) [
        | inr shut ↦ rw shut (Refreshes-refl s)
        | inl o ↦ rw o (record {
          order = refl;
          run_id = refl;
          approvals = refl;
          status = refl;
          budget = refl;
          keys = keys-modify s.nodes k _;
          remaining =
              open_nodes-modify_le s.nodes k _ (λ v e. rw (open-weight s k v o e) (ground arith));
        })
      ]

  refresh_from-Refreshes :
      (order : List String) (s : RunState) → Refreshes s (refresh_from spec order s)
  unfolding refresh_from
  refresh_from-Refreshes [] s = Refreshes-refl s
  refresh_from-Refreshes (k ∷ order) s =
      let p = refresh_node-Refreshes s k in
      let q = refresh_from-Refreshes order (refresh_node spec s k) in
      record {
        order = q.order ∙ p.order;
        run_id = q.run_id ∙ p.run_id;
        approvals = q.approvals ∙ p.approvals;
        status = q.status ∙ p.status;
        budget = q.budget ∙ p.budget;
        keys = q.keys ∙ p.keys;
        remaining = omega arith;
      }

  pub refresh_readiness-Refreshes : (s : RunState) → Refreshes s (refresh_readiness spec s)
  unfolding refresh_readiness
  refresh_readiness-Refreshes s = refresh_from-Refreshes s.order s
