-- ===== src/Engine/Loading/Examples.antt =====
-- A run of the spec of Admission/Examples, loaded, planned and verified.
use hermes_graph_engineering.Admission.Json.{
  canonical, is_json_value, canonical_fields, are_json_fields,
}
use hermes_graph_engineering.Values.{has_text, py_eq}
use hermes_graph_engineering.Contracts.Criteria.{criterion_errors}
use hermes_graph_engineering.Executors.Admission.{operation_errors}
use hermes_graph_engineering.Engine.Gates.{catalog_get}
use hermes_graph_engineering.Spec.Ancestors.{ancestors}
use hermes_graph_engineering.Spec.Topology.{dependencies, topological_order}
use hermes_graph_engineering.Admission.Cycles.{find_cycle}
use hermes_graph_engineering.Admission.Patterns.{is_graph_id, is_name, is_node_id}
use hermes_graph_engineering.Admission.Fields.{normalize_gates, normalize_inputs, normalize_outputs}
use hermes_graph_engineering.Admission.Nodes.{node_errors, node_value, normalize_node}
use hermes_graph_engineering.Admission.Admit.{admit, admit_value}
use hermes_graph_engineering.Base.{
  sorted, String, string_eq, ◌≡◌, refl, ◌↔◌, true, false, none, some, [], ◌∷◌, All, contains,
}
use hermes_graph_engineering.States.{NodeStatus, RunStatus, run_terminal}
use hermes_graph_engineering.Spec.{source_of, Node, node}
use hermes_graph_engineering.Engine.State.{Wait, Env, RunState}
use hermes_graph_engineering.Engine.Operations.{create, initial_node}
use hermes_graph_engineering.Engine.Lifecycle.{loaded}
use hermes_graph_engineering.Engine.Verify.{verify}
use hermes_graph_engineering.Engine.Verify.Trust.{Trustworthy, verify-Trustworthy}
use hermes_graph_engineering.Engine.Views.{WorkOrder, pending_work}
use hermes_graph_engineering.Engine.Views.Pending.{Due, Ordered, Open, Accepted, pending_work-Open}
use hermes_graph_engineering.Engine.Plan.{PlanView, plan_view}
use hermes_graph_engineering.Engine.Plan.Layered.{Layered, Earlier, plan_view-Layered}
use hermes_graph_engineering.Engine.Loading.{opened, load_run}
use hermes_graph_engineering.Engine.Loading.Checked.{Ready, load_run-Ready}
use hermes_graph_engineering.Store.Files.{stored}
use hermes_graph_engineering.Admission.Admit.Shape.{admit-WellShaped}
use hermes_graph_engineering.Admission.Examples.{env, formats, two_nodes, spec, admit-two_nodes}

-- "write" waits for its submission.
abbrev started : RunState
started = record (create env spec "run" "me").state {
  status = RunStatus.waiting;
  nodes =
      ("check", initial_node)
      ∷ (
        "write",
        record initial_node {
          status = NodeStatus.running;
          attempts = 1;
          wait = some Wait.submission;
          inputs = some [];
        },
      )
      ∷ [];
}

loads :
    load_run env formats (λ r. none) (stored (record { spec_value = two_nodes; state = started }))
    ≡ opened started spec
unfolding load_run create admit admit_value normalize_node node_value node_errors normalize_outputs
    normalize_inputs normalize_gates is_node_id is_name is_graph_id find_cycle topological_order
    dependencies ancestors catalog_get operation_errors criterion_errors source_of py_eq sorted
    are_json_fields canonical_fields is_json_value canonical has_text
loads = refl

load_run-Ready_example : Ready env started spec
load_run-Ready_example =
    load_run-Ready env formats (λ r. none)
      (stored (record { spec_value = two_nodes; state = started })) started spec loads

verify-Trustworthy_example :
    ((verify env spec true (loaded started)).1.verified ≡ true) ↔ Trustworthy env spec started true
verify-Trustworthy_example =
    verify-Trustworthy env spec true (loaded started) load_run-Ready_example.tabled

pending_work-Open_example :
    All
      (λ (o : WorkOrder).
        (p : Open started spec o) × ((e : Env)
          → run_terminal started.status ≡ false
          → Accepted e spec started o p.state p.of))
      (pending_work started spec)
    × ((k : String) → Due started spec k → Ordered (pending_work started spec) k)
pending_work-Open_example = pending_work-Open started spec

plan_view-Layered_example :
    (view : PlanView) × (plan_view spec ≡ some view)
    × ((k : String) (n : Node)
        → node spec k ≡ some n
        → Layered view.layers k
          × ((x : String) → contains n.depends_on x ≡ true → Earlier view.layers x k))
plan_view-Layered_example =
    plan_view-Layered spec (admit-WellShaped env formats two_nodes spec admit-two_nodes)
