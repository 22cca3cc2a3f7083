-- ===== src/Admission/Admit/Facts.antt =====
-- The tests that a spec has passed when `admit` of ge_runtime/spec.py returns it.
use hermes_graph_engineering.Base.{
  String, string_eq, ◌≡◌, refl, Option, none, some, List, [], ◌∷◌, lookup,
}
use hermes_graph_engineering.Values.{Value, null, bool, int, float, str, obj, arr, entries}
use hermes_graph_engineering.Engine.State.{Env}
use hermes_graph_engineering.Spec.{Node, GraphSpec}
use hermes_graph_engineering.Spec.Topology.{Sorting, ordered, cycle, out_of_fuel, topological_order}
use hermes_graph_engineering.Admission.Errors.{SpecError}
use hermes_graph_engineering.Admission.Fields.{Raw, or_else}
use hermes_graph_engineering.Admission.Cycles.{Search, found, searched, exhausted, find_cycle}
use hermes_graph_engineering.Admission.Admit.{
  Formats, Admission, admitted, Reading, read, unread, load_spec_text, admit_reading, Nodes,
  normalized, raised, normalize_nodes, node_list, structural_errors, wiring_errors,
  executor_problems, data_of, spec_of, with_order, available, wired, graph_inputs, acyclic,
  well_formed, admit_nodes, admit_value, admit,
}

-- The tests, one by one.
pub record Passed (env : Env) (formats : Formats) (spec : GraphSpec) : Type 0 where
  pub raw : Raw
  pub ns : List Node
  pub in_nodes : List SpecError
  pub normal :
      normalize_nodes env.re 0 (or_else [] (node_list (lookup raw "nodes")))
      ≡ normalized in_nodes ns
  pub structural : structural_errors raw in_nodes ns ≡ []
  pub wiring : wiring_errors (graph_inputs env formats raw) ns ns ≡ some []
  pub executors : executor_problems env ns ≡ []
  pub order : List String
  pub sorted : topological_order ns ≡ ordered order
  pub is_spec : spec ≡ spec_of env formats (data_of raw ns) order

module _ (env : Env) (formats : Formats) (spec : GraphSpec) (raw : Raw) (ns : List Node)
    (in_nodes : List SpecError) where
  -- The result is the spec, and what holds on the way to it.
  abbrev Gives : Admission → Type 0
  Gives r = r ≡ admitted spec

  module _
      (normal : normalize_nodes env.re 0 (or_else [] (node_list (lookup raw "nodes")))
        ≡ normalized in_nodes ns)
      (structural : structural_errors raw in_nodes ns ≡ []) where
    with_order-Passed :
        wiring_errors (graph_inputs env formats raw) ns ns ≡ some []
        → executor_problems env ns ≡ []
        → (r : Sorting) → topological_order ns ≡ r
        → Gives (with_order env formats (data_of raw ns) r)
        → Passed env formats spec
    unfolding with_order
    with_order-Passed w u (ordered ks) e h = record {
      raw = raw;
      ns = ns;
      in_nodes = in_nodes;
      normal = normal;
      structural = structural;
      wiring = w;
      executors = u;
      order = ks;
      sorted = e;
      is_spec = admitted_inj _ _ h;
    }
      where
        admitted_inj : (a b : GraphSpec) → admitted a ≡ admitted b → b ≡ a
        admitted_inj a b p = cc
    with_order-Passed w u cycle e h = cc
    with_order-Passed w u out_of_fuel e h = cc

    available-Passed :
        wiring_errors (graph_inputs env formats raw) ns ns ≡ some []
        → (es : List SpecError) → executor_problems env ns ≡ es
        → Gives (available env formats raw ns es)
        → Passed env formats spec
    unfolding available
    available-Passed w (e ∷ es) u h = cc
    available-Passed w [] u h = with_order-Passed w u (topological_order ns) refl h

    wired-Passed :
        (o : Option (List SpecError))
        → wiring_errors (graph_inputs env formats raw) ns ns ≡ o
        → Gives (wired env formats raw ns o)
        → Passed env formats spec
    unfolding wired
    wired-Passed none w h = cc
    wired-Passed (some (e ∷ es)) w h = cc
    wired-Passed (some []) w h = available-Passed w (executor_problems env ns) refl h

    acyclic-Passed : (r : Search) → Gives (acyclic env formats raw ns r) → Passed env formats spec
    unfolding acyclic
    acyclic-Passed (found ks) h = cc
    acyclic-Passed exhausted h = cc
    acyclic-Passed (searched c) h =
        wired-Passed (wiring_errors (graph_inputs env formats raw) ns ns) refl h

  well_formed-Passed :
      normalize_nodes env.re 0 (or_else [] (node_list (lookup raw "nodes")))
        ≡ normalized in_nodes ns
      → (es : List SpecError) → structural_errors raw in_nodes ns ≡ es
      → Gives (well_formed env formats raw ns es)
      → Passed env formats spec
  unfolding well_formed
  well_formed-Passed normal (e ∷ es) s h = cc
  well_formed-Passed normal [] s h = acyclic-Passed normal s (find_cycle ns) h

module _ (env : Env) (formats : Formats) (spec : GraphSpec) where
  admit_nodes-Passed :
      (raw : Raw) (r : Nodes)
      → normalize_nodes env.re 0 (or_else [] (node_list (lookup raw "nodes"))) ≡ r
      → admit_nodes env formats raw r ≡ admitted spec
      → Passed env formats spec
  unfolding admit_nodes
  admit_nodes-Passed raw raised normal h = cc
  admit_nodes-Passed raw (normalized in_nodes ns) normal h =
      well_formed-Passed env formats spec raw ns in_nodes normal (structural_errors raw in_nodes ns)
        refl h

  admit_value-Passed :
      (v : Value) → admit_value env formats v ≡ admitted spec → Passed env formats spec
  unfolding admit_value
  admit_value-Passed (obj fs) h = admit_nodes-Passed (entries fs) _ refl h
  admit_value-Passed null h = cc
  admit_value-Passed (bool b) h = cc
  admit_value-Passed (int n) h = cc
  admit_value-Passed (float f) h = cc
  admit_value-Passed (str s) h = cc
  admit_value-Passed (arr vs) h = cc

  admit_reading-Passed :
      (r : Reading) → admit_reading env formats r ≡ admitted spec → Passed env formats spec
  admit_reading-Passed (read v) h = admit_value-Passed v h
  admit_reading-Passed (unread e) h = cc

  pub admit-Passed : (v : Value) → admit env formats v ≡ admitted spec → Passed env formats spec
  unfolding admit
  admit-Passed (str text) h = admit_reading-Passed (load_spec_text formats text) h
  admit-Passed (obj fs) h = admit_value-Passed (obj fs) h
  admit-Passed null h = admit_value-Passed null h
  admit-Passed (bool b) h = admit_value-Passed (bool b) h
  admit-Passed (int n) h = admit_value-Passed (int n) h
  admit-Passed (float f) h = admit_value-Passed (float f) h
  admit-Passed (arr vs) h = admit_value-Passed (arr vs) h
