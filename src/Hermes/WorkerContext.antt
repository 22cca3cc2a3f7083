-- ===== src/Hermes/WorkerContext.antt =====
-- WorkerContext, `_describe_outputs` and `build_worker_context` of ge_hermes/dispatch.py. The text
-- that `json.dumps` gives for the criteria and for the inputs is a parameter.
use Prim.Native.Nat.{◌/◌, ◌%◌}
use Prim.Native.String.{◌++◌, count}
use hermes_graph_engineering.Base.{
  ℕ, zero, suc, String, ◌≡◌, refl, ◌||◌, Option, none, some, List, [], ◌∷◌, Table, ltb, ◌==◌,
  string_eq, if◌then◌else◌,
}
use hermes_graph_engineering.Values.{ValueType, string, number, integer, boolean, object, array}
use hermes_graph_engineering.Contracts.{Outputs, OutputSpec, Criterion}
use hermes_graph_engineering.Engine.Views.{WorkOrder}

pub record WorkerContext : Type 0 where
  pub run_id : String
  pub graph_id : String
  pub node_id : String
  pub attempt : ℕ
  pub attempt_id : String
  pub execution_id : String
  pub correlation_id : String
  pub goal : String
  pub context : String
  pub timeout_seconds : ℕ

abbrev max_goal_chars : ℕ
max_goal_chars = 15000

abbrev max_context_chars : ℕ
max_context_chars = 30000

-- `json.dumps(…, sort_keys=True)`
pub record Dumps : Type 0 where
  pub criteria : List Criterion → String
  pub inputs : Outputs → String

abbrev nth : ℕ → List String → String
nth n [] = ""
nth zero (s ∷ ss) = s
nth (suc n) (s ∷ ss) = nth n ss

abbrev digit : ℕ → String
digit n = nth n ("0" ∷ "1" ∷ "2" ∷ "3" ∷ "4" ∷ "5" ∷ "6" ∷ "7" ∷ "8" ∷ "9" ∷ [])

-- `"%d" % n`; a number has at most as many digits as its value, or one.
digits : ℕ → ℕ → String
digits zero n = digit (n % 10)
digits (suc fuel) n =
    let rest = digits fuel (n / 10) in if ltb n 10 then digit n else rest ++ digit (n % 10)

unfoldable pub decimal : ℕ → String
unfolding digits
decimal n = digits n n

-- `separator.join(texts)`
abbrev join : String → List String → String
join separator [] = ""
join separator (s ∷ []) = s
join separator (s ∷ t ∷ ss) = s ++ (separator ++ join separator (t ∷ ss))

abbrev type_name : ValueType → String
type_name string = "string"
type_name number = "number"
type_name integer = "integer"
type_name boolean = "boolean"
type_name object = "object"
type_name array = "array"
type_name ValueType.any = "any"

abbrev output_lines : Table String OutputSpec → List String
output_lines [] = []
output_lines ((name, spec) ∷ t) =
    ("- "
      ++ (name ++ (": " ++ (type_name spec.type ++ (if spec.required then "" else " (optional)")))))
    ∷ output_lines t

-- `_describe_outputs`
abbrev describe_outputs : Table String OutputSpec → String
describe_outputs [] = "- (no outputs declared; return an empty JSON object {})"
describe_outputs (o ∷ t) = join "\n" (output_lines (o ∷ t))

abbrev or_text : String → String → String
or_text s default = if s == "" then default else s

abbrev criteria_text : Dumps → List Criterion → String
criteria_text dumps [] = "(none declared)"
criteria_text dumps (c ∷ cs) = dumps.criteria (c ∷ cs)

abbrev goal_text : Dumps → WorkOrder → String
goal_text dumps order = join "\n" (
    "You are executing one node from an approved Graph Engineering run."
    ∷ "Execute only this node. Do not modify the graph, approve gates, or start, run, resume or submit any graph (do not call the ge_graph tool to change anything), and do not perform unrelated work."
    ∷ ""
    ∷ ("Node: "
        ++ (order.node
            ++ (" ("
                ++ (order.name
                    ++ (") - attempt "
                        ++ (decimal order.attempt
                            ++ (" of at most " ++ decimal order.max_attempts)))))))
    ∷ ""
    ∷ "Purpose:"
    ∷ order.purpose
    ∷ ""
    ∷ "Instructions:"
    ∷ or_text order.instructions "(none beyond the purpose)"
    ∷ ""
    ∷ ("Required capabilities: " ++ or_text (join ", " order.requires) "(none declared)")
    ∷ ""
    ∷ "Required output contract - a JSON object with exactly these keys:"
    ∷ describe_outputs order.outputs
    ∷ ""
    ∷ "Success criteria (checked automatically after you answer; a failed check fails the attempt):"
    ∷ criteria_text dumps order.success_criteria
    ∷ ""
    ∷ "Reply format: end your final message with ONE JSON object holding only the declared outputs, in a ```json fenced block. If you cannot complete the node, say so plainly instead of inventing outputs."
    ∷ [])

-- `order["inputs"] or {}`
abbrev inputs_text : Dumps → Option Outputs → String
inputs_text dumps none = "This node has no inputs."
inputs_text dumps (some []) = "This node has no inputs."
inputs_text dumps (some (i ∷ t)) = "Inputs for this node (JSON):\n" ++ dumps.inputs (i ∷ t)

abbrev execution_id_of : WorkOrder → String
execution_id_of order = order.run_id ++ (":" ++ (order.node ++ (":" ++ decimal order.attempt)))

-- `none` where HOST_EXECUTION_FAILED is raised, since a text is too long.
unfoldable pub build_worker_context : Dumps → String → WorkOrder → ℕ → ℕ → Option WorkerContext
unfolding decimal
build_worker_context dumps graph_id order dispatch timeout_seconds =
    let goal = goal_text dumps order in
    let context = inputs_text dumps order.inputs in
    if ltb max_goal_chars (count goal) || ltb max_context_chars (count context)
    then none
    else some (record {
      run_id = order.run_id;
      graph_id = graph_id;
      node_id = order.node;
      attempt = order.attempt;
      attempt_id = order.node ++ (":" ++ decimal order.attempt);
      execution_id = execution_id_of order;
      correlation_id = "ge:" ++ (execution_id_of order ++ (":" ++ decimal dispatch));
      goal = goal;
      context = context;
      timeout_seconds = timeout_seconds;
    })

decimal_203 : decimal 203 ≡ "203"
unfolding decimal digits
decimal_203 = refl
