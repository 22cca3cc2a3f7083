-- ===== src/Engine/State.antt =====
-- The state of a run as ge_runtime/engine.py keeps it (`create` lists the fields), the events of
-- its trace, and what an operation does to the disk.
use hermes_graph_engineering.Base.{
  ℕ, String, ◌≡◌, ◌↔◌, Bool, true, false, ◌&&◌, Option, some, List, ◌∷◌, arith, Table, modify, Eq,
  ◌==◌, string_eq,
}
use hermes_graph_engineering.Values.{Value, ValueType}
use hermes_graph_engineering.Contracts.{Outputs, OutputSpec, ContractError, CriterionResult, Regex}
use hermes_graph_engineering.States.{
  TerminalOutcome, HoldState, NodeStatus, RunStatus, ExecutorOutcome, ErrorCode,
}
use hermes_graph_engineering.Spec.{Gate, Node}

pub data Wait : Type 0 where
  approval submission review attention : Wait

abbrev pub wait_is_attention : Option Wait → Bool
wait_is_attention (some Wait.attention) = true
wait_is_attention w = false

pub data InputError : Type 0 where
  missing_input : String → String → InputError
  wrong_input_type : String → String → ValueType → InputError

-- One constructor for each format of a message, with the values that are put in.
pub data Message : Type 0 where
  text : String → Message
  contract_violated : List ContractError → Message
  criteria_failed : List CriterionResult → Message
  inputs_violated : List InputError → Message
  gate_denied : String → Message
  gate_denied_by : String → String → Message
  blocked_by : List String → Message
  stopped_after : String → Message
  outcome_name : ExecutorOutcome → Message
  run_stopped plan_denied run_cancelled executor_raised requeued not_replayed : Message
  reported_failed outputs_not_object empty_text : Message

pub record ErrorRecord : Type 0 where
  pub code : Option ErrorCode
  pub message : Message

pub record Failure : Type 0 where
  pub code : ErrorCode
  pub node : Option String
  pub message : Message

-- `none` as the outcome is "INTERRUPTED".
pub record HistoryEntry : Type 0 where
  pub attempt : ℕ
  pub outcome : Option ExecutorOutcome
  pub detail : Message
  pub at : String

pub record NodeState : Type 0 where
  pub status : NodeStatus
  pub attempts : ℕ
  pub wait : Option Wait
  pub inputs : Option Outputs
  pub outputs : Option Outputs
  pub criteria : List CriterionResult
  pub last_error : Option ErrorRecord
  pub started_at : Option String
  pub finished_at : Option String
  pub history : List HistoryEntry

-- What a decision is about: "plan", "<node>:<gate>", or a text with no colon.
pub data Target : Type 0 where
  plan : Target
  gate : String → String → Target
  no_gate : String → Target

abbrev pub target_beq : Target → Target → Bool
target_beq plan plan = true
target_beq (gate n g) (gate m h) = n == m && g == h
target_beq (no_gate s) (no_gate t) = s == t
target_beq a b = false

pub target_beq_iff : (a b : Target) → (target_beq a b ≡ true) ↔ (a ≡ b)
target_beq_iff plan plan = (λ h. cc, λ h. cc)
target_beq_iff (gate n g) (gate m h) = (
  λ p. ground (arith, string_eq.equal_iff n m, string_eq.equal_iff g h),
  λ p. ground (arith, string_eq.equal_iff n m, string_eq.equal_iff g h),
)
target_beq_iff (no_gate s) (no_gate t) =
    (λ p. ground (arith, string_eq.equal_iff s t), λ p. ground (arith, string_eq.equal_iff s t))
target_beq_iff a b = (λ h. cc, λ h. cc)

instance abbrev pub target_eq : Eq Target
target_eq = record { equal = target_beq; equal_iff = target_beq_iff }

-- The `action` dictionary whose digest an approval is bound to.
pub data Action : Type 0 where
  plan_action : List String → String → Action
  gate_action : Node → Gate → Action
  review_action : Node → Gate → Option Outputs → Action

-- ApprovalBinding of ge_runtime/adapters/types.py.
pub record ApprovalBinding : Type 0 where
  pub graph_id : String
  pub spec_version : String
  pub run_id : String
  pub node_or_transition : Target
  pub action_digest : String

pub data Decision : Type 0 where
  approved denied not_required : Decision

pub record ApprovalRecord : Type 0 where
  pub status : Decision
  pub binding : Option ApprovalBinding
  pub binding_digest : Option String
  pub decided_by : String
  pub decided_at : String

pub data HoldDetail : Type 0 where
  step_budget deadlocked : HoldDetail

pub record Hold : Type 0 where
  pub kind : HoldState
  pub node : Option String
  pub gate : Option String
  pub detail : Option HoldDetail

-- The checks of `verify`, by name.
pub data CheckName : Type 0 where
  state_integrity spec_digest trace_chain run_succeeded plan_approval : CheckName
  node_status output_contract success_criteria : String → CheckName
  gate_approval : String → String → CheckName

-- The value that `verify` leaves in the state.
pub record Verification : Type 0 where
  pub verified : Bool
  pub verified_at : String
  pub failed_checks : List CheckName

pub record RunState : Type 0 where
  pub run_id : String
  pub graph_id : String
  pub title : String
  pub spec_digest : String
  pub order : List String
  pub status : RunStatus
  pub holds : List Hold
  pub stopped : Bool
  pub failure : Option Failure
  pub approvals : Table Target ApprovalRecord
  pub nodes : Table String NodeState
  pub created_by : String
  pub created_at : String
  pub updated_at : String
  pub finished_at : Option String
  pub budget_exhausted : Bool
  pub verification : Option Verification

-- ExecutionRequest of ge_runtime/adapters/types.py; its three ids are formats of these.
pub record ExecutionRequest : Type 0 where
  pub run_id : String
  pub node_id : String
  pub attempt : ℕ
  pub node_type : String
  pub identity : String
  pub operation : Option (Table String Value)
  pub outputs : Table String OutputSpec
  pub inputs : Outputs

pub record ExecutorResult : Type 0 where
  pub outcome : ExecutorOutcome
  pub outputs : Outputs
  pub detail : Message

-- `execute` is `none` where the executor raises.
pub record Executor : Type 0 where
  pub name : String
  pub deferred : Bool
  pub capabilities : List String
  pub execute : ExecutionRequest → Option ExecutorResult

pub data Event : Type 0 where
  run_created : String → String → Event
  approval_decided : Target → Bool → String → String → Event
  run_started : Event
  node_submitted : String → ℕ → Bool → String → Event
  run_resumed : List (String × Bool) → Event
  retry_authorized : String → String → Event
  run_cancelled : String → Event
  gate_requested : String → String → Event
  node_started : String → ℕ → String → Event
  awaiting_submission : String → ℕ → Event
  node_succeeded : String → ℕ → Option String → Event
  attempt_failed : String → ℕ → ExecutorOutcome → Message → Bool → Event
  node_failed : String → ErrorCode → Message → Event
  run_finished : RunStatus → Event
  run_verified : Bool → List CheckName → Event

-- A check, of which the text beside it is left out.
pub record CheckResult : Type 0 where
  pub name : CheckName
  pub passed : Bool

pub record Receipt : Type 0 where
  pub run_id : String
  pub graph_id : String
  pub spec_version : String
  pub run_status : RunStatus
  pub terminal_outcome : Option TerminalOutcome
  pub verified : Bool
  pub checks : List CheckResult
  pub verified_at : String

-- What reaches the outside, in the order in which it does.
pub data Effect : Type 0 where
  receipt_written : Receipt → Effect
  traced : Event → Effect
  saved : RunState → Effect
  executed : ExecutionRequest → Effect

-- The state in memory, and the effects so far, the newest first. A crash leaves the effects of
-- some moment on disk, which is a tail of this list.
pub record World : Type 0 where
  pub state : RunState
  pub effects : List Effect

-- What the engine is given: the clock (all readings of one call are one), the `re` module, the
-- digests (SHA-256 of the canonical JSON), the bytes of a value's JSON text (`none` where
-- `json.dumps` raises), the executors and the host's settings.
pub record Env : Type 0 where
  pub now : String
  pub re : Regex
  pub action_digest : Action → String
  pub binding_digest : ApprovalBinding → String
  pub outputs_digest : Outputs → String
  pub encoded_size : Value → Option ℕ
  pub executors : List Executor
  pub disabled : List String
  pub require_plan_approval : Bool
  pub max_steps : ℕ

abbrev pub emit : Effect → World → World
emit e w = record w { effects = e ∷ w.effects }

-- `self.store.append_trace(run_id, …)`
abbrev pub append_trace : Event → World → World
append_trace e w = emit (traced e) w

-- `_save`
abbrev pub save : Env → World → World
save env w =
    let state = record w.state { updated_at = env.now } in
    record { state = state; effects = saved state ∷ w.effects }

-- A change of one node's state through the reference `state["nodes"][node_id]`.
abbrev pub update_node : String → (NodeState → NodeState) → RunState → RunState
update_node node_id f s = record s { nodes = modify node_id f s.nodes }

abbrev pub on_state : (RunState → RunState) → World → World
on_state f w = record w { state = f w.state }
