-- ===== src/Hermes/Config.antt =====
-- PluginConfig, DEFAULTS and `parse_config` of ge_hermes/config.py. A number of a setting is an
-- integer; `get` is `none` where it raises.
pub mod Bounds
pub mod Examples
use hermes_graph_engineering.Base.{
  ℕ, String, Bool, true, false, ◌&&◌, not, Option, none, some, List, [], ◌∷◌, all, contains, leb,
  ◌==◌, string_eq, if◌then◌else◌,
}
use hermes_graph_engineering.Base.Int.{pos}
use hermes_graph_engineering.Values.{Value, null, bool, int, str, arr, items, nil}

pub record PluginConfig : Type 0 where
  pub require_plan_approval : Bool
  pub disabled_executors : List String
  pub max_steps : ℕ
  pub autonomous_agent_execution : Bool
  pub autonomous_node_timeout_seconds : ℕ
  pub autonomous_call_budget_seconds : ℕ

-- What PLUGIN_CONFIGURATION_INVALID says.
pub data Invalid : Type 0 where
  unreadable bad_require bad_disabled unknown_executors bad_max_steps bad_autonomous : Invalid
  bad_node_timeout bad_call_budget : Invalid

pub data Parsed : Type 0 where
  config : PluginConfig → Parsed
  invalid : Invalid → Parsed

abbrev pub as_bool : Value → Option Bool
as_bool (bool b) = some b
as_bool v = none

abbrev pub names_of : List Value → Option (List String)
names_of [] = some []
names_of (str s ∷ vs) = elim (names_of vs) [ none ↦ none | some ss ↦ some (s ∷ ss) ]
names_of (v ∷ vs) = none

abbrev pub as_names : Value → Option (List String)
as_names null = some []
as_names (arr vs) = names_of (items vs)
as_names v = none

-- `isinstance(v, int) and not isinstance(v, bool) and low <= v <= high`, for a positive `low`
abbrev pub as_bounded : ℕ → ℕ → Value → Option ℕ
as_bounded low high (int (pos n)) = if leb low n && leb n high then some n else none
as_bounded low high v = none

-- `ExecutorCatalog().names()`
abbrev pub known_executors : List String
known_executors = "agent" ∷ "builtin" ∷ []

abbrev pub are_known : List String → Bool
are_known names = all (λ name. contains known_executors name) names

-- The checks from `max_steps` on.
checked_numbers : Bool → List String → Option ℕ → Option Bool → Option ℕ → Option ℕ → Parsed
checked_numbers require disabled none autonomous node_timeout call_budget = invalid bad_max_steps
checked_numbers require disabled (some steps) none node_timeout call_budget = invalid bad_autonomous
checked_numbers require disabled (some steps) (some autonomous) none call_budget =
    invalid bad_node_timeout
checked_numbers require disabled (some steps) (some autonomous) (some timeout) none =
    invalid bad_call_budget
checked_numbers require disabled (some steps) (some autonomous) (some timeout) (some budget) =
    config (record {
      require_plan_approval = require;
      disabled_executors = disabled;
      max_steps = steps;
      autonomous_agent_execution = autonomous;
      autonomous_node_timeout_seconds = timeout;
      autonomous_call_budget_seconds = budget;
    })

-- All checks, in their order, on the values that were read.
checked : Option Bool → Option (List String) → Option ℕ → Option Bool → Option ℕ → Option ℕ → Parsed
unfolding checked_numbers
checked none disabled steps autonomous timeout budget = invalid bad_require
checked (some require) none steps autonomous timeout budget = invalid bad_disabled
checked (some require) (some disabled) steps autonomous timeout budget =
    if not (are_known disabled)
    then invalid unknown_executors
    else checked_numbers require disabled steps autonomous timeout budget

-- The values that `get` gave, in the order of the calls.
settings :
    Option Value → Option Value → Option Value → Option Value → Option Value → Option Value → Parsed
unfolding checked
settings (some require) (some disabled) (some steps) (some autonomous) (some timeout)
      (some budget) =
    checked (as_bool require) (as_names disabled) (as_bounded 1 10000 steps) (as_bool autonomous)
      (as_bounded 10 86400 timeout) (as_bounded 10 86400 budget)
settings require disabled steps autonomous timeout budget = invalid unreadable

unfoldable pub parse_config : (String → Value → Option Value) → Parsed
unfolding settings
parse_config get =
    settings (get "require_plan_approval" (bool true)) (get "disabled_executors" (arr nil))
      (get "max_steps" (int (pos 500))) (get "autonomous_agent_execution" (bool false))
      (get "autonomous_node_timeout_seconds" (int (pos 3600)))
      (get "autonomous_call_budget_seconds" (int (pos 300)))
