-- ===== src/Hermes/Config/Bounds.antt =====
-- What `parse_config` of ge_hermes/config.py lets pass.
use hermes_graph_engineering.Base.{
  ℕ, ◌≤◌, String, ◌≡◌, refl, Bool, true, false, ◌&&◌, not, Option, none, some, List, arith, leb,
  Bool-cases, inl, inr, if◌then◌else◌,
}
use hermes_graph_engineering.Base.Int.{pos, negsuc}
use hermes_graph_engineering.Values.{Value, null, bool, int, float, str, arr, obj, nil}
use hermes_graph_engineering.Hermes.Config.{
  PluginConfig, Parsed, config, invalid, Invalid, as_bool, as_names, as_bounded, are_known, checked,
  checked_numbers, settings, parse_config,
}

-- The bounds of a configuration, in which the disabled executors exist.
pub record Safe (c : PluginConfig) : Type 0 where
  pub steps : (1 ≤ c.max_steps) × (c.max_steps ≤ 10000)
  pub node_timeout :
      (10 ≤ c.autonomous_node_timeout_seconds) × (c.autonomous_node_timeout_seconds ≤ 86400)
  pub call_budget :
      (10 ≤ c.autonomous_call_budget_seconds) × (c.autonomous_call_budget_seconds ≤ 86400)
  pub known : are_known c.disabled_executors ≡ true

abbrev pub IsSafe : Parsed → Type 0
IsSafe (config c) = Safe c
IsSafe (invalid error) = Unit

bounded : (low high n : ℕ) (v : Value) → as_bounded low high v ≡ some n → (low ≤ n) × (n ≤ high)
bounded low high n (int (pos m)) e = elim (Bool-cases (leb low m && leb m high)) [
  | inl within ↦
      let e' : some m ≡ some n = rw within at e in
      let same : m ≡ n = cc in (ground arith, ground arith)
  | inr out ↦ let e' : none ≡ some n = rw out at e in cc
]
bounded low high n (int (negsuc m)) e = cc
bounded low high n null e = cc
bounded low high n (bool b) e = cc
bounded low high n (float f) e = cc
bounded low high n (str s) e = cc
bounded low high n (arr vs) e = cc
bounded low high n (obj fs) e = cc

unless_known :
    (b : Bool) (next : Parsed)
    → (b ≡ true → IsSafe next)
    → IsSafe (if not b then invalid Invalid.unknown_executors else next)
unless_known true next h = h refl
unless_known false next h = tt

checked_numbers-IsSafe :
    (require : Bool) (disabled : List String) (autonomous : Option Bool) (a b c : Value)
    (steps timeout budget : Option ℕ)
    → are_known disabled ≡ true
    → as_bounded 1 10000 a ≡ steps
    → as_bounded 10 86400 b ≡ timeout
    → as_bounded 10 86400 c ≡ budget
    → IsSafe (checked_numbers require disabled steps autonomous timeout budget)
unfolding checked_numbers
checked_numbers-IsSafe require disabled autonomous a b c none timeout budget known e f g = tt
checked_numbers-IsSafe require disabled none a b c (some n) timeout budget known e f g = tt
checked_numbers-IsSafe require disabled (some x) a b c (some n) none budget known e f g = tt
checked_numbers-IsSafe require disabled (some x) a b c (some n) (some m) none known e f g = tt
checked_numbers-IsSafe require disabled (some x) a b c (some n) (some m) (some k) known e f g =
    record {
      steps = bounded 1 10000 n a e;
      node_timeout = bounded 10 86400 m b f;
      call_budget = bounded 10 86400 k c g;
      known = known;
    }

checked-IsSafe :
    (require : Option Bool) (disabled : Option (List String)) (autonomous : Option Bool)
    (a b c : Value)
    → IsSafe (
        checked require disabled
          (as_bounded 1 10000 a)
          autonomous
          (as_bounded 10 86400 b)
          (as_bounded 10 86400 c))
unfolding checked
checked-IsSafe none disabled autonomous a b c = tt
checked-IsSafe (some require) none autonomous a b c = tt
checked-IsSafe (some require) (some disabled) autonomous a b c =
    unless_known (are_known disabled)
      (checked_numbers require disabled (as_bounded 1 10000 a) autonomous (as_bounded 10 86400 b)
        (as_bounded 10 86400 c))
      (λ known.
        checked_numbers-IsSafe require disabled autonomous a b c (as_bounded 1 10000 a)
          (as_bounded 10 86400 b) (as_bounded 10 86400 c) known refl refl refl)

settings-IsSafe : (a b c d e f : Option Value) → IsSafe (settings a b c d e f)
unfolding settings
settings-IsSafe (some a) (some b) (some c) (some d) (some e) (some f) =
    checked-IsSafe (as_bool a) (as_names b) (as_bool d) c e f
settings-IsSafe a b c d e f = tt

-- A configuration that `parse_config` returns has a step budget from 1 to 10000, times from 10 to
-- 86400 seconds, and disables only executors that exist, whatever the host's settings are.
pub parse_config-IsSafe : (get : String → Value → Option Value) → IsSafe (parse_config get)
unfolding parse_config
parse_config-IsSafe get =
    settings-IsSafe (get "require_plan_approval" (bool true)) (get "disabled_executors" (arr nil))
      (get "max_steps" (int (pos 500))) (get "autonomous_agent_execution" (bool false))
      (get "autonomous_node_timeout_seconds" (int (pos 3600)))
      (get "autonomous_call_budget_seconds" (int (pos 300)))
