-- ===== src/Hermes/Config/Examples.antt =====
-- `parse_config` of ge_hermes/config.py at some settings.
use hermes_graph_engineering.Base.{◌≡◌, refl, true, false, some, [], ◌==◌, string_eq, if◌then◌else◌}
use hermes_graph_engineering.Values.{bool}
use hermes_graph_engineering.Hermes.Config.{
  config, invalid, Invalid, settings, checked, checked_numbers, parse_config,
}
use hermes_graph_engineering.Hermes.Config.Bounds.{IsSafe, parse_config-IsSafe}

-- With no settings at all, the defaults pass.
defaults_pass :
    parse_config (λ key default. some default)
    ≡ config (record {
      require_plan_approval = true;
      disabled_executors = [];
      max_steps = 500;
      autonomous_agent_execution = false;
      autonomous_node_timeout_seconds = 3600;
      autonomous_call_budget_seconds = 300;
    })
unfolding parse_config settings checked checked_numbers
defaults_pass = refl

-- A Boolean is no number of steps.
boolean_steps :
    parse_config (λ key default. some (if key == "max_steps" then bool true else default))
    ≡ invalid Invalid.bad_max_steps
unfolding parse_config settings checked checked_numbers
boolean_steps = refl

parse_config-IsSafe_example : IsSafe (parse_config (λ key default. some default))
parse_config-IsSafe_example = parse_config-IsSafe (λ key default. some default)
