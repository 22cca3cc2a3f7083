-- ===== src/Contracts/Examples.antt =====
-- Criteria at concrete outputs.
use hermes_graph_engineering.Base.{◌≡◌, ◌≢◌, refl, none, some, [], ◌∷◌, sorted}
use hermes_graph_engineering.Base.Int.{pos}
use hermes_graph_engineering.Values.{int, arr, obj, Items, end, field}
use hermes_graph_engineering.Contracts.{
  Outputs, Regex, min_length, Criterion, raised, evaluate_criterion,
}
use hermes_graph_engineering.Contracts.Criteria.{
  value_errors, criterion_errors, evaluate_criterion-not_raised,
}

abbrev no_regex : Regex
no_regex p = none

abbrev two_long : Criterion
two_long = record {
  output = "text";
  check = min_length;
  value = some (int (pos 2));
  description = none;
}

abbrev number_output : Outputs
number_output = ("text", int (pos 7)) ∷ []

evaluate_criterion-not_raised_example :
    (evaluate_criterion no_regex two_long number_output).1 ≢ raised
unfolding value_errors
evaluate_criterion-not_raised_example =
    evaluate_criterion-not_raised no_regex two_long number_output refl

-- A list as the name of an output is no definition error: the exception leaves the function.
listed_output :
    criterion_errors no_regex (obj (field "output" (arr Items.nil) end)) ("text" ∷ []) ≡ none
unfolding criterion_errors sorted
listed_output = refl
