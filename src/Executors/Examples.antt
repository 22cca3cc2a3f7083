-- ===== src/Executors/Examples.antt =====
-- Builtin operations at concrete inputs.
use hermes_graph_engineering.Base.{◌≡◌, refl, true, none, some, [], ◌∷◌, string_eq, sorted}
use hermes_graph_engineering.Base.Int.{pos}
use hermes_graph_engineering.Values.{str, int}
use hermes_graph_engineering.Contracts.{Outputs, Regex, output_contract_errors}
use hermes_graph_engineering.Executors.Strings.{CaseMapping}
use hermes_graph_engineering.Executors.Require.{Meets, op_require-Meets}
use hermes_graph_engineering.Executors.Typed.{execute_builtin-no_errors}
use hermes_graph_engineering.Executors.{bool, measure, op_outputs, ok, Args, op_require}
use hermes_graph_engineering.Executors.Admission.{operation_errors}
use hermes_graph_engineering.Executors.Run.{execute_builtin}

abbrev no_regex : Regex
no_regex p = none

abbrev no_cases : CaseMapping
no_cases = record { lower = λ s. s; upper = λ s. s; title = λ s. s }

abbrev measure_operation : Args
measure_operation = ("op", str "measure") ∷ []

abbrev two_words : Outputs
two_words = ("value", str "to be") ∷ []

abbrev measured_words : Outputs
measured_words = ("length", int (pos 5)) ∷ ("words", int (pos 2)) ∷ []

two_words_measured :
    execute_builtin no_regex no_cases (some measure_operation) two_words (op_outputs measure)
    ≡ some (ok measured_words)
unfolding execute_builtin operation_errors sorted
two_words_measured = refl

execute_builtin-no_errors_example : output_contract_errors (op_outputs measure) measured_words ≡ []
execute_builtin-no_errors_example =
    execute_builtin-no_errors no_regex no_cases measure measure_operation two_words measured_words
      refl two_words_measured

abbrev at_most_nine : Args
at_most_nine = ("max_length", int (pos 9)) ∷ ("type", str "string") ∷ []

abbrev accepted_words : Outputs
accepted_words = ("value", str "to be") ∷ ("valid", bool true) ∷ []

op_require-Meets_example : Meets no_regex (str "to be") at_most_nine
unfolding op_require
op_require-Meets_example = op_require-Meets no_regex (str "to be") at_most_nine accepted_words refl
