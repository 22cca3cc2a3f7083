-- ===== src/Executors/Typed.antt =====
-- The outputs of the builtin operations of ge_runtime/executors.py and their output contracts.
use mathlib.Core.Path.{subst}
use Prim.Native.String.{count}
use hermes_graph_engineering.Base.Int.{pos}
use hermes_graph_engineering.Base.{
  sym, leb, if_ind, ℕ, String, ◌≡◌, refl, true, ◌&&◌, not, Option, none, some, List, [], ◌∷◌, Table,
  lookup, has, keys, All, string_eq, arith,
}
use hermes_graph_engineering.Values.{Value, bool, int, str, ValueType}
use hermes_graph_engineering.Contracts.{Outputs, Regex, OutputSpec, is_type, output_contract_errors}
use hermes_graph_engineering.Contracts.Conformance.{Conforms, Fits, output_contract_errors_iff}
use hermes_graph_engineering.Executors.Strings.{CaseMapping}
use hermes_graph_engineering.Executors.{
  OperationError, max_text_chars, sized, strict_eq, steps_from, Op, identity, require,
  text_transform, compare, measure, Problem, BuiltinResult, fail, ok, Args, op_outputs,
  require_result, op_require, op_text_transform, transformed, op_compare, compared, op_measure,
  measured, handle, produced, words_in, is_text,
}
use hermes_graph_engineering.Executors.Admission.{operation_errors}
use hermes_graph_engineering.Executors.Run.{
  op_named, declared_only, leave, run_op, run_named, run_checked, execute_builtin, is_compare,
}

is_type-any : (v : Value) → is_type v ValueType.any ≡ true
unfolding is_type
is_type-any v = ground arith

-- A table of one entry and of more, read at the declared names.
Fits-at :
    (outputs : Outputs) (name : String) (spec : OutputSpec) (v : Value)
    → lookup outputs name ≡ some v
    → is_type v spec.type ≡ true
    → Fits outputs name spec
Fits-at outputs name spec v e t =
    ((λ gone. cc (e, gone)), λ w f. let same : v ≡ w = cc (e, f) in rw (← same) t)

-- What a result promises: outputs that are produced keep the contract.
abbrev Keeps : Table String OutputSpec → BuiltinResult → Type 0
Keeps declared (fail d) = Unit
Keeps declared (ok outputs) = Conforms declared outputs

abbrev KeepsAll : Table String OutputSpec → Option BuiltinResult → Type 0
KeepsAll declared none = Unit
KeepsAll declared (some r) = Keeps declared r

module _ (re : Regex) (cases : CaseMapping) where
  require_result-Keeps :
      (v : Value) (ps : Option (List Problem))
      → KeepsAll (op_outputs require) (require_result re v ps)
  unfolding is_type
  require_result-Keeps v none = tt
  require_result-Keeps v (some (p ∷ ps)) = tt
  require_result-Keeps v (some []) =
      let outs : Outputs = ("value", v) ∷ ("valid", bool true) ∷ [] in
      record {
        only_declared = (refl, (refl, tt));
        fits = (
          Fits-at outs "value" (produced ValueType.any) v refl (is_type-any v),
          (Fits-at outs "valid" (produced ValueType.boolean) (bool true) refl refl, tt),
        );
      }

  transformed-Keeps :
      (s : String) (steps : Option (List Value))
      → KeepsAll (op_outputs text_transform) (transformed cases s steps)
  unfolding is_type
  transformed-Keeps s none = tt
  transformed-Keeps s (some steps) =
      let t = steps_from cases steps s in
      let outs : Outputs = ("value", str t) ∷ [] in
      record {
        only_declared = (refl, tt);
        fits = (Fits-at outs "value" (produced ValueType.string) (str t) refl refl, tt);
      }

  op_text_transform-Keeps :
      (text : Option String) (args : Args)
      → KeepsAll (op_outputs text_transform) (op_text_transform cases text args)
  unfolding op_text_transform
  op_text_transform-Keeps none args = tt
  op_text_transform-Keeps (some s) args =
      if_ind (KeepsAll (op_outputs text_transform)) (leb (count s) max_text_chars)
        (transformed-Keeps s _) tt

compared-Keeps : (v : Value) (w : Option Value) → KeepsAll (op_outputs compare) (compared v w)
unfolding is_type
compared-Keeps v none = tt
compared-Keeps v (some w) =
    let same = bool (strict_eq v w) in
    let outs : Outputs = ("matches", same) ∷ ("value", v) ∷ ("expected", w) ∷ [] in
    record {
      only_declared = (refl, (refl, (refl, tt)));
      fits = (
        Fits-at outs "matches" (produced ValueType.boolean) same refl refl,
        (
          Fits-at outs "value" (produced ValueType.any) v refl (is_type-any v),
          (Fits-at outs "expected" (produced ValueType.any) w refl (is_type-any w), tt),
        ),
      );
    }

measured-Keeps : (v : Value) (n : Option ℕ) → Keeps (op_outputs measure) (measured v n)
unfolding is_type
measured-Keeps v none = tt
measured-Keeps v (some n) =
    let outs : Outputs = ("length", int (pos n)) ∷ ("words", int (pos (words_in v))) ∷ [] in
    record {
      only_declared = (refl, (refl, tt));
      fits = (
        Fits-at outs "length" (produced ValueType.integer) (int (pos n)) refl refl,
        (Fits-at outs "words" (produced ValueType.integer) (int (pos (words_in v))) refl refl, tt),
      );
    }

handle-Keeps :
    (re : Regex) (cases : CaseMapping) (op : Op) (v : Value) (args : Args) (inputs : Outputs)
    → KeepsAll (op_outputs op) (handle re cases op v args inputs)
unfolding handle op_require op_compare op_measure
handle-Keeps re cases identity v args inputs =
    let outs : Outputs = ("value", v) ∷ [] in
    record {
      only_declared = (refl, tt);
      fits = (Fits-at outs "value" (produced ValueType.any) v refl (is_type-any v), tt);
    }
handle-Keeps re cases require v args inputs = require_result-Keeps re cases v _
handle-Keeps re cases text_transform v args inputs =
    op_text_transform-Keeps re cases (is_text v) args
handle-Keeps re cases compare v args inputs = compared-Keeps v _
handle-Keeps re cases measure v args inputs = measured-Keeps v (sized v)

declared_only-All :
    (declared : Table String OutputSpec) (outputs : Outputs)
    → All (λ name. has declared name ≡ true) (keys outputs)
    → declared_only declared outputs ≡ outputs
declared_only-All declared [] h = refl
declared_only-All declared ((name, v) ∷ outputs) h =
    rw (h.0, declared_only-All declared outputs h.1) refl

leave-Keeps :
    (declared : Table String OutputSpec) (r : Option BuiltinResult)
    → KeepsAll declared r
    → Keeps declared (leave declared r)
unfolding leave
leave-Keeps declared none h = tt
leave-Keeps declared (some (fail d)) h = tt
leave-Keeps declared (some (ok outputs)) h =
    subst (Conforms declared) (sym (declared_only-All declared outputs h.only_declared)) h

module _ (re : Regex) (cases : CaseMapping) (op : Op) (inputs : Outputs) where
  run_op-Keeps :
      (args : Args) (v : Option Value)
      → Keeps (op_outputs op) (run_op re cases op args inputs (op_outputs op) v)
  unfolding run_op
  run_op-Keeps args none = tt
  run_op-Keeps args (some v) =
      if_ind (Keeps (op_outputs op))
        (is_compare op && (not (has inputs "expected") && not (has args "expected"))) tt
        (leave-Keeps (op_outputs op) _ (handle-Keeps re cases op v args inputs))

  run_named-Keeps :
      (named : Option Op) (args : Args)
      → named ≡ some op
      → KeepsAll (op_outputs op) (run_named re cases named args inputs (op_outputs op))
  unfolding run_named
  run_named-Keeps none args e = tt
  run_named-Keeps (some other) args e =
      let same : op ≡ other = cc (e) in
      subst
        (λ (o : Op).
          Keeps (op_outputs op)
            (run_op re cases o args inputs (op_outputs op) (lookup inputs "value")))
        same (run_op-Keeps args (lookup inputs "value"))

  run_checked-Keeps :
      (errors : Option (List OperationError)) (operation : Args)
      → op_named (lookup operation "op") ≡ some op
      → KeepsAll (op_outputs op) (run_checked re cases errors operation inputs (op_outputs op))
  unfolding run_checked
  run_checked-Keeps none operation e = tt
  run_checked-Keeps (some (x ∷ xs)) operation e = tt
  run_checked-Keeps (some []) operation e = run_named-Keeps (op_named (lookup operation "op")) _ e

-- If a node declares the outputs that BUILTIN_OPERATIONS lists for its operation, then whatever the
-- builtin executor reports as a success keeps the node's output contract: it has no contract error.
pub execute_builtin-no_errors :
    (re : Regex) (cases : CaseMapping) (op : Op) (operation : Args) (inputs outputs : Outputs)
    → op_named (lookup operation "op") ≡ some op
    → execute_builtin re cases (some operation) inputs (op_outputs op) ≡ some (ok outputs)
    → output_contract_errors (op_outputs op) outputs ≡ []
unfolding execute_builtin
execute_builtin-no_errors re cases op operation inputs outputs named e =
    (output_contract_errors_iff (op_outputs op) outputs).1 (
      subst (KeepsAll (op_outputs op)) e (
        run_checked-Keeps re cases op inputs (operation_errors re (some operation)) operation
          named))
