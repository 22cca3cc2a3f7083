-- ===== src/Admission/Nodes/Governance.antt =====
-- The governance invariants of `_normalize_node` of ge_runtime/spec.py.
use mathlib.Core.Path.{subst}
use hermes_graph_engineering.Base.{
  ℕ, ◌≤◌, ◌<◌, String, ◌≡◌, refl, sym, ap, ◌∙◌, Bool, true, false, ◌&&◌, ◌||◌, not, Option, none,
  some, List, [], ◌∷◌, ◌++◌, keys, lookup, has, map, All, leb, ltb, ◌==◌, string_eq, Bool-cases,
  inl, inr, arith, leb→le,
}
use hermes_graph_engineering.Base.Int.{pos, negsuc}
use hermes_graph_engineering.Values.{Value, null, bool, int, float, str, obj, arr, entries}
use hermes_graph_engineering.Contracts.{Regex}
use hermes_graph_engineering.Executors.{OperationError}
use hermes_graph_engineering.Executors.Admission.{operation_errors}
use hermes_graph_engineering.Spec.{Node}
use hermes_graph_engineering.Admission.Errors.{
  NodeError, bad_operation, Checked, error_unless, concat, no_value_input, builtin_side_effects,
  unsafe_retries, no_approval_gate, no_rollback_boundary,
}
use hermes_graph_engineering.Admission.Fields.{Raw, or_else, is_some, has_only, id_text}
use hermes_graph_engineering.Admission.Nodes.{
  criteria_list, criteria_errors, execution_errors, retry_errors, side_effect_errors, node_value,
  node_errors, with_errors, normalize_fields, normalize_node, retry_of, attempts_of,
  max_attempts_limit, has_approval_gate, op_in, not_produced_errors, first_errors, later_errors,
}

pub append_nil {ℓ} : {A : Type ℓ} (xs ys : List A) → xs ++ ys ≡ [] → (xs ≡ []) × (ys ≡ [])
append_nil [] ys h = (refl, h)
append_nil (x ∷ xs) ys h = cc

-- No error at all is no error in any part.
pub concat_nil {ℓ} : {E : Type ℓ} (ess : List (List E)) → concat ess ≡ [] → All (λ es. es ≡ []) ess
concat_nil [] h = tt
concat_nil (es ∷ ess) h =
    let (first, rest) = append_nil es (concat ess) h in (first, concat_nil ess rest)

pub error_unless_nil {ℓ} : {E : Type ℓ} (b : Bool) (e : E) → error_unless b e ≡ [] → b ≡ true
error_unless_nil true e h = refl
error_unless_nil false e h = cc

-- What is promised of a node.
pub record Governed (n : Node) : Type 0 where
  pub at_least_once : 1 ≤ n.max_attempts
  pub at_most_five : n.max_attempts ≤ 5
  pub retries_safe : 1 < n.max_attempts → (n.idempotent ≡ true) × (n.side_effects ≡ false)
  pub gated : n.side_effects ≡ true → has_approval_gate n.gates ≡ true
  pub bounded : n.side_effects ≡ true → (b : String) × (n.rollback_boundary ≡ some b)
  pub pure : (n.executor == "builtin") ≡ true → n.side_effects ≡ false
  pub fed : (n.executor == "builtin") ≡ true → has n.inputs "value" ≡ true

InRange : ℕ → Type 0
InRange n = (1 ≤ n) × (n ≤ 5)

attempts-InRange : (v : Option Value) → InRange (attempts_of v).value
unfolding InRange
attempts-InRange none = (omega arith, omega arith)
attempts-InRange (some (int (pos n))) = elim (Bool-cases (leb 1 n && leb n max_attempts_limit)) [
  | inl ok ↦ rw ok (leb→le 1 n (ground arith), leb→le n 5 (ground arith))
  | inr bad ↦ rw bad (omega arith, omega arith)
]
attempts-InRange (some (int (negsuc n))) = (omega arith, omega arith)
attempts-InRange (some null) = (omega arith, omega arith)
attempts-InRange (some (bool b)) = (omega arith, omega arith)
attempts-InRange (some (float f)) = (omega arith, omega arith)
attempts-InRange (some (str s)) = (omega arith, omega arith)
attempts-InRange (some (obj fs)) = (omega arith, omega arith)
attempts-InRange (some (arr vs)) = (omega arith, omega arith)

retry-InRange : (v : Option Value) → InRange (retry_of v).value
unfolding retry_of InRange
retry-InRange none = (omega arith, omega arith)
retry-InRange (some (obj fs)) = elim (Bool-cases (has_only ("max_attempts" ∷ []) (entries fs))) [
  | inl ok ↦ rw ok (attempts-InRange (lookup (entries fs) "max_attempts"))
  | inr bad ↦ rw bad (omega arith, omega arith)
]
retry-InRange (some null) = (omega arith, omega arith)
retry-InRange (some (bool b)) = (omega arith, omega arith)
retry-InRange (some (int n)) = (omega arith, omega arith)
retry-InRange (some (float f)) = (omega arith, omega arith)
retry-InRange (some (str s)) = (omega arith, omega arith)
retry-InRange (some (arr vs)) = (omega arith, omega arith)

-- A node with the errors that were reported for it.
pub record Built (re : Regex) (n : Node) (errors : List NodeError) : Type 0 where
  pub id : String
  pub raw : Raw
  pub is_value : n ≡ node_value id raw
  pub are_errors : node_errors re n raw ≡ some errors

ap_value : (a b : Checked (Option Node)) → some a ≡ some b → a.value ≡ b.value
ap_value a b p = let q : a ≡ b = cc in ap (λ (c : Checked (Option Node)). c.value) q

ap_errors : (a b : Checked (Option Node)) → some a ≡ some b → a.errors ≡ b.errors
ap_errors a b p = let q : a ≡ b = cc in ap (λ (c : Checked (Option Node)). c.errors) q

none-some : (n : Node) → none ≡ some n → ⊥
none-some n p = cc

with_errors-inv :
    (re : Regex) (id : String) (raw : Raw) (o : Option (List NodeError)) (n : Node)
    (es : List NodeError)
    → node_errors re (node_value id raw) raw ≡ o
    → with_errors re (node_value id raw) o ≡ some (record { errors = es; value = some n })
    → Built re n es
with_errors-inv re id raw none n es e h = cc
with_errors-inv re id raw (some fs) n es e h =
    let same : some (node_value id raw) ≡ some n = ap_value _ _ h in
    let is : node_value id raw ≡ n = cc in
    let errors : fs ≡ es = ap_errors _ _ h in
    record {
      id = id;
      raw = raw;
      is_value = sym is;
      are_errors = subst (λ (m : Node). node_errors re m raw ≡ some es) is (e ∙ rw errors refl);
    }

pub normalize_node-Built :
    (re : Regex) (v : Value) (n : Node) (es : List NodeError)
    → normalize_node re v ≡ some (record { errors = es; value = some n })
    → Built re n es
unfolding normalize_node normalize_fields
normalize_node-Built re (obj fs) n es h = at_id (id_text (lookup (entries fs) "id")) h
  where
    at_id :
        (o : Option String)
        → normalize_fields re (entries fs) o ≡ some (record { errors = es; value = some n })
        → Built re n es
    at_id none h = absurd (none-some n (ap_value _ _ h))
    at_id (some id) h = with_errors-inv re id (entries fs) _ n es refl h
normalize_node-Built re null n es h = cc
normalize_node-Built re (bool b) n es h = cc
normalize_node-Built re (int k) n es h = cc
normalize_node-Built re (float f) n es h = cc
normalize_node-Built re (str s) n es h = cc
normalize_node-Built re (arr vs) n es h = cc

execution-nil :
    (re : Regex) (n : Node) (v : Option Value)
    → execution_errors re n v ≡ some []
    → (n.executor == "builtin") ≡ true
    → (n.side_effects ≡ false) × (has n.inputs "value" ≡ true)
unfolding execution_errors
execution-nil re n v h builtin = at_errors (operation_errors re n.operation) (rw builtin at h)
  where
    at_errors :
        (o : Option (List OperationError))
        → (elim o as (λ x. Option (List NodeError)) [
          | none ↦ none
          | some errors ↦ some (
              concat (
                map bad_operation errors
                ∷ not_produced_errors (op_in n.operation) n.outputs
                ∷ error_unless (has n.inputs "value") no_value_input
                ∷ error_unless (not n.side_effects) builtin_side_effects
                ∷ []))
        ])
          ≡ some []
        → (n.side_effects ≡ false) × (has n.inputs "value" ≡ true)
    at_errors none e = cc
    at_errors (some errors) e =
        let parts =
          concat_nil
            (map bad_operation errors
              ∷ not_produced_errors (op_in n.operation) n.outputs
              ∷ error_unless (has n.inputs "value") no_value_input
              ∷ error_unless (not n.side_effects) builtin_side_effects
              ∷ [])
            (cc) in
        let pure = error_unless_nil (not n.side_effects) builtin_side_effects parts.1.1.1.0 in
        let fed = error_unless_nil (has n.inputs "value") no_value_input parts.1.1.0 in
        (ground arith, fed)

-- The parts of the errors of a node without errors.
record Clean (re : Regex) (n : Node) (raw : Raw) : Type 0 where
  pub retries : retry_errors n ≡ []
  pub effects : side_effect_errors n ≡ []
  pub execution : execution_errors re n (lookup raw "operation") ≡ some []

abbrev all_errors : Regex → Node → Raw → List NodeError → List NodeError → List NodeError
all_errors re n raw criteria execution = concat (
    first_errors re n raw
    ∷ criteria
    ∷ later_errors re n raw
    ∷ execution
    ∷ retry_errors n
    ∷ side_effect_errors n
    ∷ [])

node_errors-Clean :
    (re : Regex) (n : Node) (raw : Raw) → node_errors re n raw ≡ some [] → Clean re n raw
unfolding node_errors
node_errors-Clean re n raw h =
    at_criteria
      (criteria_errors re 0 (keys n.outputs)
        (or_else [] (criteria_list (lookup raw "success_criteria"))))
      h
  where
    at_execution :
        (criteria : List NodeError) (o : Option (List NodeError))
        → execution_errors re n (lookup raw "operation") ≡ o
        → (elim o as (λ x. Option (List NodeError)) [
          | none ↦ none
          | some execution ↦ some (all_errors re n raw criteria execution)
        ])
          ≡ some []
        → Clean re n raw
    at_execution criteria none is e = cc
    at_execution criteria (some execution) is e =
        let parts =
          concat_nil
            (first_errors re n raw
              ∷ criteria
              ∷ later_errors re n raw
              ∷ execution
              ∷ retry_errors n
              ∷ side_effect_errors n
              ∷ [])
            (cc) in
        record {
          retries = parts.1.1.1.1.0;
          effects = parts.1.1.1.1.1.0;
          execution = is ∙ ap some parts.1.1.1.0;
        }

    at_criteria :
        (o : Option (List NodeError))
        → (elim o as (λ x. Option (List NodeError)) [
          | none ↦ none
          | some criteria ↦ elim (execution_errors re n (lookup raw "operation")) [
            | none ↦ none
            | some execution ↦ some (all_errors re n raw criteria execution)
          ]
        ])
          ≡ some []
        → Clean re n raw
    at_criteria none e = cc
    at_criteria (some criteria) e =
        at_execution criteria (execution_errors re n (lookup raw "operation")) refl e

retry_errors-nil :
    (n : Node)
    → retry_errors n ≡ []
    → 1 < n.max_attempts
    → (n.idempotent ≡ true) × (n.side_effects ≡ false)
retry_errors-nil n h more =
    let e =
      error_unless_nil (not (ltb 1 n.max_attempts && (not n.idempotent || n.side_effects)))
        unsafe_retries h in
    (ground arith, ground arith)

side_effect_errors-nil :
    (n : Node)
    → side_effect_errors n ≡ []
    → n.side_effects ≡ true
    → (has_approval_gate n.gates ≡ true) × ((b : String) × (n.rollback_boundary ≡ some b))
side_effect_errors-nil n h effects =
    let (gate, boundary) =
      append_nil (error_unless (not n.side_effects || has_approval_gate n.gates) no_approval_gate)
        (error_unless (not n.side_effects || is_some n.rollback_boundary) no_rollback_boundary) h in
    let gated =
      error_unless_nil (not n.side_effects || has_approval_gate n.gates) no_approval_gate gate in
    let bounded =
      error_unless_nil (not n.side_effects || is_some n.rollback_boundary) no_rollback_boundary
        boundary in
    (ground arith, there n.rollback_boundary (ground arith))
  where
    there : (o : Option String) → is_some o ≡ true → (b : String) × (o ≡ some b)
    there none e = cc
    there (some b) e = (b, refl)

-- A node that is normalized without an error has between one and five attempts; more than one only
-- if it is idempotent and has no side effects; with side effects it has an approval gate and a
-- rollback boundary; and a builtin node has no side effects and an input "value".
pub normalize_node-Governed :
    (re : Regex) (v : Value) (n : Node)
    → normalize_node re v ≡ some (record { errors = []; value = some n })
    → Governed n
unfolding node_value InRange
normalize_node-Governed re v n h =
    let built = normalize_node-Built re v n [] h in
    let clean = node_errors-Clean re n built.raw built.are_errors in
    let range = retry-InRange (lookup built.raw "retry") in
    let attempts : n.max_attempts ≡ (retry_of (lookup built.raw "retry")).value =
      ap (λ (m : Node). m.max_attempts) built.is_value in
    record {
      at_least_once = rw attempts range.0;
      at_most_five = rw attempts range.1;
      retries_safe = retry_errors-nil n clean.retries;
      gated = λ e. (side_effect_errors-nil n clean.effects e).0;
      bounded = λ e. (side_effect_errors-nil n clean.effects e).1;
      pure = λ e. (execution-nil re n (lookup built.raw "operation") clean.execution e).0;
      fed = λ e. (execution-nil re n (lookup built.raw "operation") clean.execution e).1;
    }
