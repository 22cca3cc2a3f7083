-- ===== src/Contracts/Conformance.antt =====
-- What the output contract of ge_runtime/contracts.py means.
use hermes_graph_engineering.Base.{
  String, ◌≡◌, refl, ◌↔◌, Bool, true, false, not, Option, none, some, List, [], ◌∷◌, ◌++◌, map,
  arith, Table, keys, lookup, has, keep, All, string_eq, sorted, sorted-eq-nil, Bool-cases, inl,
  inr,
}
use hermes_graph_engineering.Values.{Value}
use hermes_graph_engineering.Contracts.{
  Outputs, OutputSpec, is_type, undeclared, declared_error, declared_errors, undeclared_names,
  output_contract_errors,
}

-- One declared output: if it is absent it is optional, and if it is there it has the type.
abbrev pub Fits : Outputs → String → OutputSpec → Type 0
Fits outputs name spec =
    (lookup outputs name ≡ none → spec.required ≡ false)
    × ((v : Value) → lookup outputs name ≡ some v → is_type v spec.type ≡ true)

pub record Conforms (declared : Table String OutputSpec) (outputs : Outputs) : Type 0 where
  pub only_declared : All (λ name. has declared name ≡ true) (keys outputs)
  pub fits : All (λ (entry : String × OutputSpec). Fits outputs entry.0 entry.1) declared

append-eq-nil {ℓ} : {A : Type ℓ} (xs ys : List A) → xs ++ ys ≡ [] → (xs ≡ []) × (ys ≡ [])
append-eq-nil [] ys h = (refl, h)
append-eq-nil (x ∷ xs) ys h = cc

map-eq-nil {ℓ κ} : {A : Type ℓ} {B : Type κ} (f : A → B) (xs : List A) → map f xs ≡ [] → xs ≡ []
map-eq-nil f [] h = refl
map-eq-nil f (x ∷ xs) h = cc

declared_error-nil :
    (outputs : Outputs) (name : String) (spec : OutputSpec)
    → declared_error outputs name spec ≡ []
    → Fits outputs name spec
unfolding declared_error
declared_error-nil outputs name spec h = (λ e. ground arith, λ v e. ground arith)

nil-declared_error :
    (outputs : Outputs) (name : String) (spec : OutputSpec) (found : Option Value)
    → lookup outputs name ≡ found
    → Fits outputs name spec
    → declared_error outputs name spec ≡ []
unfolding declared_error
nil-declared_error outputs name spec none e fits = ground (arith, fits.0 e)
nil-declared_error outputs name spec (some v) e fits = ground (arith, fits.1 v e)

declared_errors-nil :
    (outputs : Outputs) (declared : Table String OutputSpec)
    → declared_errors outputs declared ≡ []
    → All (λ (entry : String × OutputSpec). Fits outputs entry.0 entry.1) declared
unfolding declared_errors
declared_errors-nil outputs [] h = tt
declared_errors-nil outputs ((name, spec) ∷ declared) h =
    let (head, rest) = append-eq-nil (declared_error outputs name spec) _ h in
    (declared_error-nil outputs name spec head, declared_errors-nil outputs declared rest)

nil-declared_errors :
    (outputs : Outputs) (declared : Table String OutputSpec)
    → All (λ (entry : String × OutputSpec). Fits outputs entry.0 entry.1) declared
    → declared_errors outputs declared ≡ []
unfolding declared_errors
nil-declared_errors outputs [] h = refl
nil-declared_errors outputs ((name, spec) ∷ declared) h =
    rw (nil-declared_error outputs name spec (lookup outputs name) refl h.0)
      (nil-declared_errors outputs declared h.1)

keep-not-nil :
    (p : String → Bool) (xs : List String)
    → keep (λ x. not (p x)) xs ≡ []
    → All (λ x. p x ≡ true) xs
keep-not-nil p [] h = tt
keep-not-nil p (x ∷ xs) h = elim (Bool-cases (p x)) [
  | inl q ↦ (q, keep-not-nil p xs (rw q at h))
  | inr q ↦ absurd (ground arith)
]

nil-keep-not :
    (p : String → Bool) (xs : List String)
    → All (λ x. p x ≡ true) xs
    → keep (λ x. not (p x)) xs ≡ []
nil-keep-not p [] h = refl
nil-keep-not p (x ∷ xs) h = rw h.0 (nil-keep-not p xs h.1)

-- `output_contract_errors` reports nothing exactly when every produced output is declared, every
-- required output is there, and every declared output that is there has its declared type.
pub output_contract_errors_iff :
    (declared : Table String OutputSpec) (outputs : Outputs)
    → (output_contract_errors declared outputs ≡ []) ↔ Conforms declared outputs
unfolding output_contract_errors sorted
output_contract_errors_iff declared outputs = (
  λ h.
      let (names, rest) = append-eq-nil (map undeclared (undeclared_names declared outputs)) _ h in
      record {
        only_declared =
            keep-not-nil (has declared) (keys outputs)
              (sorted-eq-nil _ (map-eq-nil undeclared _ names));
        fits = declared_errors-nil outputs declared rest;
      },
  λ c.
      rw (nil-keep-not (has declared) (keys outputs) c.only_declared)
        (nil-declared_errors outputs declared c.fits),
)
