-- ===== src/Executors/Require.antt =====
-- What the operation `require` of ge_runtime/executors.py asks of a value.
use hermes_graph_engineering.Base.{
  ℕ, String, ◌≡◌, refl, Bool, true, false, ◌&&◌, not, Option, none, some, List, [], ◌∷◌, ◌++◌,
  lookup, leb, string_eq, Bool-cases, inl, inr, arith,
}
use Prim.Native.String.{count}
use hermes_graph_engineering.Values.{Value, sized}
use hermes_graph_engineering.Contracts.{
  Outputs, Regex, compile_pattern, is_named_type, at_least, at_most, Verdict,
}
use hermes_graph_engineering.Executors.{
  is_null, Problem, wrong_type, is_empty, too_short, too_long, no_match, ok, Args, is_empty_value,
  truthy, problem_if, unless, join, type_problem, empty_problem, length_problem, is_text,
  pattern_problem, require_problems, require_result, op_require, max_text_chars,
}

-- The value meets each argument that is there.
pub record Meets (re : Regex) (v : Value) (args : Args) : Type 0 where
  pub type :
      (t : Value) → lookup args "type" ≡ some t → is_null t ≡ false → is_named_type v t ≡ true
  pub non_empty :
      (flag : Value)
      → lookup args "non_empty" ≡ some flag
      → truthy flag ≡ true
      → is_empty_value v ≡ false
  pub min_length :
      (bound : Value)
      → lookup args "min_length" ≡ some bound
      → (n : ℕ) × (sized v ≡ some n) × (at_least n bound ≡ some true)
  pub max_length :
      (bound : Value)
      → lookup args "max_length" ≡ some bound
      → (n : ℕ) × (sized v ≡ some n) × (at_most n bound ≡ some true)
  pub pattern :
      (p : Value)
      → lookup args "pattern" ≡ some p
      → (s : String) × (full : String → Bool) × (is_text v ≡ some s)
        × (compile_pattern re p ≡ some full)
        × (full s ≡ true)

append-nil-both : (xs ys : List Problem) → xs ++ ys ≡ [] → (xs ≡ []) × (ys ≡ [])
append-nil-both [] ys e = (refl, e)
append-nil-both (x ∷ xs) ys e = cc

join-nil : (p q : Option (List Problem)) → join p q ≡ some [] → (p ≡ some []) × (q ≡ some [])
join-nil none q e = cc
join-nil (some ps) none e = cc
join-nil (some ps) (some qs) e =
    let e' : ps ++ qs ≡ [] = cc (e) in let (a, b) = append-nil-both ps qs e' in (cc (a), cc (b))

problem_if-nil : (b : Bool) (p : Problem) → problem_if b p ≡ [] → b ≡ false
problem_if-nil true p e = cc
problem_if-nil false p e = refl

unless-nil : (r : Verdict) (p : Problem) → unless r p ≡ some [] → r ≡ some true
unless-nil none p e = cc
unless-nil (some true) p e = refl
unless-nil (some false) p e = cc

type_problem-nil :
    (v t : Value) (o : Option Value)
    → o ≡ some t
    → is_null t ≡ false
    → type_problem v o ≡ []
    → is_named_type v t ≡ true
unfolding type_problem
type_problem-nil v t none e n h = cc
type_problem-nil v t (some u) e n h =
    let same : u ≡ t = cc (e) in
    let passed = problem_if-nil (not (is_null u) && not (is_named_type v u)) wrong_type h in
    let n' : is_null u ≡ false = rw same n in rw (← same) (ground (arith, passed, n'))

length_problem-nil :
    (test : ℕ → Value → Verdict) (p : Problem) (bound : Value) (size : Option ℕ) (o : Option Value)
    → o ≡ some bound
    → length_problem test p size o ≡ some []
    → (n : ℕ) × (size ≡ some n) × (test n bound ≡ some true)
unfolding length_problem
length_problem-nil test p bound size none e h = cc
length_problem-nil test p bound none (some b) e h = cc
length_problem-nil test p bound (some n) (some b) e h =
    let same : b ≡ bound = cc (e) in (n, refl, rw (← same) (unless-nil (test n b) p h))

empty_problem-nil :
    (v flag : Value) (o : Option Value)
    → o ≡ some flag
    → truthy flag ≡ true
    → empty_problem v o ≡ []
    → is_empty_value v ≡ false
unfolding empty_problem
empty_problem-nil v flag none e t h = cc
empty_problem-nil v flag (some u) e t h =
    let same : u ≡ flag = cc (e) in
    let passed = problem_if-nil (truthy u && is_empty_value v) is_empty h in
    let t' : truthy u ≡ true = rw same t in ground (arith, passed, t')

pattern_problem-nil :
    (re : Regex) (p : Value) (text : Option String) (o : Option Value)
    → o ≡ some p
    → pattern_problem re text o ≡ some []
    → (s : String) × (full : String → Bool) × (text ≡ some s)
      × (compile_pattern re p ≡ some full)
      × (full s ≡ true)
unfolding pattern_problem
pattern_problem-nil re p text none e h = cc
pattern_problem-nil re p none (some q) e h = cc
pattern_problem-nil re p (some s) (some q) e h = elim (Bool-cases (leb (count s) max_text_chars)) [
  | inr long ↦ let h' : some (no_match ∷ []) ≡ some [] = rw long at h in cc
  | inl fits ↦
      let same : q ≡ p = cc (e) in
      let (full, c, m) = compiled (compile_pattern re q) (rw fits at h) in
      (s, full, refl, rw (← same) c, m)
]
  where
    compiled :
        (c : Option (String → Bool))
        → (elim c as (λ x. Option (List Problem)) [
          | none ↦ none
          | some f ↦ unless (some (f s)) no_match
        ])
          ≡ some []
        → (full : String → Bool) × (c ≡ some full) × (full s ≡ true)
    compiled none k = cc
    compiled (some f) k = let ok_it = unless-nil (some (f s)) no_match k in (f, refl, cc (ok_it))

-- The operation `require` accepts a value only if it is of the named type, not empty if that is
-- asked for, no shorter and no longer than the bounds, and a full match of the pattern; for each
-- argument that is there.
pub op_require-Meets :
    (re : Regex) (v : Value) (args : Args) (outputs : Outputs)
    → op_require re v args ≡ some (ok outputs)
    → Meets re v args
unfolding op_require require_problems
op_require-Meets re v args outputs e =
    let none_left = accepted (require_problems re v args) e in
    let (first, rest) =
      join-nil
        (some (type_problem v (lookup args "type") ++ empty_problem v (lookup args "non_empty"))) _
        none_left in
    let (low, rest') =
      join-nil (length_problem at_least too_short (sized v) (lookup args "min_length")) _ rest in
    let (high, match) =
      join-nil (length_problem at_most too_long (sized v) (lookup args "max_length")) _ rest' in
    let (typed, filled) = append-nil-both (type_problem v (lookup args "type")) _ (cc (first)) in
    record {
      type = λ t f n. type_problem-nil v t (lookup args "type") f n typed;
      non_empty = λ flag f t. empty_problem-nil v flag (lookup args "non_empty") f t filled;
      min_length =
          λ b f. length_problem-nil at_least too_short b (sized v) (lookup args "min_length") f low;
      max_length =
          λ b f. length_problem-nil at_most too_long b (sized v) (lookup args "max_length") f high;
      pattern = λ p f. pattern_problem-nil re p (is_text v) (lookup args "pattern") f match;
    }
  where
    accepted :
        (ps : Option (List Problem)) → require_result re v ps ≡ some (ok outputs) → ps ≡ some []
    accepted none k = cc
    accepted (some (p ∷ ps)) k = cc
    accepted (some []) k = refl
