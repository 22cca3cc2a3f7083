-- ===== src/Hermes/Reply.antt =====
-- `clip`, `_json_candidates` and `extract_outputs` of ge_hermes/dispatch.py. What `json` and `re`
-- find in a text are parameters.
use Prim.Native.String.{[] as nil_str, ◌∷◌ as cons_str, ◌++◌ as append_str, count}
use hermes_graph_engineering.Base.{
  ℕ, zero, suc, ◌-◌, String, ◌≡◌, refl, Bool, true, false, ◌||◌, Option, none, some, List, [], ◌∷◌,
  ◌++◌, Table, lookup, has, any, keys, leb, ◌==◌, string_eq, if◌then◌else◌,
}
use hermes_graph_engineering.Values.{Value, str, obj, entries, has_text}
use hermes_graph_engineering.Contracts.{Outputs, OutputSpec}
use hermes_graph_engineering.Executors.Strings.{strip, collapse}

-- `text[:n]`
pub first_chars : ℕ → String → String
first_chars zero s = ""
first_chars (suc n) nil_str = ""
first_chars (suc n) (cons_str c s) = cons_str c (first_chars n s)

abbrev pub max_detail_chars : ℕ
max_detail_chars = 500

-- `clip` of a text; the limits are above 3.
unfoldable pub clip : ℕ → String → String
unfolding first_chars
clip limit text =
    let words = collapse text in
    if leb (count words) limit then words else append_str (first_chars (limit - 3) words) "..."

-- `json.loads` and `JSONDecoder.raw_decode` (`none` where they raise ValueError), and `_FENCE.findall`.
pub record Parsing : Type 0 where
  pub loads : String → Option Value
  pub raw_decode : String → Option Value
  pub fenced : String → List String

-- `text[start:]` at each `{`, the last one first.
abbrev braces_onto : String → List String → List String
braces_onto nil_str found = found
braces_onto (cons_str c s) found =
    braces_onto s (if cons_str c "" == "{" then cons_str c s ∷ found else found)

abbrev first_of {ℓ} : {A : Type ℓ} → ℕ → List A → List A
first_of zero xs = []
first_of (suc n) [] = []
first_of (suc n) (x ∷ xs) = x ∷ first_of n xs

-- The values of the texts that can be read.
abbrev pub readable : (String → Option Value) → List String → List Value
readable read [] = []
readable read (s ∷ ss) =
    let rest = readable read ss in elim (read s) [ none ↦ rest | some v ↦ v ∷ rest ]

abbrev reverse_list {ℓ} : {A : Type ℓ} → List A → List A → List A
reverse_list [] done = done
reverse_list (x ∷ xs) done = reverse_list xs (x ∷ done)

abbrev stripped : List String → List String
stripped [] = []
stripped (s ∷ ss) = strip s ∷ stripped ss

unfoldable pub json_candidates : Parsing → String → List Value
json_candidates parsing text =
    readable parsing.loads (strip text ∷ stripped (reverse_list (parsing.fenced text) []))
    ++ readable parsing.raw_decode (first_of 40 (braces_onto text []))

-- The outputs that are found, or the reason why none are.
pub data Extracted : Type 0 where
  extracted : Outputs → Extracted
  not_found : String → Extracted

-- `value["outputs"]` in place of a value that wraps the outputs.
abbrev pub unwrapped : Bool → Outputs → Option Value → Outputs
unwrapped true fs v = fs
unwrapped false fs (some (obj gs)) = entries gs
unwrapped false fs v = fs

abbrev pub inner : Table String OutputSpec → Outputs → Outputs
inner declared fs = unwrapped (has declared "outputs") fs (lookup fs "outputs")

-- `structured or not declared or set(value) & set(declared)`
abbrev pub accepted : Bool → Table String OutputSpec → Outputs → Bool
accepted structured [] value = true
accepted structured (d ∷ ds) value = structured || any (λ k. has (d ∷ ds) k) (keys value)

extract_from : Bool → Table String OutputSpec → List Value → Extracted
extract_from structured declared [] =
    not_found "no JSON object with the declared outputs found in the reply"
extract_from structured declared (obj fs ∷ vs) =
    let rest = extract_from structured declared vs in
    let value = inner declared (entries fs) in
    if accepted structured declared value then extracted value else rest
extract_from structured declared (v ∷ vs) = extract_from structured declared vs

unfoldable pub extract_outputs : Parsing → Value → Table String OutputSpec → Extracted
unfolding extract_from json_candidates
extract_outputs parsing (obj fs) declared = extract_from true declared (obj fs ∷ [])
extract_outputs parsing (str s) declared =
    if has_text s
    then extract_from false declared (json_candidates parsing s)
    else not_found "empty reply"
extract_outputs parsing v declared = not_found "empty reply"

clip_long : clip 8 "one  two three" ≡ "one t..."
unfolding clip first_chars collapse
clip_long = refl
