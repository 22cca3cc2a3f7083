-- ===== src/Store/Names.antt =====
-- RUN_ID_RE, `new_run_id`, `run_dir` and `list_runs` of ge_runtime/store.py.
use Prim.Native.Char.{code}
use Prim.Native.String.{[] as nil_str, ◌∷◌ as cons_str, ◌++◌}
use hermes_graph_engineering.Base.{
  ℕ, zero, suc, String, Bool, true, false, ◌&&◌, ◌||◌, Option, none, some, List, [], ◌∷◌, ◌≡◌, refl,
  nat_beq, ◌==◌, string_eq, if◌then◌else◌,
}
use hermes_graph_engineering.Admission.Patterns.{
  between, is_digit, graph_id_start, graph_id_rest, ends_line,
}

-- `[0-9a-f]`
abbrev is_hex : ℕ → Bool
is_hex c = is_digit c || between b'a' b'f' c

-- `p{n}` and then the rest
abbrev repeat : ℕ → (ℕ → Bool) → List (ℕ → Bool) → List (ℕ → Bool)
repeat zero p ps = ps
repeat (suc n) p ps = p ∷ repeat n p ps

-- `-[0-9]{8}t[0-9]{6}z-[0-9a-f]{6}`
abbrev stamp_pattern : List (ℕ → Bool)
stamp_pattern =
    (λ c. nat_beq c b'-')
    ∷ repeat 8 is_digit (
        (λ c. nat_beq c b't')
        ∷ repeat 6 is_digit ((λ c. nat_beq c b'z') ∷ (λ c. nat_beq c b'-') ∷ repeat 6 is_hex []))

-- The classes one after the other, and `$`.
follows : List (ℕ → Bool) → String → Bool
follows [] nil_str = true
follows [] (cons_str c s) = ends_line (code c) s
follows (p ∷ ps) nil_str = false
follows (p ∷ ps) (cons_str c s) = p (code c) && follows ps s

-- `[a-z0-9_-]{0,n}` and then the stamp, at any place where it fits.
stamped : ℕ → String → Bool
unfolding follows
stamped n nil_str = false
stamped zero s = follows stamp_pattern s
stamped (suc n) (cons_str c s) =
    (graph_id_rest (code c) && stamped n s) || follows stamp_pattern (cons_str c s)

-- RUN_ID_RE
unfoldable pub is_run_id : String → Bool
unfolding stamped follows
is_run_id nil_str = false
is_run_id (cons_str c s) = graph_id_start (code c) && stamped 63 s

-- `text[:n]`
abbrev take : ℕ → String → String
take zero s = ""
take (suc n) nil_str = ""
take (suc n) (cons_str c s) = cons_str c (take n s)

abbrev run_id_of : String → String → String → String
run_id_of graph_id stamp token = take 64 graph_id ++ ("-" ++ (stamp ++ ("-" ++ token)))

-- `new_run_id`, at the time stamp and the 16 tokens that may be drawn; `none` where
-- INVALID_ARGUMENT is raised, here or in `run_dir`.
unfoldable pub new_run_id : (String → Bool) → String → String → List String → Option String
new_run_id taken graph_id stamp [] = none
new_run_id taken graph_id stamp (token ∷ tokens) =
    let rest = new_run_id taken graph_id stamp tokens in
    let run_id = run_id_of graph_id stamp token in
    if is_run_id run_id then (if taken run_id then rest else some run_id) else none

new_run_id-free :
    new_run_id
      (λ s. s == "demo-20240101t000000z-0000aa")
      "demo"
      "20240101t000000z"
      ("0000aa" ∷ "0000ab" ∷ [])
    ≡ some "demo-20240101t000000z-0000ab"
unfolding new_run_id is_run_id
new_run_id-free = refl

-- A graph id that ends with a newline, which GRAPH_ID_RE accepts, gives no run id.
new_run_id-newline : new_run_id (λ s. false) "demo\n" "20240101t000000z" ("0000aa" ∷ []) ≡ none
unfolding new_run_id is_run_id
new_run_id-newline = refl
