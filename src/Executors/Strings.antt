-- ===== src/Executors/Strings.antt =====
-- The methods of `str` that ge_runtime/executors.py calls. The case tables of Unicode are parameters.
use Prim.Native.Char.{code}
use Prim.Native.String.{[] as nil_str, ◌∷◌ as cons_str, ◌++◌}
use hermes_graph_engineering.Base.{
  String, ◌≡◌, refl, true, false, ◌&&◌, List, [], ◌∷◌, ◌==◌, string_eq, if◌then◌else◌,
}
use hermes_graph_engineering.Values.{is_space}

pub record CaseMapping : Type 0 where
  pub lower : String → String
  pub upper : String → String
  pub title : String → String

abbrev trim_start : String → String
trim_start nil_str = ""
trim_start (cons_str c s) =
    let rest = trim_start s in if is_space (code c) then rest else cons_str c s

abbrev trim_end : String → String
trim_end nil_str = ""
trim_end (cons_str c s) =
    let rest = trim_end s in if is_space (code c) && rest == "" then "" else cons_str c rest

-- `s.strip()`
unfoldable pub strip : String → String
strip s = trim_end (trim_start s)

abbrev add_word : String → List String → List String
add_word word words = if word == "" then words else word ∷ words

-- The words of what is left, after the start of a word.
words_from : String → String → List String
words_from word nil_str = add_word word []
words_from word (cons_str c s) = elim (is_space (code c)) [
  | true ↦ add_word word (words_from "" s)
  | false ↦ words_from (word ++ cons_str c nil_str) s
]

-- `s.split()`
unfoldable pub split : String → List String
unfolding words_from
split s = words_from "" s

abbrev join_words : List String → String
join_words [] = ""
join_words (w ∷ []) = w
join_words (w ∷ v ∷ words) = w ++ (" " ++ join_words (v ∷ words))

-- `" ".join(s.split())`
unfoldable pub collapse : String → String
unfolding split
collapse s = join_words (split s)

abbrev reverse_onto : String → String → String
reverse_onto nil_str done = done
reverse_onto (cons_str c s) done = reverse_onto s (cons_str c done)

-- `s[::-1]`
unfoldable pub reverse : String → String
reverse s = reverse_onto s ""

collapse_words : collapse "  a  bc " ≡ "a bc"
unfolding collapse split words_from
collapse_words = refl

strip_ends : strip "  a b " ≡ "a b"
unfolding strip
strip_ends = refl

reverse_text : reverse "abc" ≡ "cba"
unfolding reverse
reverse_text = refl
