-- ===== src/Store/Lines.antt =====
-- The text of a trace file: what `read_trace` of ge_runtime/store.py reads of it, by
-- `str.splitlines`, and what `JsonlTraceSink.emit` of ge_runtime/adapters/defaults/trace_jsonl.py
-- adds to it. `json.loads` and `json.dumps` are parameters.
use Prim.Native.Char.{code}
use Prim.Native.String.{[] as nil_str, ◌∷◌ as cons_str, ◌++◌ as ◌+++◌}
use text.Mathlib.TextLemmas.{nil-append, cons-append, append_assoc, append-nil}
use mathlib.Core.List.{append_assoc as list_assoc}
use Prim.Native.Char.{Char}
use hermes_graph_engineering.Base.{
  ℕ, String, Bool, true, false, ◌&&◌, ◌||◌, not, Option, none, some, List, [], ◌∷◌, ◌++◌, Table,
  ◌≡◌, refl, ap, sym, ◌∙◌, nat_beq, ◌==◌, string_eq, if◌then◌else◌, arith,
}
use hermes_graph_engineering.Values.{Value}
use hermes_graph_engineering.Executors.Strings.{strip}

-- A line of the file that is not blank, as `json.loads` reads it.
pub data Line : Type 0 where
  event : Value → Line
  garbled : Line

-- The ends of a line for `splitlines`: LF, VT, FF, CR, FS, GS, RS, NEL, LS and PS.
abbrev pub is_break : ℕ → Bool
is_break c =
    nat_beq c 10
    || nat_beq c 11
    || nat_beq c 12
    || nat_beq c 13
    || nat_beq c 28
    || nat_beq c 29
    || nat_beq c 30
    || nat_beq c 133
    || nat_beq c 8232
    || nat_beq c 8233

abbrev pub starts_line_feed : String → Bool
starts_line_feed nil_str = false
starts_line_feed (cons_str c s) = nat_beq (code c) 10

abbrev pub longer : Char → List String → List String
longer c [] = cons_str c "" ∷ []
longer c (l ∷ ls) = cons_str c l ∷ ls

-- `text.splitlines()`; CR LF is one end.
unfoldable pub split_lines : String → List String
split_lines nil_str = []
split_lines (cons_str c s) =
    let rest = split_lines s in
    if is_break (code c)
    then (if nat_beq (code c) 13 && starts_line_feed s then rest else "" ∷ rest)
    else longer c rest

abbrev pub read_line : Option Value → Line
read_line none = garbled
read_line (some v) = event v

abbrev pub unless_blank : Bool → Line → List Line → List Line
unless_blank true l rest = rest
unless_blank false l rest = l ∷ rest

module _ (loads : String → Option Value) where
  -- `line for line in … if line.strip()`
  unfoldable pub parse_lines : List String → List Line
  parse_lines [] = []
  parse_lines (l ∷ ls) = unless_blank (strip l == "") (read_line (loads l)) (parse_lines ls)

  -- `read_trace`, with the lines that `json.loads` refuses left in.
  unfoldable pub read_trace : String → List Line
  unfolding parse_lines split_lines
  read_trace text = parse_lines (split_lines text)

-- The file after `JsonlTraceSink.emit`, which writes other characters than ASCII as they are.
unfoldable pub jsonl_emit : (Table String Value → String) → String → Table String Value → String
jsonl_emit dumps text e = text +++ (dumps e +++ "\n")

-- No character of the text ends a line.
abbrev pub no_breaks : String → Bool
no_breaks nil_str = true
no_breaks (cons_str c s) = not (is_break (code c)) && no_breaks s

-- Every text that follows starts on a line of its own.
pub Closed : String → Type 0
Closed text = (more : String) → split_lines (text +++ more) ≡ split_lines text ++ split_lines more

split_lines-line :
    (s more : String)
    → no_breaks s ≡ true
    → split_lines (s +++ ("\n" +++ more)) ≡ s ∷ split_lines more
unfolding split_lines
split_lines-line nil_str more h = ap split_lines (
    nil-append ("\n" +++ more)
    ∙ cons-append "\n" "" more
    ∙ ap (λ (t : String). cons_str "\n" t) (nil-append more))
split_lines-line (cons_str c s) more h =
    let plain : is_break (code c) ≡ false = ground arith in
    ap split_lines (cons-append c s ("\n" +++ more))
    ∙ rw (plain, split_lines-line s more (ground arith)) refl

unless_blank-concat :
    (b : Bool) (l : Line) (ls ms : List Line)
    → unless_blank b l (ls ++ ms) ≡ unless_blank b l ls ++ ms
unless_blank-concat true l ls ms = refl
unless_blank-concat false l ls ms = refl

parse_lines-concat :
    (loads : String → Option Value) (ls ms : List String)
    → parse_lines loads (ls ++ ms) ≡ parse_lines loads ls ++ parse_lines loads ms
unfolding parse_lines
parse_lines-concat loads [] ms = refl
parse_lines-concat loads (l ∷ ls) ms =
    ap (unless_blank (strip l == "") (read_line (loads l))) (parse_lines-concat loads ls ms)
    ∙ unless_blank-concat (strip l == "") (read_line (loads l)) (parse_lines loads ls)
        (parse_lines loads ms)

pub jsonl_emit-Closed :
    (dumps : Table String Value → String) (text : String) (e : Table String Value)
    → Closed text
    → no_breaks (dumps e) ≡ true
    → Closed (jsonl_emit dumps text e)
unfolding jsonl_emit Closed split_lines
jsonl_emit-Closed dumps text e closed plain more =
    let line = dumps e +++ "\n" in
    let there : split_lines line ≡ dumps e ∷ [] =
      ap (λ (t : String). split_lines (dumps e +++ t)) (sym (append-nil "\n"))
      ∙ split_lines-line (dumps e) "" plain in
    ap split_lines (append_assoc text line more)
    ∙ closed (line +++ more)
    ∙ ap (λ (ls : List String). split_lines text ++ ls)
        (ap split_lines (append_assoc (dumps e) "\n" more) ∙ split_lines-line (dumps e) more plain)
    ∙ sym (
        ap (λ (ls : List String). ls ++ split_lines more)
          (closed line ∙ ap (λ (ls : List String). split_lines text ++ ls) there)
        ∙ list_assoc (split_lines text) (dumps e ∷ []) (split_lines more))

-- A line that is written on a file that ends with its last line is read as the next event.
pub read_trace-jsonl_emit :
    (loads : String → Option Value) (dumps : Table String Value → String) (text : String)
    (e : Table String Value) (v : Value)
    → Closed text
    → no_breaks (dumps e) ≡ true
    → (strip (dumps e) == "") ≡ false
    → loads (dumps e) ≡ some v
    → read_trace loads (jsonl_emit dumps text e) ≡ read_trace loads text ++ event v ∷ []
unfolding read_trace jsonl_emit Closed parse_lines split_lines
read_trace-jsonl_emit loads dumps text e v closed plain filled read =
    ap (parse_lines loads) (
      closed (dumps e +++ "\n")
      ∙ ap (λ (ls : List String). split_lines text ++ ls)
          (ap (λ (t : String). split_lines (dumps e +++ t)) (sym (append-nil "\n"))
            ∙ split_lines-line (dumps e) "" plain))
    ∙ parse_lines-concat loads (split_lines text) (dumps e ∷ [])
    ∙ ap (λ (ls : List Line). parse_lines loads (split_lines text) ++ ls) one
  where
    one : parse_lines loads (dumps e ∷ []) ≡ event v ∷ []
    one =
        ap (λ (b : Bool). unless_blank b (read_line (loads (dumps e))) []) filled
        ∙ ap (λ (o : Option Value). read_line o ∷ []) read

pub nil-Closed : Closed ""
unfolding Closed split_lines
nil-Closed more = ap split_lines (nil-append more)
