-- ===== src/Store/Examples.antt =====
-- Files of a run, at which the theorems on ge_runtime/store.py are applied.
use hermes_graph_engineering.Base.{
  if◌then◌else◌, ℕ, String, string_eq, ◌≡◌, refl, true, false, Option, none, some, List, [], ◌∷◌,
  lookup, length, ◌==◌,
}
use hermes_graph_engineering.Base.Int.{ℤ, pos}
use hermes_graph_engineering.Values.{
  Value, null, int, str, obj, fields_of, Fields, end, field, py_eq,
}
use hermes_graph_engineering.Admission.Json.{canonical_fields}
use hermes_graph_engineering.Store.Names.{is_run_id}
use hermes_graph_engineering.Store.Files.{File, stored, save, load}
use hermes_graph_engineering.Store.Files.RoundTrip.{load-save}
use Prim.Native.String.{◌++◌ as ◌+++◌}
use hermes_graph_engineering.Executors.Strings.{strip}
use hermes_graph_engineering.Store.Lines.{Line, read_trace, jsonl_emit}
use hermes_graph_engineering.Store.Trace.{
  Body, appended, tail_unreadable, append_trace, body_of, with_hash, verify_trace,
}
use hermes_graph_engineering.Store.Trace.Chain.{
  OneLine, line_of, last_hash, Plain, Written, empty, wrote, Written-verified,
}
use hermes_graph_engineering.Store.Trace.Evidence.{bodies, NoCollision, verify_trace_unique}

abbrev run_id : String
run_id = "demo-20240101t000000z-0000aa"

abbrev state : Fields
state = field "status" (str "DRAFT") (field "run_id" (str run_id) end)

load-save_example :
    (file : File) × (save (λ f. "d") run_id state ≡ stored file)
    × (load (λ f. "d") run_id file ≡ stored (canonical_fields state))
unfolding is_run_id py_eq
load-save_example = load-save (λ f. "d") run_id state refl refl

-- A digest that tells events of different types apart.
abbrev type_of : Option Value → String
type_of (some (str s)) = s
type_of v = ""

abbrev digest_of : Body → String
digest_of t = type_of (lookup t "type")

abbrev no_number : String → Option ℤ
no_number s = none

abbrev event_of : ℕ → Value → String → Body
event_of seq prev type =
    ("schema_version", int (pos 1))
    ∷ ("seq", int (pos seq))
    ∷ ("ts", str "now")
    ∷ ("type", str type)
    ∷ ("prev", prev)
    ∷ ("hash", str type)
    ∷ []

abbrev first_event : Body
first_event = event_of 1 null "run.created"

abbrev second_event : Body
second_event = event_of 2 (str "run.created") "run.started"

abbrev two_events : List Line
two_events = line_of first_event ∷ line_of second_event ∷ []

no_fields : Plain []
no_fields = record { no_seq = refl; no_prev = refl; no_hash = refl }

-- The texts of the events, and their reading.
abbrev dumps : Body → String
dumps t = "{" +++ (type_of (lookup t "type") +++ "}")

abbrev loads : String → Option Value
loads line =
    if line == "{run.created}"
    then some (obj (fields_of first_event))
    else if line == "{run.started}"
    then some (obj (fields_of second_event))
    else none

abbrev two_lines : String
two_lines = jsonl_emit dumps (jsonl_emit dumps "" first_event) second_event

first_event-OneLine : OneLine loads dumps first_event
unfolding strip
first_event-OneLine = record { no_break = refl; filled = refl; reads_back = refl }

second_event-OneLine : OneLine loads dumps second_event
unfolding strip
second_event-OneLine = record { no_break = refl; filled = refl; reads_back = refl }

two_lines-Written : Written digest_of no_number loads dumps two_lines
unfolding append_trace jsonl_emit strip
two_lines-Written =
    wrote (wrote empty "now" "run.created" [] first_event no_fields refl first_event-OneLine) "now"
      "run.started" [] second_event no_fields refl second_event-OneLine

Written-verified_example :
    (verify_trace digest_of (read_trace loads two_lines) ≡ true)
    × (append_trace digest_of no_number loads two_lines "now" "run.finished" []
        ≡ appended (
            with_hash digest_of (
              body_of digest_of
                (pos (length (read_trace loads two_lines)))
                (last_hash null (read_trace loads two_lines))
                "now"
                "run.finished"
                [])))
Written-verified_example =
    Written-verified digest_of no_number loads dumps two_lines "now" "run.finished" []
      two_lines-Written

two_lines-read : read_trace loads two_lines ≡ two_events
unfolding read_trace jsonl_emit strip
two_lines-read = refl

-- With U+2028 in the text of an event, the file is read as two lines, neither of them an event.
abbrev broken_dumps : Body → String
broken_dumps t = "{run.\u{2028}created}"

abbrev broken_loads : String → Option Value
broken_loads line =
    if line == "{run.\u{2028}created}" then some (obj (fields_of first_event)) else none

broken-verified :
    verify_trace digest_of (read_trace broken_loads (jsonl_emit broken_dumps "" first_event))
    ≡ false
unfolding read_trace jsonl_emit strip verify_trace
broken-verified = refl

broken-tail_unreadable :
    append_trace digest_of no_number broken_loads
      (jsonl_emit broken_dumps "" first_event)
      "now"
      "run.started"
      []
    ≡ tail_unreadable
unfolding append_trace jsonl_emit strip
broken-tail_unreadable = refl

two_events-verified : verify_trace digest_of two_events ≡ true
unfolding verify_trace py_eq
two_events-verified = refl

-- The same events, with the hash in front.
abbrev reordered : List Line
reordered =
    line_of (
      ("hash", str "run.created")
      ∷ ("schema_version", int (pos 1))
      ∷ ("seq", int (pos 1))
      ∷ ("ts", str "now")
      ∷ ("type", str "run.created")
      ∷ ("prev", null)
      ∷ [])
    ∷ line_of second_event
    ∷ []

reordered-verified : verify_trace digest_of reordered ≡ true
unfolding verify_trace py_eq
reordered-verified = refl

types_differ : {A : Type 0} (s t : String) → (s == t) ≡ false → s ≡ t → A
types_differ s t other p = let q : (s == t) ≡ true = (string_eq.equal_iff s t).1 p in cc

reordered-NoCollision : NoCollision digest_of (bodies two_events) (bodies reordered)
reordered-NoCollision = (
  (λ p. refl, (λ p. types_differ "run.created" "run.started" refl p, tt)),
  ((λ p. types_differ "run.started" "run.created" refl p, (λ p. refl, tt)), tt),
)

verify_trace_unique_example : bodies two_events ≡ bodies reordered
verify_trace_unique_example =
    verify_trace_unique digest_of two_events reordered two_events-verified reordered-verified refl
      refl reordered-NoCollision

-- A trace without its first event is not verified.
tampered : verify_trace digest_of (line_of second_event ∷ []) ≡ false
unfolding verify_trace py_eq
tampered = refl
