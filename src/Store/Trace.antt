-- ===== src/Store/Trace.antt =====
-- `append_trace` and `verify_trace` of ge_runtime/store.py: the hash-chained trace, over the lines
-- that Store/Lines.antt reads of the text of the file.
-- The keys of an event keep their order, which nothing reads: the digest is taken of sorted keys.
pub mod Chain
pub mod Evidence
use hermes_graph_engineering.Base.{
  ℕ, zero, suc, ◌+◌, ◌*◌, ◌^◌, String, Bool, true, false, ◌&&◌, not, Option, none, some, List, [],
  ◌∷◌, ◌++◌, Table, lookup, insert, length, ◌==◌, string_eq, if◌then◌else◌,
}
use Prim.Native.Nat.{◌/◌}
use hermes_graph_engineering.Base.Int.{ℤ, pos, negsuc}
use hermes_graph_engineering.Values.{
  Value, null, bool, int, float, str, obj, arr, Fields, end, field, entries, finite, infinity,
  neg_infinity, nan, py_eq,
}
use hermes_graph_engineering.Admission.Nodes.{get_or}
use hermes_graph_engineering.Store.Lines.{Line, event, garbled, read_trace}

abbrev pub Body : Type 0
Body = Table String Value

-- The sequence number and the hash at the end of the file.
pub data Tail : Type 0 where
  tail : ℤ → Value → Tail
  corrupt : Tail

abbrev pub next_int : ℤ → ℤ
next_int (pos n) = pos (suc n)
next_int (negsuc zero) = pos 0
next_int (negsuc (suc n)) = negsuc n

abbrev minus : ℕ → ℤ
minus zero = pos 0
minus (suc n) = negsuc n

-- `int(value)`: a number; or ValueError or TypeError; or OverflowError, which nothing catches.
pub data Reading : Type 0 where
  number : ℤ → Reading
  no_number overflow : Reading

abbrev or_no_number : Option ℤ → Reading
or_no_number none = no_number
or_no_number (some n) = number n

int_of : (String → Option ℤ) → Value → Reading
int_of parse (int n) = number n
int_of parse (bool true) = number (pos 1)
int_of parse (bool false) = number (pos 0)
int_of parse (float (finite (pos n) k)) = number (pos (n / 2 ^ k))
int_of parse (float (finite (negsuc n) k)) = number (minus (suc n / 2 ^ k))
int_of parse (float nan) = no_number
int_of parse (float infinity) = overflow
int_of parse (float neg_infinity) = overflow
int_of parse (str s) = or_no_number (parse s)
int_of parse null = no_number
int_of parse (obj fs) = no_number
int_of parse (arr vs) = no_number

-- The event that is written, STATE_CORRUPT, or an OverflowError.
pub data Appended : Type 0 where
  appended : Body → Appended
  tail_unreadable overflows : Appended

-- `event.update(fields)`
abbrev pub update : Body → Body → Body
update t [] = t
update t ((k, v) ∷ fields) = update (insert t k v) fields

-- `body[key] = …` without the hash: `{k: v for k, v in event.items() if k != "hash"}`
abbrev pub without_hash : Body → Body
without_hash [] = []
without_hash ((k, v) ∷ t) = let rest = without_hash t in if k == "hash" then rest else (k, v) ∷ rest

abbrev pub last_line : List Line → Option Line
last_line [] = none
last_line (l ∷ []) = some l
last_line (l ∷ m ∷ ls) = last_line (m ∷ ls)

-- `t.get(key) == value`
abbrev pub field_is : Body → String → Value → Bool
field_is t key v = py_eq (get_or null (lookup t key)) v

module _ (digest_of : Body → String) where
  -- The event, of which `seq` and `prev` are known.
  abbrev pub body_of : ℤ → Value → String → String → Body → Body
  body_of seq prev now type fields =
      update
        (("schema_version", int (pos 1))
          ∷ ("seq", int (next_int seq))
          ∷ ("ts", str now)
          ∷ ("type", str type)
          ∷ ("prev", prev)
          ∷ [])
        fields

  abbrev pub with_hash : Body → Body
  with_hash body = insert body "hash" (str (digest_of body))

  module _ (parse : String → Option ℤ) where
    after : Reading → Option Value → String → String → Body → Appended
    after (number seq) (some prev) now type fields =
        appended (with_hash (body_of seq prev now type fields))
    after (number seq) none now type fields = tail_unreadable
    after no_number prev now type fields = tail_unreadable
    after overflow prev now type fields = overflows

    after_last : Option Value → Body → String → String → Body → Appended
    unfolding after int_of
    after_last none last now type fields = tail_unreadable
    after_last (some seq) last now type fields =
        after (int_of parse seq) (lookup last "hash") now type fields

    append_after : Option Line → String → String → Body → Appended
    unfolding after_last
    append_after none now type fields = appended (with_hash (body_of (pos 0) null now type fields))
    append_after (some garbled) now type fields = tail_unreadable
    append_after (some (event (obj last))) now type fields =
        after_last (lookup (entries last) "seq") (entries last) now type fields
    append_after (some (event v)) now type fields = tail_unreadable

    -- `append_trace`, on the text of the file: the event that is written.
    unfoldable pub append_trace :
        (String → Option Value) → String → String → String → Body → Appended
    unfolding append_after read_trace
    append_trace loads text now type fields =
        append_after (last_line (read_trace loads text)) now type fields

  -- One round of the loop of `verify_trace`.
  abbrev pub event_ok : ℕ → Value → Body → Bool
  event_ok index prev e =
      field_is e "seq" (int (pos index))
      && field_is e "prev" prev
      && field_is e "hash" (str (digest_of (without_hash e)))

  pub verify_from : ℕ → Value → List Line → Bool
  verify_from index prev [] = true
  verify_from index prev (garbled ∷ ls) = false
  verify_from index prev (event (obj e) ∷ ls) =
      event_ok index prev (entries e)
      && verify_from (suc index) (get_or null (lookup (entries e) "hash")) ls
  verify_from index prev (event v ∷ ls) = false

  -- The first value of `verify_trace`, on what is read of the file; an unreadable line is false
  -- wherever it stands.
  unfoldable pub verify_trace : List Line → Bool
  unfolding verify_from
  verify_trace lines = verify_from 1 null lines
