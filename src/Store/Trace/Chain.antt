-- ===== src/Store/Trace/Chain.antt =====
-- Traces that are only appended to, by `append_trace` of ge_runtime/store.py.
use mathlib.Core.Path.{subst}
use hermes_graph_engineering.Base.{
  ℕ, suc, ◌+◌, String, string_eq, ◌≡◌, refl, sym, ap, ◌∙◌, true, false, ◌&&◌, ◌||◌, Option, some,
  List, [], ◌∷◌, ◌++◌, lookup, has, insert, length, length-append, lookup-insert,
  lookup-insert_self, ◌==◌, Bool-cases, inl, inr, ◌⊎◌, arith,
}
use hermes_graph_engineering.Base.Int.{ℤ, pos}
use hermes_graph_engineering.Values.{
  Value, null, bool, int, float, str, obj, arr, Fields, fields_of, entries, py_eq,
}
use hermes_graph_engineering.Admission.Nodes.{get_or}
use hermes_graph_engineering.Executors.Strings.{strip}
use hermes_graph_engineering.Store.Lines.{
  parse_lines, split_lines, Line, event, garbled, read_trace, jsonl_emit, no_breaks, Closed,
  nil-Closed, jsonl_emit-Closed, read_trace-jsonl_emit,
}
use hermes_graph_engineering.Store.Trace.{
  Body, appended, number, update, without_hash, last_line, body_of, with_hash, after, after_last,
  int_of, append_after, append_trace, event_ok, verify_from, verify_trace,
}

-- The line of an event.
abbrev pub line_of : Body → Line
line_of t = event (obj (fields_of t))

pub entries-fields_of : (t : Body) → entries (fields_of t) ≡ t
entries-fields_of [] = refl
entries-fields_of ((k, v) ∷ t) = ap (λ (l : Body). (k, v) ∷ l) (entries-fields_of t)

-- The fields that the engine adds have other names than the chain's own.
pub record Plain (fields : Body) : Type 0 where
  pub no_seq : has fields "seq" ≡ false
  pub no_prev : has fields "prev" ≡ false
  pub no_hash : has fields "hash" ≡ false

-- A text that `json.dumps` gives for an event and `json.loads` reads back, on one line: no string in
-- it has one of the characters that end a line for `splitlines` and that `json.dumps` leaves as they
-- are.
pub record OneLine (loads : String → Option Value) (dumps : Body → String) (e : Body) : Type 0 where
  pub no_break : no_breaks (dumps e) ≡ true
  pub filled : (strip (dumps e) == "") ≡ false
  pub reads_back : loads (dumps e) ≡ some (obj (fields_of e))

-- The texts that `append_trace` and the sink make from an empty file.
pub data Written (digest_of : Body → String) (parse : String → Option ℤ)
    (loads : String → Option Value) (dumps : Body → String) : String → Type 0 where
  empty : Written digest_of parse loads dumps ""
  wrote :
      {text : String}
      → Written digest_of parse loads dumps text
      → (now type : String) (fields e : Body) → Plain fields
      → append_trace digest_of parse loads text now type fields ≡ appended e
      → OneLine loads dumps e
      → Written digest_of parse loads dumps (jsonl_emit dumps text e)

lookup-update :
    (fields t : Body) (k : String) → has fields k ≡ false → lookup (update t fields) k ≡ lookup t k
lookup-update [] t k h = refl
lookup-update ((j, v) ∷ fields) t k h =
    let other : (j == k) ≡ false = ground arith in
    lookup-update fields (insert t j v) k (ground arith) ∙ lookup-insert t j k v ∙ rw other refl

has-insert : (t : Body) (j k : String) (v : Value) → has (insert t j v) k ≡ (j == k || has t k)
has-insert [] j k v = refl
has-insert ((i, w) ∷ t) j k v = elim (Bool-cases (i == j)) [
  | inl here ↦ let e : i ≡ j = (string_eq.equal_iff i j).0 here in rw here (rw e (ground arith))
  | inr later ↦ rw (later, has-insert t j k v) (ground arith)
]

has-update :
    (fields t : Body) (k : String)
    → has fields k ≡ false
    → has t k ≡ false
    → has (update t fields) k ≡ false
has-update [] t k h g = g
has-update ((j, v) ∷ fields) t k h g =
    has-update fields (insert t j v) k (ground arith) (has-insert t j k v ∙ ground arith)

without_hash-insert :
    (t : Body) (v : Value) → has t "hash" ≡ false → without_hash (insert t "hash" v) ≡ t
without_hash-insert [] v h = refl
without_hash-insert ((k, w) ∷ t) v h =
    let other : (k == "hash") ≡ false = ground arith in
    rw (other, other) (ap (λ (l : Body). (k, w) ∷ l) (without_hash-insert t v (ground arith)))

abbrev pub line_hash : Line → Value
line_hash (event (obj e)) = get_or null (lookup (entries e) "hash")
line_hash (event v) = null
line_hash garbled = null

-- The hash that the next event has to point to.
abbrev pub last_hash : Value → List Line → Value
last_hash prev [] = prev
last_hash prev (l ∷ ls) = last_hash (line_hash l) ls

py_eq-int : (n : ℕ) → py_eq (int (pos n)) (int (pos n)) ≡ true
unfolding py_eq
py_eq-int n = ground arith

py_eq-str : (s : String) → py_eq (str s) (str s) ≡ true
unfolding py_eq
py_eq-str s = (string_eq.equal_iff s s).1 refl

-- What is true of the end of a written file.
pub record Chained (digest_of : Body → String) (lines : List Line) : Type 0 where
  pub verified : verify_trace digest_of lines ≡ true
  pub ends :
      (lines ≡ [])
      ⊎ ((e : Fields) × (hash : String) × (last_line lines ≡ some (event (obj e)))
          × (lookup (entries e) "seq" ≡ some (int (pos (length lines))))
          × (lookup (entries e) "hash" ≡ some (str hash))
          × (last_hash null lines ≡ str hash))

module _ (digest_of : Body → String) where
  verify_from-concat :
      (index : ℕ) (prev : Value) (ls : List Line) (e : Body)
      → verify_from digest_of index prev (ls ++ line_of e ∷ []) ≡ (
          verify_from digest_of index prev ls
          && event_ok digest_of (length ls + index) (last_hash prev ls) e)
  unfolding verify_from
  verify_from-concat index prev [] e = rw (entries-fields_of e) (ground arith)
  verify_from-concat index prev (garbled ∷ ls) e = refl
  verify_from-concat index prev (event (obj f) ∷ ls) e =
      rw (verify_from-concat (suc index) (get_or null (lookup (entries f) "hash")) ls e)
        (ground arith)
  verify_from-concat index prev (event null ∷ ls) e = refl
  verify_from-concat index prev (event (bool b) ∷ ls) e = refl
  verify_from-concat index prev (event (int n) ∷ ls) e = refl
  verify_from-concat index prev (event (float f) ∷ ls) e = refl
  verify_from-concat index prev (event (str s) ∷ ls) e = refl
  verify_from-concat index prev (event (arr vs) ∷ ls) e = refl

last_line-concat : (ls : List Line) (l : Line) → last_line (ls ++ l ∷ []) ≡ some l
last_line-concat [] l = refl
last_line-concat (k ∷ []) l = refl
last_line-concat (k ∷ j ∷ ls) l = last_line-concat (j ∷ ls) l

last_hash-concat :
    (prev : Value) (ls : List Line) (l : Line) → last_hash prev (ls ++ l ∷ []) ≡ line_hash l
last_hash-concat prev [] l = refl
last_hash-concat prev (k ∷ ls) l = last_hash-concat (line_hash k) ls l

module _ (digest_of : Body → String) (parse : String → Option ℤ) (lines : List Line)
    (now type : String) (fields : Body) where
  -- The event that follows on the lines.
  abbrev pub following : Body
  following =
      with_hash digest_of
        (body_of digest_of (pos (length lines)) (last_hash null lines) now type fields)

  append_after-Chained :
      Chained digest_of lines
      → append_after digest_of parse (last_line lines) now type fields ≡ appended following
  unfolding append_after after_last after int_of
  append_after-Chained chained = elim chained.ends [
    | inl is_empty ↦
        subst
          (λ (ls : List Line).
            append_after digest_of parse (last_line ls) now type fields
            ≡ appended (
                with_hash digest_of
                  (body_of digest_of (pos (length ls)) (last_hash null ls) now type fields)))
          (sym is_empty) refl
    | inr (e, hash, at_end, seq, at_hash, last) ↦
        ap (λ (o : Option Line). append_after digest_of parse o now type fields) at_end
        ∙ ap (λ (o : Option Value). after_last digest_of parse o (entries e) now type fields) seq
        ∙ ap
            (λ (o : Option Value).
              after digest_of parse (number (pos (length lines))) o now type fields)
            at_hash
        ∙ ap
            (λ (v : Value).
              appended
                (with_hash digest_of (body_of digest_of (pos (length lines)) v now type fields)))
            (sym last)
  ]

  module _ (plain : Plain fields)
      (link : (last_hash null lines ≡ null)
        ⊎ ((hash : String) × (last_hash null lines ≡ str hash))) where
    abbrev base : Body
    base = body_of digest_of (pos (length lines)) (last_hash null lines) now type fields

    at_hash : lookup following "hash" ≡ some (str (digest_of base))
    at_hash = lookup-insert_self base "hash" (str (digest_of base))

    at_seq : lookup following "seq" ≡ some (int (pos (suc (length lines))))
    at_seq =
        lookup-insert base "hash" "seq" (str (digest_of base))
        ∙ lookup-update fields _ "seq" plain.no_seq

    at_prev : lookup following "prev" ≡ some (last_hash null lines)
    at_prev =
        lookup-insert base "hash" "prev" (str (digest_of base))
        ∙ lookup-update fields _ "prev" plain.no_prev

    body : without_hash following ≡ base
    body =
        without_hash-insert base (str (digest_of base))
          (has-update fields _ "hash" plain.no_hash refl)

    prev_ok : py_eq (last_hash null lines) (last_hash null lines) ≡ true
    unfolding py_eq
    prev_ok = elim link [ inl e ↦ rw e refl | inr (hash, e) ↦ rw e (py_eq-str hash) ]

    following-ok : event_ok digest_of (length lines + 1) (last_hash null lines) following ≡ true
    following-ok =
        rw (at_seq, at_prev, at_hash, body, prev_ok, py_eq-str (digest_of base))
          (let same : length lines + 1 ≡ suc (length lines) = omega arith in
            rw (same, py_eq-int (suc (length lines))) refl)

    verified_more :
        verify_trace digest_of lines ≡ true
        → verify_trace digest_of (lines ++ line_of following ∷ []) ≡ true
    unfolding verify_trace
    verified_more v =
        verify_from-concat digest_of 1 null lines following ∙ rw (v, following-ok) refl

  following-Chained :
      Plain fields → Chained digest_of lines → Chained digest_of (lines ++ line_of following ∷ [])
  following-Chained plain c =
      let link : (last_hash null lines ≡ null)
          ⊎ ((hash : String) × (last_hash null lines ≡ str hash)) =
        elim c.ends [
          | inl is_empty ↦ inl (ap (λ (ls : List Line). last_hash null ls) is_empty)
          | inr (e, hash, _, _, _, last) ↦ inr (hash, last)
        ] in
      let e : entries (fields_of following) ≡ following = entries-fields_of following in
      record {
        verified = verified_more plain link c.verified;
        ends = inr (
          fields_of following,
          digest_of (base plain link),
          last_line-concat lines (line_of following),
          rw e (
              at_seq plain link
              ∙ ap (λ (n : ℕ). some (int (pos n)))
                  (let more : suc (length lines) ≡ length (lines ++ line_of following ∷ []) =
                      omega (arith, length-append lines (line_of following ∷ [])) in
                    more)),
          rw e (at_hash plain link),
          last_hash-concat null lines (line_of following) ∙ rw (e, at_hash plain link) refl,
        );
      }

appended_inj : (a b : Body) → appended a ≡ appended b → a ≡ b
appended_inj a b p = cc

module _ (digest_of : Body → String) (parse : String → Option ℤ) (loads : String → Option Value)
    (dumps : Body → String) where
  Written-Chained :
      (text : String)
      → Written digest_of parse loads dumps text
      → Chained digest_of (read_trace loads text) × Closed text
  unfolding verify_trace verify_from read_trace parse_lines split_lines append_trace
  Written-Chained _ empty = (record { verified = refl; ends = inl refl }, nil-Closed)
  Written-Chained _ (wrote {text = before} w now type fields e plain h line) =
      let (c, closed) = Written-Chained before w in
      let lines = read_trace loads before in
      let same : following digest_of parse lines now type fields ≡ e =
        appended_inj _ _ (sym (append_after-Chained digest_of parse lines now type fields c) ∙ h) in
      (
        subst (Chained digest_of)
            (ap (λ (b : Body). lines ++ line_of b ∷ []) same
              ∙ sym (
                  read_trace-jsonl_emit loads dumps before e (obj (fields_of e)) closed
                    line.no_break line.filled line.reads_back))
            (following-Chained digest_of parse lines now type fields plain c),
        jsonl_emit-Closed dumps before e closed line.no_break,
      )

  -- A file that only `append_trace` has written, with fields that have other names than "seq",
  -- "prev" and "hash", and where the text of each event is one line for `splitlines` and reads back
  -- as the event, is verified by `verify_trace`; and the next call of `append_trace` on it raises
  -- nothing: it writes an event that holds the number of the event and the hash of the one before.
  pub Written-verified :
      (text now type : String) (fields : Body)
      → Written digest_of parse loads dumps text
      → (verify_trace digest_of (read_trace loads text) ≡ true)
        × (append_trace digest_of parse loads text now type fields
            ≡ appended (
                with_hash digest_of (
                  body_of digest_of
                    (pos (length (read_trace loads text)))
                    (last_hash null (read_trace loads text))
                    now
                    type
                    fields)))
  unfolding append_trace
  Written-verified text now type fields w =
      let (c, closed) = Written-Chained text w in
      (c.verified, append_after-Chained digest_of parse (read_trace loads text) now type fields c)
