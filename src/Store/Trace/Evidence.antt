-- ===== src/Store/Trace/Evidence.antt =====
-- What the hash chain of ge_runtime/store.py shows of a trace.
use mathlib.Core.Path.{subst}
use hermes_graph_engineering.Base.{
  ℕ, suc, String, string_eq, ◌≡◌, refl, sym, ap, ◌∙◌, true, false, Option, List, [], ◌∷◌, All,
  lookup, length, ◌==◌, inl, inr, ◌⊎◌, arith,
}
use hermes_graph_engineering.Values.{
  Value, null, bool, int, float, str, obj, arr, Fields, entries, py_eq,
}
use hermes_graph_engineering.Admission.Nodes.{get_or}
use hermes_graph_engineering.Store.Lines.{Line, event, garbled}
use hermes_graph_engineering.Store.Trace.{Body, without_hash, event_ok, verify_from, verify_trace}
use hermes_graph_engineering.Store.Trace.Chain.{line_hash, last_hash}

-- What is hashed of each line.
abbrev pub bodies : List Line → List Body
bodies [] = []
bodies (event (obj e) ∷ ls) = without_hash (entries e) ∷ bodies ls
bodies (event v ∷ ls) = bodies ls
bodies (garbled ∷ ls) = bodies ls

-- No two different bodies, one of each list, have the same digest.
abbrev pub NoCollision : (Body → String) → List Body → List Body → Type 0
NoCollision digest_of ts us =
    All (λ (a : Body). All (λ (b : Body). digest_of a ≡ digest_of b → a ≡ b) us) ts

-- What an event may point to.
IsLink : Value → Type 0
IsLink p = (p ≡ null) ⊎ ((s : String) × (p ≡ str s))

eq-str : (v : Value) (s : String) → py_eq v (str s) ≡ true → v ≡ str s
unfolding py_eq
eq-str null s h = cc
eq-str (bool true) s h = cc
eq-str (bool false) s h = cc
eq-str (int n) s h = cc
eq-str (float f) s h = cc
eq-str (str t) s h = ap str ((string_eq.equal_iff t s).0 h)
eq-str (obj fs) s h = cc
eq-str (arr vs) s h = cc

eq-null : (v : Value) → py_eq v null ≡ true → v ≡ null
unfolding py_eq
eq-null null h = refl
eq-null (bool true) h = cc
eq-null (bool false) h = cc
eq-null (int n) h = cc
eq-null (float f) h = cc
eq-null (str t) h = cc
eq-null (obj fs) h = cc
eq-null (arr vs) h = cc

eq-link : (v p : Value) → IsLink p → py_eq v p ≡ true → v ≡ p
unfolding IsLink
eq-link v p (inl e) h = let h' : py_eq v null ≡ true = rw e at h in eq-null v h' ∙ sym e
eq-link v p (inr (s, e)) h = let h' : py_eq v (str s) ≡ true = rw e at h in eq-str v s h' ∙ sym e

lookup-without_hash :
    (t : Body) (k : String) → (k == "hash") ≡ false → lookup (without_hash t) k ≡ lookup t k
lookup-without_hash [] k h = refl
lookup-without_hash ((j, v) ∷ t) k h = ground (
  arith,
  lookup-without_hash t k h,
  string_eq.equal_iff j k,
  string_eq.equal_iff j "hash",
  string_eq.equal_iff k "hash",
)

-- An event that passes points to `prev`, and its own hash is the digest of its body.
record Passes (digest_of : Body → String) (prev : Value) (e : Body) : Type 0 where
  pub link : py_eq (get_or null (lookup e "prev")) prev ≡ true
  pub hash : get_or null (lookup e "hash") ≡ str (digest_of (without_hash e))

event_ok-Passes :
    (digest_of : Body → String) (index : ℕ) (prev : Value) (e : Body)
    → event_ok digest_of index prev e ≡ true
    → Passes digest_of prev e
event_ok-Passes digest_of index prev e h = record {
  link = ground arith;
  hash = eq-str (get_or null (lookup e "hash")) (digest_of (without_hash e)) (ground arith);
}

tail-NoCollision :
    (digest_of : Body → String) (a b : Body) (ts us : List Body)
    → NoCollision digest_of (a ∷ ts) (b ∷ us)
    → NoCollision digest_of ts us
tail-NoCollision digest_of a b ts us h = drop ts h.1
  where
    drop :
        (xs : List Body)
        → All (λ (x : Body). All (λ (y : Body). digest_of x ≡ digest_of y → x ≡ y) (b ∷ us)) xs
        → All (λ (x : Body). All (λ (y : Body). digest_of x ≡ digest_of y → x ≡ y) us) xs
    drop [] g = tt
    drop (x ∷ xs) g = (g.0.1, drop xs g.1)

-- The first line of a trace that passes.
record Opened (digest_of : Body → String) (index : ℕ) (prev : Value) (l : Line) (ls : List Line)
    : Type 0 where
  pub e : Fields
  pub is_event : l ≡ event (obj e)
  pub passes : Passes digest_of prev (entries e)
  pub rest : verify_from digest_of (suc index) (line_hash l) ls ≡ true

open_first :
    (digest_of : Body → String) (index : ℕ) (prev : Value) (l : Line) (ls : List Line)
    → verify_from digest_of index prev (l ∷ ls) ≡ true
    → Opened digest_of index prev l ls
unfolding verify_from
open_first digest_of index prev (event (obj e)) ls h = record {
  e = e;
  is_event = refl;
  passes = event_ok-Passes digest_of index prev (entries e) (ground arith);
  rest = ground arith;
}
open_first digest_of index prev garbled ls h = cc
open_first digest_of index prev (event null) ls h = cc
open_first digest_of index prev (event (bool b)) ls h = cc
open_first digest_of index prev (event (int n)) ls h = cc
open_first digest_of index prev (event (float f)) ls h = cc
open_first digest_of index prev (event (str s)) ls h = cc
open_first digest_of index prev (event (arr vs)) ls h = cc

hash-IsLink :
    {digest_of : Body → String} {prev : Value} (e : Fields)
    → Passes digest_of prev (entries e)
    → IsLink (get_or null (lookup (entries e) "hash"))
unfolding IsLink
hash-IsLink {digest_of} e p = inr (digest_of (without_hash (entries e)), p.hash)

-- Two events with the same hash point to the same hash before.
same_link :
    (digest_of : Body → String) (p q : Value) (e f : Fields)
    → IsLink p
    → IsLink q
    → Passes digest_of p (entries e)
    → Passes digest_of q (entries f)
    → without_hash (entries e) ≡ without_hash (entries f)
    → p ≡ q
same_link digest_of p q e f lp lq pe pf same =
    let at_e : lookup (entries e) "prev" ≡ lookup (entries f) "prev" =
      sym (lookup-without_hash (entries e) "prev" refl)
      ∙ ap (λ (t : Body). lookup t "prev") same
      ∙ lookup-without_hash (entries f) "prev" refl in
    sym (eq-link (get_or null (lookup (entries e) "prev")) p lp pe.link)
    ∙ ap (λ (o : Option Value). get_or null o) at_e
    ∙ eq-link (get_or null (lookup (entries f) "prev")) q lq pf.link

str_inj : (s t : String) → str s ≡ str t → s ≡ t
str_inj s t p = cc

chain_unique :
    (digest_of : Body → String) (ts us : List Line) (i j : ℕ) (p q : Value)
    → IsLink p
    → IsLink q
    → verify_from digest_of i p ts ≡ true
    → verify_from digest_of j q us ≡ true
    → length ts ≡ length us
    → last_hash p ts ≡ last_hash q us
    → NoCollision digest_of (bodies ts) (bodies us)
    → (p ≡ q) × (bodies ts ≡ bodies us)
chain_unique digest_of [] [] i j p q lp lq vt vu len last free = (last, refl)
chain_unique digest_of [] (m ∷ us) i j p q lp lq vt vu len last free = absurd (omega (arith, len))
chain_unique digest_of (l ∷ ts) [] i j p q lp lq vt vu len last free = absurd (omega (arith, len))
chain_unique digest_of (l ∷ ts) (m ∷ us) i j p q lp lq vt vu len last free =
    let t = open_first digest_of i p l ts vt in
    let u = open_first digest_of j q m us vu in
    of_events t.e u.e t.passes u.passes t.is_event u.is_event (λ a b c.
      chain_unique digest_of ts us (suc i) (suc j) (line_hash l) (line_hash m) a b t.rest u.rest
        (omega (arith, len)) last c)
  where
    of_events :
        (e f : Fields)
        → Passes digest_of p (entries e)
        → Passes digest_of q (entries f)
        → l ≡ event (obj e)
        → m ≡ event (obj f)
        → (IsLink (line_hash l)
            → IsLink (line_hash m)
            → NoCollision digest_of (bodies ts) (bodies us)
            → (line_hash l ≡ line_hash m) × (bodies ts ≡ bodies us))
        → (p ≡ q) × (bodies (l ∷ ts) ≡ bodies (m ∷ us))
    of_events e f pe pf is_e is_f again =
        let free' : NoCollision digest_of (without_hash (entries e) ∷ bodies ts)
            (without_hash (entries f) ∷ bodies us) =
          subst
            (λ (x : Line).
              NoCollision digest_of (without_hash (entries e) ∷ bodies ts) (bodies (x ∷ us)))
            is_f
            (subst (λ (x : Line). NoCollision digest_of (bodies (x ∷ ts)) (bodies (m ∷ us))) is_e
              free) in
        let (hashes, rest) =
          again (rw is_e (hash-IsLink e pe)) (rw is_f (hash-IsLink f pf))
            (tail-NoCollision digest_of _ _ (bodies ts) (bodies us) free') in
        let digests : str (digest_of (without_hash (entries e)))
            ≡ str (digest_of (without_hash (entries f))) =
          sym pe.hash ∙ sym (ap line_hash is_e) ∙ hashes ∙ ap line_hash is_f ∙ pf.hash in
        let same : without_hash (entries e) ≡ without_hash (entries f) =
          free'.0.0 (str_inj _ _ digests) in
        (same_link digest_of p q e f lp lq pe pf same, rw (is_e, is_f, same, rest) refl)

-- Two traces with as many lines that `verify_trace` both verifies, and that end with the same hash,
-- have the same events (all fields but the hash), in the same order, if no two different events,
-- one of each, have the same digest. So no event can be changed without a change of the last hash.
pub verify_trace_unique :
    (digest_of : Body → String) (ts us : List Line)
    → verify_trace digest_of ts ≡ true
    → verify_trace digest_of us ≡ true
    → length ts ≡ length us
    → last_hash null ts ≡ last_hash null us
    → NoCollision digest_of (bodies ts) (bodies us)
    → bodies ts ≡ bodies us
unfolding verify_trace IsLink
verify_trace_unique digest_of ts us vt vu len last free =
    (chain_unique digest_of ts us 1 1 null null (inl refl) (inl refl) vt vu len last free).1
