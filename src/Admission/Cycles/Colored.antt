-- ===== src/Admission/Cycles/Colored.antt =====
-- What a step of `find_cycle` of ge_runtime/spec.py may do to the colors, and how many ids are white.
use hermes_graph_engineering.Base.{
  ℕ, suc, ◌+◌, ◌≤◌, String, ◌≡◌, refl, true, false, Option, none, some, List, [], ◌∷◌, lookup,
  insert, contains, ◌==◌, string_eq, Bool-cases, inl, inr, ◌⊎◌, arith, TableRel, OptionRel,
  lookup-insert,
}
use hermes_graph_engineering.Admission.Cycles.{Color, white, grey, black, Colors}

-- A white id may become black; the others keep their color.
abbrev pub Later : Color → Color → Type 0
Later white white = Unit
Later white black = Unit
Later white grey = ⊥
Later grey grey = Unit
Later grey white = ⊥
Later grey black = ⊥
Later black black = Unit
Later black white = ⊥
Later black grey = ⊥

pub Later-refl : (a : Color) → Later a a
Later-refl white = tt
Later-refl grey = tt
Later-refl black = tt

pub Later-trans : (a b c : Color) → Later a b → Later b c → Later a c
Later-trans white white white p q = tt
Later-trans white white black p q = tt
Later-trans white white grey p q = q
Later-trans white black black p q = tt
Later-trans white black white p q = tt
Later-trans white black grey p q = q
Later-trans white grey c p q = absurd p
Later-trans grey grey grey p q = tt
Later-trans grey grey white p q = q
Later-trans grey grey black p q = q
Later-trans grey white c p q = absurd p
Later-trans grey black c p q = absurd p
Later-trans black black black p q = tt
Later-trans black black white p q = q
Later-trans black black grey p q = q
Later-trans black white c p q = absurd p
Later-trans black grey c p q = absurd p

abbrev pub LaterColors : Colors → Colors → Type 0
LaterColors = TableRel Later

-- An id that is done with: unknown, or black.
abbrev pub Settled : Colors → String → Type 0
Settled c x = (lookup c x ≡ none) ⊎ (lookup c x ≡ some black)

settled-Later :
    (o p : Option Color)
    → OptionRel Later o p
    → (o ≡ none) ⊎ (o ≡ some black)
    → (p ≡ none) ⊎ (p ≡ some black)
settled-Later none none r s = inl refl
settled-Later none (some b) r s = absurd r
settled-Later (some a) none r s = absurd r
settled-Later (some black) (some black) r s = inr refl
settled-Later (some black) (some white) r s = absurd r
settled-Later (some black) (some grey) r s = absurd r
settled-Later (some white) (some b) r (inl e) = cc
settled-Later (some white) (some b) r (inr e) = cc
settled-Later (some grey) (some b) r (inl e) = cc
settled-Later (some grey) (some b) r (inr e) = cc

pub Settled-Later : (c d : Colors) (x : String) → LaterColors c d → Settled c x → Settled d x
Settled-Later c d x h s = settled-Later (lookup c x) (lookup d x) (h.at x) s

grey-kept : (o p : Option Color) → OptionRel Later o p → o ≡ some grey → p ≡ some grey
grey-kept none p r e = cc
grey-kept (some a) none r e = absurd r
grey-kept (some grey) (some grey) r e = refl
grey-kept (some grey) (some white) r e = absurd r
grey-kept (some grey) (some black) r e = absurd r
grey-kept (some white) (some b) r e = cc
grey-kept (some black) (some b) r e = cc

pub LaterColors-grey :
    (c d : Colors) (x : String) → LaterColors c d → lookup c x ≡ some grey → lookup d x ≡ some grey
LaterColors-grey c d x h e = grey-kept (lookup c x) (lookup d x) (h.at x) e

abbrev pub one_if_white : Option Color → ℕ
one_if_white (some white) = 1
one_if_white (some grey) = 0
one_if_white (some black) = 0
one_if_white none = 0

-- How many of the ids are white.
abbrev pub whites : List String → Colors → ℕ
whites [] c = 0
whites (k ∷ ks) c = one_if_white (lookup c k) + whites ks c

fewer : (o p : Option Color) → OptionRel Later o p → one_if_white p ≤ one_if_white o
fewer none none r = omega arith
fewer none (some b) r = absurd r
fewer (some a) none r = absurd r
fewer (some white) (some white) r = omega arith
fewer (some white) (some black) r = omega arith
fewer (some white) (some grey) r = absurd r
fewer (some grey) (some grey) r = omega arith
fewer (some grey) (some white) r = absurd r
fewer (some grey) (some black) r = absurd r
fewer (some black) (some black) r = omega arith
fewer (some black) (some white) r = absurd r
fewer (some black) (some grey) r = absurd r

pub whites-LaterColors :
    (ks : List String) (c d : Colors) → LaterColors c d → whites ks d ≤ whites ks c
whites-LaterColors [] c d h = omega arith
whites-LaterColors (k ∷ ks) c d h =
    omega (arith, whites-LaterColors ks c d h, fewer (lookup c k) (lookup d k) (h.at k))

whites-insert_le :
    (ks : List String) (c : Colors) (id : String) → whites ks (insert c id grey) ≤ whites ks c
whites-insert_le [] c id = omega arith
whites-insert_le (k ∷ ks) c id = elim (Bool-cases (id == k)) [
  | inl here ↦ rw (lookup-insert c id k grey, here) (omega (arith, whites-insert_le ks c id))
  | inr there ↦ rw (lookup-insert c id k grey, there) (omega (arith, whites-insert_le ks c id))
]

-- Where a white id becomes grey, there is one white id less.
pub whites-insert :
    (ks : List String) (c : Colors) (id : String)
    → contains ks id ≡ true
    → lookup c id ≡ some white
    → suc (whites ks (insert c id grey)) ≤ whites ks c
whites-insert [] c id m w = cc
whites-insert (k ∷ ks) c id m w = elim (Bool-cases (k == id)) [
  | inl same ↦
      let e : k ≡ id = (string_eq.equal_iff k id).0 same in
      let here : (id == k) ≡ true = (string_eq.equal_iff id k).1 (ground arith) in
      let at_k : lookup c k ≡ some white = cc (e, w) in
      rw (lookup-insert c id k grey, here, at_k) (omega (arith, whites-insert_le ks c id))
  | inr other ↦
      let m' : contains ks id ≡ true = rw other at m in
      let there : (id == k) ≡ false =
        ground (arith, string_eq.equal_iff k id, string_eq.equal_iff id k) in
      rw (lookup-insert c id k grey, there) (omega (arith, whites-insert ks c id m' w))
]
