-- ===== src/Base/Sorting.antt =====
-- `sorted` on texts, by code points.
use Prim.Native.Nat.{Ordering}
use Prim.Native.String.{String, compare}
use text.Mathlib.TextPositions.{compare_refl}
use mathlib.Core.Path.{◌≡◌, refl, sym}
use mathlib.Core.Logic.{inl, inr}
use mathlib.Core.Bool.{Bool, true, false}
use mathlib.Core.List.{List, [], ◌∷◌}
use native.Mathlib.Omega.{arith}
use hermes_graph_engineering.Base.Tests.{if◌then◌else◌, ◌==◌, string_eq, Bool-cases}

-- Code points compare as the bytes of their UTF-8 do.
abbrev pub text_le : String → String → Bool
text_le s t = elim (compare s t) [ Ordering.gt ↦ false | _ ↦ true ]

-- A text that is not at most another is another.
pub text_le-false : (s t : String) → text_le s t ≡ false → (s == t) ≡ false
text_le-false s t h = elim (Bool-cases (s == t)) [
  | inl same ↦
      let e : s ≡ t = (string_eq.equal_iff s t).0 same in
      let h' : text_le s s ≡ false = rw (sym e) at h in
      let refl_le : text_le s s ≡ true = rw (compare_refl s, text_le) refl in cc (h', refl_le)
  | inr other ↦ other
]

insert_sorted : String → List String → List String
insert_sorted s [] = s ∷ []
insert_sorted s (t ∷ ts) =
    let rest = insert_sorted s ts in if text_le s t then s ∷ t ∷ ts else t ∷ rest

unfoldable pub sorted : List String → List String
unfolding insert_sorted
sorted [] = []
sorted (s ∷ ss) = insert_sorted s (sorted ss)

pub sorted-eq-nil : (ss : List String) → sorted ss ≡ [] → ss ≡ []
unfolding sorted
sorted-eq-nil [] h = refl
sorted-eq-nil (s ∷ ss) h = absurd (never (sorted ss) h)
  where
    never : (ts : List String) → insert_sorted s ts ≡ [] → ⊥
    never [] e = cc
    never (t ∷ ts) e = ground arith
