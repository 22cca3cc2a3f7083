-- ===== src/Engine/Advance/Rule.antt =====
-- Induction over the loops of `_advance` of ge_runtime/engine.py.
use mathlib.Core.Path.{subst}
use hermes_graph_engineering.Base.{
  ℕ, zero, suc, String, ◌≡◌, false, some, List, [], ◌∷◌, Bool-cases, inl, inr,
}
use hermes_graph_engineering.Spec.{GraphSpec}
use hermes_graph_engineering.Engine.State.{World, Env, on_state}
use hermes_graph_engineering.Engine.Readiness.{refresh_readiness}
use hermes_graph_engineering.Engine.Advance.{
  is_going, Loop, visit, visit_all, round, continues, rounds, loop_start, enough, advance,
}

-- What a property of the loops has to survive: a round of the `for` loop, and the refresh.
pub record Rule (env : Env) (spec : GraphSpec) (budget : ℕ) (P : Loop → Type 0) : Type 0 where
  pub on_visit : (l : Loop) (k : String) → P l → P (visit env spec budget l k)
  pub on_refresh :
      (l : Loop)
      → P l
      → P (record l { world = on_state (refresh_readiness spec) l.world; progress = false })

module _ (env : Env) (spec : GraphSpec) (budget : ℕ) {P : Loop → Type 0}
    (rule : Rule env spec budget P) where
  pub visit_all-keeps :
      (order : List String) (l : Loop) → P l → P (visit_all env spec budget order l)
  unfolding visit_all
  visit_all-keeps [] l p = p
  visit_all-keeps (k ∷ order) l p = elim (Bool-cases (is_going l.control)) [
    | inl on ↦ rw on (visit_all-keeps order _ (rule.on_visit l k p))
    | inr off ↦ rw off p
  ]

  pub round-keeps : (l : Loop) → P l → P (round env spec budget l)
  unfolding round
  round-keeps l p = visit_all-keeps _ _ (rule.on_refresh l p)

  rounds-keeps : (fuel : ℕ) (l l' : Loop) → P l → rounds env spec budget fuel l ≡ some l' → P l'
  unfolding rounds
  rounds-keeps zero l l' p e = cc
  rounds-keeps (suc fuel) l l' p e =
      elim (Bool-cases (continues env spec (round env spec budget l))) [
        | inl on ↦ rounds-keeps fuel (round env spec budget l) l' (round-keeps l p) (rw on at e)
        | inr off ↦
            let stop : some (round env spec budget l) ≡ some l' = rw off at e in
            let same : round env spec budget l ≡ l' = cc in subst P same (round-keeps l p)
      ]

  -- What holds at the start of `_advance` holds at its end.
  pub advance-keeps :
      (w : World) (l : Loop) → P (loop_start env spec w) → advance env spec budget w ≡ some l → P l
  unfolding advance
  advance-keeps w l p e = rounds-keeps (enough env spec budget w) (loop_start env spec w) l p e
