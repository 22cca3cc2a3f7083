-- ===== src/Admission/Cycles/Invariant.antt =====
-- The invariant of `visit` of ge_runtime/spec.py.
use mathlib.Core.Path.{subst}
use hermes_graph_engineering.Base.{
  ℕ, ◌≤◌, ◌<◌, String, ◌≡◌, refl, true, Option, none, some, List, [], ◌∷◌, ◌++◌, lookup, contains,
  ◌==◌, ==_refl, string_eq, Bool-cases, inl, inr, ◌⊎◌, arith, TableRel-refl, TableRel-trans,
}
use hermes_graph_engineering.Admission.Cycles.{
  Color, white, grey, black, Colors, Deps, Search, found, searched, exhausted, from_first, and_then,
  visit_deps,
}
use hermes_graph_engineering.Admission.Cycles.Paths.{IsPath, Joins, IsCycle, from_first-IsCycle}
use hermes_graph_engineering.Admission.Cycles.Colored.{
  Later, Later-refl, Later-trans, LaterColors, Settled, Settled-Later, whites, whites-LaterColors,
}

-- Each black id has a number above those of its dependencies, which are black or unknown.
pub record Numbered (deps : Deps) (c : Colors) : Type 0 where
  pub rank : String → ℕ
  pub limit : ℕ
  pub below : (k : String) → lookup c k ≡ some black → rank k < limit
  pub settled :
      (k : String) (ds : List String)
      → lookup c k ≡ some black
      → lookup deps k ≡ some ds
      → (x : String) → contains ds x ≡ true
      → (lookup c x ≡ none) ⊎ ((lookup c x ≡ some black) × (rank x < rank k))

-- The grey ids are on the stack, and the ids of the graph are those with a color.
pub record Sound (deps : Deps) (stack : List String) (c : Colors) : Type 0 where
  pub stacked : (k : String) → lookup c k ≡ some grey → contains stack k ≡ true
  pub colored :
      (k : String) (ds : List String)
      → lookup deps k ≡ some ds
      → (color : Color) × (lookup c k ≡ some color)
  pub known :
      (k : String) (color : Color)
      → lookup c k ≡ some color
      → (ds : List String) × (lookup deps k ≡ some ds)
  pub numbered : Numbered deps c

-- A search ends, with a cycle or with later colors that keep the invariant and satisfy `P`.
abbrev pub Ends : Deps → List String → Colors → (Colors → Type 0) → Search → Type 0
Ends deps stack c P (found ks) = IsCycle deps ks
Ends deps stack c P (searched d) = LaterColors c d × Sound deps stack d × P d
Ends deps stack c P exhausted = ⊥

pub later_refl : (c : Colors) → LaterColors c c
later_refl c = TableRel-refl Later Later-refl c

pub later_trans : (c d e : Colors) → LaterColors c d → LaterColors d e → LaterColors c e
later_trans c d e p q = TableRel-trans Later Later-trans c d e p q

-- One search go_on the other.
pub Ends-and_then :
    (deps : Deps) (stack : List String) (c : Colors) (P Q : Colors → Type 0) (r : Search)
    (next : Colors → Search)
    → Ends deps stack c P r
    → ((d : Colors) → LaterColors c d → Sound deps stack d → P d → Ends deps stack d Q (next d))
    → Ends deps stack c Q (and_then r next)
Ends-and_then deps stack c P Q (found ks) next h k = h
Ends-and_then deps stack c P Q exhausted next h k = absurd h
Ends-and_then deps stack c P Q (searched d) next (later, sound, p) k =
    go_on (next d) (k d later sound p)
  where
    go_on : (r : Search) → Ends deps stack d Q r → Ends deps stack c Q r
    go_on (found ks) e = e
    go_on exhausted e = e
    go_on (searched d') (later', sound', q) = (later_trans c d d' later later', sound', q)

abbrev pub AllSettled : List String → Colors → Type 0
AllSettled ds c = (x : String) → contains ds x ≡ true → Settled c x

module _ (deps : Deps) (stack : List String) (path : IsPath deps stack) (ks : List String)
    (fuel : ℕ) (v : String → Colors → Search) where
  -- What a call of `visit` does, where `v` is that call.
  abbrev pub Visits : Type 0
  Visits =
      (x : String) (c : Colors)
      → lookup c x ≡ some white
      → Joins deps stack x
      → Sound deps stack c
      → whites ks c ≤ fuel
      → Ends deps stack c (λ d. lookup d x ≡ some black) (v x c)

  -- The goal for what `visit_deps` does with a dependency of each color.
  abbrev pub DepsEnd : List String → Colors → Search → Type 0
  DepsEnd ds c r = Ends deps stack c (AllSettled ds) r

  pub with_head :
      (dep : String) (ds : List String) (c : Colors) (r : Search)
      → Settled c dep
      → DepsEnd ds c r
      → DepsEnd (dep ∷ ds) c r
  with_head dep ds c (found l) s h = h
  with_head dep ds c exhausted s h = h
  with_head dep ds c (searched d) s (later, sound, all) = (
    later,
    sound,
    λ x m. elim (Bool-cases (dep == x)) [
      | inl same ↦
          let e : dep ≡ x = (string_eq.equal_iff dep x).0 same in
          subst (λ (y : String). Settled d y) e (Settled-Later c d dep later s)
      | inr other ↦ all x (ground arith)
    ],
  )

  pub visit_deps-Ends :
      Visits
      → (ds : List String) (c : Colors) → ((x : String) → contains ds x ≡ true → Joins deps stack x)
      → Sound deps stack c
      → whites ks c ≤ fuel
      → DepsEnd ds c (visit_deps v stack ds c)
  unfolding visit_deps
  visit_deps-Ends visits [] c joins sound bound = (later_refl c, sound, λ x m. cc)
  visit_deps-Ends visits (dep ∷ ds) c joins sound bound =
      at_color (lookup c dep) refl
        (λ d s b. visit_deps-Ends visits ds d (λ x m. joins x (ground arith)) s b)
    where
      at_color :
          (o : Option Color)
          → lookup c dep ≡ o
          → ((d : Colors)
              → Sound deps stack d
              → whites ks d ≤ fuel
              → DepsEnd ds d (visit_deps v stack ds d))
          → DepsEnd (dep ∷ ds) c (elim o as (λ x. Search) [
            | none ↦ visit_deps v stack ds c
            | some color ↦ elim color [
              | grey ↦ found (from_first dep stack ++ dep ∷ [])
              | white ↦ and_then (v dep c) (visit_deps v stack ds)
              | black ↦ visit_deps v stack ds c
            ]
          ])
      at_color none e rest = with_head dep ds c _ (inl e) (rest c sound bound)
      at_color (some black) e rest = with_head dep ds c _ (inr e) (rest c sound bound)
      at_color (some grey) e rest =
          from_first-IsCycle deps dep stack (sound.stacked dep e) path (joins dep (rw ==_refl refl))
      at_color (some white) e rest =
          Ends-and_then deps stack c (λ d. lookup d dep ≡ some black) (AllSettled (dep ∷ ds))
            (v dep c) (visit_deps v stack ds)
            (visits dep c e (joins dep (rw ==_refl refl)) sound bound)
            (λ d later s b.
              with_head dep ds d _ (inr b)
                (rest d s (omega (arith, whites-LaterColors ks c d later, bound))))
