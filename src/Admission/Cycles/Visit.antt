-- ===== src/Admission/Cycles/Visit.antt =====
-- The calls of `visit` of ge_runtime/spec.py, by induction on the fuel.
use mathlib.Core.Path.{subst}
use hermes_graph_engineering.Base.{
  ℕ, zero, suc, ◌<◌, String, ◌≡◌, refl, sym, ◌∙◌, ◌||◌, Bool, true, false, Option, none, some, List,
  [], ◌∷◌, ◌++◌, lookup, insert, contains, contains-append, ◌==◌, ==_refl, string_eq, if◌then◌else◌,
  Bool-cases, inl, inr, ◌⊎◌, arith, OptionRel, lookup-insert, lookup-insert_self,
}
use hermes_graph_engineering.Admission.Cycles.{
  Color, white, grey, black, Colors, Deps, Search, found, searched, exhausted, or_no_deps, finish,
  visit,
}
use hermes_graph_engineering.Admission.Cycles.Paths.{IsPath, Joins, IsPath-concat, Joins-concat}
use hermes_graph_engineering.Admission.Cycles.Colored.{
  Later, LaterColors, LaterColors-grey, whites-insert,
}
use hermes_graph_engineering.Admission.Cycles.Invariant.{
  Numbered, Sound, Ends, AllSettled, Visits, visit_deps-Ends,
}

lookup-other :
    (c : Colors) (id k : String) (a : Color)
    → (id == k) ≡ false
    → lookup (insert c id a) k ≡ lookup c k
lookup-other c id k a other = lookup-insert c id k a ∙ rw other refl

-- An id with another color than `id` is another id.
apart :
    (c : Colors) (id k : String) (o p : Option Color)
    → lookup c id ≡ o
    → lookup c k ≡ p
    → (o ≡ p → ⊥)
    → (id == k) ≡ false
apart c id k o p a b differ = elim (Bool-cases (id == k)) [
  | inl same ↦
      let e : id ≡ k = (string_eq.equal_iff id k).0 same in
      let a' : lookup c k ≡ o = subst (λ (x : String). lookup c x ≡ o) e a in
      absurd (differ (sym a' ∙ b))
  | inr other ↦ other
]

module _ (deps : Deps) (stack : List String) (id : String) (c : Colors)
    (w : lookup c id ≡ some white) (sound : Sound deps stack c) where
  abbrev pushed : List String
  pushed = stack ++ id ∷ []

  abbrev entered : Colors
  entered = insert c id grey

  on_stack : (k : String) → contains stack k ≡ true → contains pushed k ≡ true
  on_stack k m = rw (contains-append stack (id ∷ []) k, m) refl

  top : contains pushed id ≡ true
  top = rw (contains-append stack (id ∷ []) id, ==_refl id) (ground arith)

  -- A color of `c` that is not white is one of `entered`.
  still :
      (k : String) (o : Option Color) → lookup c k ≡ o → (some white ≡ o → ⊥) → lookup entered k ≡ o
  still k o e differ = lookup-other c id k grey (apart c id k (some white) o w e differ) ∙ e

  -- A color of `entered` that is not grey is one of `c`.
  before :
      (k : String) (o : Option Color)
      → lookup entered k ≡ o
      → (some grey ≡ o → ⊥)
      → ((id == k) ≡ false) × (lookup c k ≡ o)
  before k o e differ =
      let other = apart entered id k (some grey) o (lookup-insert_self c id grey) e differ in
      (other, sym (lookup-other c id k grey other) ∙ e)

  enter-Numbered : Numbered deps entered
  enter-Numbered =
      let n = sound.numbered in
      record {
        rank = n.rank;
        limit = n.limit;
        below = λ k e. n.below k (before k (some black) e (λ p. cc)).1;
        settled = λ k ds e at_k x m.
            elim (n.settled k ds (before k (some black) e (λ p. cc)).1 at_k x m) [
              | inl no_color ↦ inl (still x none no_color (λ p. cc))
              | inr (is_black, lower) ↦ inr (still x (some black) is_black (λ p. cc), lower)
            ];
      }

  enter-Sound : Sound deps pushed entered
  enter-Sound = record {
    stacked = λ k e. elim (Bool-cases (id == k)) [
      | inl same ↦
          subst (λ (y : String). contains pushed y ≡ true) ((string_eq.equal_iff id k).0 same) top
      | inr other ↦ on_stack k (sound.stacked k (sym (lookup-other c id k grey other) ∙ e))
    ];
    colored = λ k ds at_k. elim (Bool-cases (id == k)) [
      | inl same ↦ (grey, lookup-insert c id k grey ∙ rw same refl)
      | inr other ↦
          let (color, e) = sound.colored k ds at_k in (color, lookup-other c id k grey other ∙ e)
    ];
    known = λ k color e. elim (Bool-cases (id == k)) [
      | inl same ↦
          subst (λ (y : String). (ds : List String) × (lookup deps y ≡ some ds))
            ((string_eq.equal_iff id k).0 same) (sound.known id white w)
      | inr other ↦ sound.known k color (sym (lookup-other c id k grey other) ∙ e)
    ];
    numbered = enter-Numbered;
  }

  -- The colors after the loop over the dependencies.
  module _ (ds : List String) (at_id : or_no_deps (lookup deps id) ≡ ds) (d : Colors)
      (later : LaterColors entered d) (after : Sound deps pushed d) (all : AllSettled ds d) where
    abbrev left : Colors
    left = insert d id black

    now_grey : lookup d id ≡ some grey
    now_grey = LaterColors-grey entered d id later (lookup-insert_self c id grey)

    -- What is settled before is so after, and is not `id` itself.
    kept :
        (x : String) (o : Option Color)
        → lookup d x ≡ o
        → (some grey ≡ o → ⊥)
        → ((id == x) ≡ false) × (lookup left x ≡ o)
    kept x o e differ =
        let other = apart d id x (some grey) o now_grey e differ in
        (other, lookup-other d id x black other ∙ e)

    back :
        (k : String) (o : Option Color)
        → lookup left k ≡ o
        → (some black ≡ o → ⊥)
        → ((id == k) ≡ false) × (lookup d k ≡ o)
    back k o e differ =
        let other = apart left id k (some black) o (lookup-insert_self d id black) e differ in
        (other, sym (lookup-other d id k black other) ∙ e)

    leave-later : LaterColors c left
    leave-later = record {
      at = λ k. elim (Bool-cases (id == k)) [
        | inl same ↦
            let e : id ≡ k = (string_eq.equal_iff id k).0 same in
            let was : lookup c k ≡ some white =
              subst (λ (y : String). lookup c y ≡ some white) e w in
            let is : lookup left k ≡ some black = lookup-insert d id k black ∙ rw same refl in
            rw (was, is) tt
        | inr other ↦ rw (lookup-other d id k black other) (
            subst (λ (o : Option Color). OptionRel Later o (lookup d k))
              (lookup-other c id k grey other) (later.at k))
      ];
    }

    abbrev number : String → ℕ
    number k = if id == k then after.numbered.limit else after.numbered.rank k

    -- A settled id has its old number, which is below the new one.
    settled_number :
        (x : String) (r : ℕ)
        → (lookup d x ≡ none) ⊎ ((lookup d x ≡ some black) × (after.numbered.rank x < r))
        → (lookup left x ≡ none) ⊎ ((lookup left x ≡ some black) × (number x < r))
    settled_number x r (inl e) = inl (kept x none e (λ p. cc)).1
    settled_number x r (inr (e, lower)) =
        let (other, e') = kept x (some black) e (λ p. cc) in inr (e', rw other lower)

    leave-Numbered : Numbered deps left
    leave-Numbered = record {
      rank = number;
      limit = suc after.numbered.limit;
      below = λ k e. elim (Bool-cases (id == k)) [
        | inl same ↦ rw same (omega arith)
        | inr other ↦
            let e' : lookup d k ≡ some black = sym (lookup-other d id k black other) ∙ e in
            rw other (omega (arith, after.numbered.below k e'))
      ];
      settled = λ k es e at_k x m. elim (Bool-cases (id == k)) [
        | inl same ↦
            let is : id ≡ k = (string_eq.equal_iff id k).0 same in
            let at_id' : lookup deps id ≡ some es =
              subst (λ (y : String). lookup deps y ≡ some es) (sym is) at_k in
            let listed : contains ds x ≡ true =
              subst (λ (l : List String). contains l x ≡ true)
                (subst (λ (o : Option (List String)). or_no_deps o ≡ ds) at_id' at_id) m in
            rw same (
              settled_number x after.numbered.limit (elim (all x listed) [
                | inl no_color ↦ inl no_color
                | inr is_black ↦ inr (is_black, after.numbered.below x is_black)
              ]))
        | inr other ↦
            let e' : lookup d k ≡ some black = sym (lookup-other d id k black other) ∙ e in
            rw other
              (settled_number x (after.numbered.rank k) (after.numbered.settled k es e' at_k x m))
      ];
    }

    leave-Sound : Sound deps stack left
    leave-Sound = record {
      stacked = λ k e.
          let (other, e') = back k (some grey) e (λ p. cc) in
          let m : contains pushed k ≡ true = after.stacked k e' in
          let m' : (contains stack k || contains (id ∷ []) k) ≡ true =
            subst (λ (b : Bool). b ≡ true) (contains-append stack (id ∷ []) k) m in
          ground arith;
      colored = λ k es at_k. elim (Bool-cases (id == k)) [
        | inl same ↦ (black, lookup-insert d id k black ∙ rw same refl)
        | inr other ↦
            let (color, e) = after.colored k es at_k in (color, lookup-other d id k black other ∙ e)
      ];
      known = λ k color e. elim (Bool-cases (id == k)) [
        | inl same ↦
            subst (λ (y : String). (ds : List String) × (lookup deps y ≡ some ds))
              ((string_eq.equal_iff id k).0 same) (after.known id grey now_grey)
        | inr other ↦ after.known k color (sym (lookup-other d id k black other) ∙ e)
      ];
      numbered = leave-Numbered;
    }

  finish-Ends :
      (ds : List String) (r : Search)
      → or_no_deps (lookup deps id) ≡ ds
      → Ends deps pushed entered (AllSettled ds) r
      → Ends deps stack c (λ d. lookup d id ≡ some black) (finish id r)
  finish-Ends ds (found ks) e h = h
  finish-Ends ds exhausted e h = h
  finish-Ends ds (searched d) e (later, after, all) = (
    leave-later ds e d later after all,
    leave-Sound ds e d later after all,
    lookup-insert_self d id black,
  )

-- A visit of a white id that continues the stack ends, where the fuel is at least the number of
-- white ids.
pub visit-Ends :
    (deps : Deps) (ks : List String)
    → ((k : String) (ds : List String) → lookup deps k ≡ some ds → contains ks k ≡ true)
    → (fuel : ℕ) (stack : List String) (path : IsPath deps stack)
    → Visits deps stack path ks fuel (visit deps fuel stack)
unfolding visit
visit-Ends deps ks all zero stack path id c w joins sound bound =
    let (ds, at_id) = sound.known id white w in
    omega (arith, whites-insert ks c id (all id ds at_id) w)
visit-Ends deps ks all (suc fuel) stack path id c w joins sound bound =
    let (ds, at_id) = sound.known id white w in
    finish-Ends deps stack id c w sound (or_no_deps (lookup deps id)) _ refl (
      visit_deps-Ends deps (stack ++ id ∷ []) path' ks fuel (visit deps fuel (stack ++ id ∷ []))
        (visit-Ends deps ks all fuel (stack ++ id ∷ []) path') (or_no_deps (lookup deps id))
        (insert c id grey) (λ x m. wanted (lookup deps id) refl x m)
        (enter-Sound deps stack id c w sound)
        (omega (arith, whites-insert ks c id (all id ds at_id) w, bound)))
  where
    path' : IsPath deps (stack ++ id ∷ [])
    path' = IsPath-concat deps stack id path joins

    wanted :
        (o : Option (List String))
        → lookup deps id ≡ o
        → (x : String) → contains (or_no_deps o) x ≡ true
        → Joins deps (stack ++ id ∷ []) x
    wanted none e x m = cc
    wanted (some ds) e x m =
        Joins-concat deps stack id x (record { wanted = ds; listed = e; member = m })
