-- ===== src/Admission/Cycles/Paths.antt =====
-- Paths along `depends_on`, and the cycles among them.
use hermes_graph_engineering.Base.{
  String, ◌≡◌, refl, true, some, List, [], ◌∷◌, ◌++◌, lookup, contains, ◌==◌, string_eq, Bool-cases,
  inl, inr, arith,
}
use hermes_graph_engineering.Admission.Cycles.{Deps, from_first}

-- `b` is one of the dependencies of `a`.
pub record Edge (deps : Deps) (a b : String) : Type 0 where
  pub wanted : List String
  pub listed : lookup deps a ≡ some wanted
  pub member : contains wanted b ≡ true

abbrev pub IsPath : Deps → List String → Type 0
IsPath deps [] = Unit
IsPath deps (a ∷ []) = Unit
IsPath deps (a ∷ b ∷ ks) = Edge deps a b × IsPath deps (b ∷ ks)

-- The last of a path wants `x`.
abbrev pub Joins : Deps → List String → String → Type 0
Joins deps [] x = Unit
Joins deps (a ∷ []) x = Edge deps a x
Joins deps (a ∷ b ∷ ks) x = Joins deps (b ∷ ks) x

-- A path that begins and ends at the same id.
pub record IsCycle (deps : Deps) (ks : List String) : Type 0 where
  pub start : String
  pub between : List String
  pub closes : ks ≡ start ∷ (between ++ start ∷ [])
  pub path : IsPath deps ks

module _ (deps : Deps) where
  pub IsPath-concat :
      (ks : List String) (x : String)
      → IsPath deps ks
      → Joins deps ks x
      → IsPath deps (ks ++ x ∷ [])
  IsPath-concat [] x p j = tt
  IsPath-concat (a ∷ []) x p j = (j, tt)
  IsPath-concat (a ∷ b ∷ ks) x p j = (p.0, IsPath-concat (b ∷ ks) x p.1 j)

  pub Joins-concat :
      (ks : List String) (id x : String) → Edge deps id x → Joins deps (ks ++ id ∷ []) x
  Joins-concat [] id x e = e
  Joins-concat (a ∷ []) id x e = e
  Joins-concat (a ∷ b ∷ ks) id x e = Joins-concat (b ∷ ks) id x e

  tail-IsPath : (a : String) (ks : List String) → IsPath deps (a ∷ ks) → IsPath deps ks
  tail-IsPath a [] p = tt
  tail-IsPath a (b ∷ ks) p = p.1

  tail-Joins :
      (a b : String) (ks : List String) (x : String)
      → Joins deps (a ∷ ks) x
      → contains ks b ≡ true
      → Joins deps ks x
  tail-Joins a b [] x j m = tt
  tail-Joins a b (c ∷ ks) x j m = j

  -- The part of a path from one of its ids on, closed by that id.
  pub from_first-IsCycle :
      (dep : String) (stack : List String)
      → contains stack dep ≡ true
      → IsPath deps stack
      → Joins deps stack dep
      → IsCycle deps (from_first dep stack ++ dep ∷ [])
  from_first-IsCycle dep [] m p j = cc
  from_first-IsCycle dep (k ∷ ks) m p j = elim (Bool-cases (k == dep)) [
    | inl here ↦
        let same : k ≡ dep = (string_eq.equal_iff k dep).0 here in
        rw here (record {
          start = dep;
          between = ks;
          closes = rw same refl;
          path = IsPath-concat (k ∷ ks) dep p j;
        })
    | inr later ↦
        let m' : contains ks dep ≡ true = ground arith in
        rw later (from_first-IsCycle dep ks m' (tail-IsPath k ks p) (tail-Joins k dep ks dep j m'))
  ]
