-- ===== src/Admission/Cycles/Correct.antt =====
-- What `find_cycle` of ge_runtime/spec.py finds.
use hermes_graph_engineering.Base.{
  ℕ, ◌≤◌, ◌<◌, String, ◌≡◌, refl, true, Option, none, some, List, [], ◌∷◌, keys, lookup, contains,
  length, ◌==◌, string_eq, Bool-cases, inl, inr, ◌⊎◌, arith,
}
use hermes_graph_engineering.Spec.{Node}
use hermes_graph_engineering.Spec.Topology.{dependencies}
use hermes_graph_engineering.Admission.Cycles.{
  Color, white, grey, black, Colors, Deps, Search, found, searched, exhausted, and_then, visit,
  search_from, all_white, find_cycle,
}
use hermes_graph_engineering.Admission.Cycles.Paths.{IsCycle}
use hermes_graph_engineering.Admission.Cycles.Colored.{one_if_white, whites, whites-LaterColors}
use hermes_graph_engineering.Admission.Cycles.Invariant.{
  Sound, Ends, AllSettled, later_refl, Ends-and_then, with_head,
}
use hermes_graph_engineering.Admission.Cycles.Visit.{visit-Ends}

found-key :
    (t : Deps) (k : String) (ds : List String) → lookup t k ≡ some ds → contains (keys t) k ≡ true
found-key [] k ds e = cc
found-key ((j, v) ∷ t) k ds e = elim (Bool-cases (j == k)) [
  | inl here ↦ rw here refl
  | inr later ↦ rw (later, found-key t k ds (rw later at e)) refl
]

key-found :
    (t : Deps) (k : String)
    → contains (keys t) k ≡ true
    → (ds : List String) × (lookup t k ≡ some ds)
key-found [] k m = cc
key-found ((j, v) ∷ t) k m = elim (Bool-cases (j == k)) [
  | inl here ↦ (v, rw here refl)
  | inr later ↦ rw later (key-found t k (rw later at m))
]

all_white-found :
    (ks : List String) (k : String) → contains ks k ≡ true → lookup (all_white ks) k ≡ some white
all_white-found [] k m = cc
all_white-found (j ∷ ks) k m = elim (Bool-cases (j == k)) [
  | inl here ↦ rw here refl
  | inr later ↦ rw later (all_white-found ks k (rw later at m))
]

all_white-only :
    (ks : List String) (k : String) (a : Color) → lookup (all_white ks) k ≡ some a → a ≡ white
all_white-only [] k a e = cc
all_white-only (j ∷ ks) k a e = elim (Bool-cases (j == k)) [
  | inl here ↦ let e' : some white ≡ some a = rw here at e in cc
  | inr later ↦ all_white-only ks k a (rw later at e)
]

one_if_white_le : (o : Option Color) → one_if_white o ≤ 1
one_if_white_le none = omega arith
one_if_white_le (some white) = omega arith
one_if_white_le (some grey) = omega arith
one_if_white_le (some black) = omega arith

all_white-whites : (ks : List String) (c : Colors) → whites ks c ≤ length ks
all_white-whites [] c = omega arith
all_white-whites (k ∷ ks) c = omega (arith, all_white-whites ks c, one_if_white_le (lookup c k))

length-keys : (t : Deps) → length (keys t) ≡ length t
length-keys [] = refl
length-keys ((k, v) ∷ t) = omega (arith, length-keys t)

all_white-colored :
    (ks : List String) (k : String) (a : Color)
    → lookup (all_white ks) k ≡ some a
    → contains ks k ≡ true
all_white-colored [] k a e = cc
all_white-colored (j ∷ ks) k a e = elim (Bool-cases (j == k)) [
  | inl here ↦ rw here refl
  | inr later ↦ rw (later, all_white-colored ks k a (rw later at e)) refl
]

all_white-key :
    (deps : Deps) (k : String) (a : Color)
    → lookup (all_white (keys deps)) k ≡ some a
    → (ds : List String) × (lookup deps k ≡ some ds)
all_white-key deps k a e = key-found deps k (all_white-colored (keys deps) k a e)

start-Sound : (deps : Deps) → Sound deps [] (all_white (keys deps))
start-Sound deps = record {
  stacked = λ k e. cc (all_white-only (keys deps) k grey e);
  colored = λ k ds e. (white, all_white-found (keys deps) k (found-key deps k ds e));
  known = λ k a e. all_white-key deps k a e;
  numbered = record {
    rank = λ k. 0;
    limit = 0;
    below = λ k e. cc (all_white-only (keys deps) k black e);
    settled = λ k ds e at_k x m. cc (all_white-only (keys deps) k black e);
  };
}

-- The ids that are done with when the loop over them is.
search_from-Ends :
    (deps : Deps) (fuel : ℕ) (ids : List String) (c : Colors)
    → Sound deps [] c
    → whites (keys deps) c ≤ fuel
    → Ends deps [] c (AllSettled ids) (search_from deps fuel ids c)
unfolding search_from
search_from-Ends deps fuel [] c sound bound = (later_refl c, sound, λ x m. cc)
search_from-Ends deps fuel (id ∷ ids) c sound bound =
    at_color (lookup c id) refl (λ d s b. search_from-Ends deps fuel ids d s b)
  where
    at_color :
        (o : Option Color)
        → lookup c id ≡ o
        → ((d : Colors)
            → Sound deps [] d
            → whites (keys deps) d ≤ fuel
            → Ends deps [] d (AllSettled ids) (search_from deps fuel ids d))
        → Ends deps [] c (AllSettled (id ∷ ids)) (elim o as (λ x. Search) [
          | none ↦ search_from deps fuel ids c
          | some color ↦ elim color [
            | white ↦ and_then (visit deps fuel [] id c) (search_from deps fuel ids)
            | grey ↦ search_from deps fuel ids c
            | black ↦ search_from deps fuel ids c
          ]
        ])
    at_color none e rest =
        with_head deps [] tt (keys deps) fuel (visit deps fuel []) id ids c _ (inl e)
          (rest c sound bound)
    at_color (some grey) e rest = cc (sound.stacked id e)
    at_color (some black) e rest =
        with_head deps [] tt (keys deps) fuel (visit deps fuel []) id ids c _ (inr e)
          (rest c sound bound)
    at_color (some white) e rest =
        Ends-and_then deps [] c (λ d. lookup d id ≡ some black) (AllSettled (id ∷ ids))
          (visit deps fuel [] id c) (search_from deps fuel ids)
          (visit-Ends deps (keys deps) (found-key deps) fuel [] tt id c e tt sound bound)
          (λ d later s b.
            with_head deps [] tt (keys deps) fuel (visit deps fuel []) id ids d _ (inr b)
              (rest d s (omega (arith, whites-LaterColors (keys deps) c d later, bound))))

-- Each id has a number above those of its dependencies that are ids of the graph.
pub record Layered (rank : String → ℕ) (deps : Deps) : Type 0 where
  pub lower :
      (k : String) (ds : List String)
      → lookup deps k ≡ some ds
      → (x : String) (es : List String) → contains ds x ≡ true
      → lookup deps x ≡ some es
      → rank x < rank k

done-Layered :
    (deps : Deps) (c : Colors)
    → AllSettled (keys deps) c
    → (s : Sound deps [] c) → Layered s.numbered.rank deps
done-Layered deps c all s = record {
  lower = λ k ds e x es m f. elim (all k (found-key deps k ds e)) [
    | inl no_color ↦ let (color, at_k) = s.colored k ds e in cc
    | inr is_black ↦ elim (s.numbered.settled k ds is_black e x m) [
      | inl missing ↦ let (color, at_x) = s.colored x es f in cc
      | inr (_, low) ↦ low
    ]
  ];
}

result_cases :
    (deps : Deps) (c : Colors) (r : Search)
    → Ends deps [] c (AllSettled (keys deps)) r
    → ((ks : List String) × (r ≡ found ks) × IsCycle deps ks)
      ⊎ ((d : Colors) × (r ≡ searched d) × ((rank : String → ℕ) × Layered rank deps))
result_cases deps c (found ks) h = inl (ks, refl, h)
result_cases deps c exhausted h = absurd h
result_cases deps c (searched d) (later, sound, all) =
    inr (d, refl, (sound.numbered.rank, done-Layered deps d all sound))

-- `find_cycle` always ends. It gives a list of ids that begins and ends with the same id and in
-- which each id is a dependency of the one before it; or it gives none, and then the ids can be
-- numbered so that each has a higher number than those of its dependencies that are ids of nodes.
pub find_cycle_total :
    (nodes : List Node)
    → ((ks : List String) × (find_cycle nodes ≡ found ks) × IsCycle (dependencies nodes) ks)
      ⊎ ((c : Colors) × (find_cycle nodes ≡ searched c)
          × ((rank : String → ℕ) × Layered rank (dependencies nodes)))
unfolding find_cycle
find_cycle_total nodes =
    let deps = dependencies nodes in
    result_cases deps (all_white (keys deps)) _ (
      search_from-Ends deps (length deps) (keys deps) (all_white (keys deps)) (start-Sound deps)
        (omega (arith, all_white-whites (keys deps) (all_white (keys deps)), length-keys deps)))
