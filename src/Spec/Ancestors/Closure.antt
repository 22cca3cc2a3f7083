-- ===== src/Spec/Ancestors/Closure.antt =====
-- What `ancestors` of ge_runtime/spec.py collects.
use hermes_graph_engineering.Base.{
  ◌↔◌, ℕ, zero, suc, ◌+◌, ◌≤◌, String, ◌≡◌, refl, true, false, ◌||◌, Option, none, some, List, [],
  ◌∷◌, Table, lookup, contains, length, ◌==◌, string_eq, Bool-cases, inl, inr, arith,
}
use hermes_graph_engineering.Spec.{Node}
use hermes_graph_engineering.Spec.Topology.{dependencies}
use hermes_graph_engineering.Spec.Ancestors.{
  Deps, extend, next, gather, or_none_at_all, unseen, ancestors,
}

-- An id of the graph that the node waits for, directly or further up.
pub data Above (deps : Table String (List String)) (node_id : String) : String → Type 0 where
  direct :
      {ds es : List String} (x : String)
      → lookup deps node_id ≡ some ds
      → contains ds x ≡ true
      → lookup deps x ≡ some es
      → Above deps node_id x
  further :
      {ds es : List String} (y x : String)
      → Above deps node_id y
      → lookup deps y ≡ some ds
      → contains ds x ≡ true
      → lookup deps x ≡ some es
      → Above deps node_id x

length-extend : (ds pending : List String) → length (extend ds pending) ≡ length ds + length pending
length-extend [] pending = omega arith
length-extend (d ∷ ds) pending = omega (arith, length-extend ds (d ∷ pending))

unseen-more : (seen : List String) (c : String) (t : Deps) → unseen (c ∷ seen) t ≤ unseen seen t
unseen-more seen c [] = omega arith
unseen-more seen c ((k, ds) ∷ t) = ground (arith, unseen-more seen c t)

unseen-fewer :
    (seen : List String) (c : String) (t : Deps) (ds : List String)
    → lookup t c ≡ some ds
    → contains seen c ≡ false
    → unseen (c ∷ seen) t + length ds ≤ unseen seen t
unseen-fewer seen c [] ds e n = cc
unseen-fewer seen c ((k, es) ∷ t) ds e n = elim (Bool-cases (k == c)) [
  | inl here ↦
      let e' : some es ≡ some ds = rw here at e in
      let same : es ≡ ds = cc in
      let eq : k ≡ c = (string_eq.equal_iff k c).0 here in
      let self : (c == c) ≡ true = (string_eq.equal_iff c c).1 refl in
      rw (eq, self, n, same) (omega (arith, unseen-more seen c t))
  | inr later ↦
      let rest = unseen-fewer seen c t ds (rw later at e) n in
      ground (arith, rest, string_eq.equal_iff c k, string_eq.equal_iff k c)
]

contains-extend :
    (ds pending : List String) (x : String)
    → contains (extend ds pending) x ≡ (contains ds x || contains pending x)
contains-extend [] pending x = refl
contains-extend (d ∷ ds) pending x = ground (arith, contains-extend ds (d ∷ pending) x)

module _ (deps : Deps) (node_id : String) where
  record Going (pending seen : List String) : Type 0 where
    sound : (x : String) → contains seen x ≡ true → Above deps node_id x
    wanted :
        (x : String) (es : List String)
        → contains pending x ≡ true
        → lookup deps x ≡ some es
        → Above deps node_id x
    begun :
        (x : String) (ds es : List String)
        → lookup deps node_id ≡ some ds
        → contains ds x ≡ true
        → lookup deps x ≡ some es
        → (contains seen x || contains pending x) ≡ true
    closed :
        (y x : String) (ds es : List String)
        → contains seen y ≡ true
        → lookup deps y ≡ some ds
        → contains ds x ≡ true
        → lookup deps x ≡ some es
        → (contains seen x || contains pending x) ≡ true

  -- The popped id is not in the graph, or has been seen.
  drop-Going :
      (c : String) (pending seen : List String)
      → ((es : List String) → lookup deps c ≡ some es → contains seen c ≡ true)
      → Going (c ∷ pending) seen
      → Going pending seen
  drop-Going c pending seen old g = record {
    sound = g.sound;
    wanted = λ x es m e. g.wanted x es (ground arith) e;
    begun = λ x ds es a m e. popped x es e (g.begun x ds es a m e);
    closed = λ y x ds es s a m e. popped x es e (g.closed y x ds es s a m e);
  }
    where
      popped :
          (x : String) (es : List String)
          → lookup deps x ≡ some es
          → (contains seen x || contains (c ∷ pending) x) ≡ true
          → (contains seen x || contains pending x) ≡ true
      popped x es e h = elim (Bool-cases (c == x)) [
        | inl same ↦
            let eq : c ≡ x = (string_eq.equal_iff c x).0 same in
            let s : contains seen x ≡ true = rw (← eq) (old es (rw eq e)) in rw s refl
        | inr other ↦ rw other at h
      ]

  add-Going :
      (c : String) (pending seen cs : List String)
      → lookup deps c ≡ some cs
      → Going (c ∷ pending) seen
      → Going (extend cs pending) (c ∷ seen)
  add-Going c pending seen cs at_c g = record {
    sound = λ x m. elim (Bool-cases (c == x)) [
      | inl same ↦ let eq : c ≡ x = (string_eq.equal_iff c x).0 same in rw (← eq) above
      | inr other ↦ g.sound x (rw other at m)
    ];
    wanted = λ x es m e. elim (Bool-cases (contains cs x)) [
      | inl below ↦ further c x above at_c below e
      | inr other ↦
          let m' : contains pending x ≡ true = rw (contains-extend cs pending x, other) at m in
          g.wanted x es (ground arith) e
    ];
    begun = λ x ds es a m e. kept x (g.begun x ds es a m e);
    closed = λ y x ds es s a m e. elim (Bool-cases (c == y)) [
      | inl same ↦
          let eq : c ≡ y = (string_eq.equal_iff c y).0 same in
          let a' : lookup deps c ≡ some ds = rw eq a in
          let cd : cs ≡ ds = cc (at_c, a') in
          let m' : contains cs x ≡ true = rw cd m in
          rw (contains-extend cs pending x, m') (ground arith)
      | inr other ↦ kept x (g.closed y x ds es (rw other at s) a m e)
    ];
  }
    where
      above : Above deps node_id c
      above = g.wanted c cs (rw ((string_eq.equal_iff c c).1 refl) refl) at_c

      kept :
          (x : String)
          → (contains seen x || contains (c ∷ pending) x) ≡ true
          → (contains (c ∷ seen) x || contains (extend cs pending) x) ≡ true
      kept x h = rw (contains-extend cs pending x) (ground arith)

  -- A round keeps what is known, and has less to do.
  record Round (pending seen : List String) (after : List String × List String) : Type 0 where
    going : Going after.0 after.1
    less : length after.0 + unseen after.1 deps ≤ length pending + unseen seen deps

  next-Round :
      (c : String) (pending seen : List String) (o : Option (List String))
      → lookup deps c ≡ o
      → Going (c ∷ pending) seen
      → Round pending seen (next pending seen c o)
  unfolding next
  next-Round c pending seen none e g = record {
    going = drop-Going c pending seen (λ es f. cc (e, f)) g;
    less = omega arith;
  }
  next-Round c pending seen (some cs) e g = elim (Bool-cases (contains seen c)) [
    | inl old ↦
        rw old (record { going = drop-Going c pending seen (λ es f. old) g; less = omega arith })
    | inr new ↦ rw new (record {
      going = add-Going c pending seen cs e g;
      less = omega (arith, length-extend cs pending, unseen-fewer seen c deps cs e new);
    })
  ]

  gather-Going :
      (fuel : ℕ) (pending seen : List String)
      → length pending + unseen seen deps ≤ fuel
      → Going pending seen
      → (r : List String) × (gather deps fuel pending seen ≡ some r) × Going [] r
  unfolding gather
  gather-Going fuel [] seen b g = (seen, refl, g)
  gather-Going zero (c ∷ pending) seen b g = absurd (omega (arith, b))
  gather-Going (suc fuel) (c ∷ pending) seen b g =
      let step = next-Round c pending seen (lookup deps c) refl g in
      gather-Going fuel (next pending seen c (lookup deps c)).0
        (next pending seen c (lookup deps c)).1 (omega (arith, b, step.less)) step.going

  all-Above :
      (r : List String) → Going [] r → {x : String} → Above deps node_id x → contains r x ≡ true
  all-Above r g (direct x a m e) = let h = g.begun x _ _ a m e in ground (arith, h)
  all-Above r g (further y x above a m e) =
      let h = g.closed y x _ _ (all-Above r g above) a m e in ground (arith, h)

  start-Going : Going (extend (or_none_at_all (lookup deps node_id)) []) []
  start-Going = from (lookup deps node_id) refl
    where
      from :
          (o : Option (List String))
          → lookup deps node_id ≡ o
          → Going (extend (or_none_at_all o) []) []
      from none n = record {
        sound = λ x m. cc (m);
        wanted = λ x es m e. cc (m);
        begun = λ x ds es a m e. cc (n, a);
        closed = λ y x ds es s a m e. cc (s);
      }
      from (some cs) n = record {
        sound = λ x m. cc (m);
        wanted = λ x es m e.
            let m' : (contains cs x || false) ≡ true = rw (contains-extend cs [] x) at m in
            direct x n (ground arith) e;
        begun = λ x ds es a m e.
            let same : cs ≡ ds = cc (n, a) in
            let m' : contains cs x ≡ true = rw same m in rw (contains-extend cs [] x, m') refl;
        closed = λ y x ds es s a m e. cc (s);
      }

-- `ancestors` always ends, and what it collects is exactly the ids of the graph that the node
-- waits for, directly or through other nodes.
pub ancestors-Above :
    (nodes : List Node) (node_id : String)
    → (r : List String) × (ancestors nodes node_id ≡ some r)
      × ((x : String) → (contains r x ≡ true) ↔ Above (dependencies nodes) node_id x)
unfolding ancestors
ancestors-Above nodes node_id =
    let deps = dependencies nodes in
    let (r, e, g) =
      gather-Going deps node_id _ (extend (or_none_at_all (lookup deps node_id)) []) []
        (omega arith) (start-Going deps node_id) in
    (r, e, λ x. (g.sound x, λ above. all-Above deps node_id r g above))
