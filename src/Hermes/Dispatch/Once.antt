-- ===== src/Hermes/Dispatch/Once.antt =====
-- Claims as a write-ahead log: the executions of a node that is not safe to replay, in
-- ge_hermes/dispatch.py.
use hermes_graph_engineering.Base.{
  ℕ, suc, ◌≤◌, String, ◌≡◌, refl, sym, ◌∙◌, if◌then◌else◌, Bool, true, false, ◌&&◌, not, some, List,
  [], ◌∷◌, ◌++◌, map, arith, ◌==◌, string_eq, nat_eq, ltb,
}
use hermes_graph_engineering.Spec.{Node, GraphSpec, node}
use hermes_graph_engineering.Engine.State.{Env, Effect}
use hermes_graph_engineering.Engine.Recovery.{replay_safe}
use hermes_graph_engineering.Hermes.Host.{
  Step, engine, Host, outcome_of, call, is_work, count_if, claims, releases, release_claim,
}
use hermes_graph_engineering.Hermes.Delivery.{Dispatcher}
use hermes_graph_engineering.Hermes.Delivery.Kept.{Kept, interlude-kept}
use hermes_graph_engineering.Hermes.Dispatch.{drive}
use hermes_graph_engineering.Hermes.Dispatch.Kept.{drive-kept}

-- The executions of an attempt by the host.
abbrev pub executions : String → ℕ → List Step → ℕ
executions id a log = count_if (is_work id a) log

-- No execution without its claim, and at most one claim that was not released.
abbrev pub Held : String → ℕ → List Step → Type 0
Held id a log =
    (executions id a log ≤ claims id a log) × (claims id a log ≤ suc (releases id a log))

-- The same at every moment of the log, so that a crash leaves it so.
abbrev pub AtMostOnce : String → ℕ → List Step → Type 0
AtMostOnce id a [] = Held id a []
AtMostOnce id a (s ∷ ss) = Held id a (s ∷ ss) × AtMostOnce id a ss

held : (id : String) (a : ℕ) (log : List Step) → AtMostOnce id a log → Held id a log
held id a [] h = h
held id a (s ∷ ss) h = h.0

some-injective : (n m : Node) → some n ≡ some m → n ≡ m
some-injective n m e = cc

engine_steps :
    (id : String) (a : ℕ) (es : List Effect) (log : List Step)
    → AtMostOnce id a log
    → AtMostOnce id a (map engine es ++ log)
engine_steps id a [] log h = h
engine_steps id a (e ∷ es) log h =
    let rest = engine_steps id a es log h in (held id a (map engine es ++ log) rest, rest)

same_attempt : (x id : String) (y a : ℕ) → (x == id && y == a) ≡ true → (x ≡ id) × (y ≡ a)
same_attempt x id y a h =
    (ground (arith, string_eq.equal_iff x id), ground (arith, nat_eq.equal_iff y a))

-- A claim that is safe to make on a node that is not safe to replay has no open claim before it.
all_released :
    (x id : String) (y a : ℕ) (log : List Step) (safe : Bool)
    → x ≡ id
    → y ≡ a
    → safe ≡ false
    → (ltb (releases x y log) (claims x y log) && not safe) ≡ false
    → claims id a log ≤ releases id a log
all_released x id y a log safe e f g h =
    let h' : (ltb (releases id a log) (claims id a log) && true) ≡ false = rw (e, f, g) at h in
    ground (arith, h')

-- The counts after a claim, and after the work too.
one_more :
    (x : Bool) (made released works : ℕ)
    → works ≤ made
    → made ≤ suc released
    → (x ≡ true → made ≤ released)
    → (works ≤ (if x then suc made else made))
      × ((if x then suc made else made) ≤ suc released)
      × ((if x then suc works else works) ≤ (if x then suc made else made))
one_more true made released works p q r =
    let free = r refl in (omega (arith, p), omega (arith, free), omega (arith, p))
one_more false made released works p q r = (p, q, p)

release_counts :
    (x : Bool) (made released : ℕ)
    → made ≤ suc released
    → made ≤ suc (if x then suc released else released)
release_counts true made released q = omega (arith, q)
release_counts false made released q = q

module _ (env : Env) (spec : GraphSpec) (id : String) (a : ℕ) (n : Node)
    (found : node spec id ≡ some n) (unsafe : replay_safe n ≡ false) where
  -- A claim that is made on the node has no open claim before it.
  room :
      (m : Node) (x : String) (y : ℕ) (log : List Step)
      → node spec x ≡ some m
      → (ltb (releases x y log) (claims x y log) && not (replay_safe m)) ≡ false
      → (x == id && y == a) ≡ true
      → claims id a log ≤ releases id a log
  room m x y log at_x safe same =
      let (e, f) = same_attempt x id y a same in
      let at_id : node spec id ≡ some m = rw e at at_x in
      let g : n ≡ m = some-injective n m (sym found ∙ at_id) in
      all_released x id y a log (replay_safe m) e f (rw g at unsafe) safe

  AtMostOnce-Kept : Kept env spec (λ m h. AtMostOnce id a h.log)
  unfolding call release_claim
  AtMostOnce-Kept = record {
    submitted = λ m x sub h p. engine_steps id a _ h.log p;
    waited =
        interlude-kept env spec (λ m h. AtMostOnce id a h.log)
          (λ m op h p. engine_steps id a (outcome_of env spec op h).effects h.log p)
          (λ m rest h p. p);
    released = λ m order k reason h p.
        let (w, c) = held id a h.log p in
        (
          (
            w,
            release_counts (order.node == id && order.attempt == a) (claims id a h.log)
                (releases id a h.log) c,
          ),
          p,
        );
    claims_only = λ m nd order k h at_node safe p.
        let (w, c) = held id a h.log p in
        let (w', c', both) =
          one_more (order.node == id && order.attempt == a) (claims id a h.log)
            (releases id a h.log) (executions id a h.log) w c
            (room nd order.node order.attempt h.log at_node safe) in
        ((w', c'), p);
    claims_and_works = λ m nd order k h context at_node safe p.
        let (w, c) = held id a h.log p in
        let (w', c', both) =
          one_more (order.node == id && order.attempt == a) (claims id a h.log)
            (releases id a h.log) (executions id a h.log) w c
            (room nd order.node order.attempt h.log at_node safe) in
        ((both, c'), ((w', c'), p));
  }

-- For a node of the spec that has side effects or is not idempotent, and any attempt of it: if at
-- every moment of a log the host's executions of the attempt are at most as many as its claims, and
-- these at most one more than its releases, then the same holds of the log after `drive`, whatever
-- the host answers and whatever others do to the run in the meantime. So the attempt is executed
-- again only after a release of its claim, also where a crash leaves an earlier part of the log.
pub drive-AtMostOnce :
    (env : Env) (spec : GraphSpec) (d : Dispatcher) (id : String) (a : ℕ) (n : Node)
    → node spec id ≡ some n
    → replay_safe n ≡ false
    → (h : Host) → AtMostOnce id a h.log
    → AtMostOnce id a (drive env spec d h).host.log
drive-AtMostOnce env spec d id a n found unsafe h once =
    let (m, le, after) =
      drive-kept env spec d (λ m h. AtMostOnce id a h.log)
        (AtMostOnce-Kept env spec id a n found unsafe) (λ m p h q. q) h once in
    after
