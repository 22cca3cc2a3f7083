-- ===== src/Hermes/Dispatch/Reached.antt =====
-- How the dispatcher of ge_hermes/dispatch.py changes the state of a run.
use hermes_graph_engineering.Base.{String, refl, inl, inr, List, [], ◌∷◌, Among}
use hermes_graph_engineering.Spec.{GraphSpec}
use hermes_graph_engineering.Engine.State.{RunState, Env}
use hermes_graph_engineering.Engine.Operations.{Submission, submit}
use hermes_graph_engineering.Engine.Lifecycle.{Operation, loaded, perform}
use hermes_graph_engineering.Hermes.Host.{
  Host, on_disk, call, call_all, gap, interlude, release_claim,
}
use hermes_graph_engineering.Hermes.Delivery.{Dispatcher}
use hermes_graph_engineering.Hermes.Delivery.Kept.{Kept}
use hermes_graph_engineering.Hermes.Dispatch.{drive}
use hermes_graph_engineering.Hermes.Dispatch.Kept.{drive-kept}

-- An operation that others make at one of the moments.
abbrev pub MadeIn : List (List Operation) → Operation → Type 0
MadeIn moments op = (ops : List Operation) × Among moments ops × Among ops op

-- The states that a run comes to from one by submissions in the name of the autonomous host, and by
-- the operations that others make.
pub data Submits (env : Env) (spec : GraphSpec) (moments : List (List Operation)) (s : RunState)
    : RunState → Type 0 where
  start : Submits env spec moments s s
  submitted :
      {before : RunState}
      → Submits env spec moments s before
      → (id : String) (sub : Submission)
      → Submits env spec moments s
          (on_disk before (submit env spec id sub "agent:host-autonomous" (loaded before)).effects)
  others_act :
      {before : RunState}
      → Submits env spec moments s before
      → (op : Operation) → MadeIn moments op
      → Submits env spec moments s (on_disk before (perform env spec op before).effects)

module _ (env : Env) (spec : GraphSpec) (moments : List (List Operation)) (s : RunState) where
  -- What is left of the moments is of them.
  abbrev On : Host → Type 0
  On h =
      ((ops : List Operation) → Among h.others ops → Among moments ops)
      × Submits env spec moments s h.state

  call-On : (op : Operation) (h : Host) → MadeIn moments op → On h → On (call env spec op h)
  unfolding call
  call-On op h made p = (p.0, others_act p.1 op made)

  call_all-On :
      (ops : List Operation) (h : Host)
      → ((op : Operation) → Among ops op → MadeIn moments op)
      → On h
      → On (call_all env spec ops h)
  unfolding call_all
  call_all-On [] h made p = p
  call_all-On (op ∷ ops) h made p =
      call_all-On ops (call env spec op h) (λ o among. made o (inr among))
        (call-On op h (made op (inl refl)) p)

  gap-On :
      (os : List (List Operation)) (h : Host)
      → ((ops : List Operation) → Among os ops → Among moments ops)
      → On h
      → On (gap env spec os h)
  unfolding gap
  gap-On [] h left p = p
  gap-On (ops ∷ rest) h left p =
      call_all-On ops (record h { others = rest }) (λ op among. (ops, left ops (inl refl), among))
        (λ o among. left o (inr among), p.1)

  Submits-Kept : Kept env spec (λ m h. On h)
  unfolding call perform release_claim interlude
  Submits-Kept = record {
    submitted = λ m id sub h p. (p.0, submitted p.1 id sub);
    waited = λ m h p. gap-On h.others h p.0 p;
    released = λ m order k reason h p. p;
    claims_only = λ m n order k h found safe p. p;
    claims_and_works = λ m n order k h context found safe p. p;
  }

-- The dispatcher changes the state of a run by submissions alone, in the name of the autonomous
-- host: from the state before `drive`, the state after it is come to by such submissions and by the
-- operations that others make in the meantime, and by nothing else where there are none.
pub drive-Submits :
    (env : Env) (spec : GraphSpec) (d : Dispatcher) (h : Host)
    → Submits env spec h.others h.state (drive env spec d h).host.state
drive-Submits env spec d h =
    let (m, le, after) =
      drive-kept env spec d (λ m h'. On env spec h.others h.state h')
        (Submits-Kept env spec h.others h.state) (λ m p h' q. q) h (λ ops among. among, start) in
    after.1
