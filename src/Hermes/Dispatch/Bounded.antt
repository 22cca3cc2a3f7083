-- ===== src/Hermes/Dispatch/Bounded.antt =====
-- That `drive` of ge_hermes/dispatch.py ends, and how often it lets the host work.
use hermes_graph_engineering.Engine.Lifecycle.{submit_node, Operation}
use hermes_graph_engineering.Base.{
  ℕ, zero, suc, ◌+◌, ◌≤◌, ◌≡◌, refl, Bool, true, false, Option, none, some, List, [], ◌∷◌, ◌++◌,
  map, arith, leb, if◌then◌else◌,
}
use hermes_graph_engineering.States.{run_terminal}
use hermes_graph_engineering.Spec.{Node, GraphSpec, node}
use hermes_graph_engineering.Engine.State.{RunState, Env, Effect}
use hermes_graph_engineering.Engine.Views.{WorkOrder, pending_work}
use hermes_graph_engineering.Hermes.Guard.{Process, WorkerScope, acquire}
use hermes_graph_engineering.Hermes.Host.{
  Step, engine, worked, Host, count_if, outcome_of, call, release_claim, interlude, claim, claim_if,
  claim_note,
}
use hermes_graph_engineering.Hermes.Delivery.{
  submitter, Dispatcher, Entry, Stop, Turn, went_on, stopped_at, raised_in, stuck,
  execute_and_submit, run_finished, plan_not_approved, budget_exhausted, time_budget_exhausted,
}
use hermes_graph_engineering.Hermes.Delivery.Kept.{Kept, interlude-kept}
use hermes_graph_engineering.Hermes.Delivery.Ends.{TurnEnds, execute_and_submit-TurnEnds}
use hermes_graph_engineering.Hermes.Dispatch.{
  Ending, stopped, raised, out_of_fuel, Driven, stop, is_draft, over_time, after_turn, after_claim,
  dispatch_order, dispatch_first, round, drive_from, drive_locked, drive_acquired, drive_in, drive,
}
use hermes_graph_engineering.Hermes.Dispatch.Kept.{drive-kept}

abbrev pub is_work_step : Step → Bool
is_work_step (worked p order context) = true
is_work_step step = false

-- How often the host has worked on a node.
abbrev pub works : List Step → ℕ
works log = count_if is_work_step log

engine-works : (es : List Effect) (log : List Step) → works (map engine es ++ log) ≡ works log
engine-works [] log = refl
engine-works (e ∷ es) log = engine-works es log

works-called :
    (env : Env) (spec : GraphSpec) (before m : ℕ) (op : Operation) (h : Host)
    → works h.log ≤ before + m
    → works (call env spec op h).log ≤ before + m
unfolding call
works-called env spec before m op h p = rw (engine-works (outcome_of env spec op h).effects h.log) p

works-Kept :
    (env : Env) (spec : GraphSpec) (before : ℕ) → Kept env spec (λ m h. works h.log ≤ before + m)
unfolding call release_claim
works-Kept env spec before = record {
  submitted = λ m id sub h p. works-called env spec before m (submit_node id sub submitter) h p;
  waited =
      interlude-kept env spec (λ m h. works h.log ≤ before + m) (works-called env spec before)
        (λ m rest h p. p);
  released = λ m order k reason h p. p;
  claims_only = λ m n order k h found safe p. omega (arith, p);
  claims_and_works = λ m n order k h context found safe p. omega (arith, p);
}

-- A report, or an error of the engine.
abbrev pub Ends : Ending → Type 0
Ends (stopped entries reason) = Unit
Ends (raised code) = Unit
Ends out_of_fuel = ⊥

module _ (env : Env) (spec : GraphSpec) (d : Dispatcher) where
  abbrev NextEnds : (List Entry → Host → Driven) → Type 0
  NextEnds next = (entries : List Entry) (h : Host) → Ends (next entries h).ending

  after_turn-Ends :
      (next : List Entry → Host → Driven) (entries : List Entry) (t : Turn) (h : Host)
      → NextEnds next
      → TurnEnds (t, h)
      → Ends (after_turn env spec d next entries (t, h)).ending
  unfolding after_turn
  after_turn-Ends next entries (went_on e) h on t = on (entries ++ e ∷ []) h
  after_turn-Ends next entries (stopped_at e reason) h on t = tt
  after_turn-Ends next entries (raised_in code) h on t = tt
  after_turn-Ends next entries stuck h on t = t

  after_claim-Ends :
      (next : List Entry → Host → Driven) (entries : List Entry) (s : RunState) (order : WorkOrder)
      (k : ℕ) (waits unsafe : Bool) (h : Host)
      → NextEnds next
      → Ends (after_claim env spec d next entries s order (claim_if waits unsafe order k h)).ending
  unfolding after_claim claim_if
  after_claim-Ends next entries s order k false unsafe h on = tt
  after_claim-Ends next entries s order k true true h on = tt
  after_claim-Ends next entries s order k true false h on =
      let (t, h') = execute_and_submit env spec d s order k (claim_note order k h) in
      after_turn-Ends next entries t h' on
        (execute_and_submit-TurnEnds env spec d s order k (claim_note order k h))

  dispatch_order-Ends :
      (next : List Entry → Host → Driven) (entries : List Entry) (order : WorkOrder)
      (n : Option Node) (h : Host)
      → NextEnds next
      → Ends (dispatch_order env spec d next entries order n h).ending
  unfolding dispatch_order claim
  dispatch_order-Ends next entries order none h on = tt
  dispatch_order-Ends next entries order (some n) h on =
      after_claim-Ends next entries h.state order _ _ _ (interlude env spec h) on

  either_stops :
      (b : Bool) (entries : List Entry) (reason : Stop) (h : Host) (r : Driven)
      → (b ≡ false → Ends r.ending)
      → Ends (if b then stop entries reason h else r).ending
  either_stops true entries reason h r q = tt
  either_stops false entries reason h r q = q refl

  dispatch_first-Ends :
      (next : List Entry → Host → Driven) (m : ℕ) (entries : List Entry) (orders : List WorkOrder)
      (h : Host)
      → (leb d.max_dispatches m ≡ false → NextEnds next)
      → Ends (dispatch_first env spec d next m entries orders h).ending
  unfolding dispatch_first
  dispatch_first-Ends next m entries [] h on = tt
  dispatch_first-Ends next m entries (order ∷ orders) h on =
      let one = dispatch_order env spec d next entries order (node spec order.node) h in
      either_stops (leb d.max_dispatches m) entries budget_exhausted h
        (if over_time env spec d m then stop entries time_budget_exhausted h else one)
        (λ under.
          either_stops (over_time env spec d m) entries time_budget_exhausted h one
            (λ early. dispatch_order-Ends next entries order (node spec order.node) h (on under)))

  round-Ends :
      (next : List Entry → Host → Driven) (m : ℕ) (entries : List Entry) (h : Host)
      → (leb d.max_dispatches m ≡ false → NextEnds next)
      → Ends (round env spec d next m entries h).ending
  unfolding round
  round-Ends next m entries h on =
      let first = dispatch_first env spec d next m entries (pending_work h.state spec) h in
      either_stops (run_terminal h.state.status) entries (run_finished h.state.status) h
        (if is_draft h.state.status then stop entries plan_not_approved h else first)
        (λ alive.
          either_stops (is_draft h.state.status) entries plan_not_approved h first
            (λ planned. dispatch_first-Ends next m entries (pending_work h.state spec) h on))

  drive_from-Ends :
      (fuel m : ℕ) (entries : List Entry) (h : Host)
      → suc d.max_dispatches ≤ fuel + m
      → m ≤ d.max_dispatches
      → Ends (drive_from env spec d fuel m entries h).ending
  unfolding drive_from
  drive_from-Ends zero m entries h enough within = omega (arith, enough, within)
  drive_from-Ends (suc fuel) m entries h enough within =
      round-Ends (drive_from env spec d fuel (suc m)) m entries (interlude env spec h)
        (λ under entries' h'.
          drive_from-Ends fuel (suc m) entries' h' (omega (arith, enough))
            (ground (arith, under, within)))

  drive_acquired-Ends :
      (b : Bool) (p : Process) (h : Host) → Ends (drive_acquired env spec d (b, p) h).ending
  unfolding drive_acquired drive_locked
  drive_acquired-Ends false p h = tt
  drive_acquired-Ends true p h =
      drive_from-Ends (suc d.max_dispatches) 0 [] (record h { process = p }) (omega arith)
        (omega arith)

  drive_in-Ends :
      (scope : Option WorkerScope) (h : Host) → Ends (drive_in env spec d scope h).ending
  unfolding drive_in
  drive_in-Ends (some scope) h = tt
  drive_in-Ends none h =
      let (b, p') = acquire d.state_key h.state.run_id h.process in drive_acquired-Ends b p' h

-- `drive` always ends, with a report or with an error of the engine, and in it the host works on at
-- most `max_dispatches` nodes.
pub drive_total :
    (env : Env) (spec : GraphSpec) (d : Dispatcher) (h : Host)
    → Ends (drive env spec d h).ending
      × (works (drive env spec d h).host.log ≤ works h.log + d.max_dispatches)
unfolding drive
drive_total env spec d h =
    let (m, le, after) =
      drive-kept env spec d (λ m h'. works h'.log ≤ works h.log + m)
        (works-Kept env spec (works h.log)) (λ m p h q. q) h (omega arith) in
    (drive_in-Ends env spec d h.process.worker h, omega (arith, le, after))
