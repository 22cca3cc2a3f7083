-- ===== src/Hermes/Dispatch/Kept.antt =====
-- Properties of a run that `drive` of ge_hermes/dispatch.py keeps.
use hermes_graph_engineering.Base.{
  if◌then◌else◌, ℕ, zero, suc, ◌≤◌, ◌≡◌, refl, Bool, true, false, Option, none, some, List, [], ◌∷◌,
  ◌++◌, if_cases, arith, leb,
}
use hermes_graph_engineering.States.{run_terminal}
use hermes_graph_engineering.Spec.{Node, GraphSpec, node}
use hermes_graph_engineering.Engine.State.{RunState, Env}
use hermes_graph_engineering.Engine.Views.{WorkOrder, pending_work}
use hermes_graph_engineering.Hermes.Guard.{Process, acquire}
use hermes_graph_engineering.Hermes.Host.{
  claim_note, unsafe_replay, claim_if, Host, interlude, claim,
}
use hermes_graph_engineering.Hermes.Delivery.{
  time_budget_exhausted, budget_exhausted, run_finished, plan_not_approved, Stop, Dispatcher, Entry,
  Turn, went_on, stopped_at, raised_in, stuck, execute_and_submit,
}
use hermes_graph_engineering.Hermes.Delivery.Kept.{Kept, execute_and_submit-kept}
use hermes_graph_engineering.Hermes.Dispatch.{
  WorkerScope, drive_in, stop, Driven, is_draft, over_time, after_turn, after_claim, dispatch_order,
  dispatch_first, round, drive_from, drive_locked, drive_acquired, drive,
}

-- The property holds after at most so many dispatches.
abbrev pub Within : (P : ℕ → Host → Type 0) → ℕ → Host → Type 0
Within P most h = (m : ℕ) × (m ≤ most) × P m h

module _ (env : Env) (spec : GraphSpec) (d : Dispatcher) (P : ℕ → Host → Type 0)
    (kept : Kept env spec P) (most : ℕ) where
  -- The next round keeps the property.
  abbrev Next : ℕ → (List Entry → Host → Driven) → Type 0
  Next m next = (entries : List Entry) (h : Host) → P m h → Within P most (next entries h).host

  after_turn-kept :
      (m : ℕ) (next : List Entry → Host → Driven) (entries : List Entry) (t : Turn) (h : Host)
      → Next m next
      → m ≤ most
      → P m h
      → Within P most (after_turn env spec d next entries (t, h)).host
  unfolding after_turn
  after_turn-kept m next entries (went_on e) h on le p = on (entries ++ e ∷ []) h p
  after_turn-kept m next entries (stopped_at e reason) h on le p = (m, le, p)
  after_turn-kept m next entries (raised_in code) h on le p = (m, le, p)
  after_turn-kept m next entries stuck h on le p = (m, le, p)

  after_claim-kept :
      (m : ℕ) (next : List Entry → Host → Driven) (entries : List Entry) (s : RunState) (n : Node)
      (order : WorkOrder) (k : ℕ) (waits unsafe : Bool) (h : Host)
      → Next (suc m) next
      → suc m ≤ most
      → node spec order.node ≡ some n
      → unsafe_replay n order h ≡ unsafe
      → P m h
      → Within P most
          (after_claim env spec d next entries s order (claim_if waits unsafe order k h)).host
  unfolding after_claim claim_if
  after_claim-kept m next entries s n order k false unsafe h on le found same p =
      (m, omega (arith, le), p)
  after_claim-kept m next entries s n order k true true h on le found same p =
      (m, omega (arith, le), p)
  after_claim-kept m next entries s n order k true false h on le found same p =
      let (t, h') = execute_and_submit env spec d s order k (claim_note order k h) in
      after_turn-kept (suc m) next entries t h' on le
        (execute_and_submit-kept env spec d P kept m n order k s h found same p)

  dispatch_order-kept :
      (m : ℕ) (next : List Entry → Host → Driven) (entries : List Entry) (order : WorkOrder)
      (n : Option Node) (h : Host)
      → Next (suc m) next
      → suc m ≤ most
      → node spec order.node ≡ n
      → P m h
      → Within P most (dispatch_order env spec d next entries order n h).host
  unfolding dispatch_order claim
  dispatch_order-kept m next entries order none h on le found p = (m, omega (arith, le), p)
  dispatch_order-kept m next entries order (some n) h on le found p =
      after_claim-kept m next entries h.state n order _ _ _ (interlude env spec h) on le found refl
        (kept.waited m h p)

  dispatch_first-kept :
      (m : ℕ) (next : List Entry → Host → Driven) (entries : List Entry) (orders : List WorkOrder)
      (h : Host)
      → (suc m ≤ most → Next (suc m) next)
      → d.max_dispatches ≡ most
      → m ≤ most
      → P m h
      → Within P most (dispatch_first env spec d next m entries orders h).host
  unfolding dispatch_first
  dispatch_first-kept m next entries [] h on is le p = (m, le, p)
  dispatch_first-kept m next entries (order ∷ orders) h on is le p =
      if_cases (λ (r : Driven). Within P most r.host) (leb d.max_dispatches m)
        {x = stop entries budget_exhausted h} {y = later} (λ full. (m, le, p))
        (λ under.
          if_cases (λ (r : Driven). Within P most r.host) (over_time env spec d m)
            {x = stop entries time_budget_exhausted h} {y = one} (λ late. (m, le, p))
            (λ early.
              dispatch_order-kept m next entries order (node spec order.node) h (on (ground arith))
                (ground arith) refl p))
    where
      one : Driven
      one = dispatch_order env spec d next entries order (node spec order.node) h

      later : Driven
      later = if over_time env spec d m then stop entries time_budget_exhausted h else one

  round-kept :
      (m : ℕ) (next : List Entry → Host → Driven) (entries : List Entry) (h : Host)
      → (suc m ≤ most → Next (suc m) next)
      → d.max_dispatches ≡ most
      → m ≤ most
      → P m h
      → Within P most (round env spec d next m entries h).host
  unfolding round
  round-kept m next entries h on is le p =
      let first = dispatch_first env spec d next m entries (pending_work h.state spec) h in
      either_stops (run_terminal h.state.status) (run_finished h.state.status)
        (if is_draft h.state.status then stop entries plan_not_approved h else first)
        (either_stops (is_draft h.state.status) plan_not_approved first
          (dispatch_first-kept m next entries (pending_work h.state spec) h on is le p))
    where
      either_stops :
          (b : Bool) (reason : Stop) (r : Driven)
          → Within P most r.host
          → Within P most (if b then stop entries reason h else r).host
      either_stops true reason r q = (m, le, p)
      either_stops false reason r q = q

  drive_from-kept :
      (fuel m : ℕ) (entries : List Entry) (h : Host)
      → d.max_dispatches ≡ most
      → m ≤ most
      → P m h
      → Within P most (drive_from env spec d fuel m entries h).host
  unfolding drive_from
  drive_from-kept zero m entries h is le p = (m, le, p)
  drive_from-kept (suc fuel) m entries h is le p =
      round-kept m (drive_from env spec d fuel (suc m)) entries (interlude env spec h)
        (λ more entries' h' p'. drive_from-kept fuel (suc m) entries' h' is more p') is le
        (kept.waited m h p)

module _ (env : Env) (spec : GraphSpec) (d : Dispatcher) (P : ℕ → Host → Type 0)
    (kept : Kept env spec P) where
  pub drive_locked-kept :
      (h : Host) → P 0 h → Within P d.max_dispatches (drive_locked env spec d h).host
  unfolding drive_locked
  drive_locked-kept h q =
      drive_from-kept env spec d P kept d.max_dispatches (suc d.max_dispatches) 0 [] h refl
        (omega arith) q

  -- Of a property that does not look at the process.
  module _
      (anywhere : (m : ℕ) (p : Process) (h : Host) → P m h → P m (record h { process = p })) where
    drive_acquired-kept :
        (b : Bool) (p : Process) (h : Host)
        → P 0 h
        → Within P d.max_dispatches (drive_acquired env spec d (b, p) h).host
    unfolding drive_acquired
    drive_acquired-kept false p h q = (0, omega arith, anywhere 0 _ h q)
    drive_acquired-kept true p h q =
        let (m, le, after) = drive_locked-kept (record h { process = p }) (anywhere 0 p h q) in
        (m, le, anywhere m _ _ after)

    drive_in-kept :
        (scope : Option WorkerScope) (h : Host)
        → P 0 h
        → Within P d.max_dispatches (drive_in env spec d scope h).host
    unfolding drive_in
    drive_in-kept (some scope) h q = (0, omega arith, q)
    drive_in-kept none h q =
        let (b, p') = acquire d.state_key h.state.run_id h.process in drive_acquired-kept b p' h q

    pub drive-kept : (h : Host) → P 0 h → Within P d.max_dispatches (drive env spec d h).host
    unfolding drive
    drive-kept h q = drive_in-kept h.process.worker h q
