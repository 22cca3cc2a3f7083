-- ===== src/Hermes/Dispatch/Stops.antt =====
-- What the reasons of a report of `drive` of ge_hermes/dispatch.py say of the run.
use hermes_graph_engineering.Base.{
  String, inr, inl, ltb, Bool-cases, nat_eq, has, ◌⊎◌, ◌<◌, ap, ◌∙◌, ℕ, zero, suc, ◌≤◌, ◌≡◌, refl,
  Bool, ◌&&◌, true, false, Option, none, some, List, [], ◌∷◌, ◌++◌, length, length-append, lookup,
  arith, leb, if◌then◌else◌, string_eq,
}
use hermes_graph_engineering.States.{node_status_eq, NodeStatus, run_terminal}
use hermes_graph_engineering.Spec.{Node, GraphSpec, node}
use hermes_graph_engineering.Engine.State.{Wait, NodeState, RunState, Env}
use hermes_graph_engineering.Engine.Views.{WorkOrder, pending_work}
use hermes_graph_engineering.Hermes.Guard.{Process, WorkerScope, acquire, release}
use hermes_graph_engineering.Hermes.Host.{
  claims, releases, Host, interlude, claim, claim_if, claim_note, unsafe_replay, still_waits,
}
use hermes_graph_engineering.Hermes.Delivery.{
  Dispatcher, Entry, Stop, Turn, went_on, stopped_at, raised_in, stuck, execute_and_submit,
  run_finished, no_pending_work, interrupted_dispatch, host_unavailable, host_declined,
  state_changed, plan_not_approved, budget_exhausted, time_budget_exhausted, worker_context,
}
use hermes_graph_engineering.Hermes.Delivery.Ends.{FromTurn, TurnEnds, execute_and_submit-TurnEnds}
use hermes_graph_engineering.Hermes.Dispatch.{
  RunStatus, Ending, stopped, raised, out_of_fuel, Driven, stop, is_draft, over_time, after_turn,
  after_claim, dispatch_order, dispatch_first, round, drive_from, drive_locked, drive_acquired,
  drive_in, drive,
}

-- The node waits for the submission of the attempt of the order.
abbrev pub Waits : WorkOrder → Option NodeState → Type 0
Waits order none = ⊥
Waits order (some ns) =
    (ns.status ≡ NodeStatus.running)
    × (ns.wait ≡ some Wait.submission)
    × (ns.attempts ≡ order.attempt)

-- What the reason says of the entry that is the last one.
abbrev pub LastEntry : List Entry → Host → Stop → Type 0
LastEntry entries h reason =
    (before : List Entry) × (e : Entry) × (entries ≡ before ++ e ∷ []) × FromTurn e h reason

both :
    (status : NodeStatus) (wait : Option Wait)
    → (node_status_eq status NodeStatus.running
        && elim wait [ none ↦ false | some w ↦ elim w [ Wait.submission ↦ true | _ ↦ false ] ])
      ≡ true
    → (status ≡ NodeStatus.running) × (wait ≡ some Wait.submission)
both NodeStatus.running (some Wait.submission) e = (refl, refl)
both status wait e = cc

still_waits-Waits :
    (order : WorkOrder) (ns : Option NodeState) → still_waits order ns ≡ true → Waits order ns
still_waits-Waits order none e = cc
still_waits-Waits order (some ns) e =
    let (running, held) = both ns.status ns.wait (ground arith) in
    (running, held, ground (arith, nat_eq.equal_iff ns.attempts order.attempt))

Waits-still_waits :
    (order : WorkOrder) (ns : Option NodeState) → Waits order ns → still_waits order ns ≡ true
Waits-still_waits order none w = absurd w
Waits-still_waits order (some ns) (running, held, same) =
    rw (running, held, same) ((nat_eq.equal_iff order.attempt order.attempt).1 refl)

unsafe_of :
    (n : Node) (order : WorkOrder) (h : Host)
    → unsafe_replay n order h ≡ true
    → (releases order.node order.attempt h.log < claims order.node order.attempt h.log)
      × ((n.idempotent ≡ false) ⊎ (n.side_effects ≡ true))
unsafe_of n order h e = (
  ground arith,
  elim (Bool-cases n.idempotent) [
    | inl is ↦ let side : n.side_effects ≡ true = ground arith in inr side
    | inr other ↦ inl other
  ],
)

draft_of : (status : RunStatus) → is_draft status ≡ true → status ≡ RunStatus.draft
draft_of RunStatus.draft e = refl
draft_of status e = cc

refused :
    (state_key run_id : String) (p : Process)
    → (acquire state_key run_id p).0 ≡ false
    → has p.leases state_key ≡ true
unfolding acquire
refused state_key run_id p e = elim (Bool-cases (has p.leases state_key)) [
  | inl taken ↦ taken
  | inr free ↦ let e' : true ≡ false = rw (free, acquire) at e in cc
]

-- `p` is the process in which `drive` is called.
module _ (env : Env) (spec : GraphSpec) (d : Dispatcher) (p : Process) where
  -- The order that is chosen is the first that is pending on the state that `drive` has loaded, and
  -- others may have worked on the run since.
  abbrev pub Chosen : WorkOrder → Host → Type 0
  Chosen order h =
      (loaded : Host) × (orders : List WorkOrder) × (pending_work loaded.state spec
        ≡ order ∷ orders)
      × ((interlude env spec loaded).state ≡ h.state)
      × ((interlude env spec loaded).log ≡ h.log)

  -- What a reason says of the entries of its report and of the run that is left.
  abbrev pub Says : List Entry → Host → Stop → Type 0
  Says entries h (run_finished status) =
      (status ≡ h.state.status) × (run_terminal h.state.status ≡ true)
  Says entries h plan_not_approved = h.state.status ≡ RunStatus.draft
  Says entries h (no_pending_work holds) =
      (holds ≡ h.state.holds) × (pending_work h.state spec ≡ [])
  Says entries h budget_exhausted = d.max_dispatches ≤ length entries
  Says entries h time_budget_exhausted =
      (1 ≤ length entries)
      × ((seconds : ℕ) × (d.call_budget_seconds ≡ some seconds)
          × (seconds ≤ d.elapsed (length entries)))
  Says entries h (interrupted_dispatch id) =
      (order : WorkOrder) × (n : Node) × Chosen order h
      × (order.node ≡ id)
      × (node spec id ≡ some n)
      × Waits order (lookup h.state.nodes order.node)
      × (releases id order.attempt h.log < claims id order.attempt h.log)
      × ((n.idempotent ≡ false) ⊎ (n.side_effects ≡ true))
  Says entries h (state_changed none) =
      (order : WorkOrder) × Chosen order h × (Waits order (lookup h.state.nodes order.node) → ⊥)
  Says entries h (state_changed (some code)) = LastEntry entries h (state_changed (some code))
  Says entries h (host_unavailable detail) = LastEntry entries h (host_unavailable detail)
  Says entries h (host_declined detail) = LastEntry entries h (host_declined detail)
  Says entries h Stop.dispatch_in_progress = (entries ≡ []) × (has p.leases d.state_key ≡ true)
  Says entries h worker_context = (entries ≡ []) × (p.worker ≡ none → ⊥)

  abbrev pub Explained : Host → Ending → Type 0
  Explained h (stopped entries reason) = Says entries h reason
  Explained h (raised code) = Unit
  Explained h out_of_fuel = Unit

  -- The next round, after one more entry.
  abbrev NextSays : ℕ → (List Entry → Host → Driven) → Type 0
  NextSays m next =
      (entries : List Entry) (h : Host)
      → length entries ≡ m
      → Explained (next entries h).host (next entries h).ending

  from_turn :
      (entries : List Entry) (e : Entry) (h : Host) (reason : Stop)
      → FromTurn e h reason
      → Says (entries ++ e ∷ []) h reason
  from_turn entries e h (host_unavailable detail) t = (entries, e, refl, t)
  from_turn entries e h (host_declined detail) t = (entries, e, refl, t)
  from_turn entries e h (state_changed (some code)) t = (entries, e, refl, t)
  from_turn entries e h reason t = absurd t

  after_turn-Says :
      (m : ℕ) (next : List Entry → Host → Driven) (entries : List Entry) (t : Turn) (h : Host)
      → NextSays (suc m) next
      → length entries ≡ m
      → TurnEnds (t, h)
      → Explained
          (after_turn env spec d next entries (t, h)).host
          (after_turn env spec d next entries (t, h)).ending
  unfolding after_turn
  after_turn-Says m next entries (went_on e) h on l t =
      on (entries ++ e ∷ []) h (omega (arith, l, length-append entries (e ∷ [])))
  after_turn-Says m next entries (stopped_at e reason) h on l t = from_turn entries e h reason t
  after_turn-Says m next entries (raised_in code) h on l t = tt
  after_turn-Says m next entries stuck h on l t = tt

  after_claim-Says :
      (m : ℕ) (next : List Entry → Host → Driven) (entries : List Entry) (s : RunState) (n : Node)
      (order : WorkOrder) (k : ℕ) (waits unsafe : Bool) (h : Host)
      → NextSays (suc m) next
      → length entries ≡ m
      → node spec order.node ≡ some n
      → still_waits order (lookup h.state.nodes order.node) ≡ waits
      → unsafe_replay n order h ≡ unsafe
      → Chosen order h
      → Explained
          (after_claim env spec d next entries s order (claim_if waits unsafe order k h)).host
          (after_claim env spec d next entries s order (claim_if waits unsafe order k h)).ending
  unfolding after_claim claim_if
  after_claim-Says m next entries s n order k false unsafe h on l found e f chosen =
      (order, chosen, still e)
    where
      still :
          still_waits order (lookup h.state.nodes order.node) ≡ false
          → Waits order (lookup h.state.nodes order.node)
          → ⊥
      still e w = let e' = Waits-still_waits order (lookup h.state.nodes order.node) w in cc
  after_claim-Says m next entries s n order k true true h on l found e f chosen =
      let (open_claim, why) = unsafe_of n order h f in
      (order, n, chosen, refl, found, still_waits-Waits order _ e, open_claim, why)
  after_claim-Says m next entries s n order k true false h on l found e f chosen =
      let (t, h') = execute_and_submit env spec d s order k (claim_note order k h) in
      after_turn-Says m next entries t h' on l
        (execute_and_submit-TurnEnds env spec d s order k (claim_note order k h))

  dispatch_order-Says :
      (m : ℕ) (next : List Entry → Host → Driven) (entries : List Entry) (order : WorkOrder)
      (n : Option Node) (orders : List WorkOrder) (h : Host)
      → NextSays (suc m) next
      → length entries ≡ m
      → node spec order.node ≡ n
      → pending_work h.state spec ≡ order ∷ orders
      → Explained
          (dispatch_order env spec d next entries order n h).host
          (dispatch_order env spec d next entries order n h).ending
  unfolding dispatch_order claim
  dispatch_order-Says m next entries order none orders h on l found is = tt
  dispatch_order-Says m next entries order (some n) orders h on l found is =
      after_claim-Says m next entries h.state n order _ _ _ (interlude env spec h) on l found refl
        refl (h, orders, is, refl, refl)

  over_budget :
      (entries : List Entry)
      → over_time env spec d (length entries) ≡ true
      → (1 ≤ length entries)
        × ((seconds : ℕ) × (d.call_budget_seconds ≡ some seconds)
            × (seconds ≤ d.elapsed (length entries)))
  over_budget entries e = late (length entries) d.call_budget_seconds refl e
    where
      late :
          (m : ℕ) (budget : Option ℕ)
          → d.call_budget_seconds ≡ budget
          → (ltb 0 m && elim budget [ none ↦ false | some seconds ↦ leb seconds (d.elapsed m) ])
            ≡ true
          → (1 ≤ m)
            × ((seconds : ℕ) × (d.call_budget_seconds ≡ some seconds) × (seconds ≤ d.elapsed m))
      late m none is e = ground arith
      late m (some seconds) is e = (ground arith, (seconds, is, ground arith))

  stops_or :
      (b : Bool) (entries : List Entry) (reason : Stop) (h : Host) (r : Driven)
      → (b ≡ true → Says entries h reason)
      → (b ≡ false → Explained r.host r.ending)
      → Explained
          (if b then stop entries reason h else r).host
          (if b then stop entries reason h else r).ending
  stops_or true entries reason h r q q' = q refl
  stops_or false entries reason h r q q' = q' refl

  dispatch_first-Says :
      (next : List Entry → Host → Driven) (m : ℕ) (entries : List Entry) (orders : List WorkOrder)
      (h : Host)
      → NextSays (suc m) next
      → length entries ≡ m
      → pending_work h.state spec ≡ orders
      → Explained
          (dispatch_first env spec d next m entries orders h).host
          (dispatch_first env spec d next m entries orders h).ending
  unfolding dispatch_first
  dispatch_first-Says next m entries [] h on l is = (refl, is)
  dispatch_first-Says next m entries (order ∷ orders) h on l is =
      let one = dispatch_order env spec d next entries order (node spec order.node) h in
      stops_or (leb d.max_dispatches m) entries budget_exhausted h
        (if over_time env spec d m then stop entries time_budget_exhausted h else one)
        (λ full. ground (arith, full, l))
        (λ under.
          stops_or (over_time env spec d m) entries time_budget_exhausted h one
            (λ late. over_budget entries (ap (over_time env spec d) l ∙ late))
            (λ early.
              dispatch_order-Says m next entries order (node spec order.node) orders h on l refl
                is))

  round-Says :
      (next : List Entry → Host → Driven) (m : ℕ) (entries : List Entry) (h : Host)
      → NextSays (suc m) next
      → length entries ≡ m
      → Explained
          (round env spec d next m entries h).host
          (round env spec d next m entries h).ending
  unfolding round
  round-Says next m entries h on l =
      let first = dispatch_first env spec d next m entries (pending_work h.state spec) h in
      stops_or (run_terminal h.state.status) entries (run_finished h.state.status) h
        (if is_draft h.state.status then stop entries plan_not_approved h else first)
        (λ over. (refl, over))
        (λ alive.
          stops_or (is_draft h.state.status) entries plan_not_approved h first
            (λ drafted. draft_of h.state.status drafted)
            (λ planned. dispatch_first-Says next m entries (pending_work h.state spec) h on l refl))

  drive_from-Says :
      (fuel m : ℕ) (entries : List Entry) (h : Host)
      → length entries ≡ m
      → Explained
          (drive_from env spec d fuel m entries h).host
          (drive_from env spec d fuel m entries h).ending
  unfolding drive_from
  drive_from-Says zero m entries h l = tt
  drive_from-Says (suc fuel) m entries h l =
      round-Says (drive_from env spec d fuel (suc m)) m entries (interlude env spec h)
        (λ entries' h' l'. drive_from-Says fuel (suc m) entries' h' l') l

  elsewhere :
      (q : Process) (h : Host) (e : Ending) → Explained h e → Explained (record h { process = q }) e
  elsewhere q h (raised code) x = tt
  elsewhere q h out_of_fuel x = tt
  elsewhere q h (stopped entries (run_finished status)) x = x
  elsewhere q h (stopped entries plan_not_approved) x = x
  elsewhere q h (stopped entries (no_pending_work holds)) x = x
  elsewhere q h (stopped entries budget_exhausted) x = x
  elsewhere q h (stopped entries time_budget_exhausted) x = x
  elsewhere q h (stopped entries (interrupted_dispatch id)) x = x
  elsewhere q h (stopped entries (state_changed none)) x = x
  elsewhere q h (stopped entries (state_changed (some code))) x = x
  elsewhere q h (stopped entries (host_unavailable detail)) x = x
  elsewhere q h (stopped entries (host_declined detail)) x = x
  elsewhere q h (stopped entries Stop.dispatch_in_progress) x = x
  elsewhere q h (stopped entries worker_context) x = x

  drive_acquired-Says :
      (b : Bool) (q : Process) (h : Host)
      → (b ≡ false → has p.leases d.state_key ≡ true)
      → Explained
          (drive_acquired env spec d (b, q) h).host
          (drive_acquired env spec d (b, q) h).ending
  unfolding drive_acquired drive_locked
  drive_acquired-Says false q h taken = (refl, taken refl)
  drive_acquired-Says true q h taken =
      let r = drive_locked env spec d (record h { process = q }) in
      elsewhere (release d.state_key true r.host.process) r.host r.ending
        (drive_from-Says (suc d.max_dispatches) 0 [] (record h { process = q }) refl)

  drive_in-Says :
      (scope : Option WorkerScope) (h : Host)
      → h.process ≡ p
      → p.worker ≡ scope
      → Explained (drive_in env spec d scope h).host (drive_in env spec d scope h).ending
  unfolding drive_in
  drive_in-Says (some scope) h here at_scope = (refl, λ e. cc)
  drive_in-Says none h here at_scope =
      let (b, q) = acquire d.state_key h.state.run_id h.process in
      drive_acquired-Says b q h (λ e. rw here at (refused d.state_key h.state.run_id h.process e))

-- The reason in a report of `drive` is true of the entries of the report, of the run that it leaves
-- and of the process in which it was called. A finished run is terminal, a plan that is not approved
-- is a draft, and no pending work means that no work order is left. A step budget that is used up
-- has as many entries, and a time budget is over after at least one entry. For an interrupted
-- dispatch and for a state that moved before the claim, the order is the first one pending on the
-- state that was loaded; the node of the first still waits for the submission of its attempt, has
-- more claims than releases, and is not idempotent or has side effects; the node of the second does
-- not wait for it any more. For an unavailable host the last entry has that outcome and the newest
-- step of the log is the release of its claim; for a host that declined it has the outcome cancelled
-- or governance blocked; for a state that moved during the work the code is INVALID_TRANSITION; and
-- in all three that entry was not submitted. A report of a worker or of a
-- dispatch in progress has no entries, and the process was a worker's or had the lease.
pub drive-Explained :
    (env : Env) (spec : GraphSpec) (d : Dispatcher) (h : Host)
    → Explained env spec d h.process (drive env spec d h).host (drive env spec d h).ending
unfolding drive
drive-Explained env spec d h = drive_in-Says env spec d h.process h.process.worker h refl refl
