-- ===== src/Hermes/Dispatch/Exclusive.antt =====
-- The lease and the worker scope that `drive` of ge_hermes/dispatch.py takes with `exclusive_dispatch`
-- and `worker_scope` of guard.py.
use mathlib.Core.Path.{subst}
use hermes_graph_engineering.Base.{
  lookup-insert_self, sym, if◌then◌else◌, String, ◌≡◌, refl, ◌∙◌, ◌⊎◌, ◌↔◌, Bool, true, false,
  Bool-cases, inl, inr, Option, none, some, List, [], ◌∷◌, ◌++◌, Table, has, insert, lookup,
  contains, ◌==◌, string_eq, ap, arith, ==_refl, All, Among, All-Among, Among-All, map,
}
use hermes_graph_engineering.Spec.{GraphSpec}
use hermes_graph_engineering.States.{worker_context_restricted, dispatch_in_progress}
use hermes_graph_engineering.Engine.State.{Env, Effect}
use hermes_graph_engineering.Engine.Lifecycle.{Operation, submit_node}
use hermes_graph_engineering.Engine.Views.{WorkOrder}
use hermes_graph_engineering.Hermes.Guard.{
  WorkerScope, Process, pop, acquire, release, enforce_worker_restrictions, enforce_not_dispatching,
}
use hermes_graph_engineering.Hermes.Host.{
  Step, engine, dispatched, dispatch_released, worked, Host, call, release_claim, outcome_of,
}
use hermes_graph_engineering.Hermes.Delivery.{Dispatcher, worker_context, submitter}
use hermes_graph_engineering.Hermes.Delivery.Kept.{Kept, interlude-kept}
use hermes_graph_engineering.Hermes.Dispatch.{
  Driven, stop, leave_dispatch, drive_acquired, drive_in, drive, drive_locked,
}
use hermes_graph_engineering.Hermes.Dispatch.Kept.{drive_locked-kept}

pop-insert : (t : Table String String) (k v : String) → has t k ≡ false → pop (insert t k v) k ≡ t
pop-insert [] k v h = rw (==_refl k) refl
pop-insert ((j, w) ∷ t) k v h = elim (Bool-cases (j == k)) [
  | inl same ↦ ground arith
  | inr other ↦
      let h' : has t k ≡ false = ground arith in
      rw (other, other) (ap (λ (l : Table String String). (j, w) ∷ l) (pop-insert t k v h'))
]

has-insert : (t : Table String String) (k v : String) → has (insert t k v) k ≡ true
has-insert [] k v = rw (==_refl k) refl
has-insert ((j, w) ∷ t) k v = elim (Bool-cases (j == k)) [
  | inl same ↦ rw (same, same) refl
  | inr other ↦ rw (other, other) (has-insert t k v)
]

-- The process in which the host works on an order while the run is dispatched.
abbrev worker_of : Process → WorkOrder → Process
worker_of p order = record p {
  worker = some (record { run_id = order.run_id; node_id = order.node });
}

-- A step of work is in the worker's process of its order.
abbrev Inside : Process → Step → Type 0
Inside p (worked q order context) = q ≡ worker_of p order
Inside p (engine e) = Unit
Inside p (dispatched n a k) = Unit
Inside p (dispatch_released n a k reason) = Unit

module _ (env : Env) (spec : GraphSpec) (p : Process) (old : List Step) where
  abbrev New : Step → Type 0
  New step = Among old step ⊎ Inside p step

  -- The process of the run is as it was, and the work so far was in workers' processes of it.
  abbrev Scoped : Host → Type 0
  Scoped h = (h.process ≡ p) × All New h.log

  engine-New : (es : List Effect) (log : List Step) → All New log → All New (map engine es ++ log)
  engine-New [] log h = h
  engine-New (e ∷ es) log h = (inr tt, engine-New es log h)

  call-Scoped : (op : Operation) (h : Host) → Scoped h → Scoped (call env spec op h)
  unfolding call
  call-Scoped op h q = (q.0, engine-New (outcome_of env spec op h).effects h.log q.1)

  Scoped-Kept : Kept env spec (λ m h. Scoped h)
  unfolding release_claim
  Scoped-Kept = record {
    submitted = λ m id sub h q. call-Scoped (submit_node id sub submitter) h q;
    waited =
        interlude-kept env spec (λ m h. Scoped h) (λ m op h q. call-Scoped op h q)
          (λ m rest h q. q);
    released = λ m order k reason h q. (q.0, (inr tt, q.1));
    claims_only = λ m n order k h found safe q. (q.0, (inr tt, q.1));
    claims_and_works = λ m n order k h context found safe q.
        (q.0, (inr (ap (λ (r : Process). worker_of r order) q.0), (inr tt, q.1)));
  }

module _ (env : Env) (spec : GraphSpec) (d : Dispatcher) (h : Host) where
  -- The process while the run is dispatched.
  abbrev leased : Process
  leased = record h.process { leases = insert h.process.leases d.state_key h.state.run_id }

  locked-Scoped :
      Scoped env spec leased h.log (drive_locked env spec d (record h { process = leased })).host
  locked-Scoped =
      let (m, le, after) =
        drive_locked-kept env spec d (λ m h'. Scoped env spec leased h.log h')
          (Scoped-Kept env spec leased h.log) (record h { process = leased })
          (refl, Among-All _ h.log (λ step among. inl among)) in
      after

  -- What `drive` comes to: nothing in a worker or where the state directory is leased, and otherwise
  -- the work, with the lease given back.
  drive_in-cases :
      (scope : Option WorkerScope)
      → ((drive_in env spec d scope h).host ≡ h)
        ⊎ ((has h.process.leases d.state_key ≡ false)
            × (drive_in env spec d scope h
                ≡ leave_dispatch env spec d true
                    (drive_locked env spec d (record h { process = leased }))))
  unfolding drive_in drive_acquired acquire release
  drive_in-cases (some scope) = inl refl
  drive_in-cases none = elim (Bool-cases (has h.process.leases d.state_key)) [
    | inl taken ↦ inl (rw (taken, acquire, drive_acquired, release) refl)
    | inr free ↦ inr (free, rw (free, acquire, drive_acquired, release) refl)
  ]

  given_back :
      has h.process.leases d.state_key ≡ false
      → (leave_dispatch env spec d true
          (drive_locked env spec d (record h { process = leased }))).host.process
        ≡ h.process
  unfolding release
  given_back free =
      ap (λ (q : Process). release d.state_key true q) locked-Scoped.0
      ∙ ap (λ (t : Table String String). record h.process { leases = t })
          (pop-insert h.process.leases d.state_key h.state.run_id free)

  drive_in-busy :
      (scope : Option WorkerScope)
      → has h.process.leases d.state_key ≡ true
      → (drive_in env spec d scope h).host ≡ h
  drive_in-busy scope taken = elim (drive_in-cases scope) [ inl e ↦ e | inr (free, e) ↦ cc ]

  drive_in-worker :
      (scope : Option WorkerScope) (s : WorkerScope)
      → scope ≡ some s
      → drive_in env spec d scope h ≡ stop [] worker_context h
  unfolding drive_in
  drive_in-worker (some scope) s e = refl
  drive_in-worker none s e = cc

-- `drive` leaves the leases and the worker scope of the process as they were, however it ends; in a
-- worker's process it does nothing but return the report that says so; and where the state directory
-- is leased it leaves the run, its log and the process untouched.
pub drive-Guarded :
    (env : Env) (spec : GraphSpec) (d : Dispatcher) (h : Host)
    → ((drive env spec d h).host.process ≡ h.process)
      × ((scope : WorkerScope)
          → h.process.worker ≡ some scope
          → drive env spec d h ≡ stop [] worker_context h)
      × (has h.process.leases d.state_key ≡ true → (drive env spec d h).host ≡ h)
unfolding drive
drive-Guarded env spec d h = (
  elim (drive_in-cases env spec d h h.process.worker) [
    | inl e ↦ ap (λ (x : Host). x.process) e
    | inr (free, e) ↦ ap (λ (r : Driven). r.host.process) e ∙ given_back env spec d h free
  ],
  λ scope e. drive_in-worker env spec d h h.process.worker scope e,
  λ taken. drive_in-busy env spec d h h.process.worker taken,
)

-- A process in which the host works on an order of a run.
pub record Confined (env : Env) (spec : GraphSpec) (d : Dispatcher) (run_id : String)
    (order : WorkOrder) (q : Process) : Type 0 where
  pub scope : q.worker ≡ some (record { run_id = order.run_id; node_id = order.node })
  pub only_reads :
      (action : String)
      → (enforce_worker_restrictions q action ≡ none)
        ↔ Among ("validate" ∷ "plan" ∷ "status" ∷ "work" ∷ "explain" ∷ "list" ∷ []) action
  pub refused :
      (p : Process)
      → p.leases ≡ q.leases
      → All
          (λ (action : String).
            enforce_not_dispatching p d.state_key run_id action ≡ some dispatch_in_progress)
          ("run" ∷ "resume" ∷ "submit" ∷ "verify" ∷ [])
  pub alone : (h : Host) → h.process.leases ≡ q.leases → (drive env spec d h).host ≡ h

one_of : (xs : List String) (x : String) → (contains xs x ≡ true) ↔ Among xs x
one_of [] x = ((λ e. cc), (λ g. absurd g))
one_of (y ∷ xs) x = (
  (λ e. elim (Bool-cases (y == x)) [
    | inl same ↦ inl ((string_eq.equal_iff y x).0 same)
    | inr other ↦ inr ((one_of xs x).0 (rw other at e))
  ]),
  (λ g. elim g [
    | inl e ↦ rw (e, ==_refl x) refl
    | inr more ↦ elim (Bool-cases (y == x)) [
      | inl same ↦ rw same refl
      | inr other ↦ rw other ((one_of xs x).1 more)
    ]
  ]),
)

none_if : (b : Bool) → ((if b then none else some worker_context_restricted) ≡ none) ↔ (b ≡ true)
none_if true = ((λ e. refl), (λ e. refl))
none_if false = ((λ e. cc), (λ e. cc))

worker_of-Confined :
    (env : Env) (spec : GraphSpec) (d : Dispatcher) (h : Host) (order : WorkOrder)
    → Confined env spec d h.state.run_id order (worker_of (leased env spec d h) order)
unfolding enforce_not_dispatching enforce_worker_restrictions
worker_of-Confined env spec d h order =
    let found = lookup-insert_self h.process.leases d.state_key h.state.run_id in
    let taken = has-insert h.process.leases d.state_key h.state.run_id in
    record {
      scope = refl;
      only_reads = λ action.
          let (there, back) =
            one_of ("validate" ∷ "plan" ∷ "status" ∷ "work" ∷ "explain" ∷ "list" ∷ []) action in
          let (is, from) =
            none_if (
              contains ("validate" ∷ "plan" ∷ "status" ∷ "work" ∷ "explain" ∷ "list" ∷ [])
                action) in
          ((λ e. there (is e)), (λ g. from (back g)));
      refused = λ p same.
          let at_key : lookup p.leases d.state_key ≡ some h.state.run_id = rw same found in
          rw (at_key, ==_refl h.state.run_id) (refl, (refl, (refl, (refl, tt))));
      alone = λ h' same. (drive-Guarded env spec d h').2 (rw same taken);
    }

-- What a step of the log says of the process in which the host worked.
abbrev pub Confines : Env → GraphSpec → Dispatcher → String → Step → Type 0
Confines env spec d run_id (worked q order context) = Confined env spec d run_id order q
Confines env spec d run_id (engine e) = Unit
Confines env spec d run_id (dispatched n a k) = Unit
Confines env spec d run_id (dispatch_released n a k reason) = Unit

Inside-Confines :
    (env : Env) (spec : GraphSpec) (d : Dispatcher) (h : Host) (step : Step)
    → Inside (leased env spec d h) step
    → Confines env spec d h.state.run_id step
Inside-Confines env spec d h (worked q order context) inside =
    subst (Confined env spec d h.state.run_id order) (sym inside)
      (worker_of-Confined env spec d h order)
Inside-Confines env spec d h (engine e) inside = tt
Inside-Confines env spec d h (dispatched n a k) inside = tt
Inside-Confines env spec d h (dispatch_released n a k reason) inside = tt

-- Each work of the host that is in the log after `drive`, and was not before, was done in the scope
-- of a worker for its order. From there, the guard of the tool's actions lets through validate,
-- plan, status, work, explain and list and no other; while it goes on, the guard refuses to run,
-- resume, submit or verify the run to every caller in the process; and every other call of `drive`
-- there leaves the run, its log and the process untouched.
pub drive-Confined :
    (env : Env) (spec : GraphSpec) (d : Dispatcher) (h : Host)
    → All
        (λ (step : Step). Among h.log step ⊎ Confines env spec d h.state.run_id step)
        (drive env spec d h).host.log
unfolding drive
drive-Confined env spec d h = Among-All _ _ (λ step among.
    elim (drive_in-cases env spec d h h.process.worker) [
      | inl e ↦ inl (subst (λ (x : Host). Among x.log step) e among)
      | inr (free, e) ↦
          elim (All-Among (New env spec (leased env spec d h) h.log) _ step
            (locked-Scoped env spec d h).1
            (subst (λ (r : Driven). Among r.host.log step) e among)) [
              | inl before ↦ inl before
              | inr inside ↦ inr (Inside-Confines env spec d h step inside)
            ]
    ])
