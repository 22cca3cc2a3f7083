-- ===== src/Hermes/Guard.antt =====
-- ge_hermes/guard.py: the worker scope of a context and the dispatch leases of a process. The checks
-- of one call see one state of both, since the leases are read and written under a lock.
use hermes_graph_engineering.Base.{
  String, Bool, true, false, ◌&&◌, Option, none, some, List, [], ◌∷◌, Table, lookup, has, insert,
  contains, ◌==◌, string_eq, if◌then◌else◌,
}
use hermes_graph_engineering.States.{ErrorCode, worker_context_restricted, dispatch_in_progress}

pub record WorkerScope : Type 0 where
  pub run_id : String
  pub node_id : String

-- `_WORKER` in the calling context, and `_LEASES`.
pub record Process : Type 0 where
  pub worker : Option WorkerScope
  pub leases : Table String String

-- READ_ONLY_ACTIONS
abbrev pub read_only_actions : List String
read_only_actions = "validate" ∷ "plan" ∷ "status" ∷ "work" ∷ "explain" ∷ "list" ∷ []

-- RUN_MUTATING_ACTIONS
abbrev pub run_mutating_actions : List String
run_mutating_actions = "run" ∷ "resume" ∷ "submit" ∷ "verify" ∷ []

-- `with worker_scope(scope)`, before its body: the token, and the process in which the body runs.
unfoldable pub worker_scope : WorkerScope → Process → Option WorkerScope × Process
worker_scope scope p = (p.worker, record p { worker = some scope })

-- After it, also when the body raises: `_WORKER.reset(token)`.
unfoldable pub reset_worker : Option WorkerScope → Process → Process
reset_worker token p = record p { worker = token }

-- What it raises, if anything.
unfoldable pub enforce_worker_restrictions : Process → String → Option ErrorCode
enforce_worker_restrictions p action = elim p.worker [
  | none ↦ none
  | some scope ↦ if contains read_only_actions action then none else some worker_context_restricted
]

abbrev pub is_leased_to : Option String → String → Bool
is_leased_to none run_id = false
is_leased_to (some r) run_id = r == run_id

unfoldable pub enforce_not_dispatching : Process → String → String → String → Option ErrorCode
enforce_not_dispatching p state_key run_id action =
    if is_leased_to (lookup p.leases state_key) run_id && contains run_mutating_actions action
    then some dispatch_in_progress
    else none

-- `_LEASES.pop(state_key, None)`
abbrev pub pop : Table String String → String → Table String String
pop [] k = []
pop ((j, v) ∷ t) k = let rest = pop t k in if j == k then rest else (j, v) ∷ rest

-- `with exclusive_dispatch(state_key, run_id) as acquired`, before its body: `acquired`, and the
-- process in which the body runs.
unfoldable pub acquire : String → String → Process → Bool × Process
acquire state_key run_id p =
    if has p.leases state_key
    then (false, p)
    else (true, record p { leases = insert p.leases state_key run_id })

-- After it, also when the body raises.
unfoldable pub release : String → Bool → Process → Process
release state_key acquired p = if acquired then record p { leases = pop p.leases state_key } else p
