-- ===== src/Lib.antt =====
-- A model of the graph runtime of this repository, and what is proved of it.
--
-- The program admits a graph spec (src/ge_runtime/spec.py), runs its nodes in dependency order
-- (src/ge_runtime/engine.py) through executors (src/ge_runtime/executors.py), checks what they
-- produce against contracts (src/ge_runtime/contracts.py), and asks people to approve the plan and
-- the gates of nodes. The statuses are in src/ge_runtime/states.py. Every operation loads the run's
-- state, changes it, appends to its trace and saves it (src/ge_runtime/store.py).
--
-- The files:
--   Base/          tests, lists, tables (Python's dict), integers and sorting, with their lemmas
--   Values/        JSON values and Python's comparisons of them
--   Contracts      is_type, evaluate_criteria, output_contract_errors; Contracts/Criteria has
--                  criterion_errors, and Contracts/Conformance what a kept contract is
--   States, Spec   the statuses, and an admitted spec
--   Spec/Topology, Spec/Ancestors  topological_order and ancestors
--   Executors      operation_errors and BuiltinExecutor; Executors/Strings the methods of str
--   Admission/Patterns, Json, Errors  the patterns of names, the JSON test, and the errors of specs
--   Admission/Fields, Nodes  the fields of a node, and _normalize_node with its governance checks
--   Admission/Cycles   find_cycle
--   Admission/Admit    load_spec_text and admit, with what they guarantee in the files below it
--   Store/Names, Files  run ids, and the state's file
--   Store/Lines, Trace  the text of a trace file (JsonlTraceSink.emit, read_trace), and the hash
--                  chain (append_trace, verify_trace)
--   Engine/State       the state of a run, events, effects, and what the engine is given (Env)
--   Engine/Gates       _binding, _pending_gate, _denied_gate
--   Engine/Readiness   _refresh_readiness, _skip_open_nodes, _resolve_inputs
--   Engine/Attempt     _complete_attempt, _record_failure
--   Engine/Advance     _advance
--   Engine/Settle      _settle
--   Engine/Operations  create, execute, submit, _preflight_executors
--   Engine/Recovery    resume, retry_node, cancel
--   Engine/Decisions   decide
--   Engine/Verify      verify
--   Engine/Loading     validate, create, load and list_runs over the admission and the store
--   Engine/Plan, Engine/Views  plan_view, explain_view, status_summary and pending_work
--   Engine/Lifecycle   all operations as one type, and the states that a run can reach
--   Engine/Progress, Engine/Trail, Engine/Safety   how nodes move, and what is on disk when
--   Hermes/Config, Guard   parse_config; the leases and the worker scope of a process
--   Hermes/Reply, WorkerContext   extract_outputs, and the texts that a host is given
--   Hermes/Host, Delivery, Dispatch   _claim and _release; _execute_and_submit; drive
--
-- State and effects. A World is the state in memory and the list of effects so far (saves, trace
-- entries, receipts and executor calls), the newest first; a crash leaves a tail of that list on
-- disk. An operation starts from a loaded state and gives an Outcome: a state or an error code, and
-- its effects. A reachable state is one that `create` saved, or that is saved anywhere among the
-- effects of an operation on a reachable state, so that crashes between two effects are covered.
--
-- Loops. The `while` loop of _advance is recursion on fuel: its budget of attempts plus the number
-- of nodes plus one, which is enough since each round but the last starts an attempt or makes a
-- node terminal. The `while` loop of topological_order has the number of ids as fuel, since each
-- round takes one away, and that of ancestors the number of dependencies that may still be pushed.
-- The recursion of find_cycle has the number of ids as fuel, since each nested call makes one more
-- id grey. The loop of _drive_locked has its budget of dispatches plus one. All other loops are
-- structural.
--
-- What is assumed. The clock, the regular expressions, the digests, the size of a JSON text, the
-- executors and the settings are the parameters of Env, and the case mappings of Unicode are
-- parameters of the builtin executor. The JSON and YAML parsers and the digests of specs and of
-- trace events are parameters of the admission and the store, as is `int` on a text. An executor is
-- a function of its request that may raise, and does not change the engine's state. One clock
-- reading is used in a call. The keys of a raw spec's objects are texts, each once. Of
-- `json.dumps` and `json.loads` on a trace event nothing is assumed but where a theorem says so. The
-- statuses of a stored state are typed, so the tests of `load` that they are valid are left out.
-- Messages keep the values that their format takes, and the texts beside the checks of a receipt
-- are left out. A node table always has the ids of its spec, as `load` checks, and a run is locked
-- while an operation works on it. A host's dispatcher works on the state on disk; between its steps
-- others may call any operations of the engine on the run. The leases and the worker scope are those
-- of the process that calls `drive`, and no one else changes them while it works.
--
-- Not modelled: locks and atomic file writes, reports, the analysis of graphs, the adapters'
-- registry and defaults but the trace file's, the commands, tool and host binding of the plugin
-- (src/ge_hermes), and the scripts.
pub mod Base
pub mod Values
pub mod Contracts
pub mod States
pub mod Spec
pub mod Store
pub mod Admission
pub mod Executors
pub mod Engine
pub mod Hermes
