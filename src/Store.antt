-- ===== src/Store.antt =====
-- ge_runtime/store.py: the files of a run. The state's file is kept as what reading it
-- gives, and the trace as its text.
pub mod Names
pub mod Files
pub mod Lines
pub mod Trace
pub mod Examples
