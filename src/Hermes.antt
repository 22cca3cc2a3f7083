-- ===== src/Hermes.antt =====
-- The plugin for the host: ge_hermes/config.py, guard.py and dispatch.py.
pub mod Config
pub mod Guard
pub mod Reply
pub mod WorkerContext
pub mod Host
pub mod Delivery
pub mod Dispatch
