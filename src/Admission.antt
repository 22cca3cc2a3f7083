-- ===== src/Admission.antt =====
-- The admission of a graph spec: the part of ge_runtime/spec.py that reads raw data.
pub mod Patterns
pub mod Errors
pub mod Fields
pub mod Nodes
pub mod Cycles
pub mod Json
pub mod Admit
pub mod Examples
