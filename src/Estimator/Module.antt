-- ===== src/Estimator/Module.antt =====
-- soroban-budget/src/module.rs: the facts of a compiled module, and how they are read from the
-- parser's payloads. The binary format itself is read by a third-party parser: its payloads are the
-- input here.
pub mod Facts
pub mod Parse
pub mod Shape
