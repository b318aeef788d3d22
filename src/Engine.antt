-- ===== src/Engine.antt =====
-- sdks/typescript/src/engine/statechart.ts: which states are active, and how an event changes them.
pub mod Enter
pub mod Leaves
pub mod Match
pub mod Apply
pub mod Done
pub mod Status
