-- ===== src/Keys.antt =====
-- Key hygiene, src/sync/keys.js: keys are '/'-separated paths in NFC.
-- `Segments` has the splitting and joining of strings; `Normalize`, `Validate`, `Scope` and `Conflict`
-- hold the functions, the other children their proofs.
pub mod Segments
pub mod Normalize
pub mod Validate
pub mod Scope
pub mod Conflict
pub mod Normalized
pub mod Safety
pub mod Prefixes
pub mod Ignored
