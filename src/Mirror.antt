-- ===== src/Mirror.antt =====
-- The device-mirror sync engine, src/sync/Mirror.js.
-- `Decide` holds the three-way table and its narrowing to a direction, `Settle` what the work for a
-- decision does to the two sides, `Engine` the state, `Reconcile`, `Redecide` and `Passes` the steps
-- that turn decisions into jobs, `Answers`, `Transfers`, `Conflicts`, `Renames` and `Execute` the
-- jobs, `Link` the state word and the offline timer; the proofs stand in the other children.
pub mod Decide
pub mod Settle
pub mod Directions
pub mod Engine
pub mod Reconcile
pub mod Queued
pub mod Kinds
pub mod Carry
pub mod OneWay
pub mod Redecide
pub mod Answers
pub mod Transfers
pub mod Permits
pub mod Refines
pub mod Conflicts
pub mod Renames
pub mod Execute
pub mod Exclusive
pub mod Applied
pub mod Keeps
pub mod Outcomes
pub mod Link
pub mod Retries
pub mod Passes
pub mod Rounds
