-- ===== src/Stored.antt =====
-- src/index.js: the parts of the class Stored that decide. `Urls` reads and prints stored:// URLs,
-- `Names` spells keys, `Conditions` tests preconditions, `Transfers` plans a copy or a move,
-- `Locations` keeps the locations of an entry; `Retention` has the entries of the retained bytes,
-- `Retained` keeps and discards them, `Sweeps` lists, sweeps and forgets them. The proofs stand in
-- the other children.
pub mod Urls
pub mod Names
pub mod Conditions
pub mod Inside
pub mod Transfers
pub mod Planned
pub mod Locations
pub mod Held
pub mod Retention
pub mod Retained
pub mod Sweeps
pub mod Versions
pub mod Waiting
pub mod Windows
