-- ===== src/Tests.antt =====
-- Runs of the models at concrete inputs: that the hypotheses of the theorems can hold.
mod Sample
mod Queues
mod Ledgers
mod Paths
mod Mirrors
mod Scenes
mod Runs
mod Keeping
mod Feeds
mod Trashes
mod Placings
mod Passes
mod Addresses
mod Displaced
