-- ===== src/Replicas.antt =====
-- src/sync/ReplicaService.js: the durable operations that place copies of an owner's content.
-- `Types` holds the rows, `Validate` the checks of a plan, `Service` the methods that write one
-- operation, `Ingress` the pinned sources, `Apply` the execution of one operation, `Drain` the pass
-- over all of them, `Cleanup` what follows; the proofs stand in the other children.
pub mod Types
pub mod Validate
pub mod Service
pub mod Ingress
pub mod Outcomes
pub mod Place
pub mod Stage
pub mod Retire
pub mod Apply
pub mod Cleanup
pub mod Drain
pub mod Supersede
pub mod Chains
pub mod Submitted
pub mod Numbers
pub mod Sorted
pub mod Holding
pub mod Ordered
pub mod Permitted
pub mod Retired
pub mod Spares
pub mod Releases
pub mod Rechecked
pub mod Completed
