-- ===== src/Driver.antt =====
-- internal/driver: `Interface` has the interfaces that the driver calls, `Convert` the changes of
-- representation, `Lifecycle` the methods of `volume.Driver`, `Startup` the reconciliation.
pub mod Interface
pub mod Convert
pub mod Lifecycle
pub mod Startup
pub mod Wiring
pub mod Stores
pub mod Interleaved
pub mod Invariant
pub mod Recovery
pub mod Remounted
pub mod Waiting
pub mod Worlds
pub mod Serving
pub mod Counting
pub mod Counts
pub mod Mounting
pub mod Creating
pub mod Rollback
pub mod Removing
pub mod Tables
pub mod Succeeding
pub mod Counted
pub mod LastUnmount
pub mod Racing
