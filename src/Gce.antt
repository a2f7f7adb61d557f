-- ===== src/Gce.antt =====
-- internal/gce: names and options of disks, the retry loop, and the client of the Compute API.
pub mod Name
pub mod Opening
pub mod Options
pub mod Info
pub mod Retry
pub mod Stamp
pub mod Settling
pub mod Refs
pub mod Client
pub mod Disks
pub mod Attach
