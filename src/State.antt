-- ===== src/State.antt =====
-- internal/state/state.go: the records of the volumes, the file that keeps them, and the store.
-- `Volume` has the data, `Files` the file system and the atomic write, `Store` the operations;
-- the other modules prove what their names say.
pub mod Volume
pub mod Json
pub mod Files
pub mod Store
pub mod Atomic
pub mod Sorted
pub mod Reload
pub mod Reconciled
pub mod Keeps
pub mod Updates
