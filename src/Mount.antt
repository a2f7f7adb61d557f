-- ===== src/Mount.antt =====
-- internal/mount: paths, and the commands that format, mount and unmount.
pub mod Paths
pub mod Mounts
pub mod Table
pub mod Commands
pub mod Running
pub mod Formatting
pub mod Waiting
pub mod Keeping
pub mod Kernel
