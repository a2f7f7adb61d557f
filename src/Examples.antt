-- ===== src/Examples.antt =====
-- Concrete runs of the program: a world, stores, and the theorems at them.
mod World
mod Drivers
mod Stores
mod Disks
mod Hosts
mod Mounts
mod Settled
mod OneMount
mod Tables
mod Interleaved
mod OptionSets
mod Named
mod Starting
mod Views
