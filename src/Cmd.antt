-- ===== src/Cmd.antt =====
-- cmd/docker-volume-gcepd/main.go
pub mod Durations
pub mod Config
pub mod Settings
pub mod Run
