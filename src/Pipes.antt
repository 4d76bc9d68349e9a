-- ===== src/Pipes.antt =====
-- Streams of values: pkg/bass/pipes.go and pkg/bass/across.go.
pub mod Memory
pub mod Across
pub mod Since
pub mod Moves
pub mod Seen
mod Examples
