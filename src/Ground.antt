-- ===== src/Ground.antt =====
-- The builtins of pkg/bass/ground.go that work on values alone.
pub mod Numbers
pub mod Wrapping
pub mod Sums
mod Examples
