-- ===== src/Path.antt =====
-- pkg/bass/path.go: directory, file and command paths.
pub mod Clean
pub mod Extend
pub mod Elements
pub mod Idempotent
pub mod Append
pub mod Extended
pub mod Escape
pub mod Relative
pub mod Within
pub mod Parse
pub mod Slashes
pub mod Parsed
mod Examples
