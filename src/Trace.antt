-- ===== src/Trace.antt =====
-- pkg/bass/trace.go: the ring of the last call frames.
mod Ring
pub mod Window
pub mod Frames
pub mod Reset
mod Examples
pub use Ring.*
