-- ===== src/Memo.antt =====
-- pkg/bass/memo.go: the lockfile's content, and what the three operations do to it.
mod Content
mod Results
mod Calls
pub mod Store
pub mod Remove
pub mod Lockfile
mod Examples
pub use Content.*
