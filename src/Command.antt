-- ===== src/Command.antt =====
-- pkg/runtimes/command.go: the command that a runtime runs for a thunk.
pub mod Places
pub mod Resolve
pub mod Build
pub mod Needed
pub mod Climb
pub mod Adds
pub mod Mounted
pub mod Made
mod Examples
