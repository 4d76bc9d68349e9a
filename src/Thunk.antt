-- ===== src/Thunk.antt =====
-- Thunks: pkg/bass/thunk.go, thunk_types.go, thunk_path.go and thunk_addr.go, and their messages.
pub mod Types
pub mod Wire
pub mod Bindings
pub mod Plain
pub mod Marshal
pub mod Unmarshal
pub mod Portable
pub mod PlainRoundTrip
pub mod RoundTrip
pub mod Operations
pub mod Render
pub mod Rebase
pub mod Kept
pub mod Built
pub mod Slices
pub mod Sharing
pub mod Convert
pub mod Images
pub mod Converted
mod Examples
