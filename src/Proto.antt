-- ===== src/Proto.antt =====
-- Values as messages (pkg/bass/proto.go, proto/bass.proto).
pub mod Messages
pub mod RoundTrip
pub mod HostPaths
mod Examples
