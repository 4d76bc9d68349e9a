-- ===== src/Scope.antt =====
-- pkg/bass/scope.go: scopes on a heap, `Get`, `Set`, `Each` and `Copy`.
pub mod Heap
pub mod Each
pub mod Deref
pub mod Visit
pub mod Lookup
pub mod Order
pub mod Acyclic
pub mod Agree
pub mod Grows
pub mod Listing
pub mod Copy
pub mod Assoc
mod Examples
