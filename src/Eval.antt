-- ===== src/Eval.antt =====
-- The evaluator: pkg/bass/continuation.go, eval.go, and the methods `Eval`, `Call` and `Bind` of each
-- kind of value.
pub mod Task
pub mod Compare
pub mod Scopes
pub mod Builtins
pub mod Binding
pub mod Annotation
pub mod Arguments
pub mod Step
pub mod Trampoline
pub mod Complete
pub mod Sound
pub mod Application
pub mod Function
pub mod Keeps
pub mod StartKeeps
pub mod AttachKeeps
pub mod SelfParent
pub mod Sequence
mod SequenceExamples
pub mod Invariant
mod FunctionExamples
mod Examples
