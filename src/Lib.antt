-- ===== src/Lib.antt =====
-- Bass: the core of a scripting language for running commands, in pkg/bass.
--
-- The parts, and the modules that model them:
--   Value   the values (pkg/bass/value.go and the file of each kind), what they decode into, and
--           lists (list.go, cons.go, pair.go).
--   Scope   scopes (scope.go): objects on a heap, with parents, bindings and an order.
--   Eval    the evaluator (continuation.go, eval.go, and `Eval`, `Call` and `Bind` of each kind of
--           value): a closure given to `Continue` is a frame, by what it captures (Task); the
--           methods up to the next continuation are `start`, the closures are `resume` (Step); the
--           loop over them is `trampoline`, and `Runs` is its specification (Trampoline).
--   Proto   values as messages (proto.go, proto/bass.proto): constants, lists, and file, directory and
--           command paths; of the messages of the other kinds only the kind is kept here, and those of
--           thunks and all that they hold are in Thunk. Host paths are apart (HostPaths).
--   Memo    the lockfile of memoized calls (memo.go, proto/memo.proto).
--   Trace   the ring of the last call frames (trace.go).
--   Reader  the tokens of the reader (reader.go): symbols, keywords, paths and strings.
--   Lsp     the language server's analyzer (pkg/lsp/analyzer.go, pkg/bass/range.go).
--   Thunk   thunks, commands to run, as data: what they hold (thunk.go, thunk_types.go, thunk_path.go,
--           thunk_addr.go, cache_path.go, secret.go), their messages (Marshal, Unmarshal), the
--           operations on them (Operations, Built), what these share (Slices), and images,
--           directories and mount sources as values (Convert, Images).
--   Command the command that a runtime runs for a thunk (pkg/runtimes/command.go): the places of
--           paths in its container (Places), the resolution of values (Resolve), `NewCommand`
--           (Build), and the mounts that the values of a thunk need, in order (Needed).
--   Ground  the arithmetic and comparison of numbers that programs are given (ground.go).
--   Pipes   sources and sinks of values (pipes.go) and the source across several ones (across.go),
--           under any schedule.
--   Path    paths and their text (path.go, filesystem_path.go, thunk_path.go, thunk.go): extending
--           them, parsing them, and the test that a host path stays in its directory (host_path.go).
--   Prelude the names that these share.
--
-- How code becomes a model: text is a list of bytes. A pointer to a scope is an address in a heap,
-- which the operations take and return; in Thunk and Command, where scopes are only read or built, a
-- scope is the bindings that its `Each` visits. An error result is `none` or `err`. The messages of
-- proto/bass.proto are data types with their fields (Proto, Thunk). In Memo a message is an element of
-- a type that is a parameter, with an equality, and marshalling is a parameter whose documented
-- behaviour is a hypothesis. What the scheduler and a select decide is a sequence that `Next` of
-- across.go takes.
--
-- Recursion into the parents of a scope takes a depth; `overflow` stands for a stack that is too
-- deep. The evaluator searches with a depth of one more than there are scopes: a search with no
-- cycle meets no scope twice below itself.
--
-- The trampoline's fuel counts calls; running out is the context being cancelled. Evaluation has no
-- trace in its context. Comparing two values of a kind whose `Equal` is not modelled ends in the
-- outcome `unmodelled`.
--
-- An int is an integer that every operation wraps around at 64 bits; the port of a message is one of
-- 32 bits. `FSPath.UnmarshalProto`, which loads a tree into an in-memory file system, is a parameter of
-- reading a message. What a command is made with is the record `Maker`: the hashes, the start of a
-- service, and the number of rounds that the loop of `Command.rel` may take, which has to be one more
-- than the working directory has slashes. A number is printed on fuel one more than the number.
-- `append` of a slice takes the spare room of a new array as a parameter.
--
-- Not modelled: input and output, goroutines and locks (the operations of a lockfile follow one
-- another), the package slurp under the reader, the running of thunks and the other runtimes, the rest
-- of the language server, the command line, generated code, and JSON.
mod Prelude
pub mod Value
pub mod Path
pub mod Scope
pub mod Eval
pub mod Lsp
pub mod Reader
pub mod Proto
pub mod Memo
pub mod Trace
pub mod Thunk
pub mod Ground
pub mod Pipes
pub mod Command
