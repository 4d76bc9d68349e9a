-- ===== src/Reader.antt =====
-- The reader's tokens (pkg/bass/reader.go). The package slurp, which splits the source into tokens and
-- lists, is not modelled: a token is a text.
pub mod Symbols
pub mod Strings
pub mod Quoting
pub mod Keywords
pub mod Tokens
mod Examples
