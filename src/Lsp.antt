-- ===== src/Lsp.antt =====
-- The language server's analyzer of lexical bindings (pkg/lsp/analyzer.go), over the ranges of
-- pkg/bass/range.go.
pub mod Ranges
pub mod Analyzer
pub mod Contain
mod Examples
