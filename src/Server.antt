-- ===== src/Server.antt =====
-- dsl/lsp: the symbols of a source file and the check of its calls, which the language server reports
-- while a file is edited.
pub mod Symbols
pub mod Diagnostics
