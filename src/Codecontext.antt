-- ===== src/Codecontext.antt =====
-- internal/codecontext/codecontext.go: the definitions around the lines of a file that a pull
-- request touches, found in a syntax tree.
pub mod Targets
pub mod Symbols
pub mod Content
pub mod Extraction
