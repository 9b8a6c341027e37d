-- ===== src/Review/Evidence.antt =====
-- internal/review/service.go and diff_evidence.go: which findings of the language model are kept. A
-- finding has to quote what the review retrieved, the corpus.
pub mod Patch
pub mod Sections
pub mod Corpus
pub mod Markdown
pub mod Findings
