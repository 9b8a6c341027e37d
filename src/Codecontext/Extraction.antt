-- ===== src/Codecontext/Extraction.antt =====
-- internal/codecontext/codecontext.go: Extract; `none` is a panic.
pub mod Shown
use github_pr_review_agent.Common.{
  ℕ, ℤ, ◌==◌, Bool, false, ◌||◌, Option, none, some, List, [], ◌∷◌, ◌++◌, Text, codes, is_empty,
  contains, if◌then◌else◌,
}
use github_pr_review_agent.Codecontext.Targets.{normalize_lines, content_lines}
use github_pr_review_agent.Codecontext.Symbols.{Symbol, Tree, language_for_path, find_symbols}
use github_pr_review_agent.Codecontext.Content.{
  ◌>>=◌, Built, build_symbol_content, fallback_content,
}

pub record ExtractRequest : Type 0 where
  pub path : Text
  pub content : Text
  pub target_lines : List ℤ
  pub max_lines : ℕ

pub record Extract : Type 0 where
  pub strategy : Text
  pub language : Text
  pub target_lines : List ℕ
  pub symbols : List Symbol
  pub content : Text
  pub truncated : Bool

abbrev pub lines_or_default : ℕ → ℕ
lines_or_default n = if n == 0 then 200 else n

abbrev pub empty_extract : ExtractRequest → Extract
empty_extract request = record {
  strategy = codes "line_fallback";
  language = language_for_path request.path;
  target_lines = normalize_lines request.target_lines;
  symbols = [];
  content = [];
  truncated = false;
}

-- The result without symbols.
unfoldable pub fallback : ExtractRequest → List Text → Option Extract
unfolding contains
fallback request lines = do
  content ←
      fallback_content lines (normalize_lines request.target_lines)
        (lines_or_default request.max_lines)
  some (record (empty_extract request) {
    content = content;
    truncated = contains content (codes "[context truncated");
  })

-- The result with the symbols that were found.
unfoldable pub with_symbols : ExtractRequest → List Text → List Symbol → Option Extract
with_symbols request lines symbols = do
  built ←
      build_symbol_content lines symbols (normalize_lines request.target_lines)
        (lines_or_default request.max_lines)
  some (record (empty_extract request) {
    strategy = codes "tree_sitter";
    symbols = built.shown ++ built.omitted;
    content = built.content;
    truncated = built.truncated;
  })

-- The symbols in the tree, if there is one.
unfoldable pub tree_symbols : ExtractRequest → List Text → Option Tree → List Symbol
tree_symbols request lines none = []
tree_symbols request lines (some tree) =
    find_symbols tree request.content (language_for_path request.path)
      (normalize_lines request.target_lines) lines

-- `parse` is the parser of a language that is supported: a text, to its tree.
module _ (parse : Text → Text → Option Tree) where
  unfoldable pub symbols_in : ExtractRequest → List Text → List Symbol
  symbols_in request lines =
      tree_symbols request lines (parse (language_for_path request.path) request.content)

  unfoldable pub extract_lines : ExtractRequest → List Text → Option Extract
  extract_lines request lines =
      let symbols = symbols_in request lines in
      if is_empty lines || is_empty (normalize_lines request.target_lines)
      then some (empty_extract request)
      else if is_empty symbols
      then fallback request lines
      else with_symbols request lines symbols

  unfoldable pub extract : ExtractRequest → Option Extract
  extract request = extract_lines request (content_lines request.content)
