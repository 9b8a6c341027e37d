-- ===== src/Codecontext/Extraction/Shown.antt =====
-- What Extract (internal/codecontext/codecontext.go) gives of a file.
use github_pr_review_agent.Common.{
  ◌≤◌, ◌+◌, true, false, not, any, ◌||◌, Option, some, List, [], ◌++◌, Text, is_empty, length, All,
  ◌≡◌,
}
use mathlib.Core.List.{map}
use github_pr_review_agent.Codecontext.Targets.{normalize_lines, content_lines}
use github_pr_review_agent.Codecontext.Symbols.{max_symbols, Symbol, Tree}
use github_pr_review_agent.Codecontext.Symbols.Placed.{IsTree}
use github_pr_review_agent.Codecontext.Content.{trim_right}
use github_pr_review_agent.Codecontext.Content.Windows.{total, location, IsSnippet, written}
use github_pr_review_agent.Codecontext.Extraction.{ExtractRequest, Extract, lines_or_default}

-- The answer with the symbols that were found. Those that its text shows come first, each with its
-- snippet, and the text is theirs; their lines are within the limit; it is marked as truncated
-- exactly if a symbol is cut, where the limit is used up, or left out, where at most two lines of it
-- remain.
pub record Answers (request : ExtractRequest) (lines : List Text) (symbols : List Symbol)
    (e : Extract) : Type 0 where
  pub shown : List Symbol
  pub omitted : List Symbol
  pub parts : e.symbols ≡ shown ++ omitted
  pub located : map location e.symbols ≡ map location symbols
  pub few : length e.symbols ≤ max_symbols
  pub snippets : All (IsSnippet (normalize_lines request.target_lines)) shown
  pub text : e.content ≡ trim_right (written lines [] shown omitted)
  pub fits : total shown ≤ lines_or_default request.max_lines
  pub marked : e.truncated ≡ (any shown (λ s. s.truncated) || not (is_empty omitted))
  pub used_up :
      any shown (λ s. s.truncated) ≡ true → total shown ≡ lines_or_default request.max_lines
  pub no_room : is_empty omitted ≡ false → lines_or_default request.max_lines ≤ total shown + 2

-- The nodes that the parser gives lie in the file, as in IsTree.
abbrev pub Parses : (Text → Text → Option Tree) → Type 0
Parses parse =
    (language content : Text) (tree : Tree)
    → parse language content ≡ some tree
    → IsTree language (length (content_lines content)) tree
