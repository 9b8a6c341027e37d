-- ===== src/Review/Evidence/Markdown.antt =====
-- internal/review/service.go: extractJSONObject, which takes an answer out of a Markdown fence.
pub mod Fenced
use github_pr_review_agent.Common.{
  ℕ, ◌+◌, ◌==◌, Bool, true, false, not, ◌&&◌, ◌||◌, Option, none, some, List, [], ◌∷◌, ◌++◌, Text,
  codes, is_empty, text_eq, trim_space, split_lines, join_lines, decimal, decimal_ℤ, length, select,
  if◌then◌else◌,
}

-- The elements of a list but its last, and that.
pub unsnoc : List Text → Option (List Text × Text)
unsnoc [] = none
unsnoc (line ∷ lines) = elim (unsnoc lines) [
  | none ↦ some ([], line)
  | some (front, last) ↦ some (line ∷ front, last)
]

pub is_opening : Text → Bool
unfolding text_eq trim_space
is_opening line =
    text_eq (trim_space line) (codes "```json") || text_eq (trim_space line) (codes "```")

pub is_closing : Text → Bool
unfolding text_eq trim_space
is_closing line = text_eq (trim_space line) (codes "```")

-- The lines between the first and the last of at least three, where these are fences.
pub envelope : List Text → Option (List Text)
unfolding unsnoc is_opening is_closing
envelope [] = none
envelope (opening ∷ []) = none
envelope (opening ∷ (next ∷ rest)) = elim (unsnoc rest) [
  | none ↦ none
  | some (front, last) ↦ if is_opening opening && is_closing last then some (next ∷ front) else none
]

unfoldable pub extract_json_object : Text → Text
unfolding envelope trim_space split_lines join_lines
extract_json_object content =
    let trimmed = trim_space content in
    elim (envelope (split_lines trimmed)) [
      | none ↦ trimmed
      | some lines ↦ trim_space (join_lines lines)
    ]
