-- ===== src/Codecontext/Content/Numbered.antt =====
-- The numbered lines of internal/codecontext/codecontext.go, against a description of them.
use github_pr_review_agent.Common.{
  ℕ, zero, suc, ◌+◌, ◌-◌, ◌<◌, ◌≤◌, some, List, [], ◌∷◌, ◌++◌, Text, codes, length, take, drop,
  decimal, ◌≡◌, refl, arith,
}
use github_pr_review_agent.Codecontext.Content.{size, line_at, numbered_from, lines_between}

abbrev number_lines : ℕ → List Text → List Text
number_lines n [] = []
number_lines n (line ∷ lines) = (decimal n ++ codes ": " ++ line) ∷ number_lines (n + 1) lines

-- The lines of a file from one to another, each behind its number.
unfoldable pub excerpt : List Text → ℕ → ℕ → List Text
excerpt lines start end = number_lines start (take (end + 1 - start) (drop (start - 1) lines))

line_at-drop :
    (lines : List Text) (k : ℕ)
    → k < length lines
    → (line : Text) × (line_at lines (suc k) ≡ some line)
      × (drop k lines ≡ line ∷ drop (suc k) lines)
line_at-drop [] k h = absurd (omega arith)
line_at-drop (line ∷ lines) zero h = (line, refl, refl)
line_at-drop (line ∷ lines) (suc k) h = line_at-drop lines k (omega arith)

numbered_from_lem :
    (lines : List Text) (k count : ℕ)
    → k + count ≤ length lines
    → numbered_from lines (suc k) count ≡ some (number_lines (suc k) (take count (drop k lines)))
unfolding numbered_from
numbered_from_lem lines k zero h = refl
numbered_from_lem lines k (suc count) h =
    let (line, there, dropped) = line_at-drop lines k (omega arith) in
    let after : suc k + 1 ≡ suc (suc k) = omega arith in
    rw (dropped, there, after, numbered_from_lem lines (suc k) count (omega arith)) refl

-- Lines that the file has, in order, are read without a panic.
pub lines_between_lem :
    (lines : List Text) (start end : ℕ)
    → 0 < start
    → start ≤ end
    → end ≤ length lines
    → lines_between lines start end ≡ some (excerpt lines start end)
unfolding lines_between excerpt
lines_between_lem lines zero end positive ordered within = absurd (omega arith)
lines_between_lem lines (suc k) end positive ordered within =
    let before : suc k - 1 ≡ k = omega arith in
    rw before (numbered_from_lem lines k (size (suc k) end) (omega arith))
