-- ===== src/Codecontext/Targets.antt =====
-- internal/codecontext/codecontext.go: normalizeLines, and the lines of a file with their offsets.
pub mod Normal
use github_pr_review_agent.Common.{
  ℕ, ℤ, pos, negsuc, ◌+◌, ◌==◌, Bool, ◌||◌, List, [], ◌∷◌, ◌++◌, Text, codes, newline, is_empty,
  trim_prefix, split_lines, any, leb, if◌then◌else◌,
}
use mathlib.Core.List.{reverse}
use github_pr_review_agent.Agent.Messages.{byte_length}

-- One value of the loop: a new positive one is appended. The map `seen` has what the list has.
unfoldable pub add_line : List ℕ → ℤ → List ℕ
unfolding any
add_line lines (negsuc n) = lines
add_line lines (pos n) = if (n == 0) || any lines (λ m. m == n) then lines else lines ++ n ∷ []

unfoldable pub add_lines : List ℕ → List ℤ → List ℕ
unfolding add_line
add_lines lines [] = lines
add_lines lines (value ∷ values) = add_lines (add_line lines value) values

-- sort.Ints
unfoldable pub insert_int : ℕ → List ℕ → List ℕ
insert_int n [] = n ∷ []
insert_int n (m ∷ ms) = if leb n m then n ∷ m ∷ ms else m ∷ insert_int n ms

unfoldable pub sort_ints : List ℕ → List ℕ
unfolding insert_int
sort_ints [] = []
sort_ints (n ∷ ns) = insert_int n (sort_ints ns)

unfoldable pub normalize_lines : List ℤ → List ℕ
unfolding add_lines sort_ints
normalize_lines values = sort_ints (add_lines [] values)

-- strings.TrimSuffix
unfoldable pub trim_suffix : Text → Text → Text
unfolding trim_prefix
trim_suffix s part = reverse (trim_prefix (reverse s) (reverse part))

-- splitLines
unfoldable pub content_lines : Text → List Text
unfolding trim_suffix split_lines
content_lines content =
    let trimmed = trim_suffix (trim_suffix content (codes "\r\n")) (codes "\n") in
    if is_empty trimmed then [] else split_lines trimmed

-- The byte offsets behind the newlines of a text that stands at an offset.
unfoldable pub offsets_from : ℕ → Text → List ℕ
unfolding byte_length
offsets_from at [] = []
offsets_from at (c ∷ s) =
    let next = at + byte_length (c ∷ []) in
    let rest = offsets_from next s in if c == newline then next ∷ rest else rest

unfoldable pub line_offsets : Text → List ℕ
unfolding offsets_from
line_offsets source = 0 ∷ offsets_from 0 source
