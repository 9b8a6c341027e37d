-- ===== src/Tests/Codecontext.antt =====
-- Concrete runs of internal/codecontext/codecontext.go.
use github_pr_review_agent.Common.{
  ℕ, ℤ, pos, negsuc, ◌<◌, Option, none, some, List, [], ◌∷◌, Text, codes, any, ◌≡◌, refl, ltb,
  length, if◌then◌else◌,
}
use github_pr_review_agent.Codecontext.Targets.{
  add_line, add_lines, insert_int, sort_ints, normalize_lines, content_lines,
}
use github_pr_review_agent.Codecontext.Targets.Normal.{
  has, asks_for, Increasing, normalize_lines_lem,
}
use github_pr_review_agent.Codecontext.Symbols.{syntax, childless, Node, Tree}
use github_pr_review_agent.Codecontext.Extraction.{ExtractRequest}

-- Lines are sorted, and doubled and negative ones are dropped.
asked : normalize_lines (pos 7 ∷ negsuc 2 ∷ pos 3 ∷ pos 7 ∷ pos 0 ∷ []) ≡ 3 ∷ 7 ∷ []
unfolding normalize_lines add_lines add_line sort_ints insert_int any
asked = refl

abbrev values : List ℤ
values = pos 7 ∷ negsuc 2 ∷ pos 3 ∷ pos 7 ∷ pos 0 ∷ []

normalize_lines_lem_example :
    Increasing (normalize_lines values)
    × ((n : ℕ) → 0 < n → has n (normalize_lines values) ≡ any values (asks_for n))
normalize_lines_lem_example = normalize_lines_lem values

abbrev five_lines : List Text
five_lines = codes "func f() {" ∷ codes "a" ∷ codes "b" ∷ codes "c" ∷ codes "}" ∷ []

abbrev two_lines : Text
two_lines = codes "2: a\n3: b\n[context truncated by tool limit]"

abbrev f_node : Node
f_node = record {
  id = 1;
  tree = syntax (codes "function_declaration") (some (codes "f")) childless;
  start_row = 0;
  end_row = 4;
}

abbrev f_tree : Tree
f_tree start end = f_node ∷ []

-- The parser knows no definition in a shorter text.
abbrev f_parser : Text → Text → Option Tree
f_parser language content = if ltb 4 (length (content_lines content)) then some f_tree else none

abbrev f_request : ExtractRequest
f_request = record {
  path = codes "f.go";
  content = codes "func f() {\na\nb\nc\n}\n";
  target_lines = pos 3 ∷ [];
  max_lines = 3;
}

abbrev tree_or : Tree → Option Tree → Tree
tree_or tree none = tree
tree_or tree (some t) = t
