-- ===== src/Review/Comment.antt =====
-- internal/review/service.go: the text of the review that is posted.
use github_pr_review_agent.Common.{
  ℕ, ◌+◌, List, [], ◌∷◌, ◌++◌, Text, codes, is_empty, decimal, decimal_ℤ, length, take, leb,
  if◌then◌else◌,
}
use github_pr_review_agent.Store.Tables.{Evidence, Finding, ReviewResult}

-- Commit ids are ASCII: a byte is a code point.
short_commit_sha : Text → Text
short_commit_sha commit_sha = if leb 7 (length commit_sha) then take 7 commit_sha else commit_sha

format_evidence : Evidence → Text
format_evidence e =
    if is_empty e.command
    then (if is_empty e.file
        then e.kind ++ codes ": " ++ e.excerpt
        else codes "`" ++ e.file ++ codes ":" ++ decimal_ℤ e.line ++ codes "`: " ++ e.text)
    else codes "`" ++ e.command ++ codes "`: " ++ e.excerpt

evidence_lines : List Evidence → Text
unfolding format_evidence
evidence_lines [] = []
evidence_lines (e ∷ es) =
    codes "   Evidence: " ++ format_evidence e ++ codes "\n" ++ evidence_lines es

suggestion_line : Text → Text
suggestion_line suggestion =
    if is_empty suggestion then [] else codes "   Suggestion: " ++ suggestion ++ codes "\n"

-- The findings, counted from `n`.
finding_lines : ℕ → List Finding → Text
unfolding suggestion_line evidence_lines
finding_lines n [] = []
finding_lines n (f ∷ fs) =
    codes "\n"
    ++ decimal n
    ++ codes ". ["
    ++ f.category
    ++ codes " / "
    ++ f.severity
    ++ codes " / "
    ++ f.confidence
    ++ codes "] `"
    ++ f.file
    ++ codes ":"
    ++ decimal_ℤ f.line
    ++ codes "` - "
    ++ f.comment
    ++ codes "\n"
    ++ suggestion_line f.suggestion
    ++ evidence_lines f.evidence
    ++ finding_lines (n + 1) fs

findings_part : List Finding → Text
unfolding finding_lines
findings_part fs =
    if is_empty fs
    then codes "\n\nNo evidence-validated findings to publish."
    else codes "\n\n### Findings\n" ++ finding_lines 1 fs

unfoldable pub build_review_comment : ReviewResult → ℕ → Text → Text
unfolding findings_part short_commit_sha
build_review_comment result task_id commit_sha =
    codes "## Automated Code Review\n\n"
    ++ result.summary
    ++ findings_part result.findings
    ++ codes "\n\n---\nTask ID: "
    ++ decimal task_id
    ++ codes " | commit "
    ++ short_commit_sha commit_sha
