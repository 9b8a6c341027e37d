-- ===== src/Review/Service.antt =====
-- internal/review/service.go: Service.ReviewPR, from the saved state of a review to its end.
pub mod Analysed
use github_pr_review_agent.Common.{
  ℕ, Bool, not, ◌&&◌, ◌||◌, some, List, [], ◌∷◌, ◌++◌, Text, codes, is_empty, trim_space,
  if◌then◌else◌,
}
use github_pr_review_agent.Store.Tables.{NewReviewResult, Database}
use github_pr_review_agent.Store.Transaction.{Error, broken, message, Result, ok, err, ◌>>=◌}
use github_pr_review_agent.Github.Reviews.{Host}
use github_pr_review_agent.Review.Delivery.{Attempt, review_pr}
use github_pr_review_agent.Review.Evidence.Corpus.{Json}
use github_pr_review_agent.Review.Evidence.Findings.{ParsedReview, parse_review_response}
use github_pr_review_agent.Review.Prompt.{
  PullRequestFile, FileContent, is_docs_only_pr, build_diff, fetch_file_contents,
  build_file_context,
}

-- llm.ReviewResponse
pub record ReviewResponse : Type 0 where
  pub content : Text
  pub model : Text
  pub input_tokens : ℕ
  pub output_tokens : ℕ
  pub total_tokens : ℕ
  pub duration_ms : ℕ

pub record Service : Type 0 where
  pub json : Json
  pub max_diff_lines : ℕ
  pub max_file_contexts : ℕ
  pub max_file_context_lines : ℕ

-- What ReviewPR reads: the title and the body of the pull request, its files and whether their list
-- was cut short, the content of a file at a commit, whether the context is cancelled when so many
-- files are left, and the answer of the language model to a title, a body, a diff and a context.
pub record Reads : Type 0 where
  pub title : Text
  pub body : Text
  pub files : Result (List PullRequestFile × Bool)
  pub get_file_content : Text → Text → Result Text
  pub cancelled : ℕ → Bool
  pub review_code : Text → Text → Text → Text → Result ReviewResponse

abbrev pub files_truncated_summary_note : Text
files_truncated_summary_note =
    codes "Note: review coverage may be incomplete: the changed-file pagination limit was reached, "
    ++ codes "and additional files exist or could not be ruled out."

abbrev wrap {ℓ} : {A : Type ℓ} → Text → Result A → Result A
wrap prefix (ok a) = ok a
wrap prefix (err e) = err (broken (prefix ++ message e))

abbrev pub or_default : Text → Text → Text
or_default text default = if is_empty (trim_space text) then default else text

-- The result of a review with no call of the language model. The store sets `task_id`.
skipped : Text → Text → NewReviewResult
skipped summary raw_response = record {
  task_id = 0;
  summary = summary;
  findings = [];
  raw_response = raw_response;
  model = codes "none";
  input_tokens = 0;
  output_tokens = 0;
  total_tokens = 0;
  llm_duration_ms = 0;
}

unfoldable pub skipped_review : List PullRequestFile → NewReviewResult
unfolding skipped
skipped_review files =
    if is_empty files
    then skipped
        (codes
          "This pull request has no changed files relative to its base branch; review skipped.")
        (codes "No changed files relative to the base branch.")
    else skipped (codes "This pull request only changes documentation; code review skipped.")
        (codes "Documentation-only pull request; code review skipped.")

unfoldable pub summary_with_note : Bool → Text → Text
summary_with_note files_truncated summary =
    if files_truncated then summary ++ (codes "\n\n" ++ files_truncated_summary_note) else summary

pub result_of : ReviewResponse → Bool → ParsedReview → NewReviewResult
unfolding summary_with_note
result_of response files_truncated parsed = record {
  task_id = 0;
  summary = summary_with_note files_truncated parsed.summary;
  findings = parsed.findings;
  raw_response = response.content;
  model = response.model;
  input_tokens = response.input_tokens;
  output_tokens = response.output_tokens;
  total_tokens = response.total_tokens;
  llm_duration_ms = response.duration_ms;
}

module _ (s : Service) (r : Reads) where
  pub diff_of : List PullRequestFile → Text
  unfolding build_diff trim_space
  diff_of files =
      or_default (build_diff files s.max_diff_lines)
        (codes "No textual diff was returned by GitHub.")

  pub context_of : Text → List PullRequestFile → Text
  unfolding fetch_file_contents build_file_context trim_space
  context_of sha files =
      or_default
        (build_file_context
          (fetch_file_contents (λ path. r.get_file_content path sha) r.cancelled s.max_file_contexts
            files)
          s.max_file_context_lines)
        (codes "No readable file context was available.")

  pub review_files : Text → List PullRequestFile → Bool → Result NewReviewResult
  unfolding diff_of context_of parse_review_response result_of
  review_files sha files files_truncated = do
    let diff = diff_of files
    let file_context = context_of sha files
    response ← wrap (codes "review code: ") (r.review_code r.title r.body diff file_context)
    parsed ← parse_review_response s.json response.content (diff ∷ file_context ∷ [])
    ok (result_of response files_truncated parsed)

  -- What ReviewPR does between resumeReview and finishReview, at the commit of the snapshot.
  unfoldable pub analysis : Text → Result NewReviewResult
  unfolding is_docs_only_pr skipped_review review_files
  analysis sha = do
    listed ← wrap (codes "get pull request files: ") r.files
    if not listed.1 && (is_empty listed.0 || is_docs_only_pr listed.0)
        then ok (skipped_review listed.0)
        else review_files sha listed.0 listed.1

  -- ReviewPR
  unfoldable pub review_pull_request :
      (h : Host) → Attempt → ℕ → Database × h.State → Result (Unit {0}) × Database × h.State
  unfolding review_pr analysis
  review_pull_request h a id site = review_pr h a id analysis site
