-- ===== src/Tests/Prompt.antt =====
-- internal/review on a concrete pull request: what the model is shown, and the analysis.
use github_pr_review_agent.Common.{
  Bool, false, List, [], ◌∷◌, Text, codes, text_eq, All, Flat, trim_space, take, ◌≡◌, ◌↔◌, refl,
  if◌then◌else◌,
}
use github_pr_review_agent.Store.Tables.{NewReviewResult}
use github_pr_review_agent.Store.Transaction.{Result, ok, err, broken}
use github_pr_review_agent.Review.Evidence.Corpus.{parse_evidence_corpus}
use github_pr_review_agent.Review.Evidence.Markdown.{extract_json_object}
use github_pr_review_agent.Review.Evidence.Findings.{omitted_summary}
use github_pr_review_agent.Review.Evidence.Findings.Kept.{Publishable}
use github_pr_review_agent.Review.Evidence.Markdown.Fenced.{fenced, extract_json_object-fenced}
use github_pr_review_agent.Review.Prompt.{PullRequestFile, fetch_file_contents, fetch_all}
use github_pr_review_agent.Review.Prompt.Fetching.{readable, fetch_file_contents_complete}
use github_pr_review_agent.Review.Service.{Service, Reads, analysis}
use github_pr_review_agent.Review.Service.Analysed.{
  shown, Documents, analysis-Publishable, analysis-Documents,
}
use github_pr_review_agent.Tests.Evidence.{patch, finding, json}

extract_json_object-fenced_example :
    (extract_json_object (fenced (codes "json") (codes "{\n}")) ≡ trim_space (codes "{\n}"))
    × (extract_json_object (fenced [] (codes "{\n}")) ≡ trim_space (codes "{\n}"))
    × (Flat (trim_space (codes "{\n}"))
        → extract_json_object (codes "{\n}") ≡ trim_space (codes "{\n}"))
extract_json_object-fenced_example = extract_json_object-fenced (codes "{\n}")

abbrev pub changed : List PullRequestFile
changed =
    record { filename = codes "f.go"; patch = patch }
    ∷ record { filename = codes "logo.png"; patch = [] }
    ∷ record { filename = codes "g.go"; patch = [] }
    ∷ record { filename = codes "h.go"; patch = [] }
    ∷ []

-- One file cannot be read.
abbrev pub content_of : Text → Result Text
content_of path =
    if text_eq path (codes "g.go") then err (broken (codes "404")) else ok (codes "package f")

fetch_file_contents_complete_example :
    fetch_file_contents content_of (λ left. false) 2 changed
    ≡ take 2 (fetch_all content_of (readable changed))
fetch_file_contents_complete_example = fetch_file_contents_complete content_of 2 changed

abbrev service : Service
service = record {
  json = json;
  max_diff_lines = 0;
  max_file_contexts = 1;
  max_file_context_lines = 0;
}

abbrev reads : Reads
reads = record {
  title = codes "Use g";
  body = [];
  files = ok (changed, false);
  get_file_content = λ path ref. content_of path;
  cancelled = λ left. false;
  review_code = λ title body diff context. ok (record {
    content = codes "two";
    model = codes "m";
    input_tokens = 9;
    output_tokens = 2;
    total_tokens = 11;
    duration_ms = 5;
  });
}

abbrev reviewed : NewReviewResult
reviewed = record {
  task_id = 0;
  summary = omitted_summary 1 1;
  findings = finding ∷ [];
  raw_response = codes "two";
  model = codes "m";
  input_tokens = 9;
  output_tokens = 2;
  total_tokens = 11;
  llm_duration_ms = 5;
}

analysed : analysis service reads (codes "abc") ≡ ok reviewed
unfolding analysis
analysed = refl

analysis-Publishable_example :
    All
      (Publishable (parse_evidence_corpus json (shown service reads (codes "abc") changed)))
      reviewed.findings
analysis-Publishable_example =
    analysis-Publishable service reads (codes "abc") changed false reviewed refl analysed

-- The same with a model that cannot be reached.
abbrev unreachable : Reads
unreachable = record reads { review_code = λ title body diff context. err (broken (codes "503")) }

analysis-Documents_example :
    ((input : NewReviewResult) × (analysis service unreachable (codes "abc") ≡ ok input))
    ↔ ((◌≡◌ {A = Bool} false false) × Documents changed)
analysis-Documents_example =
    analysis-Documents service unreachable (codes "abc") changed false refl
      (λ title body diff context. (broken (codes "503"), refl))
