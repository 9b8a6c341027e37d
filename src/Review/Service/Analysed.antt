-- ===== src/Review/Service/Analysed.antt =====
-- Service.ReviewPR (internal/review/service.go): what its analysis may give to be published.
use github_pr_review_agent.Common.{
  Bool, true, false, not, ◌&&◌, ◌||◌, List, [], ◌∷◌, Text, is_empty, any, All, ◌↔◌, ◌≡◌, refl,
  arith, inl, inr, Bool-cases, subst,
}
use github_pr_review_agent.Store.Tables.{NewReviewResult}
use github_pr_review_agent.Store.Transaction.{Error, ok, err, Result-cases}
use github_pr_review_agent.Review.Evidence.Corpus.{Json, ParsedCorpus, parse_evidence_corpus}
use github_pr_review_agent.Review.Evidence.Findings.{
  ParsedReview, parse_review_response, decode_review_response, normalize_findings_with_diagnostics,
}
use github_pr_review_agent.Review.Evidence.Findings.Kept.{
  Publishable, normalize_findings_with_diagnostics-Publishable,
}
use github_pr_review_agent.Review.Prompt.{PullRequestFile, is_documentation_file, is_docs_only_pr}
use github_pr_review_agent.Review.Service.{
  Service, Reads, skipped_review, result_of, diff_of, context_of, review_files, analysis,
}

pub parse_review_response-Publishable :
    (json : Json) (content : Text) (corpus : List Text) (parsed : ParsedReview)
    → parse_review_response json content corpus ≡ ok parsed
    → All (Publishable (parse_evidence_corpus json corpus)) parsed.findings
unfolding parse_review_response
parse_review_response-Publishable json content corpus parsed h =
    elim (Result-cases (decode_review_response json content)) [
      | inl (d, e) ↦
          let kept : (normalize_findings_with_diagnostics json d.findings corpus).0
              ≡ parsed.findings =
            ground arith in
          subst (All (Publishable (parse_evidence_corpus json corpus))) kept
            (normalize_findings_with_diagnostics-Publishable json d.findings corpus)
      | inr (e, bad) ↦ absurd (ground arith)
    ]

pub skipped_review-Publishable :
    (corpus : ParsedCorpus) (files : List PullRequestFile)
    → All (Publishable corpus) (skipped_review files).findings
unfolding skipped_review
skipped_review-Publishable corpus [] = tt
skipped_review-Publishable corpus (f ∷ files) = tt

-- Every file is documentation.
abbrev pub Documents : List PullRequestFile → Type 0
Documents = All (λ f. is_documentation_file f.filename ≡ true)

all-Documents :
    (files : List PullRequestFile)
    → (any files (λ f. not (is_documentation_file f.filename)) ≡ false) ↔ Documents files
unfolding any
all-Documents [] = (λ h. tt, λ h. refl)
all-Documents (f ∷ files) = (
  λ h. (ground arith, (all-Documents files).0 (ground arith)),
  λ h. ground (arith, h.0, (all-Documents files).1 h.1),
)

skips_iff :
    (files : List PullRequestFile)
    → ((is_empty files || is_docs_only_pr files) ≡ true) ↔ Documents files
unfolding is_docs_only_pr
skips_iff [] = (λ h. tt, λ h. refl)
skips_iff (f ∷ files) = (
  λ h. (all-Documents (f ∷ files)).0 (ground arith),
  λ h. ground (arith, (all-Documents (f ∷ files)).1 h),
)

module _ (s : Service) (r : Reads) (sha : Text) where
  -- What the language model is shown, by which its findings are judged.
  abbrev pub shown : List PullRequestFile → List Text
  shown files = diff_of s r files ∷ context_of s r sha files ∷ []

  review_files-Publishable :
      (files : List PullRequestFile) (files_truncated : Bool) (input : NewReviewResult)
      → review_files s r sha files files_truncated ≡ ok input
      → All (Publishable (parse_evidence_corpus s.json (shown files))) input.findings
  unfolding review_files result_of
  review_files-Publishable files files_truncated input h =
      elim (Result-cases
        (r.review_code r.title r.body (diff_of s r files) (context_of s r sha files))) [
          | inr (e, bad) ↦ absurd (ground arith)
          | inl (response, answered) ↦
              elim (Result-cases (parse_review_response s.json response.content (shown files))) [
                | inr (e, bad) ↦ absurd (ground arith)
                | inl (parsed, e) ↦
                    let same : parsed.findings ≡ input.findings = ground arith in
                    subst (All (Publishable (parse_evidence_corpus s.json (shown files)))) same (
                      parse_review_response-Publishable s.json response.content (shown files) parsed
                        e)
              ]
        ]

  -- Whatever the language model answers: a review that the analysis gives has only findings that
  -- may be published, each with evidence that is verified in what the model was shown of the listed
  -- files at the commit.
  pub analysis-Publishable :
      (files : List PullRequestFile) (files_truncated : Bool) (input : NewReviewResult)
      → r.files ≡ ok (files, files_truncated)
      → analysis s r sha ≡ ok input
      → All (Publishable (parse_evidence_corpus s.json (shown files))) input.findings
  unfolding analysis
  analysis-Publishable files files_truncated input listed h =
      elim (Bool-cases (not files_truncated && (is_empty files || is_docs_only_pr files))) [
        | inl skip ↦
            let same : (skipped_review files).findings ≡ input.findings = ground arith in
            subst (All (Publishable (parse_evidence_corpus s.json (shown files)))) same
              (skipped_review-Publishable (parse_evidence_corpus s.json (shown files)) files)
        | inr review ↦ review_files-Publishable files files_truncated input (ground arith)
      ]

  -- A review needs the language model unless the list of the files is complete and each of them is
  -- documentation: where every call of the model fails, the analysis of the listed files gives a
  -- review exactly in that case.
  pub analysis-Documents :
      (files : List PullRequestFile) (files_truncated : Bool)
      → r.files ≡ ok (files, files_truncated)
      → ((title body diff context : Text)
          → (e : Error) × (r.review_code title body diff context ≡ err e))
      → ((input : NewReviewResult) × (analysis s r sha ≡ ok input))
        ↔ ((files_truncated ≡ false) × Documents files)
  unfolding analysis review_files
  analysis-Documents files files_truncated listed fails =
      let (e, failed) = fails r.title r.body (diff_of s r files) (context_of s r sha files) in
      elim (Bool-cases (not files_truncated && (is_empty files || is_docs_only_pr files))) [
        | inl skip ↦ (
          λ h. (ground arith, (skips_iff files).0 (ground arith)),
          λ h. (skipped_review files, ground arith),
        )
        | inr review ↦ (
          λ h. absurd (ground (arith, h.1)),
          λ h. absurd (ground (arith, h.0, (skips_iff files).1 h.1)),
        )
      ]
