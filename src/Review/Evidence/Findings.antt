-- ===== src/Review/Evidence/Findings.antt =====
-- internal/review/service.go: from the response of the language model to the findings that are
-- kept.
pub mod Kept
pub mod Diagnosed
pub mod Candidates
use github_pr_review_agent.Common.{
  ℕ, ◌+◌, ◌==◌, Bool, true, false, not, ◌&&◌, ◌||◌, Option, none, some, List, [], ◌∷◌, ◌++◌, Text,
  codes, is_empty, text_eq, trim_space, split_lines, join_lines, decimal, decimal_ℤ, length, select,
  if◌then◌else◌,
}
use github_pr_review_agent.Store.Tables.{Evidence, Finding}
use github_pr_review_agent.Store.Transaction.{Result, ok, err, broken, message, ◌>>=◌}
use github_pr_review_agent.Review.Evidence.Markdown.{extract_json_object}
use github_pr_review_agent.Review.Evidence.Patch.{is_positive}
use github_pr_review_agent.Review.Evidence.Corpus.{
  ParsedCorpus, DecodedReview, Json, int_eq, reference_evidence, static_check_evidence,
  contains_string, parse_evidence_corpus,
}

pub is_reference : ParsedCorpus → Finding → Evidence → Bool
unfolding text_eq trim_space reference_evidence
is_reference corpus f e = not (
    is_empty (trim_space e.text)
    || not (text_eq e.file f.file)
    || not (int_eq e.line f.line)
    || not (reference_evidence corpus e))

pub is_static_check : ParsedCorpus → Evidence → Bool
unfolding contains_string static_check_evidence
is_static_check corpus e = not (
    is_empty e.command
    || not (contains_string corpus.strings e.command)
    || not (static_check_evidence corpus e))

-- switch evidence.Type
pub supports : ParsedCorpus → Finding → Evidence → Bool
unfolding is_reference is_static_check text_eq
supports corpus f e =
    if text_eq e.kind (codes "reference")
    then is_reference corpus f e
    else if text_eq e.kind (codes "static_check")
    then is_static_check corpus e
    else false

unfoldable pub supported_evidence : ParsedCorpus → Finding → List Evidence
unfolding supports
supported_evidence corpus f = select (supports corpus f) f.evidence

pub record RejectedFinding : Type 0 where
  pub finding : Finding
  pub reason : Text

-- finding.File == "" || finding.Line <= 0
pub lacks_location : Finding → Bool
lacks_location f = is_empty f.file || not (is_positive f.line)

pub confidence_of : Finding → Text
unfolding text_eq
confidence_of f =
    if not (text_eq f.confidence (codes "confirmed")) || text_eq f.category (codes "performance")
    then codes "needs_verification"
    else f.confidence

pub kept : ParsedCorpus → Finding → Finding
unfolding confidence_of supported_evidence
kept corpus f = record f { confidence = confidence_of f; evidence = supported_evidence corpus f }

pub reason_for : Finding → Text
unfolding lacks_location
reason_for f =
    if lacks_location f
    then codes "missing file or invalid line"
    else codes "no evidence matched the retrieved corpus at the claimed location"

pub is_rejected : ParsedCorpus → Finding → Bool
unfolding lacks_location supported_evidence
is_rejected corpus f = lacks_location f || is_empty (supported_evidence corpus f)

-- The loop over the findings: what is normalized, and what is rejected.
pub normalize : ParsedCorpus → List Finding → List Finding × List RejectedFinding
unfolding is_rejected kept reason_for
normalize corpus [] = ([], [])
normalize corpus (f ∷ fs) =
    let (normalized, rejected) = normalize corpus fs in
    if is_rejected corpus f
    then (normalized, record { finding = f; reason = reason_for f } ∷ rejected)
    else (kept corpus f ∷ normalized, rejected)

pub record ParsedReview : Type 0 where
  pub summary : Text
  pub findings : List Finding

pub missing : Text
missing = codes "parse review response: summary and findings array are required"

pub check_response : DecodedReview → Result ParsedReview
unfolding trim_space missing
check_response r =
    if is_empty (trim_space r.summary) then err (broken missing) else elim r.findings [
      | none ↦ err (broken missing)
      | some findings ↦ ok (record { summary = r.summary; findings = findings })
    ]

-- The summary of a review of which some candidates were rejected.
pub omitted_summary : ℕ → ℕ → Text
omitted_summary validated omitted =
    codes "Review completed with "
    ++ decimal validated
    ++ codes " evidence-validated finding(s). "
    ++ decimal omitted
    ++ codes " candidate(s) were omitted because their evidence could not be validated. "
    ++ codes "This does not establish that the PR is defect-free."

pub summary_of : ParsedReview → List Finding × List RejectedFinding → Text
unfolding omitted_summary
summary_of parsed (normalized, rejected) =
    if is_empty rejected
    then parsed.summary
    else omitted_summary (length normalized) (length rejected)

-- A quote that is genuine, but stands elsewhere than the finding that it is to support.
pub is_misplaced : ParsedCorpus → Finding → Evidence → Bool
unfolding text_eq reference_evidence
is_misplaced corpus f e =
    text_eq e.kind (codes "reference")
    && not (is_empty e.file)
    && is_positive e.line
    && (not (text_eq f.file e.file) || not (int_eq f.line e.line))
    && reference_evidence corpus e

pub find_misplaced : ParsedCorpus → Finding → List Evidence → Option Evidence
unfolding is_misplaced
find_misplaced corpus f [] = none
find_misplaced corpus f (e ∷ es) =
    let rest = find_misplaced corpus f es in if is_misplaced corpus f e then some e else rest

pub location_error : ℕ → Evidence → Text
location_error n e =
    codes "finding "
    ++ decimal n
    ++ codes " location does not match its verified reference evidence at "
    ++ e.file
    ++ codes ":"
    ++ decimal_ℤ e.line
    ++ codes "; first preserve the production defect location and attach its exact source quote "
    ++ codes "from the already retrieved tool results (including diff and retrieval matches). "
    ++ codes "Supporting evidence from another file does not require moving the finding there. If "
    ++ codes
        "necessary, use a verified production fix location; do not move a production defect to "
    ++ codes "a test or example merely because it demonstrates the failure. If no appropriate "
    ++ codes "location has retrieved evidence, omit it; do not alter or invent the source quote"

-- The loop of validateReviewCandidate, whose next finding is number `n`.
pub validate_from : ParsedCorpus → ℕ → List Finding → Result (Unit {0})
unfolding supported_evidence find_misplaced
validate_from corpus n [] = ok tt
validate_from corpus n (f ∷ fs) =
    let rest = validate_from corpus (n + 1) fs in
    if not (is_empty (supported_evidence corpus f))
    then rest
    else elim (find_misplaced corpus f f.evidence) [
      | some e ↦ err (broken (location_error n e))
      | none ↦ rest
    ]

module _ (json : Json) where
  unfoldable pub normalize_findings_with_diagnostics :
      List Finding → List Text → List Finding × List RejectedFinding
  unfolding normalize parse_evidence_corpus
  normalize_findings_with_diagnostics findings corpus =
      normalize (parse_evidence_corpus json corpus) findings

  unfoldable pub normalize_findings : List Finding → List Text → List Finding
  unfolding normalize_findings_with_diagnostics
  normalize_findings findings corpus = (normalize_findings_with_diagnostics findings corpus).0

  unfoldable pub decode_review_response : Text → Result ParsedReview
  unfolding extract_json_object check_response
  decode_review_response content = elim (json.response (extract_json_object content)) [
    | err e ↦ err (broken (codes "parse review response: " ++ message e))
    | ok r ↦ check_response r
  ]

  unfoldable pub parse_review_response : Text → List Text → Result ParsedReview
  unfolding decode_review_response normalize_findings_with_diagnostics summary_of
  parse_review_response content corpus = do
    parsed ← decode_review_response content
    let sorted = normalize_findings_with_diagnostics parsed.findings corpus
    ok (record { summary = summary_of parsed sorted; findings = sorted.0 })

  unfoldable pub diagnose_rejected_findings : Text → List Text → List RejectedFinding
  unfolding extract_json_object normalize_findings_with_diagnostics
  diagnose_rejected_findings content corpus = elim (json.response (extract_json_object content)) [
    | err e ↦ []
    | ok r ↦ elim r.findings [
      | none ↦ []
      | some findings ↦ (normalize_findings_with_diagnostics findings corpus).1
    ]
  ]

  unfoldable pub validate_review_candidate : Text → List Text → Result (Unit {0})
  unfolding decode_review_response parse_evidence_corpus validate_from
  validate_review_candidate content corpus = do
    parsed ← decode_review_response content
    validate_from (parse_evidence_corpus json corpus) 1 parsed.findings
