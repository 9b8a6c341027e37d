-- ===== src/Tests/Evidence.antt =====
-- internal/review on a concrete pull request: its evidence, its prompt and its analysis.
use github_pr_review_agent.Common.{
  pos, ◌+◌, true, false, ◌||◌, none, some, [], ◌∷◌, Text, codes, text_eq, split_lines, All, any,
  length, ◌≡◌, ◌≢◌, ◌↔◌, refl, if◌then◌else◌,
}
use github_pr_review_agent.Common.Json.{object, field, end, text}
use github_pr_review_agent.Store.Tables.{Evidence, Finding}
use github_pr_review_agent.Store.Transaction.{Result, ok, err, broken}
use github_pr_review_agent.Review.Evidence.Patch.{patch_evidence}
use github_pr_review_agent.Review.Evidence.Patch.Quoted.{Quoted, patch_evidence-Quoted}
use github_pr_review_agent.Review.Evidence.Sections.{raw_reference_evidence}
use github_pr_review_agent.Review.Evidence.Corpus.{
  Json, Check, DecodedReview, parse_evidence_corpus, static_check_evidence,
  static_check_evidence_in_corpus, evidence_strings, reference_evidence,
  reference_evidence_in_corpus, diffs_match,
}
use github_pr_review_agent.Review.Evidence.Corpus.Matching.{parse_evidence_corpus_agrees}
use github_pr_review_agent.Review.Evidence.Findings.{
  normalize_findings, ParsedReview, decode_review_response, parse_review_response,
  diagnose_rejected_findings, omitted_summary, validate_review_candidate, location_error,
}
use github_pr_review_agent.Review.Evidence.Findings.Diagnosed.{
  Sorts, parse_review_response-diagnose,
}
use github_pr_review_agent.Review.Evidence.Findings.Candidates.{
  Acceptable, validate_review_candidate-ok,
}

-- Two lines of the new side, of which the second is new.
abbrev pub patch : Text
patch = codes "@@ -7,2 +7,2 @@ func f()\n a := 1\n-old\n+b := g(a)\n"

abbrev pub quote : Evidence
quote = record {
  kind = codes "reference";
  file = codes "f.go";
  line = pos 8;
  text = codes "b := g(a)";
  command = [];
  excerpt = [];
}

quote_is_there : patch_evidence patch quote ≡ true
unfolding patch_evidence
quote_is_there = refl

patch_evidence-Quoted_example : Quoted quote (split_lines patch)
patch_evidence-Quoted_example = patch_evidence-Quoted patch quote quote_is_there

removed_line : patch_evidence patch (record quote { text = codes "old" }) ≡ false
unfolding patch_evidence
removed_line = refl

-- The same quote in the diff of the prompt.
in_prompt :
    raw_reference_evidence
      (codes "\n### f.go\n@@ -7,2 +7,2 @@ func f()\n a := 1\n-old\n+b := g(a)\n")
      quote
    ≡ true
unfolding raw_reference_evidence
in_prompt = refl

abbrev pub finding : Finding
finding = record {
  category = codes "bug";
  file = codes "f.go";
  line = pos 8;
  severity = codes "high";
  comment = codes "b is not used";
  suggestion = [];
  confidence = codes "confirmed";
  evidence = quote ∷ [];
}

-- The quote stands on line 8, and not on line 9.
abbrev pub misplaced : Finding
misplaced = record finding { line = pos 9 }

abbrev vetting : Check
vetting = record {
  command = codes "go vet ./...";
  output = codes "f.go:8: b declared and not used";
  error = [];
  success = some false;
  exit_code = pos 1;
  timed_out = false;
}

-- The answers of the model: two findings of which one has its evidence elsewhere, or one finding.
abbrev answers : Text → Result DecodedReview
answers content =
    if text_eq content (codes "two")
    then ok (record { summary = codes "Two bugs"; findings = some (finding ∷ misplaced ∷ []) })
    else if text_eq content (codes "one")
    then ok (record { summary = codes "A bug"; findings = some (finding ∷ []) })
    else err (broken (codes "unexpected end of JSON input"))

-- The texts that decode: the output of a diff tool and that of a static check.
abbrev pub json : Json
json = record {
  diffs = λ source.
      if text_eq source (codes "read_diff")
      then some (record {
        file = record { path = codes "f.go"; patch = patch; found = none; status = [] };
        files = [];
      })
      else none;
  references = λ source. none;
  checks = λ source. if text_eq source (codes "vet") then some (vetting ∷ []) else none;
  value = λ source.
      if text_eq source (codes "vet")
      then some (object (field (codes "command") (text (codes "go vet ./...")) end))
      else none;
  response = answers;
}

abbrev vetted : Evidence
vetted = record quote {
  kind = codes "static_check";
  command = codes "go vet ./...";
  excerpt = codes "b declared and not used";
}

keeps_the_verified :
    normalize_findings json (finding ∷ misplaced ∷ []) (codes "read_diff" ∷ []) ≡ finding ∷ []
unfolding normalize_findings
keeps_the_verified = refl

keeps_the_vetted :
    length (
      normalize_findings json
        (record misplaced { evidence = vetted ∷ [] } ∷ [])
        (codes "read_diff" ∷ codes "vet" ∷ []))
    ≡ 1
unfolding normalize_findings
keeps_the_vetted = refl

needs_the_vetting :
    normalize_findings json
      (record misplaced { evidence = vetted ∷ [] } ∷ [])
      (codes "read_diff" ∷ [])
    ≡ []
unfolding normalize_findings
needs_the_vetting = refl

parse_evidence_corpus_agrees_example :
    (static_check_evidence
        (parse_evidence_corpus json (codes "read_diff" ∷ codes "vet" ∷ []))
        vetted
      ≡ static_check_evidence_in_corpus json vetted (codes "read_diff" ∷ codes "vet" ∷ []))
    × ((parse_evidence_corpus json (codes "read_diff" ∷ codes "vet" ∷ [])).strings
        ≡ evidence_strings json (codes "read_diff" ∷ codes "vet" ∷ []))
    × (reference_evidence (parse_evidence_corpus json (codes "read_diff" ∷ codes "vet" ∷ [])) vetted
        ≡ (any (codes "read_diff" ∷ codes "vet" ∷ []) (λ s. diffs_match vetted (json.diffs s))
            || reference_evidence_in_corpus json vetted (codes "read_diff" ∷ codes "vet" ∷ [])))
parse_evidence_corpus_agrees_example =
    parse_evidence_corpus_agrees json (codes "read_diff" ∷ codes "vet" ∷ []) vetted

abbrev both : ParsedReview
both = record { summary = codes "Two bugs"; findings = finding ∷ misplaced ∷ [] }

decoded : decode_review_response json (codes "two") ≡ ok both
unfolding decode_review_response
decoded = refl

parse_review_response-diagnose_example :
    (r : ParsedReview) × (parse_review_response json (codes "two") (codes "read_diff" ∷ []) ≡ ok r)
    × Sorts
        (parse_evidence_corpus json (codes "read_diff" ∷ []))
        both.findings
        r.findings
        (diagnose_rejected_findings json (codes "two") (codes "read_diff" ∷ []))
    × (length r.findings
          + length (diagnose_rejected_findings json (codes "two") (codes "read_diff" ∷ []))
        ≡ length both.findings)
    × (diagnose_rejected_findings json (codes "two") (codes "read_diff" ∷ []) ≡ []
        → r.summary ≡ both.summary)
    × (diagnose_rejected_findings json (codes "two") (codes "read_diff" ∷ []) ≢ []
        → r.summary
          ≡ omitted_summary
              (length r.findings)
              (length (diagnose_rejected_findings json (codes "two") (codes "read_diff" ∷ []))))
parse_review_response-diagnose_example =
    parse_review_response-diagnose json (codes "two") (codes "read_diff" ∷ []) both decoded

-- The misplaced finding has to be corrected.
refused :
    validate_review_candidate json (codes "two") (codes "read_diff" ∷ [])
    ≡ err (broken (location_error 2 quote))
unfolding validate_review_candidate
refused = refl

validate_review_candidate-ok_example :
    (validate_review_candidate json (codes "two") (codes "read_diff" ∷ []) ≡ ok tt) ↔ (
      (d : ParsedReview) × (decode_review_response json (codes "two") ≡ ok d)
      × All (Acceptable (parse_evidence_corpus json (codes "read_diff" ∷ []))) d.findings)
validate_review_candidate-ok_example =
    validate_review_candidate-ok json (codes "two") (codes "read_diff" ∷ [])
