-- ===== src/Review/Evidence/Findings/Diagnosed.antt =====
-- parseReviewResponse and DiagnoseRejectedFindings (internal/review/service.go) on the same
-- response.
use github_pr_review_agent.Common.{
  Bool, true, false, is_empty, select, All, ◌⊎◌, ◌+◌, some, List, [], ◌∷◌, Text, length, ◌≡◌, ◌≢◌,
  refl, inl, inr, arith, Bool-cases,
}
use github_pr_review_agent.Store.Tables.{Finding}
use github_pr_review_agent.Store.Transaction.{ok, Result-cases}
use github_pr_review_agent.Review.Evidence.Corpus.{
  ParsedCorpus, Json, DecodedReview, parse_evidence_corpus,
}
use github_pr_review_agent.Review.Evidence.Patch.{is_positive}
use github_pr_review_agent.Review.Evidence.Markdown.{extract_json_object}
use github_pr_review_agent.Review.Evidence.Findings.Kept.{
  Verified, Publishable, supports-Verified, Verified-supports, kept-Publishable,
}
use github_pr_review_agent.Review.Evidence.Findings.{
  supports, supported_evidence, lacks_location, kept, is_rejected, normalize, RejectedFinding,
  ParsedReview, check_response, summary_of, omitted_summary, normalize_findings_with_diagnostics,
  decode_review_response, parse_review_response, diagnose_rejected_findings,
}

-- `ys` are those of `xs` that have the property, in order.
pub data Selected {ℓ κ} {A : Type ℓ} (P : A → Type κ) : List A → List A → Type (ℓ ⊔ κ) where
  ended : Selected P [] []
  taken : {x : A} {xs ys : List A} → P x → Selected P xs ys → Selected P (x ∷ xs) (x ∷ ys)
  left_out : {x : A} {xs ys : List A} → ¬ P x → Selected P xs ys → Selected P (x ∷ xs) ys

-- What is kept of a finding: it may be published, has lost the evidence that is not verified and no
-- other, and differs in its confidence at most besides.
pub record IsKept (corpus : ParsedCorpus) (f k : Finding) : Type 0 where
  pub publishable : Publishable corpus k
  pub evidence : Selected (Verified corpus f) f.evidence k.evidence
  pub unchanged : k ≡ record f { confidence = k.confidence; evidence = k.evidence }

-- A finding has no location, or no evidence that is verified.
abbrev pub Unsupported : ParsedCorpus → Finding → Type 0
Unsupported corpus f =
    (f.file ≡ []) ⊎ (is_positive f.line ≡ false) ⊎ All (λ e. ¬ Verified corpus f e) f.evidence

-- Each finding, in order, is kept or rejected, as the corpus supports it or not.
pub data Sorts (corpus : ParsedCorpus)
    : List Finding → List Finding → List RejectedFinding → Type 0 where
  sorted : Sorts corpus [] [] []
  keeps :
      {f k : Finding} {fs ks : List Finding} {rs : List RejectedFinding}
      → IsKept corpus f k
      → Sorts corpus fs ks rs
      → Sorts corpus (f ∷ fs) (k ∷ ks) rs
  rejects :
      {f : Finding} {fs ks : List Finding} {r : RejectedFinding} {rs : List RejectedFinding}
      → r.finding ≡ f
      → Unsupported corpus f
      → Sorts corpus fs ks rs
      → Sorts corpus (f ∷ fs) ks (r ∷ rs)

select-Selected {ℓ κ} :
    {A : Type ℓ} (p : A → Bool) (P : A → Type κ) (xs : List A)
    → ((x : A) → p x ≡ true → P x)
    → ((x : A) → P x → p x ≡ true)
    → Selected P xs (select p xs)
select-Selected p P [] sound complete = ended
select-Selected p P (x ∷ xs) sound complete = elim (Bool-cases (p x)) [
  | inl e ↦ rw e (taken (sound x e) (select-Selected p P xs sound complete))
  | inr e ↦ rw e (
      left_out (λ h. absurd (ground (arith, complete x h))) (select-Selected p P xs sound complete))
]

select-none {ℓ κ} :
    {A : Type ℓ} (p : A → Bool) (P : A → Type κ) (xs : List A)
    → ((x : A) → P x → p x ≡ true)
    → is_empty (select p xs) ≡ true
    → All (λ x. ¬ P x) xs
select-none p P [] complete h = tt
select-none p P (x ∷ xs) complete h = elim (Bool-cases (p x)) [
  | inl e ↦ absurd (ground arith)
  | inr e ↦ (λ q. absurd (ground (arith, complete x q)), select-none p P xs complete (ground arith))
]

kept-IsKept :
    (corpus : ParsedCorpus) (f : Finding)
    → is_rejected corpus f ≡ false
    → IsKept corpus f (kept corpus f)
unfolding kept supported_evidence
kept-IsKept corpus f e = record {
  publishable = kept-Publishable corpus f e;
  evidence =
      select-Selected (supports corpus f) (Verified corpus f) f.evidence
        (supports-Verified corpus f) (Verified-supports corpus f);
  unchanged = refl;
}

is_empty-nil {ℓ} : {A : Type ℓ} (xs : List A) → is_empty xs ≡ true → xs ≡ []
is_empty-nil [] h = refl
is_empty-nil (x ∷ xs) h = absurd (ground arith)

is_rejected-Unsupported :
    (corpus : ParsedCorpus) (f : Finding) → is_rejected corpus f ≡ true → Unsupported corpus f
unfolding is_rejected lacks_location supported_evidence
is_rejected-Unsupported corpus f h = elim (Bool-cases (is_empty f.file)) [
  | inl e ↦ inl (is_empty-nil f.file e)
  | inr named ↦ elim (Bool-cases (is_positive f.line)) [
    | inr e ↦ inr (inl e)
    | inl placed ↦ inr (
        inr (
          select-none (supports corpus f) (Verified corpus f) f.evidence
            (Verified-supports corpus f) (ground arith)))
  ]
]

normalize-Sorts :
    (corpus : ParsedCorpus) (fs : List Finding)
    → Sorts corpus fs (normalize corpus fs).0 (normalize corpus fs).1
unfolding normalize
normalize-Sorts corpus [] = sorted
normalize-Sorts corpus (f ∷ fs) = elim (Bool-cases (is_rejected corpus f)) [
  | inl e ↦ rw e (rejects refl (is_rejected-Unsupported corpus f e) (normalize-Sorts corpus fs))
  | inr e ↦ rw e (keeps (kept-IsKept corpus f e) (normalize-Sorts corpus fs))
]

length-normalize :
    (corpus : ParsedCorpus) (fs : List Finding)
    → length (normalize corpus fs).0 + length (normalize corpus fs).1 ≡ length fs
unfolding normalize
length-normalize corpus [] = refl
length-normalize corpus (f ∷ fs) = elim (Bool-cases (is_rejected corpus f)) [
  | inl e ↦ rw e (omega (arith, length-normalize corpus fs))
  | inr e ↦ rw e (omega (arith, length-normalize corpus fs))
]

check_response-findings :
    (r : DecodedReview) (d : ParsedReview) → check_response r ≡ ok d → r.findings ≡ some d.findings
unfolding check_response
check_response-findings r d h = ground arith

summary_of_none :
    (d : ParsedReview) (s : List Finding × List RejectedFinding)
    → s.1 ≡ []
    → summary_of d s ≡ d.summary
unfolding summary_of
summary_of_none d s e = rw e

summary_of_some :
    (d : ParsedReview) (s : List Finding × List RejectedFinding)
    → s.1 ≢ []
    → summary_of d s ≡ omitted_summary (length s.0) (length s.1)
unfolding summary_of
summary_of_some d s e = ground arith

module _ (json : Json) where
  -- A decoded response has the findings that DiagnoseRejectedFindings works on.
  diagnose-decode :
      (content : Text) (corpus : List Text) (d : ParsedReview)
      → decode_review_response json content ≡ ok d
      → diagnose_rejected_findings json content corpus
        ≡ (normalize_findings_with_diagnostics json d.findings corpus).1
  unfolding decode_review_response diagnose_rejected_findings
  diagnose-decode content corpus d h =
      elim (Result-cases (json.response (extract_json_object content))) [
        | inl (r, e) ↦
            rw (e, diagnose_rejected_findings) (rw (check_response-findings r d (checked r e)) refl)
        | inr (e, bad) ↦ absurd (ground arith)
      ]
    where
      checked :
          (r : DecodedReview)
          → json.response (extract_json_object content) ≡ ok r
          → check_response r ≡ ok d
      checked r e = ground arith

  -- For every response that decodes and every corpus: parsing succeeds, and each finding of the
  -- response, in order, is either kept or listed by DiagnoseRejectedFindings, not both. A kept one is
  -- that finding, up to its confidence, with exactly those pieces of its evidence that the corpus
  -- verifies, of which there is one at least, and may be published; a listed one names no file or no
  -- positive line, or no piece of its evidence is verified. The summary is that of the response if
  -- none is listed, and else a fixed text with the two numbers, in which no claim of the model is
  -- left.
  pub parse_review_response-diagnose :
      (content : Text) (corpus : List Text) (d : ParsedReview)
      → decode_review_response json content ≡ ok d
      → (r : ParsedReview) × (parse_review_response json content corpus ≡ ok r)
        × Sorts
            (parse_evidence_corpus json corpus)
            d.findings
            r.findings
            (diagnose_rejected_findings json content corpus)
        × (length r.findings + length (diagnose_rejected_findings json content corpus)
            ≡ length d.findings)
        × (diagnose_rejected_findings json content corpus ≡ [] → r.summary ≡ d.summary)
        × (diagnose_rejected_findings json content corpus ≢ []
            → r.summary
              ≡ omitted_summary
                  (length r.findings)
                  (length (diagnose_rejected_findings json content corpus)))
  unfolding parse_review_response
  parse_review_response-diagnose content corpus d h =
      let sorted = normalize_findings_with_diagnostics json d.findings corpus in
      rw (h, diagnose-decode content corpus d h)
        (
          record { summary = summary_of d sorted; findings = sorted.0 },
          refl,
          normalize-Sorts (parse_evidence_corpus json corpus) d.findings,
          length-normalize (parse_evidence_corpus json corpus) d.findings,
          summary_of_none d sorted,
          summary_of_some d sorted,
        )
