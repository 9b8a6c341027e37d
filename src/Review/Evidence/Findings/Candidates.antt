-- ===== src/Review/Evidence/Findings/Candidates.antt =====
-- Which responses validateReviewCandidate (internal/review/service.go) lets pass.
use github_pr_review_agent.Common.{
  ℕ, ℤ, ◌+◌, true, false, none, some, List, [], ◌∷◌, Text, codes, is_empty, text_eq, text_eq→≡,
  text_eq_refl, ne_of_text_eq, All, ◌≡◌, ◌≢◌, ◌↔◌, refl, ap, sym, subst, ◌⊎◌, inl, inr, arith,
  Bool-cases, Option-cases,
}
use github_pr_review_agent.Store.Tables.{Evidence, Finding}
use github_pr_review_agent.Store.Transaction.{ok, Result-cases}
use github_pr_review_agent.Review.Evidence.Patch.{is_positive}
use github_pr_review_agent.Review.Evidence.Corpus.{
  ParsedCorpus, Json, int_eq, reference_evidence, parse_evidence_corpus,
}
use github_pr_review_agent.Review.Evidence.Findings.Kept.{int_eq→≡, int_eq_refl}
use github_pr_review_agent.Review.Evidence.Findings.{
  supported_evidence, ParsedReview, is_misplaced, find_misplaced, validate_from,
  decode_review_response, validate_review_candidate,
}

-- A quote in the corpus at a file and a line other than those of its finding.
abbrev pub Misplaced : ParsedCorpus → Finding → Evidence → Type 0
Misplaced corpus f e =
    (e.kind ≡ codes "reference")
    × (is_empty e.file ≡ false)
    × (is_positive e.line ≡ true)
    × ((f.file ≢ e.file) ⊎ (f.line ≢ e.line))
    × (reference_evidence corpus e ≡ true)

-- A finding that the model need not correct.
abbrev pub Acceptable : ParsedCorpus → Finding → Type 0
Acceptable corpus f =
    (supported_evidence corpus f ≢ []) ⊎ All (λ e. ¬ Misplaced corpus f e) f.evidence

ne_of_int_eq : (m n : ℤ) → int_eq m n ≡ false → m ≢ n
ne_of_int_eq m n h e = absurd (cc (ap (int_eq m) e, int_eq_refl m))

is_misplaced→Misplaced :
    (corpus : ParsedCorpus) (f : Finding) (e : Evidence)
    → is_misplaced corpus f e ≡ true
    → Misplaced corpus f e
unfolding is_misplaced
is_misplaced→Misplaced corpus f e h = (
  text_eq→≡ e.kind (codes "reference") (ground arith),
  ground arith,
  ground arith,
  elim (Bool-cases (text_eq f.file e.file)) [
    | inl same ↦ inr (ne_of_int_eq f.line e.line (ground arith))
    | inr other ↦ inl (ne_of_text_eq f.file e.file other)
  ],
  ground arith,
)

Misplaced→is-Misplaced :
    (corpus : ParsedCorpus) (f : Finding) (e : Evidence)
    → is_misplaced corpus f e ≡ false
    → ¬ Misplaced corpus f e
unfolding is_misplaced
Misplaced→is-Misplaced corpus f e h (kind, file, line, inl other, found) =
    ground (arith, text_eq_refl (codes "reference"), text_eq→≡ f.file e.file)
Misplaced→is-Misplaced corpus f e h (kind, file, line, inr other, found) =
    ground (arith, text_eq_refl (codes "reference"), int_eq→≡ f.line e.line)

find_misplaced-none :
    (corpus : ParsedCorpus) (f : Finding) (es : List Evidence)
    → (find_misplaced corpus f es ≡ none) ↔ All (λ e. ¬ Misplaced corpus f e) es
unfolding find_misplaced
find_misplaced-none corpus f [] = (λ h. tt, λ h. refl)
find_misplaced-none corpus f (e ∷ es) = elim (Bool-cases (is_misplaced corpus f e)) [
  | inl wrong ↦
      (λ h. absurd (ground arith), λ h. absurd (h.0 (is_misplaced→Misplaced corpus f e wrong)))
  | inr fine ↦ rw fine (
    λ h. (Misplaced→is-Misplaced corpus f e fine, (find_misplaced-none corpus f es).0 h),
    λ h. (find_misplaced-none corpus f es).1 h.1,
  )
]

is_empty→≡ {ℓ} : {A : Type ℓ} (xs : List A) → is_empty xs ≡ true → xs ≡ []
is_empty→≡ [] h = refl
is_empty→≡ (x ∷ xs) h = absurd (cc)

Acceptable-not :
    (corpus : ParsedCorpus) (f : Finding) (e : Evidence)
    → is_empty (supported_evidence corpus f) ≡ true
    → find_misplaced corpus f f.evidence ≡ some e
    → ¬ Acceptable corpus f
Acceptable-not corpus f e nothing wrong (inl verified) = verified (is_empty→≡ _ nothing)
Acceptable-not corpus f e nothing wrong (inr fine) =
    cc ((find_misplaced-none corpus f f.evidence).1 fine)

validate_from-ok :
    (corpus : ParsedCorpus) (n : ℕ) (fs : List Finding)
    → (validate_from corpus n fs ≡ ok tt) ↔ All (Acceptable corpus) fs
unfolding validate_from
validate_from-ok corpus n [] = (λ h. tt, λ h. refl)
validate_from-ok corpus n (f ∷ fs) = elim (Bool-cases (is_empty (supported_evidence corpus f))) [
  | inr verified ↦ rw verified (
    λ h. (inl (λ e. absurd (cc (ap is_empty e))), (validate_from-ok corpus (n + 1) fs).0 h),
    λ h. (validate_from-ok corpus (n + 1) fs).1 h.1,
  )
  | inl nothing ↦ elim (Option-cases (find_misplaced corpus f f.evidence)) [
    | inl fine ↦
        rw (nothing, fine)
          (
            λ h. (
              inr ((find_misplaced-none corpus f f.evidence).0 fine),
              (validate_from-ok corpus (n + 1) fs).0 h,
            ),
            λ h. (validate_from-ok corpus (n + 1) fs).1 h.1,
          )
    | inr (e, wrong) ↦
        rw (nothing, wrong)
          (λ h. absurd (cc), λ h. absurd (Acceptable-not corpus f e nothing wrong h.0))
  ]
]

ok_injective : (a b : ParsedReview) → ok a ≡ ok b → a ≡ b
ok_injective a b h = cc

module _ (json : Json) where
  -- A response passes exactly if it decodes and each of its findings either has evidence that is
  -- verified where the finding says, or quotes nothing that the corpus has at another place.
  pub validate_review_candidate-ok :
      (content : Text) (corpus : List Text)
      → (validate_review_candidate json content corpus ≡ ok tt) ↔ (
          (d : ParsedReview) × (decode_review_response json content ≡ ok d)
          × All (Acceptable (parse_evidence_corpus json corpus)) d.findings)
  unfolding validate_review_candidate
  validate_review_candidate-ok content corpus =
      let parsed = parse_evidence_corpus json corpus in
      elim (Result-cases (decode_review_response json content)) [
        | inl (d, e) ↦
            rw (e, validate_review_candidate)
              (
                λ h. (d, refl, (validate_from-ok parsed 1 d.findings).0 h),
                λ h. (validate_from-ok parsed 1 d.findings).1 (
                    subst (λ (r : ParsedReview). All (Acceptable parsed) r.findings)
                      (sym (ok_injective d h.0 h.1)) h.2),
              )
        | inr (e, bad) ↦ rw bad (λ h. absurd (cc), λ h. absurd (cc (h.1)))
      ]
