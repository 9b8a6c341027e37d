-- ===== src/Review/Evidence/Findings/Kept.antt =====
-- Which findings normalizeFindingsWithDiagnostics (internal/review/service.go) keeps.
use github_pr_review_agent.Common.{
  ℤ, pos, negsuc, Bool, true, false, List, [], ◌∷◌, Text, codes, is_empty, text_eq, text_eq→≡,
  text_eq_refl, trim_space, select, All, ◌≡◌, refl, ap, ◌⊎◌, inl, inr, arith, Bool-cases,
}
use github_pr_review_agent.Store.Tables.{Evidence, Finding}
use github_pr_review_agent.Review.Evidence.Patch.{is_positive}
use github_pr_review_agent.Review.Evidence.Corpus.{
  ParsedCorpus, Json, int_eq, reference_evidence, static_check_evidence, contains_string,
  parse_evidence_corpus,
}
use github_pr_review_agent.Review.Evidence.Findings.{
  is_reference, is_static_check, supports, supported_evidence, lacks_location, confidence_of, kept,
  is_rejected, normalize, normalize_findings_with_diagnostics,
}

pub int_eq→≡ : (m n : ℤ) → int_eq m n ≡ true → m ≡ n
int_eq→≡ (pos m) (pos n) h = ground arith
int_eq→≡ (negsuc m) (negsuc n) h = ground arith
int_eq→≡ (pos m) (negsuc n) h = absurd (cc)
int_eq→≡ (negsuc m) (pos n) h = absurd (cc)

pub int_eq_refl : (n : ℤ) → int_eq n n ≡ true
int_eq_refl (pos n) = ground arith
int_eq_refl (negsuc n) = ground arith

-- The evidence is in the corpus: a quote that stands where the finding says, or the failure of a
-- command that the corpus names.
abbrev pub Verified : ParsedCorpus → Finding → Evidence → Type 0
Verified corpus f e =
    ((e.kind ≡ codes "reference")
      × (e.file ≡ f.file)
      × (e.line ≡ f.line)
      × (is_empty (trim_space e.text) ≡ false)
      × (reference_evidence corpus e ≡ true))
    ⊎ ((e.kind ≡ codes "static_check")
        × (contains_string corpus.strings e.command ≡ true)
        × (static_check_evidence corpus e ≡ true))

pub supports-Verified :
    (corpus : ParsedCorpus) (f : Finding) (e : Evidence)
    → supports corpus f e ≡ true
    → Verified corpus f e
unfolding supports is_reference is_static_check
supports-Verified corpus f e h = elim (Bool-cases (text_eq e.kind (codes "reference"))) [
  | inl reference ↦ inl (
    text_eq→≡ e.kind _ reference,
    text_eq→≡ e.file f.file (ground arith),
    int_eq→≡ e.line f.line (ground arith),
    ground arith,
    ground arith,
  )
  | inr other ↦ inr (text_eq→≡ e.kind _ (ground arith), ground arith, ground arith)
]

contains_string-blank :
    (values : List Text) (t : Text) → contains_string values t ≡ true → is_empty t ≡ false
unfolding contains_string trim_space
contains_string-blank values [] h = absurd (ground arith)
contains_string-blank values (c ∷ t) h = refl

other_kind : text_eq (codes "static_check") (codes "reference") ≡ false
unfolding text_eq
other_kind = refl

-- The test accepts all such evidence.
pub Verified-supports :
    (corpus : ParsedCorpus) (f : Finding) (e : Evidence)
    → Verified corpus f e
    → supports corpus f e ≡ true
unfolding supports is_reference is_static_check
Verified-supports corpus f e (inl (kind, file, line, text, quoted)) = ground (
  arith,
  ap (λ k. text_eq k (codes "reference")) kind,
  text_eq_refl (codes "reference"),
  ap (λ k. text_eq k f.file) file,
  text_eq_refl f.file,
  ap (λ k. int_eq k f.line) line,
  int_eq_refl f.line,
  text,
  quoted,
)
Verified-supports corpus f e (inr (kind, named, failed)) = ground (
  arith,
  ap (λ k. text_eq k (codes "reference")) kind,
  other_kind,
  ap (λ k. text_eq k (codes "static_check")) kind,
  text_eq_refl (codes "static_check"),
  contains_string-blank corpus.strings e.command named,
  named,
  failed,
)

pub All-select {ℓ κ} :
    {A : Type ℓ} (p : A → Bool) (Q : A → Type κ) (xs : List A)
    → ((x : A) → p x ≡ true → Q x)
    → All Q (select p xs)
All-select p Q [] h = tt
All-select p Q (x ∷ xs) h = elim (Bool-cases (p x)) [
  | inl e ↦ rw e (h x e, All-select p Q xs h)
  | inr e ↦ rw e (All-select p Q xs h)
]

-- A finding may be published: it has a location, and evidence, all of it verified; one that is
-- confirmed is not about performance.
pub record Publishable (corpus : ParsedCorpus) (f : Finding) : Type 0 where
  pub in_file : is_empty f.file ≡ false
  pub at_line : is_positive f.line ≡ true
  pub has_evidence : is_empty f.evidence ≡ false
  pub verified : All (Verified corpus f) f.evidence
  pub confidence : (f.confidence ≡ codes "confirmed") ⊎ (f.confidence ≡ codes "needs_verification")
  pub cautious : f.category ≡ codes "performance" → f.confidence ≡ codes "needs_verification"

confidence_of-cases :
    (f : Finding)
    → (confidence_of f ≡ codes "confirmed") ⊎ (confidence_of f ≡ codes "needs_verification")
unfolding confidence_of
confidence_of-cases f = elim (Bool-cases (text_eq f.confidence (codes "confirmed"))) [
  | inl sure ↦ ground (arith, text_eq→≡ f.confidence (codes "confirmed"))
  | inr unsure ↦ ground arith
]

confidence_of-performance :
    (f : Finding) → f.category ≡ codes "performance" → confidence_of f ≡ codes "needs_verification"
unfolding confidence_of
confidence_of-performance f e =
    ground (arith, ap (λ c. text_eq c (codes "performance")) e, text_eq_refl (codes "performance"))

pub kept-Publishable :
    (corpus : ParsedCorpus) (f : Finding)
    → is_rejected corpus f ≡ false
    → Publishable corpus (kept corpus f)
unfolding is_rejected lacks_location kept supported_evidence
kept-Publishable corpus f h = record {
  in_file = ground arith;
  at_line = ground arith;
  has_evidence = ground arith;
  verified =
      All-select (supports corpus f) (Verified corpus f) f.evidence (supports-Verified corpus f);
  confidence = confidence_of-cases f;
  cautious = confidence_of-performance f;
}

normalize-Publishable :
    (corpus : ParsedCorpus) (fs : List Finding) → All (Publishable corpus) (normalize corpus fs).0
unfolding normalize
normalize-Publishable corpus [] = tt
normalize-Publishable corpus (f ∷ fs) = elim (Bool-cases (is_rejected corpus f)) [
  | inl e ↦ rw e (normalize-Publishable corpus fs)
  | inr e ↦ rw e (kept-Publishable corpus f e, normalize-Publishable corpus fs)
]

-- Whatever findings and corpus: each finding that is kept names a file and a positive line, keeps
-- at least one piece of evidence, all of which is a quote at that very file and line or a failed
-- static check that the corpus verifies, and is confirmed or needs verification, the latter if it
-- is about performance.
pub normalize_findings_with_diagnostics-Publishable :
    (json : Json) (findings : List Finding) (corpus : List Text)
    → All
        (Publishable (parse_evidence_corpus json corpus))
        (normalize_findings_with_diagnostics json findings corpus).0
unfolding normalize_findings_with_diagnostics
normalize_findings_with_diagnostics-Publishable json findings corpus =
    normalize-Publishable (parse_evidence_corpus json corpus) findings
