-- ===== src/Review/Evidence/Corpus/Matching.antt =====
-- The decoded corpus against the matching on the raw corpus, which internal/review/service.go keeps
-- as the reference of its test.
use github_pr_review_agent.Common.{
  ◌||◌, List, [], ◌∷◌, ◌++◌, Text, any, any_ext, any-map, any-or, append_assoc, append-nil,
  is_empty, trim_space, ◌≡◌, sym, ap, ◌∙◌, arith, inl, inr, Bool-cases, refl, Option-cases, codes,
  decimal_ℤ, split_lines,
}
use mathlib.Core.List.{map}
use github_pr_review_agent.Store.Tables.{Evidence}
use github_pr_review_agent.Review.Evidence.Corpus.{
  Json, Match, ReferenceOutput, Check, ParsedSource, content_line_matches, match_matches,
  output_matches, check_matches, raw_line_loop, raw_match_loop, raw_output_matches, raw_check_loop,
  raw_checks_match, ParsedCorpus, strings_of, evidence_strings, parsed_source, parse_step,
  parse_from, parse_evidence_corpus, diffs_match, source_matches, raw_source_matches, checks_match,
  reference_evidence, static_check_evidence, reference_evidence_in_corpus,
  static_check_evidence_in_corpus,
}

raw_line_loop-any :
    (e : Evidence) (lines : List Text)
    → raw_line_loop (decimal_ℤ e.line ++ codes ":") (trim_space e.text) lines
      ≡ any lines (content_line_matches e)
unfolding raw_line_loop any content_line_matches
raw_line_loop-any e [] = refl
raw_line_loop-any e (line ∷ lines) = ground (arith, raw_line_loop-any e lines)

raw_match_loop-any :
    (e : Evidence) (matches : List Match) → raw_match_loop e matches ≡ any matches (match_matches e)
unfolding raw_match_loop any match_matches
raw_match_loop-any e [] = refl
raw_match_loop-any e (m ∷ matches) = ground (arith, raw_match_loop-any e matches)

-- The two copies of the matching of an output agree.
raw_output_matches_agrees :
    (e : Evidence) (output : ReferenceOutput)
    → raw_output_matches e output ≡ output_matches e output
unfolding raw_output_matches output_matches
raw_output_matches_agrees e output =
    rw (raw_line_loop-any e (split_lines output.content), raw_match_loop-any e output.matches) refl

-- So do those of the matching of the checks.
raw_check_loop-any :
    (e : Evidence) (excerpt : Text) (checks : List Check)
    → raw_check_loop e excerpt checks ≡ any checks (check_matches e excerpt)
unfolding raw_check_loop any check_matches
raw_check_loop-any e excerpt [] = refl
raw_check_loop-any e excerpt (check ∷ checks) = ground (arith, raw_check_loop-any e excerpt checks)

module _ (json : Json) where
  sources-parse_from :
      (p : ParsedCorpus) (corpus : List Text)
      → (parse_from json p corpus).sources ≡ p.sources ++ map (parsed_source json) corpus
  unfolding parse_from parse_step
  sources-parse_from p [] = sym (append-nil p.sources)
  sources-parse_from p (s ∷ corpus) =
      sources-parse_from (parse_step json p s) corpus
      ∙ append_assoc p.sources (parsed_source json s ∷ []) (map (parsed_source json) corpus)

  strings-parse_from :
      (p : ParsedCorpus) (corpus : List Text)
      → (parse_from json p corpus).strings ≡ p.strings ++ evidence_strings json corpus
  unfolding parse_from parse_step evidence_strings
  strings-parse_from p [] = sym (append-nil p.strings)
  strings-parse_from p (s ∷ corpus) =
      strings-parse_from (parse_step json p s) corpus
      ∙ append_assoc p.strings (strings_of json s) (evidence_strings json corpus)

  sources-parse_evidence_corpus :
      (corpus : List Text)
      → (parse_evidence_corpus json corpus).sources ≡ map (parsed_source json) corpus
  unfolding parse_evidence_corpus
  sources-parse_evidence_corpus corpus = sources-parse_from _ corpus

  source_matches-parsed_source :
      (e : Evidence) (s : Text)
      → source_matches e (parsed_source json s)
        ≡ (diffs_match e (json.diffs s) || raw_source_matches json e s)
  unfolding source_matches raw_source_matches
  source_matches-parsed_source e s = elim (Option-cases (json.references s)) [
    | inl undecoded ↦ rw undecoded (ground arith)
    | inr (output, decoded) ↦ rw decoded (ground (arith, raw_output_matches_agrees e output))
  ]

  references :
      (corpus : List Text) (e : Evidence)
      → reference_evidence (parse_evidence_corpus json corpus) e ≡ (
          any corpus (λ s. diffs_match e (json.diffs s))
          || reference_evidence_in_corpus json e corpus)
  unfolding reference_evidence reference_evidence_in_corpus
  references corpus e =
      ap (λ sources. any sources (source_matches e)) (sources-parse_evidence_corpus corpus)
      ∙ (any-map (parsed_source json) corpus (source_matches e)
          ∙ (any_ext corpus _ _ (source_matches-parsed_source e) ∙ any-or corpus _ _))

  raw_checks_match-any :
      (e : Evidence) (excerpt : Text) (corpus : List Text)
      → raw_checks_match json e excerpt corpus
        ≡ any corpus (λ s. checks_match e excerpt (json.checks s))
  unfolding raw_checks_match any checks_match
  raw_checks_match-any e excerpt [] = refl
  raw_checks_match-any e excerpt (s ∷ corpus) =
      let rest = raw_checks_match-any e excerpt corpus in
      elim (Option-cases (json.checks s)) [
        | inl undecoded ↦ rw (undecoded, raw_checks_match) rest
        | inr (checks, decoded) ↦ ground (arith, decoded, raw_check_loop-any e excerpt checks, rest)
      ]

  checks :
      (corpus : List Text) (e : Evidence)
      → static_check_evidence (parse_evidence_corpus json corpus) e
        ≡ static_check_evidence_in_corpus json e corpus
  unfolding static_check_evidence static_check_evidence_in_corpus
  checks corpus e = elim (Bool-cases (is_empty (trim_space e.excerpt))) [
    | inl blank ↦ rw blank
    | inr text ↦ rw text (
        ap
          (λ sources.
            any sources (λ (s : ParsedSource). checks_match e (trim_space e.excerpt) s.checks))
          (sources-parse_evidence_corpus corpus)
        ∙ (any-map (parsed_source json) corpus _
            ∙ sym (raw_checks_match-any e (trim_space e.excerpt) corpus)))
  ]

  -- For every corpus and piece of evidence, the decoded corpus agrees with the matching on the raw
  -- one: on static checks and on the strings that a command is looked up in exactly, and on quotes
  -- but for this, that it also accepts a quote that a source which decodes as a diff contains.
  pub parse_evidence_corpus_agrees :
      (corpus : List Text) (e : Evidence)
      → (static_check_evidence (parse_evidence_corpus json corpus) e
          ≡ static_check_evidence_in_corpus json e corpus)
        × ((parse_evidence_corpus json corpus).strings ≡ evidence_strings json corpus)
        × (reference_evidence (parse_evidence_corpus json corpus) e ≡ (
            any corpus (λ s. diffs_match e (json.diffs s))
            || reference_evidence_in_corpus json e corpus))
  unfolding parse_evidence_corpus
  parse_evidence_corpus_agrees corpus e =
      (checks corpus e, strings-parse_from _ corpus, references corpus e)
