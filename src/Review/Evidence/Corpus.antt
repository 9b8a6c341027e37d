-- ===== src/Review/Evidence/Corpus.antt =====
-- internal/review/service.go: the corpus as it is decoded once for each validation, and the
-- matching on the raw corpus that is kept as its reference.
pub mod Matching
use github_pr_review_agent.Common.{
  ℕ, ℤ, pos, negsuc, ◌==◌, Bool, true, false, not, ◌&&◌, ◌||◌, Option, none, some, List, [], ◌∷◌,
  ◌++◌, Text, codes, is_empty, text_eq, trim_space, has_prefix, trim_prefix, contains, split_lines,
  any, decimal_ℤ, if◌then◌else◌,
}
use github_pr_review_agent.Common.Json.{
  Value, text, items, object, scalar, Values, done, item, Fields, end, field,
}
use github_pr_review_agent.Store.Tables.{Evidence, Finding}
use github_pr_review_agent.Store.Transaction.{Result}
use github_pr_review_agent.Review.Evidence.Patch.{DiffOutput, is_positive, diff_matches}
use github_pr_review_agent.Review.Evidence.Sections.{raw_reference_evidence}

pub record Match : Type 0 where
  pub path : Text
  pub line : ℤ
  pub snippet : Text

pub record ReferenceOutput : Type 0 where
  pub path : Text
  pub content : Text
  pub matches : List Match

pub record Check : Type 0 where
  pub command : Text
  pub output : Text
  pub error : Text
  pub success : Option Bool
  pub exit_code : ℤ
  pub timed_out : Bool

-- What the response of the model is decoded into; an absent array is nil.
pub record DecodedReview : Type 0 where
  pub summary : Text
  pub findings : Option (List Finding)

-- encoding/json's Unmarshal, for each type that a text is decoded into. It ignores unknown fields
-- and leaves absent ones zero; `none` is its error.
pub record Json : Type 0 where
  pub diffs : Text → Option DiffOutput
  pub references : Text → Option ReferenceOutput
  pub checks : Text → Option (List Check)
  pub value : Text → Option Value
  pub response : Text → Result DecodedReview

unfoldable mutual
  pub json_strings : Value → List Text
  json_strings (text s) = s ∷ []
  json_strings (items vs) = values_strings vs
  json_strings (object fs) = fields_strings fs
  json_strings scalar = []

  pub values_strings : Values → List Text
  values_strings done = []
  values_strings (item v vs) = json_strings v ++ values_strings vs

  pub fields_strings : Fields → List Text
  fields_strings end = []
  fields_strings (field name v fs) = json_strings v ++ fields_strings fs

pub record ParsedSource : Type 0 where
  pub raw : Text
  pub diffs : Option DiffOutput
  pub references : Option ReferenceOutput
  pub checks : Option (List Check)

pub record ParsedCorpus : Type 0 where
  pub strings : List Text
  pub sources : List ParsedSource

abbrev pub int_eq : ℤ → ℤ → Bool
int_eq (pos m) (pos n) = m == n
int_eq (negsuc m) (negsuc n) = m == n
int_eq _ _ = false

-- "<line>: <code>" with the line and the code of the evidence.
pub content_line_matches : Evidence → Text → Bool
unfolding has_prefix trim_prefix trim_space text_eq decimal_ℤ
content_line_matches e content_line =
    let line = trim_space content_line in
    let prefix = decimal_ℤ e.line ++ codes ":" in
    let target = trim_space e.text in
    let code = trim_space (trim_prefix line prefix) in has_prefix line prefix && text_eq code target

pub match_matches : Evidence → Match → Bool
unfolding text_eq trim_space
match_matches e m =
    text_eq m.path e.file && int_eq m.line e.line && text_eq m.snippet (trim_space e.text)

-- The loops over the output in parsedEvidenceCorpus.referenceEvidence.
pub output_matches : Evidence → ReferenceOutput → Bool
unfolding content_line_matches match_matches split_lines text_eq any
output_matches e output =
    let in_content = any (split_lines output.content) (content_line_matches e) in
    let in_matches = any output.matches (match_matches e) in
    if text_eq output.path e.file && in_content then true else in_matches

pub diffs_match : Evidence → Option DiffOutput → Bool
unfolding diff_matches
diffs_match e none = false
diffs_match e (some d) = diff_matches e d

pub source_matches : Evidence → ParsedSource → Bool
unfolding diffs_match raw_reference_evidence
source_matches e s = if diffs_match e s.diffs then true else elim s.references [
  | some output ↦ output_matches e output
  | none ↦ raw_reference_evidence s.raw e
]

unfoldable pub reference_evidence : ParsedCorpus → Evidence → Bool
unfolding source_matches any
reference_evidence corpus e = any corpus.sources (source_matches e)

-- check.Success != nil && !*check.Success
abbrev pub has_failed : Option Bool → Bool
has_failed none = false
has_failed (some success) = not success

pub check_matches : Evidence → Text → Check → Bool
unfolding text_eq contains
check_matches e excerpt check =
    if not (text_eq check.command e.command)
      || not (has_failed check.success)
      || not (is_positive check.exit_code)
      || check.timed_out
      || not (is_empty check.error)
    then false
    else contains check.output excerpt

pub checks_match : Evidence → Text → Option (List Check) → Bool
unfolding check_matches any
checks_match e excerpt none = false
checks_match e excerpt (some checks) = any checks (check_matches e excerpt)

unfoldable pub static_check_evidence : ParsedCorpus → Evidence → Bool
unfolding checks_match trim_space any
static_check_evidence corpus e =
    let excerpt = trim_space e.excerpt in
    if is_empty excerpt then false else any corpus.sources (λ s. checks_match e excerpt s.checks)

unfoldable pub contains_string : List Text → Text → Bool
unfolding trim_space contains any
contains_string values target =
    let part = trim_space target in
    if is_empty part then false else any values (λ value. contains value part)

-- The second copy of the matching, in the functions that read the raw corpus. The loop over the lines
-- of the content, `prefix` and `target` are its variables.
pub raw_line_loop : Text → Text → List Text → Bool
unfolding has_prefix trim_prefix trim_space text_eq
raw_line_loop prefix target [] = false
raw_line_loop prefix target (content_line ∷ lines) =
    let line = trim_space content_line in
    let code = trim_space (trim_prefix line prefix) in
    let rest = raw_line_loop prefix target lines in
    if has_prefix line prefix && text_eq code target then true else rest

pub raw_match_loop : Evidence → List Match → Bool
unfolding text_eq trim_space
raw_match_loop e [] = false
raw_match_loop e (m ∷ matches) =
    let rest = raw_match_loop e matches in
    if text_eq m.path e.file && int_eq m.line e.line && text_eq m.snippet (trim_space e.text)
    then true
    else rest

pub raw_output_matches : Evidence → ReferenceOutput → Bool
unfolding raw_line_loop raw_match_loop split_lines text_eq trim_space decimal_ℤ
raw_output_matches e output =
    let in_content =
      raw_line_loop (decimal_ℤ e.line ++ codes ":") (trim_space e.text)
        (split_lines output.content) in
    let in_matches = raw_match_loop e output.matches in
    if text_eq output.path e.file && in_content then true else in_matches

pub raw_check_loop : Evidence → Text → List Check → Bool
unfolding text_eq contains
raw_check_loop e excerpt [] = false
raw_check_loop e excerpt (check ∷ checks) =
    let rest = raw_check_loop e excerpt checks in
    if not (text_eq check.command e.command)
      || not (has_failed check.success)
      || not (is_positive check.exit_code)
      || check.timed_out
      || not (is_empty check.error)
    then rest
    else if contains check.output excerpt
    then true
    else rest

module _ (json : Json) where
  pub strings_of : Text → List Text
  unfolding json_strings
  strings_of source = elim (json.value source) [ none ↦ source ∷ [] | some v ↦ json_strings v ]

  abbrev pub parsed_source : Text → ParsedSource
  parsed_source source = record {
    raw = source;
    diffs = json.diffs source;
    references = json.references source;
    checks = json.checks source;
  }

  unfoldable pub evidence_strings : List Text → List Text
  unfolding strings_of
  evidence_strings [] = []
  evidence_strings (source ∷ corpus) = strings_of source ++ evidence_strings corpus

  pub parse_step : ParsedCorpus → Text → ParsedCorpus
  unfolding strings_of
  parse_step parsed source = record {
    strings = parsed.strings ++ strings_of source;
    sources = parsed.sources ++ parsed_source source ∷ [];
  }

  -- The loop of parseEvidenceCorpus, which appends to what it has.
  pub parse_from : ParsedCorpus → List Text → ParsedCorpus
  unfolding parse_step
  parse_from parsed [] = parsed
  parse_from parsed (source ∷ corpus) = parse_from (parse_step parsed source) corpus

  unfoldable pub parse_evidence_corpus : List Text → ParsedCorpus
  unfolding parse_from
  parse_evidence_corpus corpus = parse_from (record { strings = []; sources = [] }) corpus

  pub raw_source_matches : Evidence → Text → Bool
  unfolding raw_reference_evidence
  raw_source_matches e source = elim (json.references source) [
    | some output ↦ raw_output_matches e output
    | none ↦ raw_reference_evidence source e
  ]

  unfoldable pub reference_evidence_in_corpus : Evidence → List Text → Bool
  unfolding raw_source_matches any
  reference_evidence_in_corpus e corpus = any corpus (raw_source_matches e)

  -- The loop over the sources, of which those that do not decode are skipped.
  pub raw_checks_match : Evidence → Text → List Text → Bool
  unfolding raw_check_loop
  raw_checks_match e excerpt [] = false
  raw_checks_match e excerpt (source ∷ corpus) =
      let rest = raw_checks_match e excerpt corpus in
      elim (json.checks source) [
        | none ↦ rest
        | some checks ↦ if raw_check_loop e excerpt checks then true else rest
      ]

  unfoldable pub static_check_evidence_in_corpus : Evidence → List Text → Bool
  unfolding raw_checks_match trim_space
  static_check_evidence_in_corpus e corpus =
      let excerpt = trim_space e.excerpt in
      if is_empty excerpt then false else raw_checks_match e excerpt corpus
