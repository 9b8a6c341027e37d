-- ===== src/Review/Evidence/Sections.antt =====
-- internal/review/service.go: quotes that are looked up in a source that is not JSON, such as the
-- diff and the files of the prompt, which are cut into a section for each path.
use github_pr_review_agent.Common.{
  ℕ, zero, suc, pos, negsuc, ◌==◌, Bool, true, false, not, ◌&&◌, ◌||◌, Option, none, some, List, [],
  ◌∷◌, ◌++◌, Text, codes, is_empty, text_eq, trim_space, has_prefix, trim_prefix, split_lines,
  join_lines, any, if◌then◌else◌,
}
use github_pr_review_agent.Store.Tables.{Evidence}
use github_pr_review_agent.Review.Evidence.Patch.{number, is_line, next_line}
use mathlib.Core.List.{foldl}

-- A map from paths to texts.
abbrev pub Sections : Type 0
Sections = List (Text × Text)

-- sections[path] = text
pub assign : Text → Text → Sections → Sections
unfolding text_eq
assign path text [] = (path, text) ∷ []
assign path text ((p, old) ∷ rest) =
    if text_eq p path then (path, text) ∷ rest else (p, old) ∷ assign path text rest

pub record SectionScan : Type 0 where
  pub path : Text
  pub section : List Text
  pub sections : Sections

pub flush : SectionScan → Sections
unfolding assign join_lines
flush s = if is_empty s.path then s.sections else assign s.path (join_lines s.section) s.sections

pub section_line : SectionScan → Text → SectionScan
unfolding flush trim_space trim_prefix has_prefix
section_line s line =
    if has_prefix line (codes "### ")
    then record {
      path = trim_space (trim_prefix line (codes "### "));
      section = [];
      sections = flush s;
    }
    else if is_empty s.path
    then s
    else record s { section = s.section ++ line ∷ [] }

abbrev pub no_sections : SectionScan
no_sections = record { path = []; section = []; sections = [] }

pub raw_sections : Text → Sections
unfolding section_line flush split_lines
raw_sections source = flush (foldl section_line no_sections (split_lines source))

pub is_unified_diff : Text → Bool
unfolding has_prefix any split_lines
is_unified_diff section = any (split_lines section) (λ line. has_prefix line (codes "@@ "))

-- What follows the first '+'.
pub after_plus : Text → Option Text
after_plus [] = none
after_plus (c ∷ s) = if c == b'+' then some s else after_plus s

pub up_to_comma_or_space : Text → Text
up_to_comma_or_space [] = []
up_to_comma_or_space (c ∷ s) = if (c == b',') || (c == b' ') then [] else c ∷ up_to_comma_or_space s

-- strconv.Atoi may read a sign here; 0 stands for what is not positive, as in the source.
pub parse_diff_hunk_start : Text → ℕ
unfolding after_plus up_to_comma_or_space number
parse_diff_hunk_start header = elim (after_plus header) [
  | none ↦ 0
  | some value ↦ elim (number (up_to_comma_or_space value)) [ none ↦ 0 | some n ↦ n ]
]

abbrev pub without_mark : Text → Text
without_mark [] = []
without_mark (c ∷ text) = text

pub skips : ℕ → Text → Bool
unfolding has_prefix
skips n line =
    (n == 0)
    || is_empty line
    || has_prefix line (codes "+++")
    || has_prefix line (codes "---")
    || has_prefix line (codes "\\")

pub on_new_side : Text → Bool
unfolding has_prefix
on_new_side line = has_prefix line (codes "+") || has_prefix line (codes " ")

-- The loop of diffReferenceEvidence, at the line `n` of the new side.
pub diff_lines : Evidence → List Text → ℕ → Bool
unfolding has_prefix parse_diff_hunk_start skips on_new_side is_line next_line text_eq trim_space
diff_lines e [] n = false
diff_lines e (line ∷ lines) n =
    let header = diff_lines e lines (parse_diff_hunk_start line) in
    let stay = diff_lines e lines n in
    let advance = diff_lines e lines (next_line n) in
    if has_prefix line (codes "@@ ")
    then header
    else if skips n line
    then stay
    else if not (on_new_side line)
    then stay
    else if is_line n e.line && text_eq (trim_space (without_mark line)) (trim_space e.text)
    then true
    else advance

pub diff_reference_evidence : Text → Evidence → Bool
unfolding diff_lines split_lines
diff_reference_evidence section e = diff_lines e (split_lines section) 0

pub line_at : List Text → ℕ → Option Text
line_at lines zero = none
line_at [] (suc n) = none
line_at (line ∷ lines) (suc zero) = some line
line_at (line ∷ lines) (suc (suc n)) = line_at lines (suc n)

pub plain_reference_evidence : Text → Evidence → Bool
unfolding line_at split_lines text_eq trim_space
plain_reference_evidence section e = elim e.line [
  | negsuc n ↦ false
  | pos n ↦ elim (line_at (split_lines section) n) [
    | none ↦ false
    | some line ↦ text_eq (trim_space line) (trim_space e.text)
  ]
]

pub section_matches : Evidence → Text × Text → Bool
unfolding is_unified_diff diff_reference_evidence plain_reference_evidence text_eq
section_matches e (path, section) =
    if not (text_eq path e.file)
    then false
    else if is_unified_diff section
    then diff_reference_evidence section e
    else plain_reference_evidence section e

unfoldable pub raw_reference_evidence : Text → Evidence → Bool
unfolding raw_sections section_matches any
raw_reference_evidence source e = any (raw_sections source) (section_matches e)
