-- ===== src/Review/Evidence/Patch.antt =====
-- internal/review/diff_evidence.go: quotes that are looked up in a patch. An int has 64 bits.
pub mod Quoted
use github_pr_review_agent.Common.{
  ℕ, ℤ, pos, negsuc, ◌+◌, ◌-◌, ◌^◌, ◌==◌, Bool, true, false, not, ◌&&◌, ◌||◌, Option, none, some,
  List, [], ◌∷◌, Text, codes, is_empty, text_eq, trim_space, has_prefix, cut_prefix, split_lines,
  is_digit, any, atoi, if◌then◌else◌,
}
use github_pr_review_agent.Store.Tables.{Evidence}

pub record DiffFile : Type 0 where
  pub path : Text
  pub patch : Text
  pub found : Option Bool
  pub status : Text

pub record DiffOutput : Type 0 where
  pub file : DiffFile
  pub files : List DiffFile

infixl 5 ◌>>=◌
abbrev ◌>>=◌ {ℓ κ} : {A : Type ℓ} {B : Type κ} → Option A → (A → Option B) → Option B
none >>= f = none
some a >>= f = f a

-- The longest run of digits at the start, and what follows.
pub span_digits : Text → Text × Text
span_digits [] = ([], [])
span_digits (c ∷ s) =
    let (run, rest) = span_digits s in if is_digit c then (c ∷ run, rest) else ([], c ∷ s)

-- ([0-9]+)
pub digits_group : Text → Option (Text × Text)
unfolding span_digits
digits_group s = let (run, rest) = span_digits s in if is_empty run then none else some (run, rest)

-- (?:,([0-9]+))?
pub count_group : Text → Text × Text
unfolding digits_group cut_prefix
count_group s = elim (cut_prefix s (codes ",")) [
  | none ↦ ([], s)
  | some rest ↦ elim (digits_group rest) [ none ↦ ([], s) | some parts ↦ parts ]
]

pub record HunkParts : Type 0 where
  pub old_start : Text
  pub old_count : Text
  pub new_start : Text
  pub new_count : Text

-- evidenceHunk.FindStringSubmatch
pub find_hunk : Text → Option HunkParts
unfolding digits_group count_group cut_prefix has_prefix
find_hunk line = do
  at_old ← cut_prefix line (codes "@@ -")
  old ← digits_group at_old
  let old_counted = count_group old.1
  at_new ← cut_prefix old_counted.1 (codes " +")
  new ← digits_group at_new
  let new_counted = count_group new.1
  tail ← cut_prefix new_counted.1 (codes " @@")
  if is_empty tail || has_prefix tail (codes " ")
      then some (record {
        old_start = old.0;
        old_count = old_counted.0;
        new_start = new.0;
        new_count = new_counted.0;
      })
      else none

-- strconv.Atoi of digits, which have no sign.
unfoldable pub number : Text → Option ℕ
unfolding atoi
number s = elim (atoi s) [ none ↦ none | some z ↦ elim z [ pos n ↦ some n | negsuc n ↦ none ] ]

pub count_of : Text → Option ℕ
unfolding number
count_of s = if is_empty s then some 1 else number s

-- Where a hunk stands: the number of its next line on the new side (0: outside of a hunk), and how
-- many lines of each side are left.
pub record Hunk : Type 0 where
  pub next : ℕ
  pub old_remaining : ℕ
  pub new_remaining : ℕ

abbrev pub no_hunk : Hunk
no_hunk = record { next = 0; old_remaining = 0; new_remaining = 0 }

pub valid_hunk : HunkParts → Option Hunk
unfolding number count_of
valid_hunk parts = do
  old_start ← number parts.old_start
  old_count ← count_of parts.old_count
  new_start ← number parts.new_start
  new_count ← count_of parts.new_count
  if ((old_start == 0) && not (old_count == 0)) || ((new_start == 0) && not (new_count == 0))
      then none
      else some (record { next = new_start; old_remaining = old_count; new_remaining = new_count })

pub parse_hunk : Text → Option Hunk
unfolding find_hunk valid_hunk
parse_hunk line = do parts ← find_hunk line; valid_hunk parts

pub open_hunk : Text → Hunk
unfolding parse_hunk
open_hunk line = elim (parse_hunk line) [ none ↦ no_hunk | some h ↦ h ]

-- next++ of a positive int. Past the largest the source has a negative number, which is outside of
-- a hunk as 0 is.
unfoldable pub next_line : ℕ → ℕ
next_line n = if n + 1 == 2 ^ 63 then 0 else n + 1

unfoldable pub is_line : ℕ → ℤ → Bool
is_line n (pos m) = n == m
is_line n (negsuc m) = false

abbrev pub closed : Hunk → Hunk
closed h = record h { next = 0 }

pub data Reading : Type 0 where
  matched : Reading
  reading : Hunk → Reading

-- switch line[0]
pub patch_switch : Evidence → Text → Hunk → Reading
unfolding is_line next_line text_eq trim_space
patch_switch e [] h = reading h
patch_switch e (c ∷ text) h =
    if c == b'-'
    then (if h.old_remaining == 0
        then reading (closed h)
        else reading (record h { old_remaining = h.old_remaining - 1 }))
    else if (c == b'+') || (c == b' ')
    then (if (h.new_remaining == 0) || ((c == b' ') && (h.old_remaining == 0))
        then reading (closed h)
        else if is_line h.next e.line && text_eq (trim_space text) (trim_space e.text)
        then matched
        else reading (record {
          next = next_line h.next;
          old_remaining = (if c == b' ' then h.old_remaining - 1 else h.old_remaining);
          new_remaining = h.new_remaining - 1;
        }))
    else reading (closed h)

pub patch_line : Evidence → Text → Hunk → Reading
unfolding open_hunk patch_switch has_prefix text_eq
patch_line e line h =
    if has_prefix line (codes "@@")
    then reading (open_hunk line)
    else if text_eq line (codes "\\ No newline at end of file")
    then reading h
    else if is_empty line
    then reading (closed h)
    else if h.next == 0
    then reading h
    else patch_switch e line h

pub patch_lines : Evidence → List Text → Hunk → Bool
unfolding patch_line
patch_lines e [] h = false
patch_lines e (line ∷ lines) h = elim (patch_line e line h) [
  | matched ↦ true
  | reading next ↦ patch_lines e lines next
]

unfoldable pub patch_evidence : Text → Evidence → Bool
unfolding patch_lines split_lines
patch_evidence patch e = patch_lines e (split_lines patch) no_hunk

-- d.Found != nil && !*d.Found
abbrev pub is_missing : Option Bool → Bool
is_missing none = false
is_missing (some found) = not found

abbrev pub is_positive : ℤ → Bool
is_positive (pos n) = not (n == 0)
is_positive (negsuc n) = false

unfoldable pub file_matches : Evidence → DiffFile → Bool
unfolding patch_evidence is_line
file_matches e d =
    if not (text_eq d.path e.file)
      || text_eq d.status (codes "removed")
      || is_missing d.found
      || not (is_positive e.line)
      || is_empty (trim_space e.text)
    then false
    else patch_evidence d.patch e

unfoldable pub diff_matches : Evidence → DiffOutput → Bool
unfolding file_matches any
diff_matches e d = file_matches e d.file || any d.files (file_matches e)
