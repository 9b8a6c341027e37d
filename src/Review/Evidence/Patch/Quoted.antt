-- ===== src/Review/Evidence/Patch/Quoted.antt =====
-- What the lines of a patch are that patchEvidence (internal/review/diff_evidence.go) accepts.
use github_pr_review_agent.Common.{
  ℕ, ℤ, pos, negsuc, ◌+◌, ◌<◌, ◌≤◌, ◌==◌, Bool, true, false, ◌||◌, none, some, List, [], ◌∷◌, ◌++◌,
  Text, codes, text_eq, text_eq→≡, trim_space, has_prefix, split_lines, tally, All, ◌≡◌, refl, sym,
  ap, ◌∙◌, ◌⊎◌, inl, inr, arith, Bool-cases, Option-cases, subst,
}
use github_pr_review_agent.Store.Tables.{Evidence}
use github_pr_review_agent.Review.Evidence.Patch.{
  Hunk, no_hunk, parse_hunk, open_hunk, next_line, is_line, Reading, matched, reading, patch_switch,
  patch_line, patch_lines, patch_evidence,
}

abbrev pub in_new : Text → Bool
in_new [] = false
in_new (c ∷ text) = (c == b'+') || (c == b' ')

abbrev pub in_old : Text → Bool
in_old [] = false
in_old (c ∷ text) = (c == b'-') || (c == b' ')

abbrev pub is_header : Text → Bool
is_header line = has_prefix line (codes "@@")

-- Of the lines of a hunk, `line` is the one with the number that the evidence claims, and it quotes
-- it. `body` is what stands before it in the hunk, all within the counts of the header.
pub record InHunk (e : Evidence) (h : Hunk) (body : List Text) (mark : ℕ) (quote : Text)
    : Type 0 where
  pub inside : 0 < h.next
  pub no_header : All (λ line. is_header line ≡ false) body
  pub numbered : e.line ≡ pos (h.next + tally in_new body)
  pub within_new : tally in_new body < h.new_remaining
  pub within_old : tally in_old (body) ≤ h.old_remaining
  pub on_new_side : ((mark == b'+') || (mark == b' ')) ≡ true
  pub quoted : trim_space quote ≡ trim_space e.text

-- The lines go on with the rest of the hunk `h`, in which the evidence is quoted.
abbrev pub Ahead : Evidence → Hunk → List Text → Type 0
Ahead e h lines =
    (body : List Text) × (mark : ℕ) × (quote : Text) × (after : List Text) × (lines
      ≡ body ++ (mark ∷ quote) ∷ after)
    × InHunk e h body mark quote

-- A later header opens a hunk in which the evidence is quoted.
abbrev pub Quoted : Evidence → List Text → Type 0
Quoted e lines =
    (before : List Text) × (header : Text) × (h : Hunk) × (rest : List Text) × (lines
      ≡ before ++ header ∷ rest)
    × (parse_hunk header ≡ some h)
    × Ahead e h rest

next_line-pos : (n : ℕ) → 0 < next_line n → next_line n ≡ n + 1
unfolding next_line
next_line-pos n h = ground arith

-- One line of a hunk, which is left at its next number with the counts that the line uses up.
record Advances (line : Text) (h h' : Hunk) : Type 0 where
  inside : 0 < h.next
  numbered : h'.next ≡ h.next + tally in_new (line ∷ [])
  uses_new : h.new_remaining ≡ h'.new_remaining + tally in_new (line ∷ [])
  uses_old : h.old_remaining ≡ h'.old_remaining + tally in_old (line ∷ [])

patch_switch-Advances :
    (e : Evidence) (c : ℕ) (text : Text) (h h' : Hunk)
    → patch_switch e (c ∷ text) h ≡ reading h'
    → 0 < h.next
    → 0 < h'.next
    → Advances (c ∷ text) h h'
unfolding patch_switch
patch_switch-Advances e c text h h' read inside more = ground (arith, next_line-pos h.next)

patch_line-Advances :
    (e : Evidence) (line : Text) (h h' : Hunk)
    → patch_line e line h ≡ reading h'
    → is_header line ≡ false
    → 0 < h'.next
    → Advances line h h'
unfolding patch_line text_eq
patch_line-Advances e [] h h' read plain more = ground arith
patch_line-Advances e (c ∷ text) h h' read plain more =
    ground (arith, patch_switch-Advances e c text h h')

is_line→≡ : (n : ℕ) (z : ℤ) → is_line n z ≡ true → z ≡ pos n
unfolding is_line
is_line→≡ n (pos m) h = ground arith
is_line→≡ n (negsuc m) h = absurd (cc)

patch_line-matched :
    (e : Evidence) (line : Text) (h : Hunk)
    → patch_line e line h ≡ matched
    → (mark : ℕ) × (quote : Text) × (line ≡ mark ∷ quote) × InHunk e h [] mark quote
unfolding patch_line patch_switch
patch_line-matched e [] h hit = absurd (ground arith)
patch_line-matched e (c ∷ text) h hit = (
  c,
  text,
  refl,
  ground (arith, is_line→≡ h.next e.line, text_eq→≡ (trim_space text) (trim_space e.text)),
)

InHunk-cons :
    (e : Evidence) (line : Text) (h h' : Hunk) (body : List Text) (mark : ℕ) (quote : Text)
    → is_header line ≡ false
    → Advances line h h'
    → InHunk e h' body mark quote
    → InHunk e h (line ∷ body) mark quote
InHunk-cons e line h h' body mark quote plain step rest = record {
  inside = step.inside;
  no_header = (plain, rest.no_header);
  numbered = rest.numbered ∙ ap pos (ground (arith, step.numbered));
  within_new = ground (arith, step.uses_new, rest.within_new);
  within_old = ground (arith, step.uses_old, rest.within_old);
  on_new_side = rest.on_new_side;
  quoted = rest.quoted;
}

nothing_matches : (e : Evidence) (h : Hunk) → patch_lines e [] h ≡ true → Ahead e h [] ⊎ Quoted e []
unfolding patch_lines
nothing_matches e h hit = absurd (cc)

Ahead-cons :
    (e : Evidence) (line : Text) (lines : List Text) (h h' : Hunk)
    → patch_line e line h ≡ reading h'
    → is_header line ≡ false
    → Ahead e h' lines
    → Ahead e h (line ∷ lines)
Ahead-cons e line lines h h' read plain (body, mark, quote, after, eq, found) = (
  line ∷ body,
  mark,
  quote,
  after,
  ap (λ t. line ∷ t) eq,
  InHunk-cons e line h h' body mark quote plain
      (patch_line-Advances e line h h' read plain found.inside) found,
)

Quoted-cons :
    (e : Evidence) (line : Text) (lines : List Text) → Quoted e lines → Quoted e (line ∷ lines)
Quoted-cons e line lines (before, header, h, rest, eq, opens, found) =
    (line ∷ before, header, h, rest, ap (λ t. line ∷ t) eq, opens, found)

-- A hunk that is open behind a header is the one that the header gives.
Ahead-Quoted :
    (e : Evidence) (line : Text) (lines : List Text)
    → Ahead e (open_hunk line) lines
    → Quoted e (line ∷ lines)
unfolding open_hunk
Ahead-Quoted e line lines ahead = elim (Option-cases (parse_hunk line)) [
  | inl bad ↦
      let none_open =
        subst (λ p. Ahead e (elim p [ none ↦ no_hunk | some h ↦ h ]) lines) bad ahead in
      elim (none_open.5.inside) [ ]
  | inr (h, good) ↦ (
    [],
    line,
    h,
    lines,
    refl,
    good,
    subst (λ p. Ahead e (elim p [ none ↦ no_hunk | some h ↦ h ]) lines) good ahead,
  )
]

Reading-cases : (r : Reading) → (r ≡ matched) ⊎ ((h : Hunk) × (r ≡ reading h))
Reading-cases matched = inl refl
Reading-cases (reading h) = inr (h, refl)

patch_line-header :
    (e : Evidence) (line : Text) (h : Hunk)
    → is_header line ≡ true
    → patch_line e line h ≡ reading (open_hunk line)
unfolding patch_line
patch_line-header e line h header = ground arith

-- After a line that is read, the evidence is found further on.
read_on :
    (e : Evidence) (line : Text) (lines : List Text) (h h' : Hunk)
    → patch_line e line h ≡ reading h'
    → Ahead e h' lines ⊎ Quoted e lines
    → Ahead e h (line ∷ lines) ⊎ Quoted e (line ∷ lines)
read_on e line lines h h' read (inr later) = inr (Quoted-cons e line lines later)
read_on e line lines h h' read (inl ahead) = elim (Bool-cases (is_header line)) [
  | inl header ↦
      let same : h' ≡ open_hunk line = cc (patch_line-header e line h header) in
      inr (Ahead-Quoted e line lines (subst (λ g. Ahead e g lines) same ahead))
  | inr plain ↦ inl (Ahead-cons e line lines h h' read plain ahead)
]

patch_lines-read :
    (e : Evidence) (line : Text) (lines : List Text) (h h' : Hunk)
    → patch_line e line h ≡ reading h'
    → patch_lines e (line ∷ lines) h ≡ patch_lines e lines h'
unfolding patch_lines
patch_lines-read e line lines h h' read = rw read

-- Where the evidence is found: in the rest of the hunk that is open, or in a later one.
patch_lines-Quoted :
    (e : Evidence) (lines : List Text) (h : Hunk)
    → patch_lines e lines h ≡ true
    → Ahead e h lines ⊎ Quoted e lines
patch_lines-Quoted e [] h hit = nothing_matches e h hit
patch_lines-Quoted e (line ∷ lines) h hit = elim (Reading-cases (patch_line e line h)) [
  | inl now ↦
      let (mark, quote, eq, found) = patch_line-matched e line h now in
      inl ([], mark, quote, lines, ap (λ t. t ∷ lines) eq, found)
  | inr (h', read) ↦
      read_on e line lines h h' read
        (patch_lines-Quoted e lines h' (sym (patch_lines-read e line lines h h' read) ∙ hit))
]

-- A patch is accepted as a source of the evidence only if it has a hunk with a valid header in
-- which a line of the new side, at the number that the evidence claims and within the line counts
-- of the header, is the quoted text but for space around it.
pub patch_evidence-Quoted :
    (patch : Text) (e : Evidence) → patch_evidence patch e ≡ true → Quoted e (split_lines patch)
unfolding patch_evidence
patch_evidence-Quoted patch e hit = elim (patch_lines-Quoted e (split_lines patch) no_hunk hit) [
  | inl ahead ↦ elim (ahead.5.inside) [ ]
  | inr later ↦ later
]
