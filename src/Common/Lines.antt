-- ===== src/Common/Lines.antt =====
-- Texts cut into lines and put together again, and numbers read from decimal digits.
use Prim.Native.Nat.{ℕ}
use mathlib.Core.Path.{◌≡◌, refl, ap, sym, ◌∙◌}
use mathlib.Core.Logic.{inl, inr, ◌≢◌}
use mathlib.Core.Option.{Option, none, some}
use mathlib.Core.List.{List, [], ◌∷◌, ◌++◌}
use native.Mathlib.Omega.{arith}
use github_pr_review_agent.Common.Tests.{◌==◌, if◌then◌else◌, Bool-cases, ==→≡}
use github_pr_review_agent.Common.Lists.{All}
use github_pr_review_agent.Common.Strings.{Text}

abbrev pub newline : ℕ
newline = 10

-- The first line continued by a code point.
abbrev pub extend : ℕ → List Text → List Text
extend c [] = (c ∷ []) ∷ []
extend c (line ∷ lines) = (c ∷ line) ∷ lines

-- strings.Split(s, "\n")
unfoldable pub split_lines : Text → List Text
split_lines [] = [] ∷ []
split_lines (c ∷ s) = if c == newline then [] ∷ split_lines s else extend c (split_lines s)

-- strings.Join(lines, "\n")
unfoldable pub join_lines : List Text → Text
join_lines [] = []
join_lines (line ∷ []) = line
join_lines (line ∷ (next ∷ lines)) = line ++ newline ∷ join_lines (next ∷ lines)

-- strings.TrimPrefix, as trim_prefix s prefix.
unfoldable pub cut_prefix : Text → Text → Option Text
cut_prefix s [] = some s
cut_prefix [] (p ∷ ps) = none
cut_prefix (c ∷ s) (p ∷ ps) = if c == p then cut_prefix s ps else none

unfoldable pub trim_prefix : Text → Text → Text
unfolding cut_prefix
trim_prefix s part = elim (cut_prefix s part) [ none ↦ s | some rest ↦ rest ]

abbrev pub Flat : Text → Type 0
Flat = All (λ c. c ≢ newline)

pub split_lines_cons :
    (s : Text) → (line : Text) × (lines : List Text) × (split_lines s ≡ line ∷ lines)
unfolding split_lines
split_lines_cons [] = ([], [], refl)
split_lines_cons (c ∷ s) = elim (Bool-cases (c == newline)) [
  | inl e ↦ ([], split_lines s, rw e)
  | inr e ↦ let (line, lines, eq) = split_lines_cons s in (c ∷ line, lines, rw (e, eq))
]

join_lines-extend :
    (c : ℕ) (line : Text) (lines : List Text)
    → join_lines (extend c (line ∷ lines)) ≡ c ∷ join_lines (line ∷ lines)
unfolding join_lines
join_lines-extend c line [] = refl
join_lines-extend c line (next ∷ lines) = refl

join_lines_blank :
    (line : Text) (lines : List Text)
    → join_lines ([] ∷ line ∷ lines) ≡ newline ∷ join_lines (line ∷ lines)
unfolding join_lines
join_lines_blank line lines = refl

pub join_lines-split_lines : (s : Text) → join_lines (split_lines s) ≡ s
unfolding split_lines
join_lines-split_lines [] = unfold join_lines in refl
join_lines-split_lines (c ∷ s) =
    let (line, lines, eq) = split_lines_cons s in
    let ih : join_lines (line ∷ lines) ≡ s = ap join_lines (sym eq) ∙ join_lines-split_lines s in
    elim (Bool-cases (c == newline)) [
      | inl e ↦
          rw (e, eq)
            (join_lines_blank line lines
              ∙ (ap (λ (t : Text). newline ∷ t) ih ∙ ap (λ n. n ∷ s) (sym (==→≡ c newline e))))
      | inr e ↦ rw (e, eq) (join_lines-extend c line lines ∙ ap (λ t. c ∷ t) ih)
    ]

-- A line is read up to its newline.
split_lines-newline :
    (line rest : Text) → Flat line → split_lines (line ++ newline ∷ rest) ≡ line ∷ split_lines rest
unfolding split_lines
split_lines-newline [] rest h = refl
split_lines-newline (c ∷ line) rest h = elim (Bool-cases (c == newline)) [
  | inl e ↦ absurd (h.0 (==→≡ c newline e))
  | inr e ↦ rw (e, split_lines-newline line rest h.1)
]

pub split_lines-Flat : (line : Text) → Flat line → split_lines line ≡ line ∷ []
unfolding split_lines
split_lines-Flat [] h = refl
split_lines-Flat (c ∷ line) h = elim (Bool-cases (c == newline)) [
  | inl e ↦ absurd (h.0 (==→≡ c newline e))
  | inr e ↦ rw (e, split_lines-Flat line h.1)
]

-- What Join puts together, Split takes apart again.
pub split_lines-join_lines :
    (line : Text) (lines : List Text)
    → All Flat (line ∷ lines)
    → split_lines (join_lines (line ∷ lines)) ≡ line ∷ lines
unfolding join_lines
split_lines-join_lines line [] h = split_lines-Flat line h.0
split_lines-join_lines line (next ∷ lines) h =
    split_lines-newline line (join_lines (next ∷ lines)) h.0
    ∙ ap (λ t. line ∷ t) (split_lines-join_lines next lines h.1)

pub split_lines-append :
    (s t : Text) → split_lines (s ++ newline ∷ t) ≡ split_lines s ++ split_lines t
unfolding split_lines
split_lines-append [] t = refl
split_lines-append (c ∷ s) t = elim (Bool-cases (c == newline)) [
  | inl e ↦ rw (e, split_lines-append s t)
  | inr e ↦ let (line, lines, eq) = split_lines_cons s in rw (e, split_lines-append s t, eq)
]

Flat-extend : (c : ℕ) (lines : List Text) → c ≢ newline → All Flat lines → All Flat (extend c lines)
Flat-extend c [] h k = ((h, tt), tt)
Flat-extend c (line ∷ lines) h k = ((h, k.0), k.1)

pub split_lines-All : (s : Text) → All Flat (split_lines s)
unfolding split_lines
split_lines-All [] = (tt, tt)
split_lines-All (c ∷ s) = elim (Bool-cases (c == newline)) [
  | inl e ↦ rw e (tt, split_lines-All s)
  | inr e ↦
      rw e (Flat-extend c (split_lines s) (λ q. absurd (ground (arith, q))) (split_lines-All s))
]
