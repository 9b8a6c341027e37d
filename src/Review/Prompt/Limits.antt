-- ===== src/Review/Prompt/Limits.antt =====
-- limitLines (internal/review/service.go).
use github_pr_review_agent.Common.{
  ℕ, zero, suc, ◌<◌, ◌≤◌, ◌==◌, false, [], ◌∷◌, ◌++◌, Text, codes, newline, split_lines,
  split_lines_cons, split_lines-append, split_lines-join_lines, split_lines-All, join_lines, Flat,
  length, take, take-All, All, leb, ◌≡◌, refl, sym, ap, subst, ◌∙◌, arith,
}
use github_pr_review_agent.Review.Prompt.{limit_lines}

abbrev pub notice : Text
notice = codes "[content truncated because it exceeded the configured line limit]"

split_lines-notice : split_lines notice ≡ notice ∷ []
unfolding split_lines
split_lines-notice = refl

-- The first lines of a text and the notice are the lines of the text cut short.
split_lines_cut :
    (content : Text) (max : ℕ)
    → split_lines (join_lines (take (suc max) (split_lines content)) ++ newline ∷ notice)
      ≡ take (suc max) (split_lines content) ++ notice ∷ []
split_lines_cut content max =
    let (line, lines, eq) = split_lines_cons content in
    let flat : All Flat (line ∷ take max lines) =
      take-All Flat (suc max) (line ∷ lines) (subst (All Flat) eq (split_lines-All content)) in
    split_lines-append (join_lines (take (suc max) (split_lines content))) notice
    ∙ (ap (λ t. split_lines (join_lines (take (suc max) t)) ++ split_lines notice) eq
        ∙ (ap (λ t. t ++ split_lines notice) (split_lines-join_lines line (take max lines) flat)
            ∙ (ap (λ t. (line ∷ take max lines) ++ t) split_lines-notice
                ∙ ap (λ t. take (suc max) t ++ notice ∷ []) (sym eq))))

cut_short :
    (content : Text) (max : ℕ)
    → suc max < length (split_lines content)
    → split_lines (limit_lines content (suc max))
      ≡ take (suc max) (split_lines content) ++ notice ∷ []
unfolding limit_lines
cut_short content max long =
    let positive : (suc max == 0) ≡ false = ground arith in
    let over : leb (length (split_lines content)) (suc max) ≡ false = ground arith in
    rw (positive, limit_lines) (rw over (split_lines_cut content max))

-- With a positive limit, a text of at most so many lines is left alone, and of a longer one exactly
-- the first lines up to the limit are left, and a notice on a line of its own.
limit_lines_lem :
    (content : Text) (max : ℕ)
    → 0 < max
    → (length (split_lines content) ≤ max → limit_lines content max ≡ content)
      × (max < length (split_lines content)
          → split_lines (limit_lines content max) ≡ take max (split_lines content) ++ notice ∷ [])
unfolding limit_lines
limit_lines_lem content zero h = absurd (omega arith)
limit_lines_lem content (suc max) h = (λ short. ground arith, λ long. cut_short content max long)
