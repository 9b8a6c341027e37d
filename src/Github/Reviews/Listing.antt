-- ===== src/Github/Reviews/Listing.antt =====
-- internal/github/reviews.go: lemmas on the pages of ListPullRequestReviews.
use github_pr_review_agent.Common.{
  ℕ, zero, suc, ◌+◌, ◌-◌, ◌*◌, ◌≤◌, ◌<◌, ◌≡◌, ◌≢◌, refl, Option, none, List, [], ◌∷◌, ◌++◌, ltb,
  length, take, drop, length-take-min, arith, Bool-cases, ◌⊎◌, inl, inr, ltb→lt, lt→ltb, ap, sym,
  ◌∙◌, min,
}
use github_pr_review_agent.Store.Transaction.{Error, Result, ok, err}
use github_pr_review_agent.Github.Reviews.{
  PullRequestReview, page_of, fails_at, list_pages, list_pull_request_reviews,
}

module _ {ℓ} {A : Type ℓ} where
  take-nil : (n : ℕ) → take {A = A} n [] ≡ []
  take-nil zero = refl
  take-nil (suc n) = refl

  take-add : (m k : ℕ) (l : List A) → take (m + k) l ≡ take m l ++ take k (drop m l)
  take-add zero k l = ground arith
  take-add (suc m) k [] = take-nil (suc m + k) ∙ sym (take-nil k)
  take-add (suc m) k (x ∷ l) = rw (suc_left m k) (ap (◌∷◌ x) (take-add m k l))
    where
      suc_left : (m k : ℕ) → suc m + k ≡ suc (m + k)
      suc_left m k = omega arith

  take_all : (m : ℕ) (l : List A) → length l ≤ m → take m l ≡ l
  take_all zero [] h = refl
  take_all (suc m) [] h = refl
  take_all zero (x ∷ l) h = absurd (omega arith)
  take_all (suc m) (x ∷ l) h = ap (◌∷◌ x) (take_all m l (omega arith))

  length-drop : (m : ℕ) (l : List A) → length (drop m l) ≡ length l - m
  length-drop zero l = omega arith
  length-drop (suc m) [] = omega arith
  length-drop (suc m) (x ∷ l) = omega (arith, length-drop m l)

  length-page : (m k : ℕ) (l : List A) → length (take k (drop m l)) ≡ min k (length l - m)
  length-page m k l = length-take-min k (drop m l) ∙ ap (min k) (length-drop m l)

page_of-take :
    (p : ℕ) (all : List PullRequestReview)
    → take (p * 100) all ++ page_of (p + 1) all ≡ take (p * 100 + 100) all
unfolding page_of
page_of-take p all = sym (rw (sub p) (take-add (p * 100) 100 all))
  where
    sub : (p : ℕ) → p + 1 - 1 ≡ p
    sub p = omega arith

length-page_of :
    (p : ℕ) (all : List PullRequestReview)
    → length (page_of (p + 1) all) ≡ min 100 (length all - p * 100)
unfolding page_of
length-page_of p all = rw (sub p) (length-page (p * 100) 100 all)
  where
    sub : (p : ℕ) → p + 1 - 1 ≡ p
    sub p = omega arith

next_page : (p : ℕ) → p * 100 + 100 ≡ (p + 1) * 100
next_page p = omega arith

module _ (failing : Option (ℕ × Error)) (all : List PullRequestReview) where
  -- What one round of the loop does: the request fails, or this page is the last one, or there is
  -- a further round, with the pages before it read.
  list_pages-step :
      (left p : ℕ) (e : Error)
      → fails_at failing (p + 1) ≡ err e
      → list_pages failing all (suc left) (p + 1) (take (p * 100) all) ≡ err e
  unfolding list_pages
  list_pages-step left p e h = rw h refl

  list_pages-last :
      (left p : ℕ)
      → fails_at failing (p + 1) ≡ ok tt
      → length all < p * 100 + 100
      → list_pages failing all (suc left) (p + 1) (take (p * 100) all) ≡ ok all
  unfolding list_pages
  list_pages-last left p h last =
      rw
        (
          h,
          lt→ltb (length (page_of (p + 1) all)) 100 (omega (arith, length-page_of p all)),
          page_of-take p all,
          take_all (p * 100 + 100) all (omega arith),
        )
        refl

  list_pages-next :
      (left p : ℕ)
      → fails_at failing (p + 1) ≡ ok tt
      → p * 100 + 100 ≤ length all
      → list_pages failing all (suc left) (p + 1) (take (p * 100) all)
        ≡ list_pages failing all left (p + 1 + 1) (take ((p + 1) * 100) all)
  unfolding list_pages
  list_pages-next left p h more = elim (Bool-cases (ltb (length (page_of (p + 1) all)) 100)) [
    | inl short ↦
        absurd
          (omega (arith, ltb→lt (length (page_of (p + 1) all)) 100 short, length-page_of p all))
    | inr full ↦ rw (h, full, page_of-take p all, next_page p) refl
  ]

  fails_at-cases :
      (page : ℕ) → (fails_at failing page ≡ ok tt) ⊎ ((e : Error) × (fails_at failing page ≡ err e))
  fails_at-cases page = go (fails_at failing page) refl
    where
      go :
          (r : Result (Unit {0}))
          → fails_at failing page ≡ r
          → (fails_at failing page ≡ ok tt) ⊎ ((e : Error) × (fails_at failing page ≡ err e))
      go (ok tt) h = inl h
      go (err e) h = inr (e, h)

  list_pages-spent :
      (page : ℕ) (reviews l : List PullRequestReview)
      → list_pages failing all zero page reviews ≢ ok l
  unfolding list_pages
  list_pages-spent page reviews l h = cc

  list_pages_complete :
      (left p : ℕ) (l : List PullRequestReview)
      → list_pages failing all left (p + 1) (take (p * 100) all) ≡ ok l
      → l ≡ all
  list_pages_complete zero p l h = absurd (list_pages-spent (p + 1) _ l h)
  list_pages_complete (suc left) p l h = elim (fails_at-cases (p + 1)) [
    | inr (e, failed) ↦ absurd (ground (arith, list_pages-step left p e failed))
    | inl fine ↦ elim (Bool-cases (ltb (length all) (p * 100 + 100))) [
      | inl last ↦ ground (arith, list_pages-last left p fine (ltb→lt _ _ last))
      | inr more ↦
          list_pages_complete left (p + 1) l (sym (list_pages-next left p fine (ground arith)) ∙ h)
    ]
  ]

  -- A listing that succeeds is complete: whichever request fails, an answer without an error has
  -- every review of the pull request, in order.
  pub list_pull_request_reviews_complete :
      (l : List PullRequestReview) → list_pull_request_reviews failing all ≡ ok l → l ≡ all
  unfolding list_pull_request_reviews
  list_pull_request_reviews_complete l h = list_pages_complete 100 0 l h

list_pages-all :
    (all : List PullRequestReview) (left p : ℕ)
    → p * 100 ≤ length all
    → length all < (p + left) * 100
    → list_pages none all left (p + 1) (take (p * 100) all) ≡ ok all
list_pages-all all zero p low high = absurd (omega arith)
list_pages-all all (suc left) p low high = elim (Bool-cases (ltb (length all) (p * 100 + 100))) [
  | inl last ↦ list_pages-last none all left p refl (ltb→lt _ _ last)
  | inr more ↦
      list_pages-next none all left p refl (ground arith)
      ∙ list_pages-all all left (p + 1) (ground arith) (omega arith)
]

-- With fewer than 10,000 reviews, and no request failing, the listing succeeds.
list_pull_request_reviews-ok :
    (all : List PullRequestReview)
    → length all < 10_000
    → list_pull_request_reviews none all ≡ ok all
unfolding list_pull_request_reviews
list_pull_request_reviews-ok all h = list_pages-all all 100 0 (omega arith) (omega arith)
