-- ===== src/Review/Delivery/Matching.antt =====
-- internal/review/delivery.go: how many reviews carry the marker of a delivery.
use github_pr_review_agent.Common.{
  ℕ, ◌+◌, ◌≤◌, ◌≡◌, ◌≢◌, refl, Bool, true, none, some, List, [], ◌∷◌, ◌++◌, Text, codes, tally,
  arith, text_eq_refl, contains, contains-append, append_assoc, subst, append-nil, ◌∙◌, ap,
}
use github_pr_review_agent.Store.Tables.{ReviewResult, ReviewDelivery}
use github_pr_review_agent.Github.Reviews.{PullRequestReview, Host}
use github_pr_review_agent.Review.Comment.{build_review_comment}
use github_pr_review_agent.Review.Delivery.{is_ours, find_ours, marker_of, review_body}

tally-append {ℓ} :
    {A : Type ℓ} (p : A → Bool) (xs ys : List A) → tally p (xs ++ ys) ≡ tally p xs + tally p ys
tally-append p [] ys = omega arith
tally-append p (x ∷ xs) ys = ground (arith, tally-append p xs ys)

pub find_ours-none :
    (d : ReviewDelivery) (rs : List PullRequestReview)
    → find_ours d rs ≡ none
    → tally (is_ours d) rs ≡ 0
unfolding find_ours
find_ours-none d [] h = refl
find_ours-none d (r ∷ rs) h = ground (arith, find_ours-none d rs)

pub find_ours-some :
    (d : ReviewDelivery) (rs : List PullRequestReview) (id : ℕ)
    → find_ours d rs ≡ some id
    → 1 ≤ tally (is_ours d) rs
unfolding find_ours
find_ours-some d [] id h = cc
find_ours-some d (r ∷ rs) id h = ground (arith, find_ours-some d rs id)

contains_at_end : (before part : Text) → contains (before ++ (codes "\n\n" ++ part)) part ≡ true
contains_at_end before part =
    subst (λ s. contains s part ≡ true)
      (ap (λ s. (before ++ codes "\n\n") ++ s) (append-nil part)
        ∙ append_assoc before (codes "\n\n") part)
      (contains-append (before ++ codes "\n\n") part [])

contains-review_body :
    (result : ReviewResult) (d : ReviewDelivery)
    → contains (review_body result d) (marker_of d) ≡ true
unfolding review_body
contains-review_body result d =
    contains_at_end (build_review_comment result result.task_id d.commit_sha) (marker_of d)

-- The review that is posted counts as ours.
is_ours-new :
    (id : ℕ) (result : ReviewResult) (d : ReviewDelivery)
    → id ≢ 0
    → is_ours d (record {
      id = id;
      body = review_body result d;
      commit_id = d.commit_sha;
      state = codes "COMMENTED";
    })
      ≡ true
unfolding is_ours
is_ours-new id result d nonzero = grind (
  arith,
  text_eq_refl d.commit_sha,
  text_eq_refl (codes "COMMENTED"),
  contains-review_body result d,
)

module _ (h : Host) where
  open h use {State, reviews, post, new_id, new_id_nonzero, reviews-post}

  pub tally-post :
      (s : State) (result : ReviewResult) (d : ReviewDelivery)
      → tally (is_ours d) (reviews (post s d.commit_sha (review_body result d)))
        ≡ tally (is_ours d) (reviews s) + 1
  tally-post s result d =
      rw
        (reviews-post s d.commit_sha (review_body result d), tally-append (is_ours d) (reviews s) _)
        (omega (
          arith,
          counted _ (
              is_ours-new (new_id s d.commit_sha (review_body result d)) result d
                (new_id_nonzero s d.commit_sha (review_body result d))),
        ))
    where
      counted : (r : PullRequestReview) → is_ours d r ≡ true → tally (is_ours d) (r ∷ []) ≡ 1
      counted r e = ground arith
