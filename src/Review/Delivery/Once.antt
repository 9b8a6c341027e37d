-- ===== src/Review/Delivery/Once.antt =====
-- internal/review/delivery.go: one attempt of publishSavedReview.
use github_pr_review_agent.Common.{
  ℕ, ◌≤◌, ◌≡◌, ◌≢◌, refl, true, List, [], ◌∷◌, Text, codes, tally, arith, ◌==◌, is_empty,
  Bool-cases, Option-cases, inl, inr, ◌⊎◌, subst, sym, ◌∙◌, ◌||◌, ap,
}
use github_pr_review_agent.Store.Tables.{ReviewResult, ReviewDelivery, Database}
use github_pr_review_agent.Store.Transaction.{Error, broken, Result, ok, err}
use github_pr_review_agent.Github.Reviews.{
  PullRequestReview, Host, list_pull_request_reviews, Posting, answered, refused, answer_lost,
  create_pull_request_review_at_commit,
}
use github_pr_review_agent.Github.Reviews.Listing.{list_pull_request_reviews_complete}
use github_pr_review_agent.Review.Delivery.{
  Attempt, is_ours, find_ours, review_body, mark, after_post, publish_missing, after_listing,
  publish_saved_review,
}
use github_pr_review_agent.Review.Delivery.Matching.{find_ours-none, find_ours-some, tally-post}

module _ (h : Host) (a : Attempt) (result : ReviewResult) (d : ReviewDelivery) where
  open h use {State, reviews}

  abbrev pub count : State → ℕ
  count s = tally (is_ours d) (reviews s)

  create-cases :
      (p : Posting) (s : State) (sha body : Text)
      → ((e : Error) × (create_pull_request_review_at_commit h p s sha body ≡ (err e, s)))
        ⊎ ((create_pull_request_review_at_commit h p s sha body).1 ≡ h.post s sha body)
  unfolding create_pull_request_review_at_commit
  create-cases p s [] body = inl (broken (codes "review commit SHA is required"), refl)
  create-cases answered s (c ∷ sha) body = inr refl
  create-cases (refused e) s (c ∷ sha) body = inl (e, refl)
  create-cases (answer_lost e) s (c ∷ sha) body = inr refl

  after_post-state :
      (answer : Result ℕ × State) (db : Database)
      → (after_post h a.mark result.task_id answer db).2 ≡ answer.1
  unfolding after_post mark
  after_post-state (err e, s) db = refl
  after_post-state (ok id, s) db = refl

  after_post-failed :
      (e : Error) (s : State) (db : Database)
      → (after_post h a.mark result.task_id (err e, s) db).0 ≢ ok tt
  unfolding after_post
  after_post-failed e s db q = cc

  -- How one attempt ends: GitHub is as it was, and if the attempt succeeds it has the review; or it
  -- had no such review and now has one more.
  pub data Delivered (s : State) (r : Result (Unit {0})) (s' : State) : Type 0 where
    unchanged : s' ≡ s → (r ≡ ok tt → 1 ≤ count s) → Delivered s r s'
    posted : count s ≡ 0 → count s' ≡ 1 → Delivered s r s'

  publish_missing-Delivered :
      (db : Database) (s : State)
      → let after = publish_missing h a result d (find_ours d (reviews s)) (db, s) in
        Delivered s after.0 after.2
  unfolding publish_missing mark
  publish_missing-Delivered db s = elim (Option-cases (find_ours d (reviews s))) [
    | inl absent ↦ rw absent (elim (create-cases a.posting s d.commit_sha (review_body result d)) [
      | inl (e, failed) ↦
          rw failed
            (unchanged (after_post-state (err e, s) db) (λ q. absurd (after_post-failed e s db q)))
      | inr sent ↦ posted (find_ours-none d (reviews s) absent) (
          omega (
            arith,
            ap count (
                after_post-state
                  (create_pull_request_review_at_commit h a.posting s d.commit_sha
                    (review_body result d))
                  db
                ∙ sent),
            tally-post h s result d,
            find_ours-none d (reviews s) absent,
          ))
    ])
    | inr (id, there) ↦ rw there (unchanged refl (λ q. find_ours-some d (reviews s) id there))
  ]

  after_listing-Delivered :
      (db : Database) (s : State) (rs : Result (List PullRequestReview))
      → ((l : List PullRequestReview) → rs ≡ ok l → l ≡ reviews s)
      → let after = after_listing h a result d rs (db, s) in Delivered s after.0 after.2
  unfolding after_listing
  after_listing-Delivered db s (err e) whole = unchanged refl (λ q. absurd (never q))
    where
      never : {x : Error} → ◌≡◌ {A = Result (Unit {0})} (err x) (ok tt) → ⊥
      never q = cc
  after_listing-Delivered db s (ok rs) whole =
      subst
        (λ l.
          Delivered s (publish_missing h a result d (find_ours d l) (db, s)).0
            (publish_missing h a result d (find_ours d l) (db, s)).2)
        (sym (whole rs refl)) (publish_missing-Delivered db s)

  -- An attempt to deliver a saved result that GitHub has not confirmed: whatever fails, it posts
  -- only if GitHub has no review with the marker at the commit, and then GitHub has one; if it
  -- succeeds, GitHub has one afterwards.
  pub publish_saved_review-Delivered :
      (db : Database) (s : State)
      → d.github_review_id ≡ 0
      → let after = publish_saved_review h a result d (db, s) in Delivered s after.0 after.2
  unfolding publish_saved_review
  publish_saved_review-Delivered db s fresh_delivery =
      elim (Bool-cases (is_empty d.marker || is_empty d.commit_sha)) [
        | inl bad ↦
            rw (is_zero d.github_review_id fresh_delivery, bad)
              (unchanged refl (λ q. absurd (never q)))
        | inr good ↦
            rw (is_zero d.github_review_id fresh_delivery, good)
              (after_listing-Delivered db s (list_pull_request_reviews a.listing (reviews s))
                (list_pull_request_reviews_complete a.listing (reviews s)))
      ]
    where
      never : {x : Error} → ◌≡◌ {A = Result (Unit {0})} (err x) (ok tt) → ⊥
      never q = cc

      is_zero : (n : ℕ) → n ≡ 0 → (n == 0) ≡ true
      is_zero n e = ground arith

  -- A success means one review: if the delivery is not confirmed before and GitHub has at most one
  -- review with its marker at its commit, then after an attempt that succeeds GitHub has exactly
  -- one.
  pub published_once :
      (db : Database) (s : State)
      → d.github_review_id ≡ 0
      → count s ≤ 1
      → (publish_saved_review h a result d (db, s)).0 ≡ ok tt
      → count (publish_saved_review h a result d (db, s)).2 ≡ 1
  published_once db s unconfirmed few fine =
      elim (publish_saved_review-Delivered db s unconfirmed) [
        | unchanged e has ↦ omega (arith, ap count e, has fine)
        | posted none_before one ↦ one
      ]
