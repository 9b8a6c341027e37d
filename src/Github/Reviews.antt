-- ===== src/Github/Reviews.antt =====
-- internal/github/reviews.go: listing and creating the reviews of a pull request.
pub mod Listing
use github_pr_review_agent.Common.{
  ℕ, zero, suc, ◌+◌, ◌-◌, ◌*◌, ◌≡◌, ◌≢◌, Bool, true, false, Option, none, some, List, [], ◌∷◌, ◌++◌,
  Text, codes, ◌==◌, ltb, if◌then◌else◌, is_empty, length, take, drop,
}
use github_pr_review_agent.Store.Transaction.{Error, broken, Result, ok, err, ◌>>=◌, ◌>>◌}

pub record PullRequestReview : Type 0 where
  pub id : ℕ
  pub body : Text
  pub commit_id : Text
  pub state : Text

-- GitHub as far as the reviews of one pull request go: what it has, and what an accepted POST makes
-- of it. The laws are GitHub's: the new review comes last, with a number that is not 0, and with
-- the state that the event COMMENT gives.
pub record Host : Type 1 where
  pub State : Type 0
  pub reviews : State → List PullRequestReview
  pub post : State → Text → Text → State
  pub new_id : State → Text → Text → ℕ
  pub new_id_nonzero : (s : State) (commit body : Text) → new_id s commit body ≢ 0
  pub reviews-post :
      (s : State) (commit body : Text)
      → reviews (post s commit body)
        ≡ reviews s
          ++ record {
            id = new_id s commit body;
            body = body;
            commit_id = commit;
            state = codes "COMMENTED";
          }
            ∷ []

-- The answer to GET .../reviews?per_page=100&page=`page`.
unfoldable pub page_of : ℕ → List PullRequestReview → List PullRequestReview
page_of page all = take 100 (drop ((page - 1) * 100) all)

abbrev fails_at : Option (ℕ × Error) → ℕ → Result (Unit {0})
fails_at none page = ok tt
fails_at (some (k, e)) page = if k == page then err e else ok tt

-- The loop of ListPullRequestReviews: `left` pages may still be read. `failing` is the first
-- request that fails, with its error.
list_pages :
    Option (ℕ × Error)
    → List PullRequestReview
    → ℕ
    → ℕ
    → List PullRequestReview
    → Result (List PullRequestReview)
unfolding page_of
list_pages failing all zero page reviews =
    err (broken (codes "review listing exceeded 100 pages; refusing to assume no existing review"))
list_pages failing all (suc left) page reviews =
    let batch = page_of page all in
    let rest = list_pages failing all left (page + 1) (reviews ++ batch) in
    fails_at failing page >> (if ltb (length batch) 100 then ok (reviews ++ batch) else rest)

unfoldable pub list_pull_request_reviews :
    Option (ℕ × Error) → List PullRequestReview → Result (List PullRequestReview)
unfolding list_pages
list_pull_request_reviews failing all = list_pages failing all 100 1 []

-- How a POST ends: with GitHub's answer; refused, or never arrived; or carried out with its answer
-- lost.
pub data Posting : Type 0 where
  answered : Posting
  refused : Error → Posting
  answer_lost : Error → Posting

module _ (h : Host) where
  open h use {State, post, new_id}

  carried_out : Posting → State → Text → Text → Result ℕ × State
  carried_out answered s commit body = (ok (new_id s commit body), post s commit body)
  carried_out (refused e) s commit body = (err e, s)
  carried_out (answer_lost e) s commit body = (err e, post s commit body)

  -- The test for a missing review id never holds, by the law new_id_nonzero.
  unfoldable pub create_pull_request_review_at_commit :
      Posting → State → Text → Text → Result ℕ × State
  unfolding carried_out
  create_pull_request_review_at_commit p s commit body =
      if is_empty commit
      then (err (broken (codes "review commit SHA is required")), s)
      else carried_out p s commit body
