-- ===== src/Store/Queries.antt =====
-- internal/store/mysql.go: the listings of review_task.
pub mod Listings
use github_pr_review_agent.Common.{
  ℕ, ◌==◌, ◌&&◌, ◌||◌, Bool, true, List, [], ◌∷◌, Text, text_eq, is_empty, ltb, leb, if◌then◌else◌,
  select, take, Option, none, some,
}
use github_pr_review_agent.Store.Tables.{
  Status, received, queued, running, status_eq, TaskRow, Database,
}
use github_pr_review_agent.Store.Transaction.{Conn, Result, ok, statement, ◌>>◌}
use github_pr_review_agent.Store.Rows.{Task, scan_task}

insert_sorted : (TaskRow → TaskRow → Bool) → TaskRow → List TaskRow → List TaskRow
insert_sorted before r [] = r ∷ []
insert_sorted before r (t ∷ ts) = if before r t then r ∷ t ∷ ts else t ∷ insert_sorted before r ts

-- ORDER BY, with rows that compare equal in one of the orders that the server may choose.
unfoldable pub order_by : (TaskRow → TaskRow → Bool) → List TaskRow → List TaskRow
unfolding insert_sorted
order_by before [] = []
order_by before (t ∷ ts) = insert_sorted before t (order_by before ts)

abbrev pub scan_all : List TaskRow → List Task
unfolding scan_task
scan_all [] = []
scan_all (r ∷ rs) = scan_task r ∷ scan_all rs

pub record ListFilter : Type 0 where
  pub repo : Text
  pub status : Option Status
  pub pr_number : ℕ
  pub limit : ℕ

unfoldable pub limit_or : ℕ → ℕ → ℕ
limit_or default limit = if (limit == 0) || ltb 200 limit then default else limit

abbrev status_passes : Option Status → Status → Bool
status_passes none s = true
status_passes (some wanted) s = status_eq s wanted

passes : ListFilter → TaskRow → Bool
passes f r =
    (is_empty f.repo || text_eq r.repo f.repo)
    && status_passes f.status r.status
    && ((f.pr_number == 0) || (r.pr_number == f.pr_number))

unfoldable pub list_tasks : Conn → ListFilter → Database → Result (List Task)
unfolding statement passes limit_or order_by scan_task
list_tasks c f db = do
  statement c 0
  let found = order_by (λ a b. ltb b.id a.id) (select (passes f) db.tasks)
  ok (scan_all (take (limit_or 50 f.limit) found))

abbrev pub oldest_first : TaskRow → TaskRow → Bool
oldest_first a b = leb a.updated_at b.updated_at

abbrev pub is_recoverable : ℕ → TaskRow → Bool
is_recoverable stale_before r = status_eq r.status running && ltb r.updated_at stale_before

unfoldable pub list_recoverable_tasks : Conn → ℕ → ℕ → Database → Result (List Task)
unfolding statement limit_or order_by scan_task
list_recoverable_tasks c stale_before limit db = do
  statement c 0
  let found = order_by oldest_first (select (is_recoverable stale_before) db.tasks)
  ok (scan_all (take (limit_or 100 limit) found))

abbrev pub is_stale_queued : ℕ → TaskRow → Bool
is_stale_queued stale_before r =
    (status_eq r.status received || status_eq r.status queued) && ltb r.updated_at stale_before

unfoldable pub list_stale_queued_tasks : Conn → ℕ → ℕ → Database → Result (List Task)
unfolding statement limit_or order_by scan_task
list_stale_queued_tasks c stale_before limit db = do
  statement c 0
  let found = order_by oldest_first (select (is_stale_queued stale_before) db.tasks)
  ok (scan_all (take (limit_or 100 limit) found))
