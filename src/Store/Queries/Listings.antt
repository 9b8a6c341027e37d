-- ===== src/Store/Queries/Listings.antt =====
-- internal/store/mysql.go: ListRecoverableTasks and ListStaleQueuedTasks, row by row.
use github_pr_review_agent.Common.{
  ℕ, zero, suc, ◌≤◌, ◌<◌, ◌≡◌, refl, Bool, true, List, [], ◌∷◌, arith, Bool-cases, inl, inr, ◌⊎◌,
  All, min, length, subst, take, select, tally, length-take-min, leb→le, ◌∙◌, ap, sym,
}
use github_pr_review_agent.Store.Tables.{received, queued, running, TaskRow, Database}
use github_pr_review_agent.Store.Transaction.{Conn, ok, statement, ◌>>◌}
use github_pr_review_agent.Store.Rows.{Task, scan_task}
use github_pr_review_agent.Store.Queries.{
  insert_sorted, order_by, scan_all, limit_or, oldest_first, is_recoverable, list_recoverable_tasks,
  is_stale_queued, list_stale_queued_tasks,
}

-- Each task was changed last no later than those behind it.
abbrev pub OldestFirst : List Task → Type 0
OldestFirst [] = Unit
OldestFirst (t ∷ ts) = All (λ u. t.updated_at ≤ u.updated_at) ts × OldestFirst ts

-- A listing of the tasks with P: at most `most` of the `total`, the oldest first.
pub record IsListing (P : Task → Type 0) (most total : ℕ) (ts : List Task) : Type 0 where
  pub fit : All P ts
  pub oldest : OldestFirst ts
  pub counted : length ts ≡ min most total

module _ (P : TaskRow → Type 0) where
  insert_sorted-All :
      (before : TaskRow → TaskRow → Bool) (r : TaskRow) (ts : List TaskRow)
      → P r
      → All P ts
      → All P (insert_sorted before r ts)
  unfolding insert_sorted
  insert_sorted-All before r [] p h = (p, tt)
  insert_sorted-All before r (t ∷ ts) p (q, h) = elim (Bool-cases (before r t)) [
    | inl first ↦ rw first (p, (q, h))
    | inr later ↦ rw later (q, insert_sorted-All before r ts p h)
  ]

  order_by-All :
      (before : TaskRow → TaskRow → Bool) (ts : List TaskRow)
      → All P ts
      → All P (order_by before ts)
  unfolding order_by
  order_by-All before [] h = tt
  order_by-All before (t ∷ ts) (p, h) = insert_sorted-All before t _ p (order_by-All before ts h)

  take-All : (n : ℕ) (ts : List TaskRow) → All P ts → All P (take n ts)
  take-All zero ts h = tt
  take-All (suc n) [] h = tt
  take-All (suc n) (t ∷ ts) (p, h) = (p, take-All n ts h)

All-map :
    (P Q : TaskRow → Type 0) (ts : List TaskRow) → ((r : TaskRow) → P r → Q r) → All P ts → All Q ts
All-map P Q [] f h = tt
All-map P Q (t ∷ ts) f (p, h) = (f t p, All-map P Q ts f h)

select-All : (p : TaskRow → Bool) (ts : List TaskRow) → All (λ r. p r ≡ true) (select p ts)
select-All p [] = tt
select-All p (t ∷ ts) = elim (Bool-cases (p t)) [
  | inl passes ↦ rw passes (passes, select-All p ts)
  | inr fails ↦ rw fails (select-All p ts)
]

length-insert_sorted :
    (before : TaskRow → TaskRow → Bool) (r : TaskRow) (ts : List TaskRow)
    → length (insert_sorted before r ts) ≡ suc (length ts)
unfolding insert_sorted
length-insert_sorted before r [] = refl
length-insert_sorted before r (t ∷ ts) = ground (arith, length-insert_sorted before r ts)

length-order_by :
    (before : TaskRow → TaskRow → Bool) (ts : List TaskRow)
    → length (order_by before ts) ≡ length ts
unfolding order_by
length-order_by before [] = refl
length-order_by before (t ∷ ts) =
    omega (arith, length-insert_sorted before t (order_by before ts), length-order_by before ts)

length-select : (p : TaskRow → Bool) (ts : List TaskRow) → length (select p ts) ≡ tally p ts
length-select p [] = refl
length-select p (t ∷ ts) = ground (arith, length-select p ts)

-- The rows in order.
abbrev Sorted : List TaskRow → Type 0
Sorted [] = Unit
Sorted (r ∷ rs) = All (λ u. r.updated_at ≤ u.updated_at) rs × Sorted rs

insert_sorted-Sorted :
    (r : TaskRow) (ts : List TaskRow) → Sorted ts → Sorted (insert_sorted oldest_first r ts)
unfolding insert_sorted
insert_sorted-Sorted r [] h = (tt, tt)
insert_sorted-Sorted r (t ∷ ts) (p, h) = elim (Bool-cases (oldest_first r t)) [
  | inl first ↦
      let least : r.updated_at ≤ t.updated_at = leb→le r.updated_at t.updated_at first in
      rw first ((least, All-map _ _ ts (λ u q. omega (arith, least, q)) p), (p, h))
  | inr later ↦
      let most : t.updated_at ≤ r.updated_at = ground arith in
      rw later (
        insert_sorted-All (λ u. t.updated_at ≤ u.updated_at) oldest_first r ts most p,
        insert_sorted-Sorted r ts h,
      )
]

order_by-Sorted : (ts : List TaskRow) → Sorted (order_by oldest_first ts)
unfolding order_by
order_by-Sorted [] = tt
order_by-Sorted (t ∷ ts) = insert_sorted-Sorted t (order_by oldest_first ts) (order_by-Sorted ts)

take-Sorted : (n : ℕ) (ts : List TaskRow) → Sorted ts → Sorted (take n ts)
take-Sorted zero ts h = tt
take-Sorted (suc n) [] h = tt
take-Sorted (suc n) (t ∷ ts) (p, h) =
    (take-All (λ u. t.updated_at ≤ u.updated_at) n ts p, take-Sorted n ts h)

scan_all-All :
    (P : Task → Type 0) (rs : List TaskRow) → All (λ r. P (scan_task r)) rs → All P (scan_all rs)
unfolding scan_task
scan_all-All P [] h = tt
scan_all-All P (r ∷ rs) (p, h) = (p, scan_all-All P rs h)

scan_all-OldestFirst : (rs : List TaskRow) → Sorted rs → OldestFirst (scan_all rs)
unfolding scan_task
scan_all-OldestFirst [] h = tt
scan_all-OldestFirst (r ∷ rs) (p, h) =
    (scan_all-All (λ u. r.updated_at ≤ u.updated_at) rs p, scan_all-OldestFirst rs h)

length-scan_all : (rs : List TaskRow) → length (scan_all rs) ≡ length rs
unfolding scan_task
length-scan_all [] = refl
length-scan_all (r ∷ rs) = omega (arith, length-scan_all rs)

oldest-IsListing :
    (P : Task → Type 0) (p : TaskRow → Bool) (most : ℕ) (rows : List TaskRow)
    → ((r : TaskRow) → p r ≡ true → P (scan_task r))
    → IsListing P most (tally p rows) (scan_all (take most (order_by oldest_first (select p rows))))
oldest-IsListing P p most rows fits =
    let chosen = take most (order_by oldest_first (select p rows)) in
    record {
      fit = scan_all-All P chosen (
          All-map (λ r. p r ≡ true) (λ r. P (scan_task r)) chosen fits
            (take-All (λ r. p r ≡ true) most _
              (order_by-All (λ r. p r ≡ true) oldest_first _ (select-All p rows))));
      oldest = scan_all-OldestFirst chosen (take-Sorted most _ (order_by-Sorted (select p rows)));
      counted =
          length-scan_all chosen
          ∙ length-take-min most (order_by oldest_first (select p rows))
          ∙ ap (min most) (length-order_by oldest_first (select p rows) ∙ length-select p rows);
    }

after_statement :
    (c : Conn) (k : ℕ) (found ts : List Task) → (statement c k >> ok found) ≡ ok ts → ts ≡ found
unfolding statement
after_statement c k found ts h = ground arith

-- ListRecoverableTasks gives running tasks that were changed last before the given time, the oldest
-- first: all of them if there are no more than the limit, and else as many as the limit.
list_recoverable_tasks-IsListing :
    (c : Conn) (stale_before limit : ℕ) (db : Database) (ts : List Task)
    → list_recoverable_tasks c stale_before limit db ≡ ok ts
    → IsListing
        (λ t. (t.status ≡ running) × (t.updated_at < stale_before))
        (limit_or 100 limit)
        (tally (is_recoverable stale_before) db.tasks)
        ts
unfolding list_recoverable_tasks
list_recoverable_tasks-IsListing c stale_before limit db ts h =
    subst
      (IsListing (λ t. (t.status ≡ running) × (t.updated_at < stale_before)) (limit_or 100 limit)
        (tally (is_recoverable stale_before) db.tasks))
      (sym (after_statement c 0 _ ts h))
      (oldest-IsListing _ (is_recoverable stale_before) (limit_or 100 limit) db.tasks
        (λ r p. ground arith))

-- ListStaleQueuedTasks gives tasks that wait for a worker and were changed last before the given
-- time, the oldest first: all of them if there are no more than the limit, and else as many as the
-- limit.
list_stale_queued_tasks-IsListing :
    (c : Conn) (stale_before limit : ℕ) (db : Database) (ts : List Task)
    → list_stale_queued_tasks c stale_before limit db ≡ ok ts
    → IsListing
        (λ t. ((t.status ≡ received) ⊎ (t.status ≡ queued)) × (t.updated_at < stale_before))
        (limit_or 100 limit)
        (tally (is_stale_queued stale_before) db.tasks)
        ts
unfolding list_stale_queued_tasks
list_stale_queued_tasks-IsListing c stale_before limit db ts h =
    subst
      (IsListing
        (λ t. ((t.status ≡ received) ⊎ (t.status ≡ queued)) × (t.updated_at < stale_before))
        (limit_or 100 limit) (tally (is_stale_queued stale_before) db.tasks))
      (sym (after_statement c 0 _ ts h))
      (oldest-IsListing _ (is_stale_queued stale_before) (limit_or 100 limit) db.tasks
        (λ r p. ground arith))
