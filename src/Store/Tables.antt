-- ===== src/Store/Tables.antt =====
-- internal/store/mysql.go, audit.go, review_delivery.go: the rows of the tables. A time is a number
-- of nanoseconds (that TIMESTAMP(3) rounds to milliseconds is not modelled). Lists of rows are in
-- order of insertion, newest first.
use github_pr_review_agent.Common.{
  ℕ, ℤ, ◌==◌, Bool, Option, none, some, List, [], ◌∷◌, Text, text_eq, if◌then◌else◌, ◌≡◌, arith,
  map_option,
}

-- The values of the column review_task.status.
pub data Status : Type 0 where
  received queued running retrying done failed dead_letter superseded : Status

abbrev pub status_code : Status → ℕ
status_code received = 0
status_code queued = 1
status_code running = 2
status_code retrying = 3
status_code done = 4
status_code failed = 5
status_code dead_letter = 6
status_code superseded = 7

abbrev pub status_eq : Status → Status → Bool
status_eq a b = status_code a == status_code b

-- A row of review_task.
pub record TaskRow : Type 0 where
  pub id : ℕ
  pub repo : Text
  pub pr_number : ℕ
  pub commit_sha : Text
  pub action : Text
  pub delivery_id : Text
  pub status : Status
  pub error : Option Text
  pub attempt_count : ℕ
  pub max_attempts : ℕ
  pub next_retry_at : Option ℕ
  pub created_at : ℕ
  pub updated_at : ℕ

pub record NewTask : Type 0 where
  pub repo : Text
  pub pr_number : ℕ
  pub commit_sha : Text
  pub action : Text
  pub delivery_id : Text

pub record Evidence : Type 0 where
  pub kind : Text
  pub file : Text
  pub line : ℤ
  pub text : Text
  pub command : Text
  pub excerpt : Text

pub record Finding : Type 0 where
  pub category : Text
  pub file : Text
  pub line : ℤ
  pub severity : Text
  pub comment : Text
  pub suggestion : Text
  pub confidence : Text
  pub evidence : List Evidence

pub record NewReviewResult : Type 0 where
  pub task_id : ℕ
  pub summary : Text
  pub findings : List Finding
  pub raw_response : Text
  pub model : Text
  pub input_tokens : ℕ
  pub output_tokens : ℕ
  pub total_tokens : ℕ
  pub llm_duration_ms : ℕ

pub record ReviewResult : Type 0 where
  pub id : ℕ
  pub content : NewReviewResult
  pub open content use *
  pub created_at : ℕ

-- A row of review_delivery.
pub record ReviewDelivery : Type 0 where
  pub task_id : ℕ
  pub commit_sha : Text
  pub marker : Text
  pub github_review_id : ℕ

pub data AuditAction : Type 0 where
  task_created task_status_changed review_result_created : AuditAction

-- The column detail_json, by the keys that each operation writes.
pub data Detail : Type 0 where
  created_detail : NewTask → Detail
  error_detail : Option Text → Detail
  attempt_detail : ℕ → Detail
  retry_detail : ℕ → ℕ → Text → ℕ → Detail
  dead_letter_detail : ℕ → ℕ → Text → Detail
  attempt_count_reset : Detail
  github_review_detail : ℕ → Detail
  result_detail : ℕ → NewReviewResult → Detail

pub record AuditLog : Type 0 where
  pub task_id : ℕ
  pub action : AuditAction
  pub old_status : Option Status
  pub new_status : Option Status
  pub detail : Detail
  pub created_at : ℕ

-- `next_task_id` and `next_result_id` are the AUTO_INCREMENT counters.
pub record Database : Type 0 where
  pub tasks : List TaskRow
  pub results : List ReviewResult
  pub deliveries : List ReviewDelivery
  pub audit : List AuditLog
  pub next_task_id : ℕ
  pub next_result_id : ℕ

abbrev pub empty_database : Database
empty_database = record {
  tasks = [];
  results = [];
  deliveries = [];
  audit = [];
  next_task_id = 1;
  next_result_id = 1;
}

unfoldable pub find_task : ℕ → List TaskRow → Option TaskRow
find_task id [] = none
find_task id (t ∷ ts) = if t.id == id then some t else find_task id ts

-- Writes a row back over the row of its id.
unfoldable pub set_task : TaskRow → List TaskRow → List TaskRow
set_task r [] = []
set_task r (t ∷ ts) = if t.id == r.id then r ∷ ts else t ∷ set_task r ts

-- The row that the unique key on delivery_id refuses to hold twice.
unfoldable pub find_delivery_id : Text → List TaskRow → Option TaskRow
find_delivery_id d [] = none
find_delivery_id d (t ∷ ts) = if text_eq t.delivery_id d then some t else find_delivery_id d ts

unfoldable pub find_result : ℕ → List ReviewResult → Option ReviewResult
find_result id [] = none
find_result id (r ∷ rs) = if r.task_id == id then some r else find_result id rs

unfoldable pub find_delivery : ℕ → List ReviewDelivery → Option ReviewDelivery
find_delivery id [] = none
find_delivery id (d ∷ ds) = if d.task_id == id then some d else find_delivery id ds

unfoldable pub set_delivery : ReviewDelivery → List ReviewDelivery → List ReviewDelivery
set_delivery r [] = []
set_delivery r (d ∷ ds) = if d.task_id == r.task_id then r ∷ ds else d ∷ set_delivery r ds

pub find_task-id : (id : ℕ) (ts : List TaskRow) (r : TaskRow) → find_task id ts ≡ some r → r.id ≡ id
unfolding find_task
find_task-id id [] r h = cc
find_task-id id (t ∷ ts) r h = ground (arith, find_task-id id ts r)

pub find_task-set_task :
    (j : ℕ) (r : TaskRow) (ts : List TaskRow)
    → find_task j (set_task r ts)
      ≡ (if r.id == j then map_option (λ _. r) (find_task j ts) else find_task j ts)
unfolding find_task set_task
find_task-set_task j r [] = ground arith
find_task-set_task j r (t ∷ ts) = ground (arith, find_task-set_task j r ts)

pub find_delivery-set_delivery :
    (j : ℕ) (r : ReviewDelivery) (ds : List ReviewDelivery)
    → find_delivery j (set_delivery r ds)
      ≡ (if r.task_id == j then map_option (λ _. r) (find_delivery j ds) else find_delivery j ds)
unfolding find_delivery set_delivery
find_delivery-set_delivery j r [] = ground arith
find_delivery-set_delivery j r (d ∷ ds) = ground (arith, find_delivery-set_delivery j r ds)
