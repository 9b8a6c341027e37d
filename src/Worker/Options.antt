-- ===== src/Worker/Options.antt =====
-- internal/worker/worker.go: New. A duration is a number of nanoseconds.
use github_pr_review_agent.Common.{
  ℕ, ◌+◌, ◌*◌, ◌≤◌, ◌<◌, ◌≡◌, ℤ, pos, ltb_ℤ, to_ℕ, if◌then◌else◌, arith, ltb, ◌⊎◌,
}

abbrev pub second : ℕ
second = 1_000_000_000

abbrev pub minute : ℕ
minute = 60 * second

abbrev pub review_timeout : ℕ
review_timeout = 5 * minute

abbrev pub lock_ttl_cleanup_margin : ℕ
lock_ttl_cleanup_margin = minute

pub record Options : Type 0 where
  pub max_attempts : ℤ
  pub retry_base_delay : ℤ
  pub retry_max_delay : ℤ
  pub retry_jitter : ℤ
  pub lock_ttl : ℤ
  pub lock_retry_delay : ℤ

-- The numbers of the struct Worker; its interfaces are arguments of the functions that call them.
pub record Worker : Type 0 where
  pub workers : ℕ
  pub max_attempts : ℕ
  pub retry_base_delay : ℕ
  pub retry_max_delay : ℕ
  pub retry_jitter : ℕ
  pub lock_ttl : ℕ
  pub lock_retry_delay : ℕ

-- if x <= 0 { x = default }
positive_or : ℕ → ℤ → ℕ
positive_or default x = if ltb_ℤ (pos 0) x then to_ℕ x else default

max_delay_or : ℕ → ℤ → ℕ → ℕ
max_delay_or default x base = if ltb_ℤ x (pos base) then default else to_ℕ x

jitter_or : ℕ → ℤ → ℕ
jitter_or default x = if ltb_ℤ x (pos 0) then default else to_ℕ x

raise_to : ℕ → ℕ → ℕ
raise_to least x = if ltb x least then least else x

unfoldable pub new : ℤ → Options → Worker
unfolding positive_or max_delay_or jitter_or raise_to
new workers o =
    let base = positive_or (30 * second) o.retry_base_delay in
    record {
      workers = positive_or 1 workers;
      max_attempts = positive_or 3 o.max_attempts;
      retry_base_delay = base;
      retry_max_delay = max_delay_or (10 * minute) o.retry_max_delay base;
      retry_jitter = jitter_or (5 * second) o.retry_jitter;
      lock_ttl =
          raise_to (review_timeout + lock_ttl_cleanup_margin) (positive_or (7 * minute) o.lock_ttl);
      lock_retry_delay = positive_or (2 * second) o.lock_retry_delay;
    }

-- What New makes sure of.
pub record IsConfigured (w : Worker) : Type 0 where
  pub some_worker : 1 ≤ w.workers
  pub some_attempt : 1 ≤ w.max_attempts
  pub base_positive : 0 < w.retry_base_delay
  pub max_positive : 0 < w.retry_max_delay
  pub base_or_ten_minutes :
      (w.retry_base_delay ≤ w.retry_max_delay) ⊎ (w.retry_max_delay ≡ 10 * minute)
  pub outlives_review : review_timeout + lock_ttl_cleanup_margin ≤ w.lock_ttl
  pub retries_lock : 0 < w.lock_retry_delay

-- For any options and any number of workers New gives at least one worker and one attempt, positive
-- delays, a largest delay that is not below the base delay or is ten minutes, and a lock that
-- outlives the review timeout by the cleanup margin.
new-IsConfigured : (workers : ℤ) (o : Options) → IsConfigured (new workers o)
unfolding new
new-IsConfigured workers o = record {
  some_worker = ground arith;
  some_attempt = ground arith;
  base_positive = ground arith;
  max_positive = ground arith;
  base_or_ten_minutes = ground arith;
  outlives_review = ground arith;
  retries_lock = ground arith;
}
