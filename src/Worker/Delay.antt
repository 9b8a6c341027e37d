-- ===== src/Worker/Delay.antt =====
-- internal/worker/worker.go: retryDelay. A time.Duration is an int64, here its bit pattern.
use github_pr_review_agent.Common.{
  ℕ, zero, suc, ◌+◌, ◌-◌, ◌*◌, ◌%◌, ◌^◌, ◌≤◌, ◌<◌, ◌≡◌, min, refl, Bool, leb, ltb, ◌==◌,
  if◌then◌else◌, arith, leb→le, Bool-cases, inl, inr,
}
use native.Mathlib.Nat.{pow-suc}
use github_pr_review_agent.Worker.Options.{Worker}

-- a <= b on int64.
leb_i64 : ℕ → ℕ → Bool
leb_i64 a b = leb ((a + 2 ^ 63) % 2 ^ 64) ((b + 2 ^ 63) % 2 ^ 64)

double : ℕ → ℕ
double d = d * 2 % 2 ^ 64

-- for i := 1; i < attempt; i++ { ... }, by the rounds that are left.
backoff : ℕ → ℕ → ℕ → ℕ
unfolding double leb_i64
backoff zero d most = d
backoff (suc rounds) d most =
    let rest = backoff rounds (double d) most in if leb_i64 most (double d) then most else rest

-- rand.Int63n(max) is what is left of a random number `dice` modulo max.
random_jitter : ℕ → ℕ → ℕ
random_jitter dice most = if most == 0 then 0 else dice % most

add_jitter : Worker → ℕ → ℕ → ℕ
unfolding random_jitter
add_jitter w dice delay =
    let room = w.retry_max_delay - delay in
    if w.retry_jitter == 0
    then delay
    else delay + random_jitter dice (if ltb w.retry_jitter room then w.retry_jitter else room)

unfoldable pub retry_delay : Worker → ℕ → ℕ → ℕ
unfolding backoff add_jitter leb_i64
retry_delay w dice attempt =
    let delay = backoff (attempt - 1) w.retry_base_delay w.retry_max_delay in
    add_jitter w dice (if leb_i64 delay w.retry_max_delay then delay else w.retry_max_delay)

-- Below 2 ^ 63 the int64 order is that of the numbers.
leb_i64-leb : (a b : ℕ) → a < 2 ^ 63 → b < 2 ^ 63 → leb_i64 a b ≡ leb a b
unfolding leb_i64
leb_i64-leb a b ha hb = ground arith

double_exact : (d : ℕ) → d < 2 ^ 62 → double d ≡ d * 2
unfolding double
double_exact d h = omega arith

pow_pos : (k : ℕ) → 0 < 2 ^ k
pow_pos zero = omega arith
pow_pos (suc k) = rw pow-suc (omega (arith, pow_pos k))

-- A round doubles the delay, and stops at the limit.
backoff-suc :
    (rounds d most : ℕ)
    → d < 2 ^ 62
    → most < 2 ^ 62
    → backoff (suc rounds) d most ≡ (if leb most (d * 2) then most else backoff rounds (d * 2) most)
unfolding backoff
backoff-suc rounds d most hd hm =
    rw (double_exact d hd, leb_i64-leb most (d * 2) (omega arith) (omega arith)) refl

pow_step : (d k : ℕ) → d * 2 ^ suc k ≡ d * 2 * 2 ^ k
pow_step d k = rw pow-suc (omega arith)

stop_min : (d p most : ℕ) → 0 < p → most ≤ d → most ≡ min (d * p) most
stop_min d p most hp h = grind arith

backoff-min :
    (rounds d most : ℕ)
    → d < 2 ^ 62
    → most < 2 ^ 62
    → (min (backoff rounds d most) most ≡ min (d * 2 ^ rounds) most)
      × (backoff rounds d most < 2 ^ 62)
backoff-min zero d most hd hm = (unfold backoff in omega arith, unfold backoff in hd)
backoff-min (suc rounds) d most hd hm =
    rw (backoff-suc rounds d most hd hm) (elim (Bool-cases (leb most (d * 2))) [
      | inl stop ↦
          rw (stop, pow_step d rounds)
            (
              omega (
                arith,
                stop_min (d * 2) (2 ^ rounds) most (pow_pos rounds) (leb→le most (d * 2) stop),
              ),
              hm,
            )
      | inr more ↦ rw (more, pow_step d rounds) (backoff-min rounds (d * 2) most (ground arith) hm)
    ])

-- The delay before jitter: twice as long for each attempt, up to the limit.
abbrev pub plain_delay : Worker → ℕ → ℕ
plain_delay w attempt = min (w.retry_base_delay * 2 ^ (attempt - 1)) w.retry_max_delay

add_jitter_bounds :
    (w : Worker) (dice d : ℕ)
    → d ≤ w.retry_max_delay
    → (d ≤ add_jitter w dice d)
      × (add_jitter w dice d ≤ w.retry_max_delay)
      × (add_jitter w dice d ≤ d + w.retry_jitter)
unfolding add_jitter
add_jitter_bounds w dice d h = grind arith

capped_min :
    (d most : ℕ) → d < 2 ^ 62 → most < 2 ^ 62 → (if leb_i64 d most then d else most) ≡ min d most
capped_min d most hd hm = rw (leb_i64-leb d most (omega arith) (omega arith)) (ground arith)

-- For delays below 2 ^ 62 nanoseconds (146 years) no int64 product wraps: the delay before attempt
-- n is the base delay doubled n - 1 times, or the largest delay if that is less, and what the
-- jitter adds is at most the configured jitter and never exceeds the largest delay.
pub retry_delay_bounds :
    (w : Worker) (dice attempt : ℕ)
    → w.retry_base_delay < 2 ^ 62
    → w.retry_max_delay < 2 ^ 62
    → (plain_delay w attempt ≤ retry_delay w dice attempt)
      × (retry_delay w dice attempt ≤ w.retry_max_delay)
      × (retry_delay w dice attempt ≤ plain_delay w attempt + w.retry_jitter)
unfolding retry_delay
retry_delay_bounds w dice attempt hb hm =
    let (exact, small) = backoff-min (attempt - 1) w.retry_base_delay w.retry_max_delay hb hm in
    rw
      (
        capped_min (backoff (attempt - 1) w.retry_base_delay w.retry_max_delay) w.retry_max_delay
            small hm,
        exact,
      )
      (add_jitter_bounds w dice (plain_delay w attempt) (omega arith))
