-- ===== src/Retry.antt =====
-- internal/retry/scheduler.go: the retry policy, the backoff and the failures that are retried.
pub mod Bounds
use web_hook_project.Prelude.{
  ℕ, suc, ◌+◌, ◌-◌, ◌*◌, ◌^◌, ◌≤◌, ◌<◌, Bool, true, false, not, ◌&&◌, ◌||◌, Option, none, some, ◌≡◌,
  ◌==◌, nat_eq, if◌then◌else◌, leb, ltb,
}
use web_hook_project.Prelude.Int.{ℤ, pos, negsuc, pos_part, is_positive}

-- The operations of float64 that the backoff uses. A conversion to int64 of what lies between 0 and
-- a whole number below 2^53 is at most that number.
pub record Float64 : Type 1 where
  pub F : Type 0
  pub of_int : ℤ → F
  pub two : F
  pub times : F → F → F
  pub pow : F → F → F
  pub gt : F → F → Bool
  pub at_most_one : F → Bool
  pub to_int : F → ℤ
  pub to_int-of_int : (n : ℕ) → n < 2 ^ 53 → to_int (of_int (pos n)) ≡ pos n
  pub to_int_le :
      (i n : ℕ) (k e : F)
      → n < 2 ^ 53
      → gt (times (of_int (pos i)) (pow k e)) (of_int (pos n)) ≡ false
      → pos_part (to_int (times (of_int (pos i)) (pow k e))) ≤ n

pub record BackoffPolicy (f : Float64) : Type 0 where
  pub initial_interval : ℤ
  pub max_interval : ℤ
  pub multiplier : f.F
  pub max_retries : ℤ
  pub rand_func : Option (ℤ → ℤ)

abbrev pub seconds : ℕ → ℕ
seconds n = n * 1_000_000_000

abbrev pub default_backoff_policy : (f : Float64) → BackoffPolicy f
default_backoff_policy f = record {
  initial_interval = pos (seconds 5);
  max_interval = pos (seconds 3600);
  multiplier = f.two;
  max_retries = pos 5;
  rand_func = none;
}

-- `if x <= 0 { x = d }`
unfoldable pub or_default : ℤ → ℕ → ℕ
or_default x d = if is_positive x then pos_part x else d

-- capFloat and capDuration
unfoldable pub cap_duration : (f : Float64) → ℤ → BackoffPolicy f → ℤ
cap_duration f attempt policy =
    let longest = f.of_int (pos (or_default policy.max_interval (seconds 3600))) in
    let multiplier = if f.at_most_one policy.multiplier then f.two else policy.multiplier in
    let cap =
      f.times (f.of_int (pos (or_default policy.initial_interval (seconds 5))))
        (f.pow multiplier (f.of_int (pos (or_default attempt 1 - 1)))) in
    f.to_int (if f.gt cap longest then longest else cap)

-- `draw` is rand.Int64N.
unfoldable pub calculate_backoff : (f : Float64) → (ℕ → ℕ) → ℤ → BackoffPolicy f → ℤ
calculate_backoff f draw attempt policy =
    let cap = cap_duration f attempt policy in
    if is_positive cap
    then (elim policy.rand_func [ some rand ↦ rand cap | none ↦ pos (draw (pos_part cap + 1)) ])
    else pos 0

-- IsRetryable; the test is whether there was a network error
unfoldable pub is_retryable : ℕ → Bool → Bool
is_retryable status failed =
    if failed
    then true
    else if status == 408 || status == 429
    then true
    else if leb 500 status && ltb status 600
    then true
    else false
