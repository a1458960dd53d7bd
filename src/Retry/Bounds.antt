-- ===== src/Retry/Bounds.antt =====
-- The bounds of the backoff.
use web_hook_project.Prelude.{
  ℕ, ◌+◌, ◌-◌, ◌^◌, ◌≤◌, ◌<◌, true, none, ◌≡◌, arith, if◌then◌else◌, inl, inr, Bool-cases,
}
use web_hook_project.Prelude.Int.{ℤ, pos, pos_part, is_positive, leb_ℤ}
use web_hook_project.Retry.{
  Float64, BackoffPolicy, or_default, seconds, cap_duration, calculate_backoff,
}

capped_le :
    (f : Float64) (i n : ℕ) (k e : f.F)
    → n < 2 ^ 53
    → let longest = f.of_int (pos n) in
      let cap = f.times (f.of_int (pos i)) (f.pow k e) in
      pos_part (f.to_int (if f.gt cap longest then longest else cap)) ≤ n
capped_le f i n k e small =
    elim (Bool-cases (f.gt (f.times (f.of_int (pos i)) (f.pow k e)) (f.of_int (pos n)))) [
      | inl over ↦ rw (over, f.to_int-of_int n small) (omega arith)
      | inr within ↦ rw within (f.to_int_le i n k e small within)
    ]

cap_le :
    (f : Float64) (attempt : ℤ) (policy : BackoffPolicy f)
    → or_default policy.max_interval (seconds 3600) < 2 ^ 53
    → pos_part (cap_duration f attempt policy) ≤ or_default policy.max_interval (seconds 3600)
unfolding cap_duration
cap_le f attempt policy small =
    capped_le f (or_default policy.initial_interval (seconds 5))
      (or_default policy.max_interval (seconds 3600))
      (if f.at_most_one policy.multiplier then f.two else policy.multiplier)
      (f.of_int (pos (or_default attempt 1 - 1))) small

-- A drawn backoff is from 0 to the longest interval of the policy (1 h if it gives none), for every
-- attempt, if that interval is below 2^53 ns, `draw n` is below n, and the policy has no function
-- of its own that draws.
pub calculate_backoff-bounds :
    (f : Float64) (draw : ℕ → ℕ) (attempt : ℤ) (policy : BackoffPolicy f)
    → ((n : ℕ) → 0 < n → draw n < n)
    → policy.rand_func ≡ none
    → or_default policy.max_interval (seconds 3600) < 2 ^ 53
    → (leb_ℤ (pos 0) (calculate_backoff f draw attempt policy) ≡ true)
      × (leb_ℤ
            (calculate_backoff f draw attempt policy)
            (pos (or_default policy.max_interval (seconds 3600)))
          ≡ true)
unfolding calculate_backoff
calculate_backoff-bounds f draw attempt policy draws plain small =
    let cap = cap_duration f attempt policy in
    let le = cap_le f attempt policy small in
    let d = draws (pos_part cap + 1) (omega arith) in
    elim (Bool-cases (is_positive cap)) [
      | inl some_time ↦ rw (some_time, plain) (ground (arith, le, d))
      | inr no_time ↦ rw no_time (ground arith)
    ]
