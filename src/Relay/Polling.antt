-- ===== src/Relay/Polling.antt =====
-- Start, the relay's polling loop: its waits, and the end of a drain.
use web_hook_project.Prelude.{
  ℕ, zero, suc, ◌+◌, ◌-◌, ◌*◌, ◌≤◌, ◌<◌, min, false, List, [], ◌∷◌, none, ◌≡◌, refl, sym, subst, ap,
  ◌∙◌, arith, values, keep, drop, take, if◌then◌else◌, length, All, length-take, length-drop, Text,
  ltb,
}
use web_hook_project.Prelude.Int.{ℤ, pos, negsuc}
use web_hook_project.Domain.{is_empty}
use web_hook_project.Storage.{is_pending_row}
use web_hook_project.Relay.{
  System, process_next_batch, batch_or_hundred, polling, draining, Polls, Tick, start_step,
  start_run, wait_time, milliseconds,
}
use native.Mathlib.Nat.{suc-mul}
use web_hook_project.Relay.Safety.{IsSafe}
use web_hook_project.Relay.Batch.{process_next_batch-IsSafe}
use web_hook_project.Relay.Progress.{IsLive, process_next_batch_lem}

-- After one or more failed batches in a row, Start waits for 100 ms to 3 s, and not less than after
-- one failure fewer.
pub wait_time-bounds :
    (poll : ℤ) (n : ℕ)
    → (milliseconds 100 ≤ wait_time poll (suc n))
      × (wait_time poll (suc n) ≤ milliseconds 3000)
      × (wait_time poll (suc n) ≤ wait_time poll (suc (suc n)))
unfolding wait_time
wait_time-bounds poll zero = omega arith
wait_time-bounds poll (suc zero) = omega arith
wait_time-bounds poll (suc (suc zero)) = omega arith
wait_time-bounds poll (suc (suc (suc zero))) = omega arith
wait_time-bounds poll (suc (suc (suc (suc zero)))) = omega arith
wait_time-bounds poll (suc (suc (suc (suc (suc n))))) =
    let six : min (suc (suc (suc (suc (suc (suc n)))))) 6 ≡ 6 = omega arith in
    let seven : min (suc (suc (suc (suc (suc (suc (suc n))))))) 6 ≡ 6 = omega arith in
    rw (six, seven) (omega arith)

pub record IsLiveTick (t : Tick) : Type 0 where
  pub moment : IsLive t.moment
  pub goes_on : t.after_batch ≡ none

batch_or_hundred_again :
    (size : ℤ) → batch_or_hundred (pos (batch_or_hundred size)) ≡ batch_or_hundred size
unfolding batch_or_hundred
batch_or_hundred_again (pos zero) = refl
batch_or_hundred_again (pos (suc n)) = refl
batch_or_hundred_again (negsuc n) = refl

pub batch_or_hundred_pos : (size : ℤ) → 0 < batch_or_hundred size
unfolding batch_or_hundred
batch_or_hundred_pos (pos zero) = omega arith
batch_or_hundred_pos (pos (suc n)) = omega arith
batch_or_hundred_pos (negsuc n) = omega arith

module _ (stream : Text) (size : ℤ) where
  step_counted :
      (t : Tick) (p : Polls) (c : ℕ) (s : System)
      → t.after_batch ≡ none
      → p.phase ≡ draining
      → process_next_batch stream t.moment (pos (batch_or_hundred size)) p.system ≡ ((c, none), s)
      → start_step stream size t p ≡ record {
        phase = if ltb c (batch_or_hundred size) then polling else draining;
        consecutive_errors = 0;
        system = s;
      }
  unfolding start_step
  step_counted t p c s on at e = ground arith

  abbrev waiting : Polls → ℕ
  waiting p = length (keep is_pending_row (values p.system.repo.outbox_events))

  -- One batch of a drain.
  abbrev Drains : Polls → Polls → Type 0
  Drains p p' =
      let n = batch_or_hundred size in
      IsSafe stream p'.system
      × (p'.consecutive_errors ≡ 0)
      × (waiting p' ≡ waiting p - n)
      × (p'.phase ≡ (if ltb (waiting p) n then polling else draining))

  drain_step :
      (t : Tick) (p : Polls)
      → is_empty stream ≡ false
      → IsLiveTick t
      → p.phase ≡ draining
      → IsSafe stream p.system
      → Drains p (start_step stream size t p)
  drain_step t p full live at h =
      let n = batch_or_hundred size in
      let pending = keep is_pending_row (values p.system.repo.outbox_events) in
      let batch = process_next_batch stream t.moment (pos n) p.system in
      let again = batch_or_hundred_again size in
      let done = process_next_batch_lem stream t.moment (pos n) p.system full live.moment h.valid in
      let counted : batch ≡ ((length (take n pending), none), batch.1) =
        ap (λ c. (c, batch.1)) (done.0 ∙ ap (λ k. (length (take k pending), none)) again) in
      subst (Drains p)
        (sym (step_counted t p (length (take n pending)) batch.1 live.goes_on at counted))
        (
          process_next_batch-IsSafe stream t.moment (pos n) p.system h,
          refl,
          ap length done.1 ∙ ap (λ k. length (drop k pending)) again ∙ length-drop n pending,
          ground (arith, length-take n pending),
        )

  drains :
      (m r : ℕ) (ts : List Tick) (p : Polls)
      → is_empty stream ≡ false
      → All IsLiveTick ts
      → p.phase ≡ draining
      → IsSafe stream p.system
      → waiting p ≡ m * batch_or_hundred size + r
      → r < batch_or_hundred size
      → length ts ≡ suc m
      → let p' = start_run stream size ts p in
        IsSafe stream p'.system
        × (p'.phase ≡ polling)
        × (p'.consecutive_errors ≡ 0)
        × (waiting p' ≡ 0)
  unfolding start_run
  drains m r [] p full live at h count lt len = absurd (omega arith)
  drains zero r (t ∷ []) p full live at h count lt len =
      let (safe, errors, left, phase) = drain_step t p full live.0 at h in
      let few : waiting p < batch_or_hundred size = ground arith in
      (safe, ground (arith, phase), errors, omega (arith, left, few))
  drains zero r (t ∷ u ∷ ts) p full live at h count lt len = absurd (omega arith)
  drains (suc m) r (t ∷ ts) p full live at h count lt len =
      let n = batch_or_hundred size in
      let (safe, errors, left, phase) = drain_step t p full live.0 at h in
      let more : suc m * n ≡ m * n + n = suc-mul m n in
      let many : n ≤ waiting p = omega arith in
      drains m r ts (start_step stream size t p) full live.1 (ground (arith, phase, many)) safe
        (omega (arith, left, more)) lt (omega arith)

-- A drain ends. With contexts that have not ended and a stream with a name, and from a valid repository in
-- which each published row's event is in a message of the stream, with m full batches of pending rows and
-- fewer than one more, Start is back at its wait after m + 1 batches: no row is
-- pending, the errors in a row are 0, the repository is valid, and each published row's event is in a message of the stream.
pub start_drains :
    (stream : Text) (size : ℤ) (m r : ℕ) (ts : List Tick) (s : System) (errors : ℕ)
    → is_empty stream ≡ false
    → All IsLiveTick ts
    → IsSafe stream s
    → length (keep is_pending_row (values s.repo.outbox_events)) ≡ m * batch_or_hundred size + r
    → r < batch_or_hundred size
    → length ts ≡ suc m
    → let p' =
        start_run stream size ts
          (record { phase = draining; consecutive_errors = errors; system = s }) in
      IsSafe stream p'.system
      × (p'.phase ≡ polling)
      × (p'.consecutive_errors ≡ 0)
      × (length (keep is_pending_row (values p'.system.repo.outbox_events)) ≡ 0)
start_drains stream size m r ts s errors full live h count lt len =
    drains stream size m r ts (record { phase = draining; consecutive_errors = errors; system = s })
      full live refl h count lt len
