-- ===== src/Dispatcher/Delivery.antt =====
-- What one delivery writes, and what the receiver is sent.
use web_hook_project.Prelude.{
  ℕ, ◌<◌, ◌≤◌, ◌⊎◌, ◌↔◌, inl, inr, true, [], ◌∷◌, ◌++◌, Option, none, some, ◌≡◌, refl, sym, subst,
  arith, Map, get, put, Text, codes, text_eq, nat_eq, Option-cases,
}
use web_hook_project.Prelude.Errors.{Error, ok, err, Context}
use web_hook_project.Prelude.Int.{ℤ, ltb_ℤ}
use web_hook_project.Domain.{
  Time, or_now, Endpoint, Event, EventStatus, DeliveryAttempt, DeliveryStatus,
}
use web_hook_project.Storage.{MemoryRepository, record_delivery_attempt, update_event_status}
use web_hook_project.Storage.Invariant.{IsValid}
use web_hook_project.Storage.Updates.{update_event_status-IsValid}
use web_hook_project.Dispatcher.{
  Exchange, Reply, status_of, has_failed, classify, settle, at_least_one, attempt_of, request_of,
  conclude, dispatch,
}
use web_hook_project.Retry.{is_retryable}

-- The events behind an attempt: delivered after a success, in the dead letter queue after a failure.
unfoldable pub settled : DeliveryStatus → Text → Event → Map Text Event → Map Text Event
settled DeliveryStatus.success id e events =
    put id (record e { status = EventStatus.delivered }) events
settled DeliveryStatus.failed id e events = put id (record e { status = EventStatus.dlq }) events
settled DeliveryStatus.retrying id e events = events

settle_lem :
    (id : Text) (status : DeliveryStatus) (e : Event) (m : MemoryRepository)
    → get id m.events ≡ some e
    → settle none id status m ≡ record m { events = settled status id e m.events }
unfolding settle settled update_event_status
settle_lem id DeliveryStatus.success e m stored = ground arith
settle_lem id DeliveryStatus.failed e m stored = ground arith
settle_lem id DeliveryStatus.retrying e m stored = refl

record_lem :
    (now : Time) (a : DeliveryAttempt) (m : MemoryRepository)
    → get a.id m.attempts ≡ none
    → record_delivery_attempt none now a m ≡ (
      ok tt,
      record m {
        attempts = put a.id (record a { executed_at = or_now now a.executed_at }) m.attempts;
      },
    )
unfolding record_delivery_attempt
record_lem now a m fresh = ground arith

conclude_lem :
    (hmac_hex : Text → Text → Text) (status_text : ℕ → Text) (max_retries : ℤ) (x : Exchange)
    (a : DeliveryAttempt) (e : Event) (m : MemoryRepository)
    → x.at_record ≡ none
    → x.at_update ≡ none
    → get a.id m.attempts ≡ none
    → get a.event_id m.events ≡ some e
    → conclude hmac_hex status_text max_retries x a m ≡ (
      record { attempt = some a; error = none; notified = a ∷ [] },
      record m {
        attempts =
            put a.id (record a { executed_at = or_now x.record_time a.executed_at }) m.attempts;
        events = settled a.status a.event_id e m.events;
      },
    )
unfolding conclude
conclude_lem hmac_hex status_text max_retries x a e m r u fresh stored =
    let m' : MemoryRepository = record m {
      attempts =
          put a.id (record a { executed_at = or_now x.record_time a.executed_at }) m.attempts;
    } in
    ground (arith, record_lem x.record_time a m fresh, settle_lem a.event_id a.status e m' stored)

-- A delivery whose request could be made and whose contexts have not ended, under an id that no
-- attempt has and for a stored event, returns its attempt without an error, gives it to the
-- callback, and stores it; it marks the event as delivered after a success and puts it in the dead
-- letter queue after a failure; a retry leaves the event. Nothing else in the repository changes.
pub dispatch_lem :
    (hmac_hex : Text → Text → Text) (status_text : ℕ → Text) (max_retries : ℤ) (x : Exchange)
    (ep : Endpoint) (e old : Event) (n : ℤ) (m : MemoryRepository)
    → x.create_err ≡ none
    → x.at_record ≡ none
    → x.at_update ≡ none
    → get (codes "att_" ++ x.uuid) m.attempts ≡ none
    → get e.id m.events ≡ some old
    → let reply = x.receiver (request_of hmac_hex status_text max_retries x.unix_now ep e) in
      let a = attempt_of hmac_hex status_text max_retries x ep e (at_least_one n) reply in
      dispatch hmac_hex status_text max_retries x (some ep) (some e) n m ≡ (
        record { attempt = some a; error = none; notified = a ∷ [] },
        record m {
          attempts =
              put a.id (record a { executed_at = or_now x.record_time a.executed_at }) m.attempts;
          events = settled a.status e.id old m.events;
        },
      )
unfolding dispatch
dispatch_lem hmac_hex status_text max_retries x ep e old n m made r u fresh stored =
    let reply = x.receiver (request_of hmac_hex status_text max_retries x.unix_now ep e) in
    let a = attempt_of hmac_hex status_text max_retries x ep e (at_least_one n) reply in
    ground (arith, conclude_lem hmac_hex status_text max_retries x a old m r u fresh stored)

-- What is worth another attempt: a network error, 408, 429 or 5xx.
abbrev pub IsWorthRetry : Reply → Type 0
IsWorthRetry r =
    (has_failed r ≡ true)
    ⊎ ((status_of r ≡ 408) ⊎ ((status_of r ≡ 429) ⊎ ((500 ≤ status_of r) × (status_of r < 600))))

-- An attempt is to be retried just if its number is below the policy's limit and the reply was a
-- network error, 408, 429 or 5xx.
pub classify_retrying :
    (max_retries n : ℤ) (r : Reply)
    → (classify max_retries n r ≡ DeliveryStatus.retrying)
      ↔ ((ltb_ℤ n max_retries ≡ true) × IsWorthRetry r)
unfolding classify is_retryable
classify_retrying max_retries n r = (λ h. ground arith, λ h. ground arith)

with_attempts-IsValid :
    (m : MemoryRepository) (attempts : Map Text DeliveryAttempt)
    → IsValid m
    → IsValid (record m { attempts = attempts })
with_attempts-IsValid m attempts v = record {
  rising = v.rising;
  bounded = v.bounded;
  named = v.named;
  backed = v.backed;
  queued = v.queued;
  indexed = v.indexed;
}

settle-IsValid :
    (ctx : Context) (id : Text) (status : DeliveryStatus) (m : MemoryRepository)
    → IsValid m
    → IsValid (settle ctx id status m)
unfolding settle
settle-IsValid ctx id DeliveryStatus.success m v =
    update_event_status-IsValid ctx id EventStatus.delivered m v
settle-IsValid ctx id DeliveryStatus.failed m v =
    update_event_status-IsValid ctx id EventStatus.dlq m v
settle-IsValid ctx id DeliveryStatus.retrying m v = v

record_cases :
    (ctx : Context) (now : Time) (a : DeliveryAttempt) (m : MemoryRepository)
    → ((e : Error) × (record_delivery_attempt ctx now a m ≡ (err e, m)))
      ⊎ ((attempts : Map Text DeliveryAttempt) × (record_delivery_attempt ctx now a m
            ≡ (ok tt, record m { attempts = attempts })))
unfolding record_delivery_attempt
record_cases (some e) now a m = inl (e, refl)
record_cases none now a m = elim (Option-cases (get a.id m.attempts)) [
  | inl fresh ↦
      inr (put a.id (record a { executed_at = or_now now a.executed_at }) m.attempts, rw fresh)
  | inr (x, used) ↦ inl (Error.duplicate_key, rw used)
]

module _ (hmac_hex : Text → Text → Text) (status_text : ℕ → Text) (max_retries : ℤ)
    (x : Exchange) where
  conclude-IsValid :
      (a : DeliveryAttempt) (m : MemoryRepository)
      → IsValid m
      → IsValid (conclude hmac_hex status_text max_retries x a m).1
  unfolding conclude
  conclude-IsValid a m v = elim (record_cases x.at_record x.record_time a m) [
    | inl (e, refused) ↦
        let same : (conclude hmac_hex status_text max_retries x a m).1 ≡ m = ground arith in
        subst IsValid (sym same) v
    | inr (attempts, recorded) ↦
        let m' : MemoryRepository = record m { attempts = attempts } in
        let after : (conclude hmac_hex status_text max_retries x a m).1
            ≡ settle x.at_update a.event_id a.status m' =
          ground arith in
        subst IsValid (sym after)
          (settle-IsValid x.at_update a.event_id a.status m' (with_attempts-IsValid m attempts v))
  ]

  -- A delivery keeps the invariant of the repository on every path.
  pub dispatch-IsValid :
      (ep : Option Endpoint) (e : Option Event) (n : ℤ) (m : MemoryRepository)
      → IsValid m
      → IsValid (dispatch hmac_hex status_text max_retries x ep e n m).1
  unfolding dispatch conclude
  dispatch-IsValid none e n m v = v
  dispatch-IsValid (some ep) none n m v = v
  dispatch-IsValid (some ep) (some e) n m v = elim (Option-cases x.create_err) [
    | inr (bad, failed) ↦ rw failed v
    | inl fine ↦
        let reply = x.receiver (request_of hmac_hex status_text max_retries x.unix_now ep e) in
        rw fine (
          conclude-IsValid
            (attempt_of hmac_hex status_text max_retries x ep e (at_least_one n) reply) m v)
  ]
