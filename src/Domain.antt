-- ===== src/Domain.antt =====
-- internal/domain: tenants, endpoints, events, outbox records and delivery attempts.
-- A time is a count of nanoseconds from Go's zero time, which `IsZero` recognises as 0.
use web_hook_project.Prelude.{
  ℕ, Bool, ◌||◌, not, List, [], Option, none, some, Text, codes, ◌==◌, text_eq, nat_eq,
  if◌then◌else◌,
}
use web_hook_project.Prelude.Errors.{Error, message}
use web_hook_project.Prelude.Int.{ℤ}

abbrev pub Time : Type 0
Time = ℕ

-- time.Time.IsZero
abbrev pub is_zero : Time → Bool
is_zero t = t == 0

-- `if x.IsZero() { x = now }`
abbrev pub or_now : Time → Time → Time
or_now now t = if is_zero t then now else t

pub record Tenant : Type 0 where
  pub id : Text
  pub name : Text
  pub created_at : Time

pub record Endpoint : Type 0 where
  pub id : Text
  pub tenant_id : Text
  pub url : Text
  pub secret : Text
  pub rate_limit : ℤ
  pub is_active : Bool
  pub created_at : Time
  pub updated_at : Time

pub data EventStatus : Type 0 where
  pending delivered failed dlq : EventStatus

pub record Event : Type 0 where
  pub id : Text
  pub tenant_id : Text
  pub event_type : Text
  pub idempotency_key : Text
  pub payload : List ℕ
  pub status : EventStatus
  pub created_at : Time

pub data OutboxStatus : Type 0 where
  pending published failed : OutboxStatus

-- `id` is the bit pattern of an int64.
pub record OutboxEvent : Type 0 where
  pub id : ℕ
  pub event_id : Text
  pub status : OutboxStatus
  pub retry_count : ℕ
  pub created_at : Time
  pub processed_at : Option Time

pub data DeliveryStatus : Type 0 where
  success retrying failed : DeliveryStatus

pub record DeliveryAttempt : Type 0 where
  pub id : Text
  pub event_id : Text
  pub endpoint_id : Text
  pub attempt_number : ℤ
  pub response_status : ℕ
  pub response_body : Text
  pub duration_ms : ℕ
  pub status : DeliveryStatus
  pub error_message : Text
  pub executed_at : Time

abbrev pub is_empty : Text → Bool
is_empty t = t == []

-- Tenant.Validate; `none` is a nil error
unfoldable pub validate_tenant : Tenant → Option Error
validate_tenant t =
    if is_empty t.id
    then some (message "id is required")
    else if is_empty t.name
    then some (message "name is required")
    else none

-- url.ParseRequestURI is not repeated here: `scheme_of` is the scheme of the URL it accepts.
module _ (scheme_of : Text → Option Text) where
  abbrev is_http : Text → Bool
  is_http url = elim (scheme_of url) [
    | none ↦ Bool.false
    | some s ↦ s == codes "http" || s == codes "https"
  ]

  -- Endpoint.Validate
  unfoldable pub validate_endpoint : Endpoint → Option Error
  validate_endpoint e =
      if is_empty e.tenant_id
      then some (message "tenant_id is required")
      else if is_empty e.url
      then some (message "url is required")
      else if not (is_http e.url)
      then some (message "invalid url: must have http or https scheme")
      else if is_empty e.secret
      then some (message "secret is required")
      else none

-- Event.Validate
unfoldable pub validate_event : Event → Option Error
validate_event e =
    if is_empty e.tenant_id
    then some (message "tenant_id is required")
    else if is_empty e.event_type
    then some (message "event_type is required")
    else if is_empty e.payload
    then some (message "payload cannot be empty")
    else none

-- `s == EventStatusDLQ` and the like
abbrev pub is_dlq : EventStatus → Bool
is_dlq dlq = Bool.true
is_dlq _ = Bool.false

abbrev pub is_delivered : EventStatus → Bool
is_delivered delivered = Bool.true
is_delivered _ = Bool.false

abbrev pub is_pending : OutboxStatus → Bool
is_pending pending = Bool.true
is_pending _ = Bool.false
