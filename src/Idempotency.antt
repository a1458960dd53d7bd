-- ===== src/Idempotency.antt =====
-- internal/idempotency/guard.go: locks and cached responses for idempotent requests, in memory.
-- Each method is one step under the mutex; `now` is the value of `time.Now()` in it.
pub mod Lock
pub mod Guard
pub mod Calls
pub mod Memory
pub mod Redis
pub mod RedisLaws
use web_hook_project.Prelude.{
  ℕ, ◌+◌, ◌-◌, Bool, true, false, ◌||◌, List, [], ◌∷◌, ◌++◌, Option, none, some, Text, ◌==◌,
  text_eq, if◌then◌else◌, ltb, Map, get, put, del,
}
use web_hook_project.Prelude.Errors.{
  Error, invalid_parameters, Result, ok, err, Context, Exec, fail, pure, check, ◌>>=◌, ◌>>◌,
}
use web_hook_project.Prelude.Int.{ℤ, pos, negsuc, pos_part, neg_part}
use web_hook_project.Domain.{Time, is_empty}

pub record CachedResponse : Type 0 where
  pub status_code : ℕ
  pub body : List ℕ
  pub completed_at : Time

-- memoryEntry
pub record Entry : Type 0 where
  pub in_flight : Bool
  pub cached : Option CachedResponse
  pub expires_at : Time

pub record MemoryGuard : Type 0 where
  pub entries : Map Text Entry

abbrev pub new_memory_guard : MemoryGuard
new_memory_guard = record { entries = [] }

-- tenantID + ":" + key
abbrev pub memory_key : Text → Text → Text
memory_key tenant key = tenant ++ (b':' ∷ key)

-- now.Add(ttl); no time before Go's zero time occurs
abbrev pub add_duration : Time → ℤ → Time
add_duration now d = now + pos_part d - neg_part d

-- (acquired, cached) of AcquireLock
pub record Acquired : Type 0 where
  pub acquired : Bool
  pub cached : Option CachedResponse

abbrev pub parameters : Text → Text → Exec MemoryGuard (Unit {0})
parameters tenant key = if is_empty tenant || is_empty key then fail invalid_parameters else pure tt

abbrev pub locked : Time → ℤ → Entry
locked now ttl = record { in_flight = true; cached = none; expires_at = add_duration now ttl }

-- What a live entry answers; `none` is to go on and take the lock.
unfoldable pub answer : Time → Option Entry → Option Acquired
answer now none = none
answer now (some entry) =
    if ltb now entry.expires_at
    then (elim entry.cached [
      | some response ↦ some (record { acquired = false; cached = some response })
      | none ↦ if entry.in_flight then some (record { acquired = false; cached = none }) else none
    ])
    else none

unfoldable pub acquire_lock : Context → Time → Text → Text → ℤ → Exec MemoryGuard Acquired
acquire_lock ctx now tenant key ttl m =
    (do
      check ctx
      parameters tenant key
      (λ m. elim (answer now (get (memory_key tenant key) m.entries)) [
        | some a ↦ (ok a, m)
        | none ↦ (
          ok (record { acquired = true; cached = none }),
          record { entries = put (memory_key tenant key) (locked now ttl) m.entries },
        )
      ]))
      m

abbrev pub completed : Time → ℕ → List ℕ → ℤ → Entry
completed now status body ttl = record {
  in_flight = false;
  cached = some (record { status_code = status; body = body; completed_at = now });
  expires_at = add_duration now ttl;
}

unfoldable pub set_response :
    Context → Time → Text → Text → ℕ → List ℕ → ℤ → Exec MemoryGuard (Unit {0})
set_response ctx now tenant key status body ttl m =
    (do
      check ctx
      parameters tenant key
      (λ m. (
        ok tt,
        record { entries = put (memory_key tenant key) (completed now status body ttl) m.entries },
      )))
      m

unfoldable pub release_lock : Context → Text → Text → Exec MemoryGuard (Unit {0})
release_lock ctx tenant key m =
    (do
      check ctx
      parameters tenant key
      (λ m. elim (get (memory_key tenant key) m.entries) [
        | none ↦ (ok tt, m)
        | some entry ↦
            if entry.in_flight
            then (ok tt, record { entries = del (memory_key tenant key) m.entries })
            else (ok tt, m)
      ]))
      m
