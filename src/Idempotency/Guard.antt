-- ===== src/Idempotency/Guard.antt =====
-- internal/idempotency/guard.go: the interface Guard, as operations on a state and the laws that its
-- clients rely on.
use web_hook_project.Prelude.{
  ℕ, ◌+◌, ◌≤◌, ◌<◌, Bool, true, false, ◌||◌, List, none, some, Text, text_eq, ◌≡◌, ◌≢◌,
}
use web_hook_project.Prelude.Errors.{invalid_parameters, Result, ok, err}
use web_hook_project.Prelude.Int.{ℤ}
use web_hook_project.Domain.{Time, is_empty}
use web_hook_project.Idempotency.{CachedResponse, Acquired, memory_key}

-- What a key stands for at some time.
pub data Slot : Type 0 where
  vacant busy : Slot
  replied : CachedResponse → Slot

-- The answer of AcquireLock to it.
abbrev pub told : Slot → Acquired
told vacant = record { acquired = true; cached = none }
told busy = record { acquired = false; cached = none }
told (replied r) = record { acquired = false; cached = some r }

abbrev pub lacks_parameters : Text → Text → Bool
lacks_parameters tenant key = is_empty tenant || is_empty key

-- Calls that get through: the context is live and the server, if there is one, is heard. The lives are
-- the nanoseconds for which a lock and a response are sure to stay.
pub record Guard : Type 1 where
  pub State : Type 0
  pub IsValid : State → Type 0
  pub view : Time → Text → Text → State → Slot
  pub acquire : Time → Text → Text → ℤ → State → Result Acquired × State
  pub respond : Time → Text → Text → ℕ → List ℕ → ℤ → State → Result (Unit {0}) × State
  pub release : Time → Text → Text → State → Result (Unit {0}) × State
  pub lock_life : ℤ → ℕ
  pub response_life : ℤ → ℕ

module _ (g : Guard) where
  -- One key of a guard: what each call answers and does to the key's slot.
  pub record Serves (tenant key : Text) : Type 0 where
    pub acquire_told :
        (now : Time) (ttl : ℤ) (s : g.State)
        → g.IsValid s
        → (g.acquire now tenant key ttl s).0 ≡ ok (told (g.view now tenant key s))
    pub acquire_taken :
        (now later : Time) (ttl : ℤ) (s : g.State)
        → g.IsValid s
        → g.view now tenant key s ≡ vacant
        → now ≤ later
        → later < now + g.lock_life ttl
        → g.view later tenant key (g.acquire now tenant key ttl s).1 ≡ busy
    pub acquire_kept :
        (now : Time) (ttl : ℤ) (s : g.State)
        → g.IsValid s
        → g.view now tenant key s ≢ vacant
        → (g.acquire now tenant key ttl s).1 ≡ s
    pub respond_stored :
        (now later : Time) (status : ℕ) (body : List ℕ) (ttl : ℤ) (s : g.State)
        → g.IsValid s
        → now ≤ later
        → later < now + g.response_life ttl
        → g.view later tenant key (g.respond now tenant key status body ttl s).1
          ≡ replied (record { status_code = status; body = body; completed_at = now })
    pub respond_ok :
        (now : Time) (status : ℕ) (body : List ℕ) (ttl : ℤ) (s : g.State)
        → (g.respond now tenant key status body ttl s).0 ≡ ok tt
    pub release_freed :
        (now later : Time) (s : g.State)
        → g.IsValid s
        → g.view now tenant key s ≡ busy
        → now ≤ later
        → g.view later tenant key (g.release now tenant key s).1 ≡ vacant
    pub release_kept :
        (now : Time) (r : CachedResponse) (s : g.State)
        → g.IsValid s
        → g.view now tenant key s ≡ replied r
        → (g.release now tenant key s).1 ≡ s
    pub release_ok : (now : Time) (s : g.State) → (g.release now tenant key s).0 ≡ ok tt

  -- A call with an empty tenant or key is refused and changes nothing.
  pub record Refuses (tenant key : Text) : Type 0 where
    pub acquire_refused :
        (now : Time) (ttl : ℤ) (s : g.State)
        → g.acquire now tenant key ttl s ≡ (err invalid_parameters, s)
    pub respond_refused :
        (now : Time) (status : ℕ) (body : List ℕ) (ttl : ℤ) (s : g.State)
        → g.respond now tenant key status body ttl s ≡ (err invalid_parameters, s)
    pub release_refused :
        (now : Time) (s : g.State) → g.release now tenant key s ≡ (err invalid_parameters, s)

  -- A call for one key changes no slot of a key that is written in another way.
  pub record Frames (tenant key : Text) : Type 0 where
    pub acquire_valid :
        (now : Time) (ttl : ℤ) (s : g.State)
        → g.IsValid s
        → g.IsValid (g.acquire now tenant key ttl s).1
    pub respond_valid :
        (now : Time) (status : ℕ) (body : List ℕ) (ttl : ℤ) (s : g.State)
        → g.IsValid s
        → g.IsValid (g.respond now tenant key status body ttl s).1
    pub release_valid :
        (now : Time) (s : g.State) → g.IsValid s → g.IsValid (g.release now tenant key s).1
    pub acquire_apart :
        (now later : Time) (ttl : ℤ) (tenant' key' : Text) (s : g.State)
        → g.IsValid s
        → memory_key tenant' key' ≢ memory_key tenant key
        → g.view later tenant' key' (g.acquire now tenant key ttl s).1 ≡ g.view later tenant' key' s
    pub respond_apart :
        (now later : Time) (status : ℕ) (body : List ℕ) (ttl : ℤ) (tenant' key' : Text)
        (s : g.State)
        → memory_key tenant' key' ≢ memory_key tenant key
        → g.view later tenant' key' (g.respond now tenant key status body ttl s).1
          ≡ g.view later tenant' key' s
    pub release_apart :
        (now later : Time) (tenant' key' : Text) (s : g.State)
        → memory_key tenant' key' ≢ memory_key tenant key
        → g.view later tenant' key' (g.release now tenant key s).1 ≡ g.view later tenant' key' s

  pub record IsGuard : Type 0 where
    pub serves : (tenant key : Text) → lacks_parameters tenant key ≡ false → Serves tenant key
    pub refuses : (tenant key : Text) → lacks_parameters tenant key ≡ true → Refuses tenant key
    pub frames : (tenant key : Text) → Frames tenant key
    pub view_shared :
        (tenant key tenant' key' : Text) (now : Time) (s : g.State)
        → memory_key tenant key ≡ memory_key tenant' key'
        → g.view now tenant key s ≡ g.view now tenant' key' s
