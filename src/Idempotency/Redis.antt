-- ===== src/Idempotency/Redis.antt =====
-- internal/idempotency/guard.go: RedisGuard. The server is a parameter: the commands that the scripts
-- and the client send to it, at the time of the server's clock, which is taken to be the client's too.
use web_hook_project.Prelude.{
  ℕ, ◌*◌, ◌/◌, ◌^◌, Bool, true, false, ◌||◌, List, ◌++◌, Option, none, some, Text, codes, ◌==◌,
  text_eq, nat_eq, if◌then◌else◌,
}
use web_hook_project.Prelude.Errors.{
  Error, invalid_parameters, message, wrap, redis_nil, is_redis_nil, Result, ok, err, Exec, fail,
  pure, ◌>>◌,
}
use web_hook_project.Prelude.Int.{ℤ, pos_part}
use web_hook_project.Domain.{Time, is_empty}
use web_hook_project.Idempotency.{CachedResponse, Acquired, memory_key}

-- GET, SET with NX and PX, SET with the client's expiration, and DEL.
pub record RedisServer : Type 1 where
  pub Store : Type 0
  pub fetch : Time → Text → Store → Option Text
  pub set_nx : Time → Text → Text → ℕ → Store → Bool × Store
  pub set : Time → Text → Text → ℤ → Store → Store
  pub remove : Time → Text → Store → ℕ × Store

-- A script's reply as the client sees it.
pub data Reply : Type 0 where
  bulk : Text → Reply
  integer : ℕ → Reply

-- What becomes of a command: it is run and answered, it does not get to the server, or it is run and
-- the answer is lost.
pub data Trip : Type 0 where
  answered : Trip
  unsent unheard : Error → Trip

abbrev pub in_flight_marker : Text
in_flight_marker = codes "IN_FLIGHT"

-- fmt.Sprintf("idemp:%s:%s", tenantID, key)
abbrev pub redis_key : Text → Text → Text
redis_key tenant key = codes "idemp:" ++ memory_key tenant key

-- ttlMs, where a time of no whole milliseconds stands for 24 hours
unfoldable pub lock_ms : ℤ → ℕ
lock_ms ttl = let ms = pos_part ttl / 10 ^ 6 in if ms == 0 then 24 * 60 * 60 * 1000 else ms

abbrev pub require : {S : Type 0} → Text → Text → Exec S (Unit {0})
require tenant key = if is_empty tenant || is_empty key then fail invalid_parameters else pure tt

module _ (server : RedisServer) (marshal : CachedResponse → Result Text)
    (unmarshal : Text → Result CachedResponse) where
  -- A reply of nil is the error redis.Nil.
  abbrev pub replied_with : {A : Type 0} → Option A → Result A
  replied_with none = err redis_nil
  replied_with (some a) = ok a

  abbrev pub send :
      {A : Type 0} → Trip → (server.Store → Option A × server.Store) → Exec server.Store A
  send answered run s = let (reply, s') = run s in (replied_with reply, s')
  send (unsent e) run s = (err e, s)
  send (unheard e) run s = (err e, (run s).1)

  -- acquireLockLua
  unfoldable pub acquire_script : Time → Text → ℕ → server.Store → Option Reply × server.Store
  acquire_script now key ms s = elim (server.fetch now key s) [
    | some val ↦ (some (bulk val), s)
    | none ↦
        let (won, s') = server.set_nx now key in_flight_marker ms s in
        if won
        then (some (bulk (codes "ACQUIRED")), s')
        else (elim (server.fetch now key s') [ none ↦ none | some val ↦ some (bulk val) ], s')
  ]

  -- releaseLockLua
  unfoldable pub release_script : Time → Text → server.Store → Option Reply × server.Store
  release_script now key s = elim (server.fetch now key s) [
    | none ↦ (some (integer 0), s)
    | some val ↦
        if val == in_flight_marker
        then (let (n, s') = server.remove now key s in (some (integer n), s'))
        else (some (integer 0), s)
  ]

  -- What AcquireLock makes of the script's result.
  unfoldable pub read_reply : Result Reply → Result Acquired
  read_reply (err e) = err (wrap "redis acquire lock error" e)
  read_reply (ok (integer n)) = err (message "unexpected redis result type: int64")
  read_reply (ok (bulk val)) =
      if val == codes "ACQUIRED"
      then ok (record { acquired = true; cached = none })
      else if val == in_flight_marker
      then ok (record { acquired = false; cached = none })
      else (elim (unmarshal val) [
        | err e ↦ err (wrap "failed to unmarshal cached response" e)
        | ok r ↦ ok (record { acquired = false; cached = some r })
      ])

  unfoldable pub acquire_lock : Trip → Time → Text → Text → ℤ → Exec server.Store Acquired
  acquire_lock trip now tenant key ttl s =
      (do
        require tenant key
        (λ s.
            let (reply, s') =
              send trip (acquire_script now (redis_key tenant key) (lock_ms ttl)) s in
            (read_reply reply, s')))
        s

  abbrev pub set_run : Time → Text → Text → ℤ → server.Store → Option (Unit {0}) × server.Store
  set_run now key val ttl s = (some tt, server.set now key val ttl s)

  unfoldable pub set_response :
      Trip → Time → Text → Text → ℕ → List ℕ → ℤ → Exec server.Store (Unit {0})
  set_response trip now tenant key status body ttl s =
      (do
        require tenant key
        (λ s. elim (marshal (record { status_code = status; body = body; completed_at = now })) [
          | err e ↦ (err (wrap "failed to marshal cached response" e), s)
          | ok val ↦
              let (done, s') = send trip (set_run now (redis_key tenant key) val ttl) s in
              (elim done [ err e ↦ err (wrap "redis set response error" e) | ok _ ↦ ok tt ], s')
        ]))
        s

  abbrev pub released : Result Reply → Result (Unit {0})
  released (ok r) = ok tt
  released (err e) = if is_redis_nil e then ok tt else err (wrap "redis release lock error" e)

  unfoldable pub release_lock : Trip → Time → Text → Text → Exec server.Store (Unit {0})
  release_lock trip now tenant key s =
      (do
        require tenant key
        (λ s.
            let (reply, s') = send trip (release_script now (redis_key tenant key)) s in
            (released reply, s')))
        s
