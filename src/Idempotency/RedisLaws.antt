-- ===== src/Idempotency/RedisLaws.antt =====
-- internal/idempotency/guard.go: RedisGuard as a Guard, from what Redis documents of its commands and
-- encoding/json of its encoding.
use web_hook_project.Prelude.{
  ℕ, ◌+◌, ◌*◌, ◌/◌, ◌^◌, ◌≤◌, ◌<◌, true, false, List, ◌++◌, Option, none, some, Text, codes, ◌==◌,
  text_eq, text_beq_iff, text_beq, ◌≡◌, ◌≢◌, ◌⊎◌, inl, inr, refl, sym, subst, ◌∙◌, ap, arith,
  if◌then◌else◌, Bool-cases, Option-cases,
}
use web_hook_project.Prelude.Errors.{Result, ok, err, Result-cases}
use web_hook_project.Prelude.Int.{ℤ, pos_part}
use web_hook_project.Domain.{Time}
use web_hook_project.Idempotency.{CachedResponse, memory_key}
use web_hook_project.Idempotency.Guard.{
  Slot, vacant, busy, replied, told, lacks_parameters, Guard, IsGuard, Serves, Refuses, Frames,
}
use web_hook_project.Idempotency.Redis.{
  RedisServer, bulk, answered, in_flight_marker, redis_key, lock_ms, acquire_script, release_script,
  read_reply, acquire_lock, set_response, release_lock,
}

-- A value that was set with an expiration of whole milliseconds stays for that time; later it may be
-- gone. A command for one key leaves the others.
pub record KeepsKeys (server : RedisServer) : Type 0 where
  pub set_nx_won :
      (now : Time) (k w : Text) (ms : ℕ) (s : server.Store)
      → server.fetch now k s ≡ none
      → (server.set_nx now k w ms s).0 ≡ true
  pub set_nx_stays :
      (now later : Time) (k w : Text) (ms : ℕ) (s : server.Store)
      → server.fetch now k s ≡ none
      → now ≤ later
      → later < now + ms * 10 ^ 6
      → server.fetch later k (server.set_nx now k w ms s).1 ≡ some w
  pub set_nx_only :
      (now later : Time) (k w v : Text) (ms : ℕ) (s : server.Store)
      → server.fetch now k s ≡ none
      → server.fetch later k (server.set_nx now k w ms s).1 ≡ some v
      → v ≡ w
  pub set_nx_apart :
      (now later : Time) (k j w : Text) (ms : ℕ) (s : server.Store)
      → j ≢ k
      → server.fetch later j (server.set_nx now k w ms s).1 ≡ server.fetch later j s
  pub set_stays :
      (now later : Time) (k w : Text) (ttl : ℤ) (s : server.Store)
      → now ≤ later
      → later < now + pos_part ttl / 10 ^ 6 * 10 ^ 6
      → server.fetch later k (server.set now k w ttl s) ≡ some w
  pub set_only :
      (now later : Time) (k w v : Text) (ttl : ℤ) (s : server.Store)
      → server.fetch later k (server.set now k w ttl s) ≡ some v
      → v ≡ w
  pub set_apart :
      (now later : Time) (k j w : Text) (ttl : ℤ) (s : server.Store)
      → j ≢ k
      → server.fetch later j (server.set now k w ttl s) ≡ server.fetch later j s
  pub remove_gone :
      (now later : Time) (k : Text) (s : server.Store)
      → server.fetch later k (server.remove now k s).1 ≡ none
  pub remove_apart :
      (now later : Time) (k j : Text) (s : server.Store)
      → j ≢ k
      → server.fetch later j (server.remove now k s).1 ≡ server.fetch later j s

-- Responses can be written, with a completion time before the year 10000, read back, and are no words
-- without quotes.
pub record Encodes (marshal : CachedResponse → Result Text)
    (unmarshal : Text → Result CachedResponse) : Type 0 where
  pub writes : (r : CachedResponse) → (v : Text) × (marshal r ≡ ok v)
  pub reads_back : (r : CachedResponse) (v : Text) → marshal r ≡ ok v → unmarshal v ≡ ok r
  pub no_lock : (r : CachedResponse) → marshal r ≢ ok in_flight_marker
  pub no_grant : (r : CachedResponse) → marshal r ≢ ok (codes "ACQUIRED")

module _ (server : RedisServer) (marshal : CachedResponse → Result Text)
    (unmarshal : Text → Result CachedResponse) where
  unfoldable pub slot_of_value : Option Text → Slot
  slot_of_value none = vacant
  slot_of_value (some v) =
      if v == in_flight_marker
      then busy
      else (elim (unmarshal v) [ err e ↦ busy | ok r ↦ replied r ])

  -- Each value of the guard is the marker of a lock or a response.
  abbrev pub IsWritten : Text → Type 0
  IsWritten v = (v ≡ in_flight_marker) ⊎ ((r : CachedResponse) × (marshal r ≡ ok v))

  abbrev pub IsValidStore : server.Store → Type 0
  IsValidStore s =
      (t : Time) (tenant key v : Text)
      → server.fetch t (redis_key tenant key) s ≡ some v
      → IsWritten v

  abbrev pub redis_guard : Guard
  redis_guard = record {
    State = server.Store;
    IsValid = IsValidStore;
    view = λ now tenant key s. slot_of_value (server.fetch now (redis_key tenant key) s);
    acquire = acquire_lock server marshal unmarshal answered;
    respond = set_response server marshal unmarshal answered;
    release = release_lock server marshal unmarshal answered;
    lock_life = λ ttl. lock_ms ttl * 10 ^ 6;
    response_life = λ ttl. pos_part ttl / 10 ^ 6 * 10 ^ 6;
  }

  refused :
      (tenant key : Text) → lacks_parameters tenant key ≡ true → Refuses redis_guard tenant key
  unfolding acquire_lock set_response release_lock
  refused tenant key lacks = record {
    acquire_refused = λ now ttl s. ground arith;
    respond_refused = λ now status body ttl s. ground arith;
    release_refused = λ now s. ground arith;
  }

  module _ (keeps : KeepsKeys server) (encodes : Encodes marshal unmarshal) where
    -- What a call may do: nothing, or leave a written value or none under its key and all else as it is.
    abbrev Writes : Text → server.Store → server.Store → Type 0
    Writes k s s' =
        (s' ≡ s)
        ⊎ (((t : Time) (v : Text) → server.fetch t k s' ≡ some v → IsWritten v)
            × ((t : Time) (j : Text) → j ≢ k → server.fetch t j s' ≡ server.fetch t j s))

    same_text : (k j : Text) → (j ≡ k) ⊎ (j ≢ k)
    same_text k j = elim (Bool-cases (text_beq j k)) [
      | inl same ↦ inl ((text_beq_iff j k).0 same)
      | inr other ↦ inr (λ same. ground (arith, text_beq_iff j k))
    ]

    Writes-valid :
        (k : Text) (s s' : server.Store) → Writes k s s' → IsValidStore s → IsValidStore s'
    Writes-valid k s s' (inl same) valid = subst IsValidStore (sym same) valid
    Writes-valid k s s' (inr (written, apart)) valid = λ t tenant key v held.
        elim (same_text k (redis_key tenant key)) [
          | inl same ↦ written t v (subst (λ j. server.fetch t j s' ≡ some v) same held)
          | inr other ↦ valid t tenant key v (sym (apart t (redis_key tenant key) other) ∙ held)
        ]

    redis_key_apart :
        (tenant key tenant' key' : Text)
        → memory_key tenant' key' ≢ memory_key tenant key
        → redis_key tenant' key' ≢ redis_key tenant key
    redis_key_apart tenant key tenant' key' other same = other (cc same)

    Writes-apart :
        (tenant key tenant' key' : Text) (now : Time) (s s' : server.Store)
        → Writes (redis_key tenant key) s s'
        → memory_key tenant' key' ≢ memory_key tenant key
        → slot_of_value (server.fetch now (redis_key tenant' key') s')
          ≡ slot_of_value (server.fetch now (redis_key tenant' key') s)
    Writes-apart tenant key tenant' key' now s s' (inl same) other =
        ap (λ x. slot_of_value (server.fetch now (redis_key tenant' key') x)) same
    Writes-apart tenant key tenant' key' now s s' (inr (_, apart)) other =
        ap slot_of_value
          (apart now (redis_key tenant' key') (redis_key_apart tenant key tenant' key' other))

    some_apart : (v : Text) → Option.none ≢ some v
    some_apart v h = cc

    slot_clash : (r : CachedResponse) → replied r ≢ busy
    slot_clash r h = cc

    module _ (tenant key : Text) (fine : lacks_parameters tenant key ≡ false) where
      abbrev k : Text
      k = redis_key tenant key

      -- The calls with parameters, taken apart.
      acquire_found :
          (now : Time) (ttl : ℤ) (v : Text) (s : server.Store)
          → server.fetch now k s ≡ some v
          → acquire_lock server marshal unmarshal answered now tenant key ttl s
            ≡ (read_reply server marshal unmarshal (ok (bulk v)), s)
      unfolding acquire_lock acquire_script
      acquire_found now ttl v s held = ground arith

      acquire_free :
          (now : Time) (ttl : ℤ) (s : server.Store)
          → server.fetch now k s ≡ none
          → acquire_lock server marshal unmarshal answered now tenant key ttl s
            ≡ (ok (told vacant), (server.set_nx now k in_flight_marker (lock_ms ttl) s).1)
      unfolding acquire_lock acquire_script read_reply text_beq
      acquire_free now ttl s free =
          ground (arith, keeps.set_nx_won now k in_flight_marker (lock_ms ttl) s free)

      respond_writes :
          (now : Time) (status : ℕ) (body : List ℕ) (ttl : ℤ) (v : Text) (s : server.Store)
          → marshal (record { status_code = status; body = body; completed_at = now }) ≡ ok v
          → set_response server marshal unmarshal answered now tenant key status body ttl s
            ≡ (ok tt, server.set now k v ttl s)
      unfolding set_response
      respond_writes now status body ttl v s written = ground arith

      release_busy :
          (now : Time) (s : server.Store)
          → server.fetch now k s ≡ some in_flight_marker
          → release_lock server marshal unmarshal answered now tenant key s
            ≡ (ok tt, (server.remove now k s).1)
      unfolding release_lock release_script text_beq
      release_busy now s held = ground arith

      release_else :
          (now : Time) (s : server.Store)
          → server.fetch now k s ≢ some in_flight_marker
          → release_lock server marshal unmarshal answered now tenant key s ≡ (ok tt, s)
      unfolding release_lock release_script
      release_else now s other = elim (Option-cases (server.fetch now k s)) [
        | inl free ↦ ground arith
        | inr (v, held) ↦ ground (arith, text_beq_iff v in_flight_marker)
      ]

      slot_of_marker : slot_of_value (some in_flight_marker) ≡ busy
      unfolding slot_of_value text_beq
      slot_of_marker = refl

      slot_of_response :
          (r : CachedResponse) (v : Text) → marshal r ≡ ok v → slot_of_value (some v) ≡ replied r
      unfolding slot_of_value
      slot_of_response r v written =
          ground (arith, text_beq_iff v in_flight_marker, encodes.no_lock r, encodes.reads_back r v)

      read_written :
          (v : Text)
          → IsWritten v
          → read_reply server marshal unmarshal (ok (bulk v)) ≡ ok (told (slot_of_value (some v)))
      unfolding read_reply text_beq slot_of_value
      read_written v (inl lock) = rw lock refl
      read_written v (inr (r, written)) =
          let back = encodes.reads_back r v written in
          let apart : v ≢ in_flight_marker = λ same. encodes.no_lock r (written ∙ ap ok same) in
          let apart' : v ≢ codes "ACQUIRED" = λ same. encodes.no_grant r (written ∙ ap ok same) in
          ground (arith, text_beq_iff v in_flight_marker, text_beq_iff v (codes "ACQUIRED"))

      acquire_laws :
          (now : Time) (ttl : ℤ) (s : server.Store)
          → IsValidStore s
          → ((server.fetch now k s ≡ none)
              × (acquire_lock server marshal unmarshal answered now tenant key ttl s
                  ≡ (ok (told vacant), (server.set_nx now k in_flight_marker (lock_ms ttl) s).1)))
            ⊎ ((v : Text) × (server.fetch now k s ≡ some v)
                × IsWritten v
                × (acquire_lock server marshal unmarshal answered now tenant key ttl s
                    ≡ (ok (told (slot_of_value (some v))), s)))
      acquire_laws now ttl s valid = elim (Option-cases (server.fetch now k s)) [
        | inl free ↦ inl (free, acquire_free now ttl s free)
        | inr (v, held) ↦
            let written = valid now tenant key v held in
            inr (
              v,
              held,
              written,
              acquire_found now ttl v s held ∙ ap (λ r. (r, s)) (read_written v written),
            )
      ]

      lock_held :
          (now : Time) (s : server.Store)
          → IsValidStore s
          → slot_of_value (server.fetch now k s) ≡ busy
          → server.fetch now k s ≡ some in_flight_marker
      unfolding slot_of_value
      lock_held now s valid held = elim (Option-cases (server.fetch now k s)) [
        | inl free ↦ absurd (ground arith)
        | inr (v, found) ↦ elim (valid now tenant key v found) [
          | inl lock ↦ found ∙ ap some lock
          | inr (r, written) ↦ absurd (
              slot_clash r
                (sym (slot_of_response r v written) ∙ ap slot_of_value (sym found) ∙ held))
        ]
      ]

      nothing_held :
          (now : Time) (s : server.Store)
          → slot_of_value (server.fetch now k s) ≡ vacant
          → server.fetch now k s ≡ none
      unfolding slot_of_value
      nothing_held now s held = elim (Option-cases (server.fetch now k s)) [
        | inl free ↦ free
        | inr (v, found) ↦ elim (Result-cases (unmarshal v)) [
          | inl (e, unread) ↦ absurd (ground arith)
          | inr (r, read) ↦ absurd (ground arith)
        ]
      ]

      release_cases :
          (now : Time) (s : server.Store)
          → (server.fetch now k s ≡ some in_flight_marker)
            ⊎ (server.fetch now k s ≢ some in_flight_marker)
      release_cases now s = elim (Option-cases (server.fetch now k s)) [
        | inl free ↦ inr (λ e. cc)
        | inr (v, found) ↦ elim (same_text in_flight_marker v) [
          | inl same ↦ inl (found ∙ ap some same)
          | inr other ↦ inr (λ e. other (cc (found, e)))
        ]
      ]

      Serves-key : Serves redis_guard tenant key
      unfolding slot_of_value
      Serves-key = record {
        acquire_told = λ now ttl s valid. elim (acquire_laws now ttl s valid) [
          | inl (free, run) ↦ ap (λ x. x.0) run ∙ ap (λ o. ok (told (slot_of_value o))) (sym free)
          | inr (v, held, _, run) ↦
              ap (λ x. x.0) run ∙ ap (λ o. ok (told (slot_of_value o))) (sym held)
        ];
        acquire_taken = λ now later ttl s valid free after before.
            let free' = nothing_held now s free in
            ap (λ x. slot_of_value (server.fetch later k x.1)) (acquire_free now ttl s free')
            ∙ ap slot_of_value
                (keeps.set_nx_stays now later k in_flight_marker (lock_ms ttl) s free' after before)
            ∙ slot_of_marker;
        acquire_kept = λ now ttl s valid full. elim (acquire_laws now ttl s valid) [
          | inl (free, run) ↦ absurd (full (ap slot_of_value free))
          | inr (v, held, _, run) ↦ ap (λ x. x.1) run
        ];
        respond_stored = λ now later status body ttl s valid after before.
            let (v, written) =
              encodes.writes (record { status_code = status; body = body; completed_at = now }) in
            ap (λ x. slot_of_value (server.fetch later k x.1))
              (respond_writes now status body ttl v s written)
            ∙ ap slot_of_value (keeps.set_stays now later k v ttl s after before)
            ∙ slot_of_response _ v written;
        respond_ok = λ now status body ttl s.
            let (v, written) =
              encodes.writes (record { status_code = status; body = body; completed_at = now }) in
            ap (λ x. x.0) (respond_writes now status body ttl v s written);
        release_freed = λ now later s valid held after.
            ap (λ x. slot_of_value (server.fetch later k x.1))
              (release_busy now s (lock_held now s valid held))
            ∙ ap slot_of_value (keeps.remove_gone now later k s);
        release_kept = λ now r s valid held.
            ap (λ x. x.1)
              (release_else now s
                (λ e. slot_clash r (sym held ∙ ap slot_of_value e ∙ slot_of_marker)));
        release_ok = λ now s. elim (release_cases now s) [
          | inl lock ↦ ap (λ x. x.0) (release_busy now s lock)
          | inr other ↦ ap (λ x. x.0) (release_else now s other)
        ];
      }

    acquire-Writes :
        (tenant key : Text) (now : Time) (ttl : ℤ) (s : server.Store)
        → IsValidStore s
        → Writes
            (redis_key tenant key)
            s
            (acquire_lock server marshal unmarshal answered now tenant key ttl s).1
    acquire-Writes tenant key now ttl s valid = elim (Bool-cases (lacks_parameters tenant key)) [
      | inl lacks ↦ inl (ap (λ x. x.1) ((refused tenant key lacks).acquire_refused now ttl s))
      | inr fine ↦ elim (acquire_laws tenant key fine now ttl s valid) [
        | inr (v, held, _, run) ↦ inl (ap (λ x. x.1) run)
        | inl (free, run) ↦
            let k = redis_key tenant key in
            let same = ap (λ x. x.1) run in
            inr (
              λ t v held. inl (
                  keeps.set_nx_only now t k in_flight_marker v (lock_ms ttl) s free
                    (ap (server.fetch t k) (sym same) ∙ held)),
              λ t j other.
                  ap (server.fetch t j) same
                  ∙ keeps.set_nx_apart now t k j in_flight_marker (lock_ms ttl) s other,
            )
      ]
    ]

    respond-Writes :
        (tenant key : Text) (now : Time) (status : ℕ) (body : List ℕ) (ttl : ℤ) (s : server.Store)
        → Writes
            (redis_key tenant key)
            s
            (set_response server marshal unmarshal answered now tenant key status body ttl s).1
    respond-Writes tenant key now status body ttl s =
        elim (Bool-cases (lacks_parameters tenant key)) [
          | inl lacks ↦
              inl (ap (λ x. x.1) ((refused tenant key lacks).respond_refused now status body ttl s))
          | inr fine ↦
              let k = redis_key tenant key in
              let r : CachedResponse = record {
                status_code = status;
                body = body;
                completed_at = now;
              } in
              let (w, written) = encodes.writes r in
              let same =
                ap (λ x. x.1) (respond_writes tenant key fine now status body ttl w s written) in
              inr (
                λ t v held.
                    let only =
                      keeps.set_only now t k w v ttl s (ap (server.fetch t k) (sym same) ∙ held) in
                    inr (r, written ∙ ap ok (sym only)),
                λ t j other. ap (server.fetch t j) same ∙ keeps.set_apart now t k j w ttl s other,
              )
        ]

    release-Writes :
        (tenant key : Text) (now : Time) (s : server.Store)
        → Writes
            (redis_key tenant key)
            s
            (release_lock server marshal unmarshal answered now tenant key s).1
    release-Writes tenant key now s = elim (Bool-cases (lacks_parameters tenant key)) [
      | inl lacks ↦ inl (ap (λ x. x.1) ((refused tenant key lacks).release_refused now s))
      | inr fine ↦ elim (release_cases tenant key fine now s) [
        | inr other ↦ inl (ap (λ x. x.1) (release_else tenant key fine now s other))
        | inl lock ↦
            let k = redis_key tenant key in
            let same = ap (λ x. x.1) (release_busy tenant key fine now s lock) in
            inr (
              λ t v held. absurd (
                  some_apart v
                    (sym (keeps.remove_gone now t k s) ∙ ap (server.fetch t k) (sym same) ∙ held)),
              λ t j other. ap (server.fetch t j) same ∙ keeps.remove_apart now t k j s other,
            )
      ]
    ]

    framed : (tenant key : Text) → Frames redis_guard tenant key
    framed tenant key = record {
      acquire_valid = λ now ttl s valid.
          Writes-valid (redis_key tenant key) s _ (acquire-Writes tenant key now ttl s valid) valid;
      respond_valid = λ now status body ttl s.
          Writes-valid (redis_key tenant key) s _ (respond-Writes tenant key now status body ttl s);
      release_valid =
          λ now s. Writes-valid (redis_key tenant key) s _ (release-Writes tenant key now s);
      acquire_apart = λ now later ttl tenant' key' s valid.
          Writes-apart tenant key tenant' key' later s _
            (acquire-Writes tenant key now ttl s valid);
      respond_apart = λ now later status body ttl tenant' key' s.
          Writes-apart tenant key tenant' key' later s _
            (respond-Writes tenant key now status body ttl s);
      release_apart = λ now later tenant' key' s.
          Writes-apart tenant key tenant' key' later s _ (release-Writes tenant key now s);
    }

    -- The guard on Redis, for calls that the server runs and answers, keeps the laws of the interface, if
    -- the server's commands keep keys as documented, and responses can be written, read back, and are not
    -- the words that the scripts use.
    pub redis_guard-IsGuard : IsGuard redis_guard
    redis_guard-IsGuard = record {
      serves = Serves-key;
      refuses = refused;
      frames = framed;
      view_shared = λ tenant key tenant' key' now s same.
          ap (λ m. slot_of_value (server.fetch now (codes "idemp:" ++ m) s)) same;
    }
