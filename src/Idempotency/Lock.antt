-- ===== src/Idempotency/Lock.antt =====
-- The lock and the cache of one key, over any sequence of calls by any clients.
use web_hook_project.Prelude.{
  ℕ, ◌<◌, Bool, true, false, ◌||◌, List, [], ◌∷◌, ◌++◌, Option, none, some, Text, text_eq,
  text_beq_iff, text_beq, get, put, del, ◌≡◌, ◌≢◌, ◌⊎◌, inl, inr, refl, sym, arith, get-put_self,
  get-del_self, Bool-cases, Option-cases, append_assoc,
}
use web_hook_project.Prelude.Errors.{invalid_parameters, ok, err}
use web_hook_project.Prelude.Int.{ℤ}
use web_hook_project.Domain.{Time, is_empty}
use web_hook_project.Idempotency.{
  Entry, MemoryGuard, Acquired, memory_key, add_duration, answer, acquire_lock, set_response,
  release_lock, locked, completed,
}

abbrev pub granted : Acquired
granted = record { acquired = true; cached = none }

abbrev pub in_use : Acquired
in_use = record { acquired = false; cached = none }

abbrev no_parameters : Text → Text → Bool
no_parameters tenant key = is_empty tenant || is_empty key

-- A grant comes only where no live entry answers, and it writes the lock.
acquire_cases :
    (tenant key : Text) (now : Time) (ttl : ℤ) (m : MemoryGuard)
    → ((no_parameters tenant key ≡ true)
        × (acquire_lock none now tenant key ttl m ≡ (err invalid_parameters, m)))
      ⊎ ((a : Acquired) × (no_parameters tenant key ≡ false)
          × (answer now (get (memory_key tenant key) m.entries) ≡ some a)
          × (acquire_lock none now tenant key ttl m ≡ (ok a, m)))
      ⊎ ((no_parameters tenant key ≡ false)
          × (answer now (get (memory_key tenant key) m.entries) ≡ none)
          × (acquire_lock none now tenant key ttl m ≡ (
            ok granted,
            record { entries = put (memory_key tenant key) (locked now ttl) m.entries },
          )))
unfolding acquire_lock
acquire_cases tenant key now ttl m = elim (Bool-cases (no_parameters tenant key)) [
  | inl bad ↦ inl (bad, ground arith)
  | inr fine ↦ elim (Option-cases (answer now (get (memory_key tenant key) m.entries))) [
    | inl free ↦ inr (inr (fine, free, ground arith))
    | inr (a, live) ↦ inr (inl (a, fine, live, ground arith))
  ]
]

answer_ungranted : (now : Time) (o : Option Entry) (m : MemoryGuard) → answer now o ≢ some granted
unfolding answer
answer_ungranted now o m = ground arith

-- A call that is granted, taken apart.
pub granted_lem :
    (tenant key : Text) (now : Time) (ttl : ℤ) (m m' : MemoryGuard)
    → acquire_lock none now tenant key ttl m ≡ (ok granted, m')
    → (no_parameters tenant key ≡ false)
      × (m' ≡ record { entries = put (memory_key tenant key) (locked now ttl) m.entries })
granted_lem tenant key now ttl m m' h = elim (acquire_cases tenant key now ttl m) [
  | inl (_, refused) ↦ absurd (ground arith)
  | inr (inl (a, _, live, told)) ↦
      absurd (answer_ungranted now (get (memory_key tenant key) m.entries) m (cc))
  | inr (inr (fine, _, taken)) ↦ (fine, cc)
]

-- A call that finds a live entry.
answered :
    (tenant key : Text) (now : Time) (ttl : ℤ) (m : MemoryGuard) (e : Entry) (a : Acquired)
    → no_parameters tenant key ≡ false
    → get (memory_key tenant key) m.entries ≡ some e
    → answer now (some e) ≡ some a
    → acquire_lock none now tenant key ttl m ≡ (ok a, m)
unfolding acquire_lock
answered tenant key now ttl m e a fine held live = ground arith

-- Mutual exclusion: once a caller has taken the lock of a key, the next call for the key that comes
-- before the lock expires is told that the request is in flight, and changes nothing.
pub acquire_excludes :
    (tenant key : Text) (now later : Time) (ttl ttl' : ℤ) (m m' : MemoryGuard)
    → acquire_lock none now tenant key ttl m ≡ (ok granted, m')
    → later < add_duration now ttl
    → acquire_lock none later tenant key ttl' m' ≡ (ok in_use, m')
unfolding answer
acquire_excludes tenant key now later ttl ttl' m m' h alive =
    let (fine, after) = granted_lem tenant key now ttl m m' h in
    answered tenant key later ttl' m' (locked now ttl) in_use fine
      (cc (after, get-put_self (memory_key tenant key) (locked now ttl) m.entries)) (ground arith)

stored_lem :
    (tenant key : Text) (now : Time) (status : ℕ) (body : List ℕ) (ttl : ℤ) (m m' : MemoryGuard)
    → set_response none now tenant key status body ttl m ≡ (ok tt, m')
    → (no_parameters tenant key ≡ false)
      × (m' ≡ record {
        entries = put (memory_key tenant key) (completed now status body ttl) m.entries;
      })
unfolding set_response
stored_lem tenant key now status body ttl m m' h = ground arith

-- Once a response is stored for a key, the next call for the key that comes before it expires gets
-- that response, and changes nothing.
pub response_replayed :
    (tenant key : Text) (now later : Time) (status : ℕ) (body : List ℕ) (ttl ttl' : ℤ)
    (m m' : MemoryGuard)
    → set_response none now tenant key status body ttl m ≡ (ok tt, m')
    → later < add_duration now ttl
    → acquire_lock none later tenant key ttl' m' ≡ (
      ok (record {
        acquired = false;
        cached = some (record { status_code = status; body = body; completed_at = now });
      }),
      m',
    )
unfolding answer
response_replayed tenant key now later status body ttl ttl' m m' h alive =
    let (fine, after) = stored_lem tenant key now status body ttl m m' h in
    answered tenant key later ttl' m' (completed now status body ttl) _ fine
      (cc (after, get-put_self (memory_key tenant key) (completed now status body ttl) m.entries))
      (ground arith)

release_present :
    (tenant key : Text) (m : MemoryGuard) (e : Entry)
    → no_parameters tenant key ≡ false
    → get (memory_key tenant key) m.entries ≡ some e
    → e.in_flight ≡ true
    → release_lock none tenant key m
      ≡ (ok tt, record { entries = del (memory_key tenant key) m.entries })
unfolding release_lock
release_present tenant key m e fine held flying = ground arith

free_taken :
    (tenant key : Text) (now : Time) (ttl : ℤ) (m : MemoryGuard)
    → no_parameters tenant key ≡ false
    → get (memory_key tenant key) m.entries ≡ none
    → acquire_lock none now tenant key ttl m
      ≡ (ok granted, record { entries = put (memory_key tenant key) (locked now ttl) m.entries })
unfolding acquire_lock answer
free_taken tenant key now ttl m fine free = ground arith

-- A lock that is released, by whoever calls, is free again at once.
pub release_frees :
    (tenant key : Text) (now later : Time) (ttl ttl' : ℤ) (m m' : MemoryGuard)
    → acquire_lock none now tenant key ttl m ≡ (ok granted, m')
    → let m'' = (release_lock none tenant key m').1 in
      acquire_lock none later tenant key ttl' m'' ≡ (
        ok granted,
        record { entries = put (memory_key tenant key) (locked later ttl') m''.entries },
      )
release_frees tenant key now later ttl ttl' m m' h =
    let (fine, after) = granted_lem tenant key now ttl m m' h in
    let held : get (memory_key tenant key) m'.entries ≡ some (locked now ttl) =
      cc (after, get-put_self (memory_key tenant key) (locked now ttl) m.entries) in
    rw (release_present tenant key m' (locked now ttl) fine held refl)
      (free_taken tenant key later ttl' _ fine (get-del_self (memory_key tenant key) m'.entries))

append_full : (a b : Text) (x : ℕ) → is_empty (a ++ (x ∷ b)) ≡ false
unfolding text_beq
append_full [] b x = refl
append_full (y ∷ a) b x = refl

-- The key of one pair of names is the key of another, where a name holds a colon.
pub memory_key_collides :
    (a b c : Text) → memory_key a (b ++ (b':' ∷ c)) ≡ memory_key (a ++ (b':' ∷ b)) c
memory_key_collides a b c = sym (append_assoc a (b':' ∷ b) (b':' ∷ c))

-- So a tenant `a:b` is given the response that was stored for the tenant `a`.
pub response_crosses_tenants :
    (a b c : Text) (now later : Time) (status : ℕ) (body : List ℕ) (ttl ttl' : ℤ)
    (m m' : MemoryGuard)
    → c ≢ []
    → set_response none now a (b ++ (b':' ∷ c)) status body ttl m ≡ (ok tt, m')
    → later < add_duration now ttl
    → acquire_lock none later (a ++ (b':' ∷ b)) c ttl' m' ≡ (
      ok (record {
        acquired = false;
        cached = some (record { status_code = status; body = body; completed_at = now });
      }),
      m',
    )
unfolding answer
response_crosses_tenants a b c now later status body ttl ttl' m m' full h alive =
    let (_, after) = stored_lem a (b ++ (b':' ∷ c)) now status body ttl m m' h in
    answered (a ++ (b':' ∷ b)) c later ttl' m' (completed now status body ttl) _
      (ground (arith, append_full a b b':', text_beq_iff c []))
      (cc (
        after,
        memory_key_collides a b c,
        get-put_self (memory_key a (b ++ (b':' ∷ c))) (completed now status body ttl) m.entries,
      ))
      (ground arith)
