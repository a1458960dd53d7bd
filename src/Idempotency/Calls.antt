-- ===== src/Idempotency/Calls.antt =====
-- Calls of any clients for any keys, one after another, on a guard.
use web_hook_project.Prelude.{
  ℕ, ◌+◌, ◌≤◌, ◌<◌, false, List, [], ◌∷◌, Text, text_beq_iff, text_beq, ◌≡◌, ◌≢◌, ◌⊎◌, inl, inr,
  refl, sym, subst, ◌∙◌, ap, arith, All, Bool-cases,
}
use web_hook_project.Prelude.Errors.{Error, ok, err}
use web_hook_project.Prelude.Int.{ℤ}
use web_hook_project.Domain.{Time}
use web_hook_project.Idempotency.{CachedResponse, memory_key}
use web_hook_project.Idempotency.Guard.{
  Slot, vacant, busy, replied, told, lacks_parameters, Guard, IsGuard,
}

pub data Call : Type 0 where
  acquires : Time → Text → Text → ℤ → Call
  responds : Time → Text → Text → ℕ → List ℕ → ℤ → Call
  releases : Time → Text → Text → Call

err-ok {ℓ} : {A : Type ℓ} (e : Error) (a : A) → err e ≢ ok a
err-ok e a h = cc

told-vacant : (slot : Slot) → ok (told slot) ≡ ok (told vacant) → slot ≡ vacant
told-vacant vacant h = refl
told-vacant busy h = cc
told-vacant (replied r) h = cc

module _ (g : Guard) where
  abbrev pub called : Call → g.State → g.State
  called (acquires now tenant key ttl) s = (g.acquire now tenant key ttl s).1
  called (responds now tenant key status body ttl) s =
      (g.respond now tenant key status body ttl s).1
  called (releases now tenant key) s = (g.release now tenant key s).1

  abbrev pub all_called : List Call → g.State → g.State
  all_called [] s = s
  all_called (c ∷ cs) s = all_called cs (called c s)

  -- A call between two times that does not end what a key stands for: any AcquireLock, and a
  -- SetResponse or a ReleaseLock for a key that is written in another way; once there is a response, a
  -- ReleaseLock for any key.
  abbrev pub Spares : Time → Time → Slot → Text → Text → Call → Type 0
  Spares from until slot tenant key (acquires now tenant' key' ttl) = (from ≤ now) × (now < until)
  Spares from until slot tenant key (responds now tenant' key' status body ttl) =
      memory_key tenant key ≢ memory_key tenant' key'
  Spares from until slot tenant key (releases now tenant' key') =
      ((memory_key tenant key ≢ memory_key tenant' key')
        ⊎ ((from ≤ now) × (now < until) × ((r : CachedResponse) × (slot ≡ replied r))))

  abbrev Stands : Time → Time → Slot → Text → Text → g.State → Type 0
  Stands from until slot tenant key s =
      (later : Time) → from ≤ later → later < until → g.view later tenant key s ≡ slot

  module _ (is_guard : IsGuard g) (from until : Time) (slot : Slot) (tenant key : Text) where
    same_key :
        (tenant' key' : Text)
        → (memory_key tenant key ≡ memory_key tenant' key')
          ⊎ (memory_key tenant key ≢ memory_key tenant' key')
    same_key tenant' key' =
        elim (Bool-cases (text_beq (memory_key tenant key) (memory_key tenant' key'))) [
          | inl same ↦ inl ((text_beq_iff _ _).0 same)
          | inr other ↦ inr (λ same.
              ground (arith, text_beq_iff (memory_key tenant key) (memory_key tenant' key')))
        ]

    acquires-Stands :
        (now : Time) (tenant' key' : Text) (ttl : ℤ) (s : g.State)
        → slot ≢ vacant
        → g.IsValid s
        → Stands from until slot tenant key s
        → from ≤ now
        → now < until
        → Stands from until slot tenant key (g.acquire now tenant' key' ttl s).1
    acquires-Stands now tenant' key' ttl s full valid stands after before =
        let unchanged = λ (e : (g.acquire now tenant' key' ttl s).1 ≡ s).
          subst (Stands from until slot tenant key) (sym e) stands in
        elim (Bool-cases (lacks_parameters tenant' key')) [
          | inl lacks ↦
              unchanged
                (ap (λ x. x.1) ((is_guard.refuses tenant' key' lacks).acquire_refused now ttl s))
          | inr fine ↦ elim (same_key tenant' key') [
            | inr other ↦ λ later a b.
                (is_guard.frames tenant' key').acquire_apart now later ttl tenant key s valid other
                ∙ stands later a b
            | inl same ↦
                let found =
                  sym (is_guard.view_shared tenant key tenant' key' now s same)
                  ∙ stands now after before in
                unchanged (
                  (is_guard.serves tenant' key' fine).acquire_kept now ttl s valid
                    (λ free. full (sym found ∙ free)))
          ]
        ]

    releases-Stands :
        (now : Time) (tenant' key' : Text) (s : g.State)
        → g.IsValid s
        → Stands from until slot tenant key s
        → Spares from until slot tenant key (releases now tenant' key')
        → Stands from until slot tenant key (g.release now tenant' key' s).1
    releases-Stands now tenant' key' s valid stands spares =
        let unchanged = λ (e : (g.release now tenant' key' s).1 ≡ s).
          subst (Stands from until slot tenant key) (sym e) stands in
        elim spares [
          | inl other ↦ λ later a b.
              (is_guard.frames tenant' key').release_apart now later tenant key s other
              ∙ stands later a b
          | inr (after, before, (r, has_reply)) ↦
              elim (Bool-cases (lacks_parameters tenant' key')) [
                | inl lacks ↦
                    unchanged
                      (ap (λ x. x.1) ((is_guard.refuses tenant' key' lacks).release_refused now s))
                | inr fine ↦ elim (same_key tenant' key') [
                  | inr other ↦ λ later a b.
                      (is_guard.frames tenant' key').release_apart now later tenant key s other
                      ∙ stands later a b
                  | inl same ↦
                      let found =
                        sym (is_guard.view_shared tenant key tenant' key' now s same)
                        ∙ stands now after before in
                      unchanged (
                        (is_guard.serves tenant' key' fine).release_kept now r s valid
                          (found ∙ has_reply))
                ]
              ]
        ]

    called-Stands :
        (c : Call) (s : g.State)
        → slot ≢ vacant
        → g.IsValid s
        → Stands from until slot tenant key s
        → Spares from until slot tenant key c
        → g.IsValid (called c s) × Stands from until slot tenant key (called c s)
    called-Stands (acquires now tenant' key' ttl) s full valid stands (after, before) = (
      (is_guard.frames tenant' key').acquire_valid now ttl s valid,
      acquires-Stands now tenant' key' ttl s full valid stands after before,
    )
    called-Stands (responds now tenant' key' status body ttl) s full valid stands other = (
      (is_guard.frames tenant' key').respond_valid now status body ttl s valid,
      λ later a b.
          (is_guard.frames tenant' key').respond_apart now later status body ttl tenant key s other
          ∙ stands later a b,
    )
    called-Stands (releases now tenant' key') s full valid stands spares = (
      (is_guard.frames tenant' key').release_valid now s valid,
      releases-Stands now tenant' key' s valid stands spares,
    )

    all_called-Stands :
        (cs : List Call) (s : g.State)
        → slot ≢ vacant
        → g.IsValid s
        → Stands from until slot tenant key s
        → All (Spares from until slot tenant key) cs
        → g.IsValid (all_called cs s) × Stands from until slot tenant key (all_called cs s)
    all_called-Stands [] s full valid stands spares = (valid, stands)
    all_called-Stands (c ∷ cs) s full valid stands (spare, spares) =
        let (valid', stands') = called-Stands c s full valid stands spare in
        all_called-Stands cs (called c s) full valid' stands' spares

  granted_free :
      IsGuard g
      → (tenant key : Text) (now : Time) (ttl : ℤ) (s : g.State) → g.IsValid s
      → (g.acquire now tenant key ttl s).0 ≡ ok (told vacant)
      → (lacks_parameters tenant key ≡ false) × (g.view now tenant key s ≡ vacant)
  granted_free is_guard tenant key now ttl s valid granted =
      elim (Bool-cases (lacks_parameters tenant key)) [
        | inl lacks ↦
            let refused =
              ap (λ x. x.0) ((is_guard.refuses tenant key lacks).acquire_refused now ttl s) in
            absurd (err-ok _ _ (sym refused ∙ granted))
        | inr fine ↦ (
          fine,
          told-vacant _
              (sym ((is_guard.serves tenant key fine).acquire_told now ttl s valid) ∙ granted),
        )
      ]

  -- Once a lock was granted, whatever calls follow before its time is over, if they neither respond to
  -- nor release its key, the next AcquireLock of the key is told that a request is in flight.
  pub grant_excludes :
      IsGuard g
      → (tenant key : Text) (now later : Time) (ttl ttl' : ℤ) (cs : List Call) (s : g.State)
      → g.IsValid s
      → (g.acquire now tenant key ttl s).0 ≡ ok (told vacant)
      → All (Spares now (now + g.lock_life ttl) busy tenant key) cs
      → now ≤ later
      → later < now + g.lock_life ttl
      → (g.acquire later tenant key ttl' (all_called cs (g.acquire now tenant key ttl s).1)).0
        ≡ ok (told busy)
  grant_excludes is_guard tenant key now later ttl ttl' cs s valid granted spared after before =
      let (fine, free) = granted_free is_guard tenant key now ttl s valid granted in
      let serves = is_guard.serves tenant key fine in
      let (valid', stands) =
        all_called-Stands is_guard now (now + g.lock_life ttl) busy tenant key cs
          (g.acquire now tenant key ttl s).1 (λ e. cc)
          ((is_guard.frames tenant key).acquire_valid now ttl s valid)
          (λ t a b. serves.acquire_taken now t ttl s valid free a b) spared in
      serves.acquire_told later ttl' _ valid'
      ∙ ap (λ slot. ok (told slot)) (stands later after before)

  -- Once a response was stored, whatever calls follow before its time is over, if none of them stores
  -- another response for its key, the next AcquireLock of the key is given that response.
  pub response_replays :
      IsGuard g
      → (tenant key : Text) (now later : Time) (status : ℕ) (body : List ℕ) (ttl ttl' : ℤ)
        (cs : List Call) (s : g.State)
      → let r : CachedResponse = record { status_code = status; body = body; completed_at = now } in
        g.IsValid s
        → lacks_parameters tenant key ≡ false
        → All (Spares now (now + g.response_life ttl) (replied r) tenant key) cs
        → now ≤ later
        → later < now + g.response_life ttl
        → (g.acquire later tenant key ttl'
            (all_called cs (g.respond now tenant key status body ttl s).1)).0
          ≡ ok (told (replied r))
  response_replays is_guard tenant key now later status body ttl ttl' cs s valid fine spared after
        before =
      let r : CachedResponse = record { status_code = status; body = body; completed_at = now } in
      let serves = is_guard.serves tenant key fine in
      let (valid', stands) =
        all_called-Stands is_guard now (now + g.response_life ttl) (replied r) tenant key cs
          (g.respond now tenant key status body ttl s).1 (λ e. cc)
          ((is_guard.frames tenant key).respond_valid now status body ttl s valid)
          (λ t a b. serves.respond_stored now t status body ttl s valid a b) spared in
      serves.acquire_told later ttl' _ valid'
      ∙ ap (λ slot. ok (told slot)) (stands later after before)
