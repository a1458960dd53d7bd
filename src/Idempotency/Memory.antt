-- ===== src/Idempotency/Memory.antt =====
-- internal/idempotency/guard.go: MemoryGuard as a Guard.
use web_hook_project.Prelude.{
  ℕ, ◌+◌, ◌≤◌, ◌<◌, true, false, List, Option, none, some, Text, text_eq, ◌≡◌, ◌≢◌, ◌⊎◌, inl, inr,
  refl, sym, subst, ◌∙◌, ap, arith, if◌then◌else◌, get, put, del, get-del, get-put_self, get-put_ne,
  get-del_self, get-del_ne, get-put_cases, Bool-cases, Option-cases,
}
use web_hook_project.Prelude.Errors.{ok}
use web_hook_project.Prelude.Int.{ℤ, pos, negsuc, pos_part}
use web_hook_project.Domain.{Time}
use web_hook_project.Idempotency.{
  CachedResponse, Acquired, Entry, MemoryGuard, memory_key, add_duration, locked, completed, answer,
  acquire_lock, set_response, release_lock,
}
use web_hook_project.Idempotency.Guard.{
  Slot, vacant, busy, replied, told, lacks_parameters, Guard, IsGuard, Serves, Refuses, Frames,
}

-- An entry that is in flight has no response.
abbrev pub IsValidEntry : Entry → Type 0
IsValidEntry e = (e.in_flight ≡ true) → e.cached ≡ none

abbrev pub IsValidMemory : MemoryGuard → Type 0
IsValidMemory m = (k : Text) (e : Entry) → get k m.entries ≡ some e → IsValidEntry e

unfoldable pub slot_of : Option Acquired → Slot
slot_of none = vacant
slot_of (some a) = elim a.cached [ none ↦ busy | some r ↦ replied r ]

abbrev pub slot_at : Time → Option Entry → Slot
slot_at now e = slot_of (answer now e)

abbrev pub memory_guard : Guard
memory_guard = record {
  State = MemoryGuard;
  IsValid = IsValidMemory;
  view = λ now tenant key m. slot_at now (get (memory_key tenant key) m.entries);
  acquire = acquire_lock none;
  respond = set_response none;
  release = λ now. release_lock none;
  lock_life = pos_part;
  response_life = pos_part;
}

abbrev entry_after : Entry → Text → MemoryGuard → MemoryGuard
entry_after e k m = record { entries = put k e m.entries }

abbrev removed : Text → MemoryGuard → MemoryGuard
removed k m = record { entries = del k m.entries }

-- The calls with parameters, taken apart.
acquire_by_answer :
    (tenant key : Text) (now : Time) (ttl : ℤ) (m : MemoryGuard)
    → lacks_parameters tenant key ≡ false
    → acquire_lock none now tenant key ttl m ≡ (
      ok (told (slot_at now (get (memory_key tenant key) m.entries))),
      (elim (answer now (get (memory_key tenant key) m.entries)) [
        | none ↦ entry_after (locked now ttl) (memory_key tenant key) m
        | some a ↦ m
      ]),
    )
unfolding acquire_lock slot_of answer
acquire_by_answer tenant key now ttl m fine = ground arith

set_response_writes :
    (tenant key : Text) (now : Time) (status : ℕ) (body : List ℕ) (ttl : ℤ) (m : MemoryGuard)
    → lacks_parameters tenant key ≡ false
    → set_response none now tenant key status body ttl m
      ≡ (ok tt, entry_after (completed now status body ttl) (memory_key tenant key) m)
unfolding set_response
set_response_writes tenant key now status body ttl m fine = ground arith

release_by_entry :
    (tenant key : Text) (m : MemoryGuard)
    → lacks_parameters tenant key ≡ false
    → release_lock none tenant key m ≡ (
      ok tt,
      (elim (get (memory_key tenant key) m.entries) [
        | none ↦ m
        | some e ↦
            if e.in_flight then record { entries = del (memory_key tenant key) m.entries } else m
      ]),
    )
unfolding release_lock
release_by_entry tenant key m fine = ground arith

refused : (tenant key : Text) → lacks_parameters tenant key ≡ true → Refuses memory_guard tenant key
unfolding acquire_lock set_response release_lock
refused tenant key lacks = record {
  acquire_refused = λ now ttl s. ground arith;
  respond_refused = λ now status body ttl s. ground arith;
  release_refused = λ now s. ground arith;
}

within :
    (now later : Time) (ttl : ℤ)
    → now ≤ later
    → later < now + pos_part ttl
    → later < add_duration now ttl
within now later (pos n) after before = ground arith
within now later (negsuc n) after before = absurd (omega arith)

slot_of-none : (o : Option Acquired) → slot_of o ≡ vacant → o ≡ none
unfolding slot_of
slot_of-none none h = refl
slot_of-none (some a) h = absurd (ground arith)

module _ (tenant key : Text) (fine : lacks_parameters tenant key ≡ false) where
  abbrev held_by : MemoryGuard → Option Entry
  held_by m = get (memory_key tenant key) m.entries

  taken_busy :
      (now later : Time) (ttl : ℤ) (m : MemoryGuard)
      → slot_at now (held_by m) ≡ vacant
      → now ≤ later
      → later < now + pos_part ttl
      → slot_at later (held_by (acquire_lock none now tenant key ttl m).1) ≡ busy
  unfolding slot_of answer
  taken_busy now later ttl m free after before =
      let unanswered = slot_of-none _ free in
      let state : (acquire_lock none now tenant key ttl m).1
          ≡ entry_after (locked now ttl) (memory_key tenant key) m =
        ground (arith, acquire_by_answer tenant key now ttl m fine) in
      let alive = within now later ttl after before in
      ap (λ s. slot_at later (held_by s)) state
      ∙ ap (slot_at later) (get-put_self (memory_key tenant key) (locked now ttl) m.entries)
      ∙ (ground arith)

  kept_full :
      (now : Time) (ttl : ℤ) (m : MemoryGuard)
      → slot_at now (held_by m) ≢ vacant
      → (acquire_lock none now tenant key ttl m).1 ≡ m
  unfolding slot_of
  kept_full now ttl m full = elim (Option-cases (answer now (held_by m))) [
    | inl free ↦ absurd (full (ap slot_of free))
    | inr (a, live) ↦ ground (arith, acquire_by_answer tenant key now ttl m fine)
  ]

  stored_replied :
      (now later : Time) (status : ℕ) (body : List ℕ) (ttl : ℤ) (m : MemoryGuard)
      → now ≤ later
      → later < now + pos_part ttl
      → slot_at later (held_by (set_response none now tenant key status body ttl m).1)
        ≡ replied (record { status_code = status; body = body; completed_at = now })
  unfolding slot_of answer
  stored_replied now later status body ttl m after before =
      let e = completed now status body ttl in
      let alive = within now later ttl after before in
      ap (λ x. slot_at later (held_by x.1))
        (set_response_writes tenant key now status body ttl m fine)
      ∙ ap (slot_at later) (get-put_self (memory_key tenant key) e m.entries)
      ∙ (ground arith)

  released_vacant :
      (now later : Time) (m : MemoryGuard)
      → slot_at now (held_by m) ≡ busy
      → slot_at later (held_by (release_lock none tenant key m).1) ≡ vacant
  unfolding slot_of answer
  released_vacant now later m taken =
      let state : (release_lock none tenant key m).1 ≡ removed (memory_key tenant key) m =
        ground (arith, release_by_entry tenant key m fine) in
      ap (λ s. slot_at later (held_by s)) state
      ∙ ap (slot_at later) (get-del_self (memory_key tenant key) m.entries)

  released_kept :
      (now : Time) (r : CachedResponse) (m : MemoryGuard)
      → IsValidMemory m
      → slot_at now (held_by m) ≡ replied r
      → (release_lock none tenant key m).1 ≡ m
  unfolding slot_of answer
  released_kept now r m valid done = elim (Option-cases (held_by m)) [
    | inl free ↦ ground (arith, release_by_entry tenant key m fine)
    | inr (e, held) ↦
        let landed = valid (memory_key tenant key) e held in
        ground (arith, release_by_entry tenant key m fine)
  ]

served : (tenant key : Text) → lacks_parameters tenant key ≡ false → Serves memory_guard tenant key
served tenant key fine = record {
  acquire_told = λ now ttl s valid. ap (λ x. x.0) (acquire_by_answer tenant key now ttl s fine);
  acquire_taken = λ now later ttl s valid free after before.
      taken_busy tenant key fine now later ttl s free after before;
  acquire_kept = λ now ttl s valid full. kept_full tenant key fine now ttl s full;
  respond_stored = λ now later status body ttl s valid after before.
      stored_replied tenant key fine now later status body ttl s after before;
  respond_ok = λ now status body ttl s.
      ap (λ x. x.0) (set_response_writes tenant key now status body ttl s fine);
  release_freed = λ now later s valid held after. released_vacant tenant key fine now later s held;
  release_kept = λ now r s valid held. released_kept tenant key fine now r s valid held;
  release_ok = λ now s. ap (λ x. x.0) (release_by_entry tenant key s fine);
}

-- What a call may do to the entries: nothing, a write of its key, or its removal.
abbrev Writes : Text → MemoryGuard → MemoryGuard → Type 0
Writes k m m' =
    (m' ≡ m) ⊎ ((e : Entry) × IsValidEntry e × (m' ≡ entry_after e k m)) ⊎ (m' ≡ removed k m)

Writes-valid : (k : Text) (m m' : MemoryGuard) → Writes k m m' → IsValidMemory m → IsValidMemory m'
Writes-valid k m m' (inl same) valid j x held = subst IsValidMemory (sym same) valid j x held
Writes-valid k m m' (inr (inl (e, fine, written))) valid j x held =
    elim (get-put_cases k j e x m.entries (cc (held, written))) [
      | inl (_, same) ↦ subst IsValidEntry (sym same) fine
      | inr (_, old) ↦ valid j x old
    ]
Writes-valid k m m' (inr (inr gone)) valid j x held =
    valid j x (ground (arith, get-del k j m.entries))

Writes-apart :
    (k j : Text) (now : Time) (m m' : MemoryGuard)
    → Writes k m m'
    → j ≢ k
    → slot_at now (get j m'.entries) ≡ slot_at now (get j m.entries)
Writes-apart k j now m m' (inl same) other = ap (λ s. slot_at now (get j s.entries)) same
Writes-apart k j now m m' (inr (inl (e, _, written))) other =
    ap (λ s. slot_at now (get j s.entries)) written
    ∙ ap (slot_at now) (get-put_ne k j e m.entries other)
Writes-apart k j now m m' (inr (inr gone)) other =
    ap (λ s. slot_at now (get j s.entries)) gone ∙ ap (slot_at now) (get-del_ne k j m.entries other)

acquire-Writes :
    (tenant key : Text) (now : Time) (ttl : ℤ) (m : MemoryGuard)
    → Writes (memory_key tenant key) m (acquire_lock none now tenant key ttl m).1
acquire-Writes tenant key now ttl m = elim (Bool-cases (lacks_parameters tenant key)) [
  | inl lacks ↦ inl (ap (λ x. x.1) ((refused tenant key lacks).acquire_refused now ttl m))
  | inr fine ↦
      let taken = ap (λ x. x.1) (acquire_by_answer tenant key now ttl m fine) in
      elim (Option-cases (answer now (get (memory_key tenant key) m.entries))) [
        | inl free ↦ inr (inl (locked now ttl, λ h. refl, ground arith))
        | inr (a, live) ↦ inl (ground arith)
      ]
]

respond-Writes :
    (tenant key : Text) (now : Time) (status : ℕ) (body : List ℕ) (ttl : ℤ) (m : MemoryGuard)
    → Writes (memory_key tenant key) m (set_response none now tenant key status body ttl m).1
respond-Writes tenant key now status body ttl m = elim (Bool-cases (lacks_parameters tenant key)) [
  | inl lacks ↦
      inl (ap (λ x. x.1) ((refused tenant key lacks).respond_refused now status body ttl m))
  | inr fine ↦ inr (
      inl (
        completed now status body ttl,
        λ h. cc,
        ap (λ x. x.1) (set_response_writes tenant key now status body ttl m fine),
      ))
]

release-Writes :
    (tenant key : Text) (m : MemoryGuard)
    → Writes (memory_key tenant key) m (release_lock none tenant key m).1
release-Writes tenant key m = elim (Bool-cases (lacks_parameters tenant key)) [
  | inl lacks ↦ inl (ap (λ x. x.1) ((refused tenant key lacks).release_refused 0 m))
  | inr fine ↦
      let left = ap (λ x. x.1) (release_by_entry tenant key m fine) in
      elim (Option-cases (get (memory_key tenant key) m.entries)) [
        | inl free ↦ inl (ground arith)
        | inr (e, held) ↦ elim (Bool-cases e.in_flight) [
          | inl flying ↦ inr (inr (ground arith))
          | inr landed ↦ inl (ground arith)
        ]
      ]
]

framed : (tenant key : Text) → Frames memory_guard tenant key
framed tenant key =
    let k = memory_key tenant key in
    record {
      acquire_valid = λ now ttl s. Writes-valid k s _ (acquire-Writes tenant key now ttl s);
      respond_valid = λ now status body ttl s.
          Writes-valid k s _ (respond-Writes tenant key now status body ttl s);
      release_valid = λ now s. Writes-valid k s _ (release-Writes tenant key s);
      acquire_apart = λ now later ttl tenant' key' s valid.
          Writes-apart k (memory_key tenant' key') later s _ (acquire-Writes tenant key now ttl s);
      respond_apart = λ now later status body ttl tenant' key' s.
          Writes-apart k (memory_key tenant' key') later s _
            (respond-Writes tenant key now status body ttl s);
      release_apart = λ now later tenant' key' s.
          Writes-apart k (memory_key tenant' key') later s _ (release-Writes tenant key s);
    }

-- The guard in memory, with live contexts, keeps the laws of the interface.
pub memory_guard-IsGuard : IsGuard memory_guard
memory_guard-IsGuard = record {
  serves = served;
  refuses = refused;
  frames = framed;
  view_shared = λ tenant key tenant' key' now s same. ap (λ k. slot_at now (get k s.entries)) same;
}
