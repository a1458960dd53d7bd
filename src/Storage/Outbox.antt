-- ===== src/Storage/Outbox.antt =====
-- Which rows FetchAndLockPendingOutbox returns, and what a published mark changes.
use web_hook_project.Prelude.{
  ℕ, zero, suc, ◌≤◌, ◌<◌, Bool, true, false, List, [], ◌∷◌, none, some, ◌≡◌, ◌⊎◌, inl, inr, refl,
  ap, ◌∙◌, arith, Map, get, put, values, Bool-cases, text_eq, nat_eq, if◌then◌else◌, Option-cases,
  length, take, keep, All, All-map, length-take, ◌==◌,
}
use web_hook_project.Prelude.Errors.{ok, err, not_found}
use web_hook_project.Prelude.Int.{ℤ, pos, pos_part, is_positive}
use web_hook_project.Prelude.Sorting.{Ranging}
use web_hook_project.Domain.{Time, OutboxEvent, OutboxStatus}
use web_hook_project.Storage.{
  MemoryRepository, fetch_and_lock_pending_outbox, mark_outbox_published, limited, is_pending_row,
}
use web_hook_project.Storage.Rows.{Rising, sort_slice-rows}
use web_hook_project.Storage.Invariant.{IsValid}
use web_hook_project.Storage.Updates.{mark_outbox_published-IsValid}

-- In a valid repository and with a live context, whatever the order in which Go visits the map, a fetch
-- returns the pending rows in the order of their ids, cut off at the limit, and changes nothing.
pub fetch-pending :
    (r : Ranging OutboxEvent) (limit : ℤ) (m : MemoryRepository)
    → IsValid m
    → fetch_and_lock_pending_outbox r none limit m
      ≡ (ok (limited limit (keep is_pending_row (values m.outbox_events))), m)
unfolding fetch_and_lock_pending_outbox
fetch-pending r limit m v =
    rw (sort_slice-rows is_pending_row r m.next_outbox_id m.outbox_events v.rising v.bounded)

abbrev pub mark_row : Time → OutboxEvent → OutboxEvent
mark_row now ob = record ob { status = OutboxStatus.published; processed_at = some now }

pub mark_cases :
    (now : Time) (id : ℕ) (m : MemoryRepository)
    → ((get id m.outbox_events ≡ none) × (mark_outbox_published none now id m ≡ (err not_found, m)))
      ⊎ ((ob : OutboxEvent) × (get id m.outbox_events ≡ some ob)
          × (mark_outbox_published none now id m
              ≡ (ok tt, record m { outbox_events = put id (mark_row now ob) m.outbox_events })))
unfolding mark_outbox_published
mark_cases now id m = elim (Option-cases (get id m.outbox_events)) [
  | inl missing ↦ inl (missing, rw missing)
  | inr (ob, stored) ↦ inr (ob, stored, rw stored)
]

-- The pending rows without the one with this id.
abbrev pub is_other : ℕ → OutboxEvent → Bool
is_other id ob = if ob.id == id then false else true

keep-other-below :
    (lo hi id : ℕ) (m : Map ℕ OutboxEvent)
    → Rising lo hi m
    → id ≤ lo
    → keep (is_other id) (keep is_pending_row (values m)) ≡ keep is_pending_row (values m)
unfolding keep
keep-other-below lo hi id [] h le = refl
keep-other-below lo hi id ((k, ob) ∷ m) h le = ground (arith, keep-other-below k hi id m h.2)

pub pending-put :
    (lo hi id : ℕ) (now : Time) (ob : OutboxEvent) (m : Map ℕ OutboxEvent)
    → Rising lo hi m
    → get id m ≡ some ob
    → keep is_pending_row (values (put id (mark_row now ob) m))
      ≡ keep (is_other id) (keep is_pending_row (values m))
unfolding keep get put
pending-put lo hi id now ob [] h g = cc
pending-put lo hi id now ob ((k, x) ∷ m) h g =
    ground (arith, pending-put k hi id now ob m h.2, keep-other-below k hi id m h.2)

-- In a valid repository and with live contexts, marking a row that exists succeeds, and the fetches after
-- it return what they did without the row.
pub fetch-mark :
    (r : Ranging OutboxEvent) (limit : ℤ) (now : Time) (id : ℕ) (ob : OutboxEvent)
    (m : MemoryRepository)
    → IsValid m
    → get id m.outbox_events ≡ some ob
    → let (done, m') = mark_outbox_published none now id m in
      (done ≡ ok tt)
      × (fetch_and_lock_pending_outbox r none limit m' ≡ (
        ok (limited limit (keep (is_other id) (keep is_pending_row (values m.outbox_events)))),
        m',
      ))
fetch-mark r limit now id ob m v held = elim (mark_cases now id m) [
  | inl (missing, _) ↦ absurd (cc)
  | inr (x, stored, marked) ↦ (
    rw marked,
    fetch-pending r limit (mark_outbox_published none now id m).1
          (mark_outbox_published-IsValid none now id m v)
        ∙ ap (λ rows. (ok (limited limit rows), (mark_outbox_published none now id m).1))
            (rw marked (pending-put 0 m.next_outbox_id id now x m.outbox_events v.rising stored)),
  )
]

-- A fetch returns at most `limit` rows, when the limit is positive.
pub length-limited {ℓ} :
    {A : Type ℓ} (n : ℕ) (xs : List A) → length (limited (pos (suc n)) xs) ≤ suc n
unfolding limited
length-limited n xs = omega (arith, length-take (suc n) xs)

-- Each row stands under its own id.
pub values-own :
    (lo hi : ℕ) (m : Map ℕ OutboxEvent)
    → Rising lo hi m
    → All (λ ob. (lo < ob.id) × (get ob.id m ≡ some ob)) (values m)
unfolding get
values-own lo hi [] h = tt
values-own lo hi ((k, ob) ∷ m) h = (
  ground arith,
  All-map (λ x. (k < x.id) × (get x.id m ≡ some x))
      (λ x. (lo < x.id) × (get x.id ((k, ob) ∷ m) ≡ some x)) (λ x p. ground arith) (values m)
      (values-own k hi m h.2),
)

module _ {ℓ κ} {A : Type ℓ} (P : A → Type κ) where
  pub All-keep : (p : A → Bool) (xs : List A) → All P xs → All P (keep p xs)
  unfolding keep
  All-keep p [] h = tt
  All-keep p (x ∷ xs) h = elim (Bool-cases (p x)) [
    | inl passes ↦ rw passes (h.0, All-keep p xs h.1)
    | inr fails ↦ rw fails (All-keep p xs h.1)
  ]

  All-take : (n : ℕ) (xs : List A) → All P xs → All P (take n xs)
  All-take zero xs h = tt
  All-take (suc n) [] h = tt
  All-take (suc n) (x ∷ xs) h = (h.0, All-take n xs h.1)

  pub All-limited : (limit : ℤ) (xs : List A) → All P xs → All P (limited limit xs)
  unfolding limited
  All-limited limit xs h = elim (Bool-cases (is_positive limit)) [
    | inl passes ↦ rw passes (All-take (pos_part limit) xs h)
    | inr fails ↦ rw fails h
  ]
