-- ===== src/Relay/Batch.antt =====
-- The relay's loop and its batches, on every path.
use web_hook_project.Prelude.{
  ℕ, suc, Bool, true, false, List, [], ◌∷◌, none, some, ◌≡◌, inl, inr, refl, sym, subst, ap, ◌∙◌,
  arith, get, Text, text_eq, nat_eq, Option-cases, All, All-map, values, keep, ◌<◌,
}
use web_hook_project.Prelude.Errors.{Error, Result, ok, err, wrap}
use web_hook_project.Prelude.Int.{ℤ, pos}
use web_hook_project.Domain.{OutboxEvent}
use web_hook_project.Storage.{fetch_and_lock_pending_outbox, limited, is_pending_row}
use web_hook_project.Storage.Invariant.{IsValid}
use web_hook_project.Storage.Outbox.{fetch-pending, values-own, All-keep, All-limited}
use web_hook_project.Relay.{
  System, work, on_repo, Turn, process_row, process_rows, Counted, Moment, process_next_batch,
  batch_or_hundred,
}
use web_hook_project.Relay.Outcomes.{process_row-Outcome}
use web_hook_project.Relay.Safety.{IsSafe, Known, outcome-IsSafe}

-- What the loop does behind one row.
abbrev pub rest :
    Text → (OutboxEvent → Turn) → List OutboxEvent → ℕ → Result Bool × System → Counted × System
rest stream turn obs n (err e, s) = ((n, some e), s)
rest stream turn obs n (ok true, s) = process_rows stream turn obs (suc n) s
rest stream turn obs n (ok false, s) = process_rows stream turn obs n s

rest_lem :
    (stream : Text) (turn : OutboxEvent → Turn) (obs : List OutboxEvent) (n : ℕ)
    (p : Result Bool × System)
    → (elim p.0 as (λ _. Counted × System) [
      | err e ↦ ((n, some e), p.1)
      | ok true ↦ process_rows stream turn obs (suc n) p.1
      | ok false ↦ process_rows stream turn obs n p.1
    ])
      ≡ rest stream turn obs n p
rest_lem stream turn obs n (err e, s) = refl
rest_lem stream turn obs n (ok true, s) = refl
rest_lem stream turn obs n (ok false, s) = refl

pub process_rows_cons :
    (stream : Text) (turn : OutboxEvent → Turn) (ob : OutboxEvent) (obs : List OutboxEvent) (n : ℕ)
    (s : System)
    → process_rows stream turn (ob ∷ obs) n s
      ≡ rest stream turn obs n (process_row stream (turn ob) ob s)
unfolding process_rows
process_rows_cons stream turn ob obs n s =
    rest_lem stream turn obs n (process_row stream (turn ob) ob s)

-- The step of the next proof, on what the calls for the first row came to.
rest-IsSafe :
    (stream : Text) (turn : OutboxEvent → Turn) (obs : List OutboxEvent) (n : ℕ)
    (p : Result Bool × System)
    → ((k : ℕ) → IsSafe stream (process_rows stream turn obs k p.1).1)
    → IsSafe stream p.1
    → IsSafe stream (rest stream turn obs n p).1
rest-IsSafe stream turn obs n (err e, s) ih h = h
rest-IsSafe stream turn obs n (ok true, s) ih h = ih (suc n)
rest-IsSafe stream turn obs n (ok false, s) ih h = ih n

rows-IsSafe :
    (stream : Text) (turn : OutboxEvent → Turn) (obs : List OutboxEvent) (n : ℕ) (s : System)
    → IsSafe stream s
    → All (Known s.repo) obs
    → IsSafe stream (process_rows stream turn obs n s).1
unfolding process_rows
rows-IsSafe stream turn [] n s h k = h
rows-IsSafe stream turn (ob ∷ obs) n s h k =
    let r = process_row stream (turn ob) ob s in
    let (safe, keeps) =
      outcome-IsSafe stream (turn ob) ob s r (process_row-Outcome stream (turn ob) ob s) h k.0 in
    let known = All-map (Known s.repo) (Known r.1.repo) keeps obs k.1 in
    subst (λ p. IsSafe stream p.1) (sym (process_rows_cons stream turn ob obs n s))
      (rest-IsSafe stream turn obs n r (λ k. rows-IsSafe stream turn obs k r.1 safe known) safe)

-- The rows that a batch works on.
abbrev pub batch_rows : ℤ → System → List OutboxEvent
batch_rows size s =
    limited (pos (batch_or_hundred size)) (keep is_pending_row (values s.repo.outbox_events))

work_lem :
    (stream : Text) (turn : OutboxEvent → Turn) (rows : List OutboxEvent) (s : System)
    → work stream turn (ok rows, s) ≡ process_rows stream turn rows 0 s
unfolding process_rows
work_lem stream turn [] s = refl
work_lem stream turn (ob ∷ obs) s = refl

started :
    (stream : Text) (t : Moment) (size : ℤ) (s : System)
    → t.at_start ≡ none
    → process_next_batch stream t size s
      ≡ work stream t.turn (
          on_repo
            (fetch_and_lock_pending_outbox t.visits t.at_fetch (pos (batch_or_hundred size)))
            s)
unfolding process_next_batch
started stream t size s live = ground arith

-- A batch whose fetch succeeds is the loop over those rows.
pub batch_live :
    (stream : Text) (t : Moment) (size : ℤ) (s : System)
    → IsValid s.repo
    → t.at_start ≡ none
    → t.at_fetch ≡ none
    → process_next_batch stream t size s ≡ process_rows stream t.turn (batch_rows size s) 0 s
batch_live stream t size s v live fetches =
    started stream t size s live
    ∙ ap
        (λ ctx.
          work stream t.turn
            (on_repo (fetch_and_lock_pending_outbox t.visits ctx (pos (batch_or_hundred size))) s))
        fetches
    ∙ ap (λ p. work stream t.turn (p.0, record s { repo = p.1 }))
        (fetch-pending t.visits (pos (batch_or_hundred size)) s.repo v)
    ∙ work_lem stream t.turn (batch_rows size s) s

batch_ended :
    (stream : Text) (t : Moment) (size : ℤ) (s : System) (e : Error)
    → t.at_start ≡ none
    → t.at_fetch ≡ some e
    → process_next_batch stream t size s
      ≡ ((0, some (wrap "failed to fetch pending outbox events" e)), s)
unfolding process_next_batch fetch_and_lock_pending_outbox
batch_ended stream t size s e live ended = ground arith

pub batch_rows-Known :
    (size : ℤ) (s : System) → IsValid s.repo → All (Known s.repo) (batch_rows size s)
batch_rows-Known size s v =
    let rows = values s.repo.outbox_events in
    let own =
      All-map (λ ob. (0 < ob.id) × (get ob.id s.repo.outbox_events ≡ some ob)) (Known s.repo)
        (λ ob p. (ob, p.1, refl)) rows
        (values-own 0 s.repo.next_outbox_id s.repo.outbox_events v.rising) in
    All-limited (Known s.repo) (pos (batch_or_hundred size)) (keep is_pending_row rows)
      (All-keep (Known s.repo) is_pending_row rows own)

-- A batch, whatever its contexts, times and map orders are and wherever it fails, keeps the
-- repository valid; and every published row's event is in a message of the stream if that was so
-- before the batch.
pub process_next_batch-IsSafe :
    (stream : Text) (t : Moment) (size : ℤ) (s : System)
    → IsSafe stream s
    → IsSafe stream (process_next_batch stream t size s).1
unfolding process_next_batch
process_next_batch-IsSafe stream t size s h = elim (Option-cases t.at_start) [
  | inr (e, ended) ↦ rw ended h
  | inl live ↦ elim (Option-cases t.at_fetch) [
    | inr (e, ended) ↦
        subst (λ p. IsSafe stream p.1) (sym (batch_ended stream t size s e live ended)) h
    | inl fetches ↦
        subst (λ p. IsSafe stream p.1) (sym (batch_live stream t size s h.valid live fetches))
          (rows-IsSafe stream t.turn (batch_rows size s) 0 s h (batch_rows-Known size s h.valid))
  ]
]
