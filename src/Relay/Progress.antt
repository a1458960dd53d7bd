-- ===== src/Relay/Progress.antt =====
-- The relay with contexts that have not ended: which rows a batch publishes.
use web_hook_project.Prelude.{
  ℕ, zero, suc, ◌+◌, ◌≤◌, ◌<◌, true, false, List, [], ◌∷◌, ◌++◌, none, some, ◌≡◌, refl, sym, subst,
  ap, ◌∙◌, arith, get, values, keep, drop, take, Text, text_eq, nat_eq, length, map, All,
  append_assoc, append-nil, take-append-drop,
}
use web_hook_project.Prelude.Errors.{ok}
use web_hook_project.Prelude.Int.{ℤ, pos}
use web_hook_project.Domain.{Time, Event, OutboxEvent, is_empty}
use web_hook_project.Storage.{
  MemoryRepository, get_event, mark_outbox_published, is_pending_row, limited,
}
use web_hook_project.Storage.Rows.{RisingRows, values-RisingRows, keep-RisingRows}
use web_hook_project.Storage.Invariant.{IsValid}
use web_hook_project.Storage.Outbox.{is_other, pending-put, values-own, All-keep}
use web_hook_project.Queue.{publish_event}
use web_hook_project.Relay.{
  System, Turn, process_row, process_rows, Counted, Moment, process_next_batch, batch_or_hundred,
}
use web_hook_project.Relay.Outcomes.{event_ids, enqueued}
use web_hook_project.Relay.Safety.{with_mark, with_mark-IsValid, event_ids-enqueued}
use web_hook_project.Relay.Batch.{rest, process_rows_cons, batch_rows, batch_live}

pub record IsLiveTurn (t : Turn) : Type 0 where
  pub loops : t.at_loop ≡ none
  pub gets : t.at_get ≡ none
  pub publishes : t.at_publish ≡ none
  pub marks : t.at_mark ≡ none

pub record IsLive (t : Moment) : Type 0 where
  pub starts : t.at_start ≡ none
  pub fetches : t.at_fetch ≡ none
  pub turns : (ob : OutboxEvent) → IsLiveTurn (t.turn ob)

abbrev pub relayed : Text → Turn → OutboxEvent → Event → OutboxEvent → System → System
relayed stream t ob x row s = record {
  repo = with_mark t.mark_time ob.id row s.repo;
  queue = enqueued stream t.publish_time x s.queue;
}

pub row_moves :
    (stream : Text) (t : Turn) (ob row : OutboxEvent) (x : Event) (s : System)
    → is_empty stream ≡ false
    → IsLiveTurn t
    → get ob.event_id s.repo.events ≡ some x
    → get ob.id s.repo.outbox_events ≡ some row
    → process_row stream t ob s ≡ (ok true, relayed stream t ob x row s)
unfolding process_row get_event publish_event mark_outbox_published
row_moves stream t ob row x s full live stored held =
    ground (arith, live.loops, live.gets, live.publishes, live.marks)

-- The rows behind the first pending one have other ids.
others-head :
    (lo : ℕ) (id : ℕ) (rows : List OutboxEvent)
    → id ≤ lo
    → RisingRows lo rows
    → keep (is_other id) rows ≡ rows
unfolding keep
others-head lo id [] le h = refl
others-head lo id (ob ∷ rows) le h =
    ground (arith, others-head ob.id id rows (omega (arith, h.0)) h.2)

-- The pending rows, split into those at hand and the others.
abbrev Splits : List OutboxEvent → List OutboxEvent → MemoryRepository → Type 0
Splits obs others m = obs ++ others ≡ keep is_pending_row (values m.outbox_events)

module _ (ob : OutboxEvent) (rows : List OutboxEvent) (m : MemoryRepository) (v : IsValid m)
    (e : ob ∷ rows ≡ keep is_pending_row (values m.outbox_events)) where
  first-stored : get ob.id m.outbox_events ≡ some ob
  first-stored =
      let P : OutboxEvent → Type 0 = λ ob. (0 < ob.id) × (get ob.id m.outbox_events ≡ some ob) in
      let own =
        All-keep P is_pending_row (values m.outbox_events)
          (values-own 0 m.next_outbox_id m.outbox_events v.rising) in
      (subst (All P) (sym e) own).0.1

  rows-rising : RisingRows 0 (ob ∷ rows)
  rows-rising = subst (RisingRows 0) (sym e) (
      keep-RisingRows is_pending_row 0 (values m.outbox_events)
        (values-RisingRows 0 m.next_outbox_id m.outbox_events v.rising v.bounded))

  others-pending :
      (now : Time) → keep is_pending_row (values (with_mark now ob.id ob m).outbox_events) ≡ rows
  unfolding keep
  others-pending now =
      pending-put 0 m.next_outbox_id ob.id now ob m.outbox_events v.rising first-stored
      ∙ ap (keep (is_other ob.id)) (sym e)
      ∙ ground (arith, others-head ob.id ob.id rows, rows-rising)

-- What the loop makes of rows that are the first pending ones.
abbrev Moved : Text → List OutboxEvent → List OutboxEvent → ℕ → System → Counted × System → Type 0
Moved stream obs others n s (c, s') =
    (c ≡ (n + length obs, none))
    × (keep is_pending_row (values s'.repo.outbox_events) ≡ others)
    × (event_ids stream s'.queue ≡ event_ids stream s.queue ++ map (λ ob. ob.event_id) obs)
    × (s'.repo.events ≡ s.repo.events)

rows-Moved :
    (stream : Text) (turn : OutboxEvent → Turn) (obs others : List OutboxEvent) (n : ℕ) (s : System)
    → is_empty stream ≡ false
    → ((ob : OutboxEvent) → IsLiveTurn (turn ob))
    → IsValid s.repo
    → Splits obs others s.repo
    → Moved stream obs others n s (process_rows stream turn obs n s)
unfolding process_rows
rows-Moved stream turn [] others n s full live v e =
    let sum : n ≡ n + 0 = omega arith in
    (ap (λ k. (k, none)) sum, sym e, sym (append-nil (event_ids stream s.queue)), refl)
rows-Moved stream turn (ob ∷ obs) others n s full live v e =
    let held = first-stored ob (obs ++ others) s.repo v e in
    let (x, stored) = v.backed ob.id ob held in
    let t = turn ob in
    let s' = relayed stream t ob x ob s in
    let moved = row_moves stream t ob ob x s full (live ob) stored held in
    let behind =
      rows-Moved stream turn obs others (suc n) s' full live
        (with_mark-IsValid t.mark_time ob.id ob s.repo v held)
        (sym (others-pending ob (obs ++ others) s.repo v e t.mark_time)) in
    let path =
      process_rows_cons stream turn ob obs n s ∙ ap (λ p. rest stream turn obs n p) moved in
    let ids =
      behind.2
      ∙ ap (λ l. l ++ map (λ ob. ob.event_id) obs)
          (event_ids-enqueued stream t.publish_time x s.queue)
      ∙ append_assoc (event_ids stream s.queue) (x.id ∷ []) (map (λ ob. ob.event_id) obs)
      ∙ ap (λ id. event_ids stream s.queue ++ (id ∷ map (λ ob. ob.event_id) obs))
          (v.named ob.event_id x stored) in
    let count : suc n + length obs ≡ n + suc (length obs) = omega arith in
    subst (Moved stream (ob ∷ obs) others n s) (sym path)
      (behind.0 ∙ ap (λ k. (k, none)) count, behind.1, ids, behind.3)

pub batch_rows-take :
    (size : ℤ) (s : System)
    → batch_rows size s
      ≡ take (batch_or_hundred size) (keep is_pending_row (values s.repo.outbox_events))
unfolding limited batch_or_hundred
batch_rows-take (pos zero) s = refl
batch_rows-take (pos (suc n)) s = refl
batch_rows-take (ℤ.negsuc n) s = refl

-- With contexts that have not ended and a stream with a name, a batch over a valid repository
-- publishes the first pending rows, as many as the batch size allows (100 for a size that is not
-- positive): it returns their number and no error; the rows behind them are the pending rows
-- afterwards; the messages of their events, in the order of the rows, are added to the stream; and
-- the events are not changed.
pub process_next_batch_lem :
    (stream : Text) (t : Moment) (size : ℤ) (s : System)
    → is_empty stream ≡ false
    → IsLive t
    → IsValid s.repo
    → let (counted, s') = process_next_batch stream t size s in
      let pending = keep is_pending_row (values s.repo.outbox_events) in
      let rows = take (batch_or_hundred size) pending in
      (counted ≡ (length rows, none))
      × (keep is_pending_row (values s'.repo.outbox_events) ≡ drop (batch_or_hundred size) pending)
      × (event_ids stream s'.queue ≡ event_ids stream s.queue ++ map (λ ob. ob.event_id) rows)
      × (s'.repo.events ≡ s.repo.events)
process_next_batch_lem stream t size s full live v =
    let pending = keep is_pending_row (values s.repo.outbox_events) in
    let n = batch_or_hundred size in
    let done =
      subst (Moved stream (take n pending) (drop n pending) 0 s)
        (sym (
          batch_live stream t size s v live.starts live.fetches
          ∙ ap (λ rows. process_rows stream t.turn rows 0 s) (batch_rows-take size s)))
        (rows-Moved stream t.turn (take n pending) (drop n pending) 0 s full live.turns v
          (take-append-drop n pending)) in
    let sum : 0 + length (take n pending) ≡ length (take n pending) = omega arith in
    (done.0 ∙ ap (λ k. (k, none)) sum, done.1, done.2, done.3)
