-- ===== src/Queue.antt =====
-- internal/queue/stream.go: the in-memory stream queue. Each method is one step under the mutex,
-- but for ReadEvents, which gives the mutex up while it waits.
pub mod Pending
pub mod Redis
pub mod Wire
pub mod Methods
pub mod History
pub mod Soundness
use web_hook_project.Prelude.{
  ℕ, zero, suc, ◌+◌, ◌-◌, ◌/◌, ◌%◌, ◌^◌, Bool, true, false, List, [], ◌∷◌, ◌++◌, Option, none, some,
  Text, codes, ◌==◌, text_eq, if◌then◌else◌, ltb, leb, length, take, drop, Map, get, put, del, min,
  ◌||◌,
}
use web_hook_project.Prelude.Errors.{
  Error, nil_event, empty_stream, empty_group, Result, ok, err, Context, Exec, pure, fail, check,
  ◌>>=◌, ◌>>◌,
}
use web_hook_project.Prelude.Int.{ℤ, pos_part, neg_part, is_positive}
use web_hook_project.Prelude.Sorting.{Ranging}
use web_hook_project.Prelude.Decimal.{decimal}
use web_hook_project.Domain.{Time, or_now, Event, is_empty}

pub record QueueMessage : Type 0 where
  pub id : Text
  pub event_id : Text
  pub tenant_id : Text
  pub event_type : Text
  pub payload : List ℕ
  pub created_at : Time

pub record PendingEntry : Type 0 where
  pub msg : QueueMessage
  pub delivery_time : Time
  pub consumer : Text

-- memGroup; `next_idx` is lastDeliveredIdx + 1, so it is 0 for -1.
pub record Group : Type 0 where
  pub next_idx : ℕ
  pub pending : Map Text PendingEntry

-- memStream; `notify_ch` numbers the channels that were made. A waiter that holds a channel is woken
-- when the number has changed.
pub record Stream : Type 0 where
  pub messages : List QueueMessage
  pub groups : Map Text Group
  pub notify_ch : ℕ

-- `seq` counts the messages; its int64 is taken not to reach 2^63.
pub record MemoryStreamQueue : Type 0 where
  pub streams : Map Text Stream
  pub seq : ℕ

abbrev pub new_memory_stream_queue : MemoryStreamQueue
new_memory_stream_queue = record { streams = []; seq = 0 }

abbrev pub new_stream : Stream
new_stream = record { messages = []; groups = []; notify_ch = 0 }

abbrev pub new_group : ℕ → Group
new_group next = record { next_idx = next; pending = [] }

abbrev pub or_else {ℓ} : {A : Type ℓ} → A → Option A → A
or_else a none = a
or_else a (some b) = b

-- The stream of a name, as getOrCreateStreamLocked finds or makes it.
unfoldable pub stream_of : Text → MemoryStreamQueue → Stream
stream_of name q = or_else new_stream (get name q.streams)

unfoldable pub set_stream : Text → Stream → MemoryStreamQueue → MemoryStreamQueue
set_stream name st q = record q { streams = put name st q.streams }

-- The group that ReadEvents finds, or makes at the start of the stream.
unfoldable pub group_of : Text → Stream → Group
group_of group st = or_else (new_group 0) (get group st.groups)

unfoldable pub set_group : Text → Group → Stream → Stream
set_group group g st = record st { groups = put group g st.groups }

-- now.UnixMilli() of a time after 1970
abbrev pub unix_milli : Time → ℕ
unix_milli now = now / 1_000_000 - 62_135_596_800_000

-- fmt.Sprintf("%d-%d", now.UnixMilli(), m.seq)
unfoldable pub message_id : Time → ℕ → Text
message_id now seq = decimal (unix_milli now) ++ (b'-' ∷ decimal seq)

abbrev pub message_of : Time → Text → Event → QueueMessage
message_of now id e = record {
  id = id;
  event_id = e.id;
  tenant_id = e.tenant_id;
  event_type = e.event_type;
  payload = e.payload;
  created_at = or_now now e.created_at;
}

-- The stream behind a published message; the old channel is closed.
abbrev pub with_message : QueueMessage → Stream → Stream
with_message qm st = record st { messages = st.messages ++ (qm ∷ []); notify_ch = suc st.notify_ch }

unfoldable pub publish_event : Context → Time → Text → Option Event → Exec MemoryStreamQueue Text
publish_event ctx now stream none q = (err nil_event, q)
publish_event ctx now stream (some e) q =
    if is_empty stream
    then (err empty_stream, q)
    else (do
      check ctx
      (λ q.
          let id = message_id now (suc q.seq) in
          (
            ok id,
            set_stream stream (with_message (message_of now id e) (stream_of stream q))
                (record q { seq = suc q.seq }),
          )))
        q

-- `-1` or the last index, one up
unfoldable pub start_index : Text → Stream → ℕ
start_index start st = if start == codes "$" || is_empty start then length st.messages else 0

-- `err := ErrEmptyStream` or `ErrEmptyGroup` for an empty name
abbrev pub named : Text → Text → Exec MemoryStreamQueue (Unit {0})
named stream group =
    if is_empty stream
    then fail empty_stream
    else if is_empty group
    then fail empty_group
    else pure tt

unfoldable pub create_consumer_group :
    Context → Text → Text → Text → Exec MemoryStreamQueue (Unit {0})
create_consumer_group ctx stream group start q =
    (do
      named stream group
      check ctx
      (λ q.
          let st = stream_of stream q in
          elim (get group st.groups) [
            | some g ↦ (ok tt, set_stream stream st q)
            | none ↦
                (ok tt, set_stream stream (set_group group (new_group (start_index start st)) st) q)
          ]))
      q

-- The loop of a read over the messages that it delivers.
unfoldable pub deliver :
    Time → Text → List QueueMessage → Map Text PendingEntry → Map Text PendingEntry
deliver now consumer [] p = p
deliver now consumer (msg ∷ msgs) p =
    deliver now consumer msgs
      (put msg.id (record { msg = msg; delivery_time = now; consumer = consumer }) p)

-- `if count <= 0 { count = 10 }`
abbrev pub count_or_ten : ℤ → ℕ
count_or_ten count = if is_positive count then pos_part count else 10

-- What one look under the mutex delivers: at most `count` messages behind the last index.
abbrev pub batch : ℕ → Stream → Group → List QueueMessage
batch count st g = take count (drop g.next_idx st.messages)

-- One look under the mutex. Messages, if there are new ones, are delivered; the stream and the group
-- exist afterwards in any case.
unfoldable pub read_round :
    Time
    → Text
    → Text
    → Text
    → ℕ
    → MemoryStreamQueue
    → Option (List QueueMessage) × MemoryStreamQueue
read_round now stream group consumer count q =
    let st = stream_of stream q in
    let g = group_of group st in
    let msgs = batch count st g in
    if ltb g.next_idx (length st.messages)
    then (
      some msgs,
      set_stream stream
          (set_group group
            (record {
              next_idx = g.next_idx + length msgs;
              pending = deliver now consumer msgs g.pending;
            })
            st)
          q,
    )
    else (none, set_stream stream (set_group group g st) q)

-- How a wait ends: the deadline passes, the context ends, or a message is published. In the last
-- case the other threads have made a new queue, and the loop starts again.
pub data Wait : Type 0 where
  timed_out : Wait
  context_done : Error → Wait
  notified : Context → Time → (MemoryStreamQueue → MemoryStreamQueue) → Wait

-- The loop of ReadEvents, over the waits that the schedule brings; a schedule that ends is one in
-- which the deadline passes.
unfoldable pub read_loop :
    Text
    → Text
    → Text
    → ℕ
    → ℤ
    → Context
    → Time
    → List Wait
    → Exec MemoryStreamQueue (List QueueMessage)
read_loop stream group consumer count block (some e) now ws q = (err e, q)
read_loop stream group consumer count block none now [] q =
    let (found, q') = read_round now stream group consumer count q in (ok (or_else [] found), q')
read_loop stream group consumer count block none now (w ∷ ws) q =
    let (found, q') = read_round now stream group consumer count q in
    elim found [
      | some msgs ↦ (ok msgs, q')
      | none ↦
          if is_positive block
          then (elim w [
            | timed_out ↦ (ok [], q')
            | context_done e ↦ (err e, q')
            | notified ctx later others ↦
                read_loop stream group consumer count block ctx later ws (others q')
          ])
          else (ok [], q')
    ]

unfoldable pub read_events :
    Text
    → Text
    → Text
    → ℤ
    → ℤ
    → Context
    → Time
    → List Wait
    → Exec MemoryStreamQueue (List QueueMessage)
read_events stream group consumer count block ctx now ws =
    named stream group >> read_loop stream group consumer (count_or_ten count) block ctx now ws

-- `for _, id := range messageIDs { delete(grp.pending, id) }`
unfoldable pub drop_all : List Text → Map Text PendingEntry → Map Text PendingEntry
drop_all [] p = p
drop_all (id ∷ ids) p = drop_all ids (del id p)

unfoldable pub ack_locked : Text → Text → List Text → Exec MemoryStreamQueue (Unit {0})
ack_locked stream group ids q = elim (get stream q.streams) [
  | none ↦ (ok tt, q)
  | some st ↦ elim (get group st.groups) [
    | none ↦ (ok tt, q)
    | some g ↦ (
      ok tt,
      set_stream stream (set_group group (record g { pending = drop_all ids g.pending }) st) q,
    )
  ]
]

unfoldable pub ack_event : Context → Text → Text → List Text → Exec MemoryStreamQueue (Unit {0})
ack_event ctx stream group [] q = (ok tt, q)
ack_event ctx stream group (id ∷ ids) q =
    (do named stream group; check ctx; ack_locked stream group (id ∷ ids)) q

-- now.Sub(entry.deliveryTime) >= minIdle
abbrev pub is_idle : Time → ℤ → PendingEntry → Bool
is_idle now min_idle e = leb (e.delivery_time + pos_part min_idle) (now + neg_part min_idle)

-- The loop of AutoClaim over the entries in the order of visits; it stops when `count` are claimed.
unfoldable pub claim :
    Time
    → ℤ
    → Text
    → ℕ
    → List (Text × PendingEntry)
    → Map Text PendingEntry
    → List QueueMessage × Map Text PendingEntry
claim now min_idle consumer zero es p = ([], p)
claim now min_idle consumer (suc n) [] p = ([], p)
claim now min_idle consumer (suc n) ((id, e) ∷ es) p =
    let taken =
      claim now min_idle consumer n es
        (put id (record e { delivery_time = now; consumer = consumer }) p) in
    let passed = claim now min_idle consumer (suc n) es p in
    if is_idle now min_idle e then (e.msg ∷ taken.0, taken.1) else passed

unfoldable pub auto_claim :
    Ranging (Text × PendingEntry)
    → Context
    → Time
    → Text
    → Text
    → Text
    → ℤ
    → ℤ
    → Exec MemoryStreamQueue (List QueueMessage × Text)
auto_claim r ctx now stream group consumer min_idle count q =
    (do
      named stream group
      check ctx
      (λ q. elim (get stream q.streams) [
        | none ↦ (ok ([], codes "0-0"), q)
        | some st ↦ elim (get group st.groups) [
          | none ↦ (ok ([], codes "0-0"), q)
          | some g ↦
              let (claimed, p) =
                claim now min_idle consumer (count_or_ten count) (r.visit g.pending) g.pending in
              (
                ok (claimed, codes "0-0"),
                set_stream stream (set_group group (record g { pending = p }) st) q,
              )
        ]
      ]))
      q
