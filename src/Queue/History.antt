-- ===== src/Queue/History.antt =====
-- One stream and one consumer group under any interleaving of publications, reads, acknowledgements,
-- claims and group creations, by any consumers.
use web_hook_project.Prelude.{
  codes, ℕ, ◌≤◌, true, ◌||◌, List, [], ◌∷◌, ◌++◌, Option, none, some, ◌≡◌, get, Text, text_eq,
  length, take,
}
use web_hook_project.Prelude.Errors.{Result, ok, err, Context}
use web_hook_project.Prelude.Int.{ℤ}
use web_hook_project.Prelude.Sorting.{Ranging}
use web_hook_project.Domain.{Time, Event}
use web_hook_project.Queue.{
  QueueMessage, PendingEntry, Stream, Group, MemoryStreamQueue, publish_event,
  create_consumer_group, read_round, ack_event, auto_claim, or_else,
}
use web_hook_project.Queue.Pending.{held, among, listed}

pub data Op : Type 0 where
  publishes : Context → Time → Option Event → Op
  reads : Time → Text → ℕ → Op
  acks : Context → List Text → Op
  claims : Ranging (Text × PendingEntry) → Context → Time → Text → ℤ → ℤ → Op
  creates : Context → Text → Op

-- The queue, the messages that reads have returned, and the ids that were acknowledged.
pub record Trace : Type 0 where
  pub queue : MemoryStreamQueue
  pub delivered : List QueueMessage
  pub acked : List Text

abbrev pub succeeded {ℓ} : {A : Type ℓ} → Result A → List Text → List Text
succeeded (ok a) ids = ids
succeeded (err e) ids = []

-- A stream and a group with names that are not empty.
module _ (s g : Text) where
  unfoldable pub step : Op → Trace → Trace
  step (publishes ctx now e) t = record t { queue = (publish_event ctx now s e t.queue).1 }
  step (reads now consumer count) t =
      let (found, q) = read_round now s g consumer count t.queue in
      record t { queue = q; delivered = t.delivered ++ or_else [] found }
  step (acks ctx ids) t =
      let (r, q) = ack_event ctx s g ids t.queue in
      record t { queue = q; acked = succeeded r ids ++ t.acked }
  step (claims r ctx now consumer min_idle count) t = record t {
    queue = (auto_claim r ctx now s g consumer min_idle count t.queue).1;
  }
  step (creates ctx start) t = record t { queue = (create_consumer_group ctx s g start t.queue).1 }

  unfoldable pub run : List Op → Trace → Trace
  run [] t = t
  run (op ∷ ops) t = run ops (step op t)

  -- A trace that begins with a new group at the start of the stream.
  abbrev pub begun : MemoryStreamQueue → Trace
  begun q = record {
    queue = (create_consumer_group none s g (codes "0") q).1;
    delivered = [];
    acked = [];
  }

  -- The messages that reads returned are those from `start` to the last index, in the order in which
  -- they were published; and each is pending unless its id was acknowledged.
  pub record IsSound (start : ℕ) (t : Trace) : Type 0 where
    pub st : Stream
    pub gr : Group
    pub at_stream : get s t.queue.streams ≡ some st
    pub at_group : get g st.groups ≡ some gr
    pub in_order : take start st.messages ++ t.delivered ≡ take gr.next_idx st.messages
    pub started : start ≤ gr.next_idx
    pub cursor : gr.next_idx ≤ length st.messages
    pub unacked :
        (j : Text) → among j t.delivered ≡ true → (held j gr.pending || listed j t.acked) ≡ true
