-- ===== src/Queue/Wire.antt =====
-- internal/queue/stream.go: what RedisStreamQueue writes to a stream, it reads.
use web_hook_project.Prelude.{
  Bool, false, List, [], ◌∷◌, map, append-nil, Option, some, Text, codes, text_eq, text_beq, get,
  ◌≡◌, refl, ap, ◌∙◌,
}
use web_hook_project.Prelude.Errors.{Error, ok}
use web_hook_project.Prelude.Int.{ℤ}
use web_hook_project.Domain.{Time, Event, is_empty}
use web_hook_project.Queue.{QueueMessage, message_of}
use web_hook_project.Queue.Redis.{
  XMessage, StreamsClient, RedisStreamQueue, or_ten, values_of, parse_redis_message, parse_streams,
  read_events,
}

-- An event that was published at a time, and the id that its entry was given.
pub record Published : Type 0 where
  pub now : Time
  pub id : Text
  pub event : Event

abbrev pub kept_message : Published → QueueMessage
kept_message p = message_of p.now p.id p.event

module _ (format : Time → Text) (parse_nano parse_seconds : Text → Option Time)
    (says_busy_group : Error → Bool)
    (format_parses : (t : Time) → parse_nano (format t) ≡ some t) where
  abbrev pub entry_of : Published → XMessage
  entry_of p = record {
    id = p.id;
    values = values_of format parse_nano parse_seconds says_busy_group p.now p.event;
  }

  parse_entry :
      (p : Published)
      → parse_redis_message format parse_nano parse_seconds says_busy_group (entry_of p)
        ≡ kept_message p
  unfolding parse_redis_message values_of get text_beq
  parse_entry p = rw (format_parses _) refl

  parse_entries :
      (ps : List Published)
      → map (parse_redis_message format parse_nano parse_seconds says_busy_group) (map entry_of ps)
        ≡ map kept_message ps
  parse_entries [] = refl
  parse_entries (p ∷ ps) = rw (parse_entry p) (ap (◌∷◌ (kept_message p)) (parse_entries ps))

  -- Where the server gives the entries of published events, ReadEvents gives the messages that the
  -- in-memory queue keeps of them.
  pub read_published :
      (client : StreamsClient) (q : RedisStreamQueue) (stream group consumer : Text)
      (count block : ℤ) (ps : List Published) (s s' : client.Server)
      → is_empty stream ≡ false
      → is_empty group ≡ false
      → client.x_read_group
          (record {
            group = group;
            consumer = consumer;
            streams = stream ∷ codes ">" ∷ [];
            count = or_ten count;
            block = block;
          })
          s
        ≡ (ok ((stream, map entry_of ps) ∷ []), s')
      → read_events format parse_nano parse_seconds says_busy_group client q stream group consumer
          count block s
        ≡ (ok (map kept_message ps), s')
  unfolding read_events parse_streams
  read_published client q stream group consumer count block ps s s' named grouped answer =
      let parsed = append-nil _ ∙ parse_entries ps in
      rw (named, grouped, answer) (ap (λ msgs. (ok msgs, s')) parsed)
