-- ===== src/Worker/Claims.antt =====
-- internal/worker/pool.go: how often a claimed message is delivered.
use web_hook_project.Prelude.{
  ℕ, suc, ◌+◌, false, List, [], ◌∷◌, none, some, ◌≡◌, ◌∙◌, arith, Map, get, put, get-put, Text,
  text_eq, text_beq_iff, ◌==◌, if◌then◌else◌, leb, ap, refl, true, inl, inr, Bool-cases, nat_eq,
}
use web_hook_project.Prelude.Errors.{Context}
use web_hook_project.Prelude.Int.{ℤ, pos, ltb_ℤ}
use web_hook_project.Domain.{Event, EventStatus, is_empty}
use web_hook_project.Queue.{QueueMessage, Group, Stream, set_stream, set_group, drop_all}
use web_hook_project.Relay.{System}
use web_hook_project.Worker.{Config, MessageTurn, Handled, handle_message, handle_claimed, count_of}
use web_hook_project.Worker.Recovery.{handle_claimed-poison}

-- A message that the recovery loop claimed: what it met, and the system at that time.
pub record Claim : Type 0 where
  pub message : QueueMessage
  pub turn : MessageTurn
  pub at_update : Context
  pub at_ack : Context
  pub system : System

-- How often a message was claimed.
unfoldable pub times_claimed : Text → List Claim → ℕ
times_claimed id [] = 0
times_claimed id (x ∷ xs) = (if x.message.id == id then 1 else 0) + times_claimed id xs

module _ (hmac_hex : Text → Text → Text) (status_text : ℕ → Text) (max_retries : ℤ) where
  -- The counts that the claims leave, whatever happened to the system between them.
  unfoldable pub counts_after : Config → List Claim → Map Text ℕ → Map Text ℕ
  counts_after c [] counts = counts
  counts_after c (x ∷ xs) counts =
      counts_after c xs
        (handle_claimed hmac_hex status_text max_retries c x.turn x.at_update x.at_ack x.message
          counts x.system).1

  abbrev count : Text → Map Text ℕ → ℕ
  count id counts = count_of hmac_hex status_text max_retries id counts

  count-handle_claimed :
      (c : Config) (x : Claim) (id : Text) (counts : Map Text ℕ)
      → count id
          (handle_claimed hmac_hex status_text max_retries c x.turn x.at_update x.at_ack x.message
            counts x.system).1
        ≡ count id counts + (if x.message.id == id then 1 else 0)
  unfolding handle_claimed
  count-handle_claimed c x id counts = ground (
    arith,
    get-put x.message.id id (suc (count x.message.id counts)) counts,
    text_beq_iff x.message.id id,
    text_beq_iff id x.message.id,
  )

  count-counts_after :
      (c : Config) (past : List Claim) (id : Text) (counts : Map Text ℕ)
      → count id (counts_after c past counts) ≡ count id counts + times_claimed id past
  unfolding counts_after times_claimed
  count-counts_after c [] id counts = omega arith
  count-counts_after c (x ∷ xs) id counts =
      let counts' =
        (handle_claimed hmac_hex status_text max_retries c x.turn x.at_update x.at_ack x.message
          counts x.system).1 in
      omega (arith, count-counts_after c xs id counts', count-handle_claimed c x id counts)

  uncounted : (id : Text) → count id [] ≡ 0
  unfolding get
  uncounted id = refl

  -- A claimed message below the limit is delivered like one that was read.
  handle_claimed-below :
      (c : Config) (limit : ℕ) (t : MessageTurn) (msg : QueueMessage) (counts : Map Text ℕ)
      (s : System)
      → c.max_claim_attempts ≡ pos limit
      → leb limit (count msg.id counts) ≡ false
      → handle_claimed hmac_hex status_text max_retries c t none none msg counts s ≡ (
        handle_message hmac_hex status_text max_retries c t none msg s,
        put msg.id (suc (count msg.id counts)) counts,
      )
  unfolding handle_claimed
  handle_claimed-below c limit t msg counts s same few = ground arith

  -- The event of the message is in the dead letter queue, and the message is acknowledged.
  abbrev pub dead_lettered :
      Config
      → QueueMessage
      → System
      → Stream
      → Group
      → Event
      → Handled hmac_hex status_text max_retries
  dead_lettered c msg s st gr e = record {
    system = record {
      repo = record s.repo {
        events = put msg.event_id (record e { status = EventStatus.dlq }) s.repo.events;
      };
      queue =
          set_stream c.stream_name
            (set_group c.group_name (record gr { pending = drop_all (msg.id ∷ []) gr.pending }) st)
            s.queue;
    };
    attempts = [];
  }

  -- The recovery loop delivers a message at most MaxClaimAttempts times. After any claims since the pool
  -- was made, whatever happened to the system between them, and for a stored event, a stream and a group
  -- that exist, and live contexts of the update and the acknowledgement: a message that was claimed fewer
  -- times is delivered like one that was read, and else no attempt is made, its event goes to the dead
  -- letter queue and the message is acknowledged in its group. Either way its count goes up by one.
  pub handle_claimed_lem :
      (c : Config) (limit : ℕ) (past : List Claim) (t : MessageTurn) (msg : QueueMessage)
      (s : System) (st : Stream) (gr : Group) (e : Event)
      → c.max_claim_attempts ≡ pos limit
      → is_empty c.stream_name ≡ false
      → is_empty c.group_name ≡ false
      → get c.stream_name s.queue.streams ≡ some st
      → get c.group_name st.groups ≡ some gr
      → get msg.event_id s.repo.events ≡ some e
      → let counts = counts_after c past [] in
        handle_claimed hmac_hex status_text max_retries c t none none msg counts s ≡ (
          (if leb limit (times_claimed msg.id past)
              then some (dead_lettered c msg s st gr e)
              else handle_message hmac_hex status_text max_retries c t none msg s),
          put msg.id (suc (times_claimed msg.id past)) counts,
        )
  handle_claimed_lem c limit past t msg s st gr e same s_full g_full at_stream at_group stored =
      let counts = counts_after c past [] in
      let all : count msg.id counts ≡ times_claimed msg.id past =
        omega (arith, count-counts_after c past msg.id [], uncounted msg.id) in
      elim (Bool-cases (leb limit (times_claimed msg.id past))) [
        | inl often ↦
            let over : ltb_ℤ c.max_claim_attempts (pos (suc (count msg.id counts))) ≡ true =
              ground (arith, all) in
            rw often (
              handle_claimed-poison hmac_hex status_text max_retries c t msg counts s st gr e s_full
                g_full at_stream at_group stored over
              ∙ ap (λ n. (some (dead_lettered c msg s st gr e), put msg.id (suc n) counts)) all)
        | inr few ↦ rw few (
            handle_claimed-below c limit t msg counts s same (rw all few)
            ∙ ap
                (λ n. (
                  handle_message hmac_hex status_text max_retries c t none msg s,
                  put msg.id (suc n) counts,
                ))
                all)
      ]
