-- ===== src/Worker/Pipeline.antt =====
-- From the outbox to the receiver: a pending row goes through the relay, the queue and a worker.
use web_hook_project.Prelude.{
  ℕ, zero, suc, ◌<◌, true, false, if◌then◌else◌, Option, List, [], ◌∷◌, ◌++◌, none, some, ◌≡◌, ◌⊎◌,
  append-nil, refl, sym, subst, ap, ◌∙◌, arith, Text, text_eq, nat_eq, get, get-put_self, keep,
  values, length, length-append, drop, take, ltb,
}
use web_hook_project.Prelude.Errors.{Context, ok}
use web_hook_project.Prelude.Int.{ℤ, pos, negsuc}
use web_hook_project.Domain.{
  Time, Endpoint, Event, EventStatus, DeliveryAttempt, OutboxEvent, is_empty,
}
use web_hook_project.Storage.{MemoryRepository, get_event, get_endpoints_by_tenant, of_tenant}
use web_hook_project.Storage.Invariant.{IsValid}
use web_hook_project.Queue.{
  QueueMessage, MemoryStreamQueue, Stream, Wait, or_else, new_stream, stream_of, group_of,
  set_stream, with_message, message_of, message_id, batch, count_or_ten, read_round, read_loop,
  read_events, ack_event,
}
use web_hook_project.Relay.{System, Turn, process_row}
use web_hook_project.Relay.Outcomes.{enqueued}
use web_hook_project.Relay.Progress.{IsLiveTurn, relayed, row_moves}
use web_hook_project.Worker.{
  Config, MessageTurn, Flow, continues, with_attempts, is_active, is_settled, endpoint_loop,
  process_message, handle_message, enough,
}
use web_hook_project.Worker.Delivery.{loop_continues}
use web_hook_project.Worker.Settle.{
  IsLiveAttempt, IsFresh, any_success, Settles, attempt_loop-Settles,
}
use web_hook_project.Worker.Loops.{Turns, WorkerTurn, Work, worker_pass, handle_all}

-- A message is looked at with contexts that do not end.
pub record IsLiveMessage (t : MessageTurn) (ep : Endpoint) : Type 0 where
  pub guards : t.at_guard ≡ none
  pub looks : t.at_endpoints ≡ none
  pub reads : t.at_event ≡ none
  pub visits : t.at_endpoint ep ≡ none
  pub tries : (k : ℕ) → IsLiveAttempt (t.attempts ep k)

module _ (hmac_hex : Text → Text → Text) (status_text : ℕ → Text) (max_retries : ℤ) where
  -- The only active endpoint of the tenant is `ep`, in the order of the visits.
  abbrev pub IsOnlyEndpoint : MessageTurn → Text → Endpoint → MemoryRepository → Type 0
  IsOnlyEndpoint t tenant ep m =
      keep (is_active hmac_hex status_text max_retries)
        (keep (of_tenant tenant) (t.visits.visit (values m.endpoints)))
      ≡ ep ∷ []

  attended :
      (t : MessageTurn) (msg : QueueMessage) (ep : Endpoint) (e : Event) (m : MemoryRepository)
      → IsLiveMessage t ep
      → is_empty msg.tenant_id ≡ false
      → get msg.event_id m.events ≡ some e
      → is_settled e.status ≡ false
      → IsOnlyEndpoint t msg.tenant_id ep m
      → process_message hmac_hex status_text max_retries t msg m
        ≡ endpoint_loop hmac_hex status_text max_retries t e (ep ∷ []) m
  unfolding process_message get_event get_endpoints_by_tenant
  attended t msg ep e m live owned stored unsettled only =
      ground (arith, live.guards, live.looks, live.reads)

  loop_ends :
      (t : MessageTurn) (e : Event) (m : MemoryRepository)
      → endpoint_loop hmac_hex status_text max_retries t e [] m ≡ some (continues, [], m)
  unfolding endpoint_loop
  loop_ends t e m = refl

  -- A message whose stored event is not settled, with one active endpoint, settles the event.
  pub process_message-Settles :
      (t : MessageTurn) (msg : QueueMessage) (ep : Endpoint) (e : Event) (m : MemoryRepository)
      → IsLiveMessage t ep
      → is_empty msg.tenant_id ≡ false
      → msg.event_id ≡ e.id
      → get e.id m.events ≡ some e
      → is_settled e.status ≡ false
      → IsOnlyEndpoint t msg.tenant_id ep m
      → IsFresh (t.attempts ep) 1 m
      → Settles e.id (process_message hmac_hex status_text max_retries t msg m)
  process_message-Settles t msg ep e m live owned named stored unsettled only fresh =
      let settles =
        attempt_loop-Settles hmac_hex status_text max_retries
          (enough hmac_hex status_text max_retries) (t.attempts ep) ep e e 0 m (omega arith)
          live.tries fresh stored in
      let (seen, m', x, done, stored', ended) = settles in
      let found : get msg.event_id m.events ≡ some e = cc (named, stored) in
      (
        seen,
        m',
        x,
        attended t msg ep e m live owned found unsettled only
            ∙ loop_continues hmac_hex status_text max_retries t e ep [] m seen m' live.visits done
            ∙ ap (with_attempts seen) (loop_ends t e m')
            ∙ ap (λ l. some (continues, l, m')) (append-nil seen),
        stored',
        ended,
      )

drop-length {ℓ} : {A : Type ℓ} (xs ys : List A) → drop (length xs) (xs ++ ys) ≡ ys
drop-length [] ys = refl
drop-length (x ∷ xs) ys = drop-length xs ys

take_one {ℓ} : {A : Type ℓ} (n : ℕ) (x : A) → 0 < n → take n (x ∷ []) ≡ x ∷ []
take_one zero x h = absurd (omega arith)
take_one (suc zero) x h = refl
take_one (suc (suc n)) x h = refl

read_found :
    (stream group consumer : Text) (count : ℕ) (block : ℤ) (now : Time) (ws : List Wait)
    (msgs : List QueueMessage) (q : MemoryStreamQueue)
    → (read_round now stream group consumer count q).0 ≡ some msgs
    → read_loop stream group consumer count block none now ws q
      ≡ (ok msgs, (read_round now stream group consumer count q).1)
unfolding read_loop
read_found stream group consumer count block now [] msgs q found = ground arith
read_found stream group consumer count block now (w ∷ ws) msgs q found = ground arith

-- What a look finds, as a function of the stream.
abbrev found_in : Text → ℕ → Stream → Option (List QueueMessage)
found_in group count st =
    if ltb (group_of group st).next_idx (length st.messages)
    then some (batch count st (group_of group st))
    else none

read_round_found :
    (now : Time) (stream group consumer : Text) (count : ℕ) (q : MemoryStreamQueue)
    → (read_round now stream group consumer count q).0 ≡ found_in group count (stream_of stream q)
unfolding read_round
read_round_found now stream group consumer count q = ground arith

stream_of-enqueued :
    (stream : Text) (now : Time) (e : Event) (q : MemoryStreamQueue)
    → stream_of stream (enqueued stream now e q)
      ≡ with_message (message_of now (message_id now (suc q.seq)) e) (stream_of stream q)
unfolding set_stream stream_of
stream_of-enqueued stream now e q = ap (or_else new_stream) (get-put_self stream _ q.streams)

-- A group that has read all finds just a new message.
found_next :
    (group : Text) (count : ℕ) (msg : QueueMessage) (st : Stream)
    → 0 < count
    → (group_of group st).next_idx ≡ length st.messages
    → found_in group count (with_message msg st) ≡ some (msg ∷ [])
unfolding group_of
found_next group count msg st some_room caught_up =
    let longer = length-append st.messages (msg ∷ []) in
    let one : drop (group_of group st).next_idx (st.messages ++ (msg ∷ [])) ≡ msg ∷ [] =
      ap (λ n. drop n (st.messages ++ (msg ∷ []))) caught_up ∙ drop-length st.messages (msg ∷ []) in
    ground (arith, take_one count msg some_room)

some_count : (count : ℤ) → 0 < count_or_ten count
some_count (pos zero) = omega arith
some_count (pos (suc n)) = omega arith
some_count (negsuc n) = omega arith

round_next :
    (stream group consumer : Text) (count : ℤ) (now sent : Time) (e : Event) (q : MemoryStreamQueue)
    → (group_of group (stream_of stream q)).next_idx ≡ length (stream_of stream q).messages
    → (read_round now stream group consumer (count_or_ten count) (enqueued stream sent e q)).0
      ≡ some (message_of sent (message_id sent (suc q.seq)) e ∷ [])
unfolding read_round
round_next stream group consumer count now sent e q caught_up =
    read_round_found now stream group consumer (count_or_ten count) (enqueued stream sent e q)
    ∙ ap (found_in group (count_or_ten count)) (stream_of-enqueued stream sent e q)
    ∙ found_next group (count_or_ten count) _ (stream_of stream q) (some_count count) caught_up

pub read_next :
    (stream group consumer : Text) (count block : ℤ) (now sent : Time) (ws : List Wait) (e : Event)
    (q : MemoryStreamQueue)
    → is_empty stream ≡ false
    → is_empty group ≡ false
    → (group_of group (stream_of stream q)).next_idx ≡ length (stream_of stream q).messages
    → (q' : MemoryStreamQueue) × (read_events stream group consumer count block none now ws
          (enqueued stream sent e q)
        ≡ (ok (message_of sent (message_id sent (suc q.seq)) e ∷ []), q'))
unfolding read_events
read_next stream group consumer count block now sent ws e q full grouped caught_up =
    let found =
      read_found stream group consumer (count_or_ten count) block now ws _
        (enqueued stream sent e q)
        (round_next stream group consumer count now sent e q caught_up) in
    (
      (read_round now stream group consumer (count_or_ten count) (enqueued stream sent e q)).1,
      rw (full, grouped) found,
    )

module _ (hmac_hex : Text → Text → Text) (status_text : ℕ → Text) (max_retries : ℤ) where
  pass_reads :
      (c : Config) (consumer : Text) (t : WorkerTurn) (msgs : List QueueMessage)
      (q : MemoryStreamQueue) (s : System)
      → t.at_top ≡ none
      → t.at_read ≡ none
      → read_events c.stream_name c.group_name consumer c.batch_size c.poll_interval none
          t.read_time t.waits s.queue
        ≡ (ok msgs, q)
      → worker_pass hmac_hex status_text max_retries c consumer t s
        ≡ handle_all hmac_hex status_text max_retries c t.turns msgs (record s { queue = q })
  unfolding worker_pass
  pass_reads c consumer t msgs q s live reads found =
      let found' =
        subst
          (λ ctx.
            read_events c.stream_name c.group_name consumer c.batch_size c.poll_interval ctx
              t.read_time t.waits s.queue
            ≡ (ok msgs, q))
          (sym reads) found in
      ground arith

  handles_one :
      (c : Config) (turns : Turns) (mt : MessageTurn) (at_ack : Context) (msg : QueueMessage)
      (s : System) (f : Flow) (seen : List DeliveryAttempt) (m : MemoryRepository)
      → turns msg ≡ (none, mt, at_ack)
      → process_message hmac_hex status_text max_retries mt msg s.repo ≡ some (f, seen, m)
      → handle_all hmac_hex status_text max_retries c turns (msg ∷ []) s
        ≡ some (
          continues,
          record {
            system = record {
              repo = m;
              queue = (ack_event at_ack c.stream_name c.group_name (msg.id ∷ []) s.queue).1;
            };
            attempts = seen;
          },
        )
  unfolding handle_all handle_message
  handles_one c turns mt at_ack msg s f seen m here done = ground (arith, append-nil seen)

  -- What a pass comes to: it goes on, the event is delivered if an attempt was a success, and else it
  -- is in the dead letter queue.
  abbrev pub PassSettles : Text → Option (Flow × Work hmac_hex status_text max_retries) → Type 0
  PassSettles id pass =
      (h : Work hmac_hex status_text max_retries) × (y : Event) × (pass ≡ some (continues, h))
      × (get id h.system.repo.events ≡ some y)
      × (((y.status ≡ EventStatus.delivered) × (any_success h.attempts ≡ true))
          ⊎ ((y.status ≡ EventStatus.dlq) × (any_success h.attempts ≡ false)))

  -- With contexts that do not end, a relay that takes up the outbox row of an event that is not settled,
  -- and then a worker of a group that had read the whole stream, settle the event, if its tenant has one
  -- active endpoint, whatever that endpoint answers.
  pub relayed_event_settles :
      (c : Config) (consumer : Text) (rt : Turn) (wt : WorkerTurn) (mt : MessageTurn)
      (at_ack : Context) (ob row : OutboxEvent) (x : Event) (ep : Endpoint) (s : System)
      → is_empty c.stream_name ≡ false
      → is_empty c.group_name ≡ false
      → IsValid s.repo
      → get ob.id s.repo.outbox_events ≡ some row
      → get ob.event_id s.repo.events ≡ some x
      → is_settled x.status ≡ false
      → is_empty x.tenant_id ≡ false
      → (group_of c.group_name (stream_of c.stream_name s.queue)).next_idx
        ≡ length (stream_of c.stream_name s.queue).messages
      → IsLiveTurn rt
      → wt.at_top ≡ none
      → wt.at_read ≡ none
      → ((msg : QueueMessage) → wt.turns msg ≡ (none, mt, at_ack))
      → IsLiveMessage mt ep
      → IsOnlyEndpoint hmac_hex status_text max_retries mt x.tenant_id ep s.repo
      → IsFresh (mt.attempts ep) 1 s.repo
      → PassSettles x.id (
          worker_pass hmac_hex status_text max_retries c consumer wt
            (process_row c.stream_name rt ob s).1)
  relayed_event_settles c consumer rt wt mt at_ack ob row x ep s full grouped valid held stored
        unsettled owned caught_up relays tops reads turns live only fresh =
      let s1 = relayed c.stream_name rt ob x row s in
      let moved = ap (λ p. p.1) (row_moves c.stream_name rt ob row x s full relays stored held) in
      let named = valid.named ob.event_id x stored in
      let stored' : get x.id s.repo.events ≡ some x = cc (named, stored) in
      let fresh' : IsFresh (mt.attempts ep) 1 s1.repo = record {
        unused = fresh.unused;
        distinct = fresh.distinct;
      } in
      let (q, found) =
        read_next c.stream_name c.group_name consumer c.batch_size c.poll_interval wt.read_time
          rt.publish_time wt.waits x s.queue full grouped caught_up in
      let msg = message_of rt.publish_time (message_id rt.publish_time (suc s.queue.seq)) x in
      let (seen, m', y, done, kept, ended) =
        process_message-Settles hmac_hex status_text max_retries mt msg ep x s1.repo live owned refl
          stored' unsettled only fresh' in
      let pass =
        ap (worker_pass hmac_hex status_text max_retries c consumer wt) moved
        ∙ pass_reads c consumer wt (msg ∷ []) q s1 tops reads found
        ∙ handles_one c wt.turns mt at_ack msg (record s1 { queue = q }) continues seen m'
            (turns msg) done in
      (_, y, pass, kept, ended)
