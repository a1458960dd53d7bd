-- ===== src/Worker/Recovery.antt =====
-- Messages that are not delivered: fenced, without an endpoint, or claimed too often.
use web_hook_project.Prelude.{
  ℕ, suc, true, false, [], ◌∷◌, none, some, ◌≡◌, arith, Map, values, get, put, keep, Text, text_eq,
}
use web_hook_project.Prelude.Int.{ℤ, pos, ltb_ℤ}
use web_hook_project.Domain.{Event, EventStatus, is_empty}
use web_hook_project.Storage.{
  MemoryRepository, get_event, get_endpoints_by_tenant, update_event_status, of_tenant,
}
use web_hook_project.Queue.{QueueMessage, Group, Stream, set_stream, set_group, drop_all}
use web_hook_project.Queue.Methods.{ack_present}
use web_hook_project.Relay.{System}
use web_hook_project.Worker.{
  Config, MessageTurn, returns, is_settled, process_message, handle_message, handle_claimed,
  count_of, is_active,
}

module _ (hmac_hex : Text → Text → Text) (status_text : ℕ → Text) (max_retries : ℤ) where
  -- An event that is delivered or in the dead letter queue is not sent again: its message leaves the
  -- repository as it was, and no attempt is made.
  pub process_message-settled :
      (t : MessageTurn) (msg : QueueMessage) (e : Event) (m : MemoryRepository)
      → t.at_guard ≡ none
      → get msg.event_id m.events ≡ some e
      → is_settled e.status ≡ true
      → process_message hmac_hex status_text max_retries t msg m ≡ some (returns, [], m)
  unfolding process_message get_event
  process_message-settled t msg e m live stored settled = ground arith

  unattended :
      (t : MessageTurn) (msg : QueueMessage) (m : MemoryRepository)
      → t.at_guard ≡ none
      → t.at_endpoints ≡ none
      → keep
          (is_active hmac_hex status_text max_retries)
          (keep (of_tenant msg.tenant_id) (t.visits.visit (values m.endpoints)))
        ≡ []
      → process_message hmac_hex status_text max_retries t msg m ≡ some (returns, [], m)
  unfolding process_message get_event get_endpoints_by_tenant
  unattended t msg m live looks empty = ground arith

  -- With live contexts, a message for which no active endpoint is found is acknowledged all the same: it is no longer
  -- pending in its group, no attempt is made, and the repository is as it was, so that the event keeps its status.
  pub handle_message-unattended :
      (c : Config) (t : MessageTurn) (msg : QueueMessage) (s : System) (st : Stream) (gr : Group)
      → is_empty c.stream_name ≡ false
      → is_empty c.group_name ≡ false
      → get c.stream_name s.queue.streams ≡ some st
      → get c.group_name st.groups ≡ some gr
      → t.at_guard ≡ none
      → t.at_endpoints ≡ none
      → keep
          (is_active hmac_hex status_text max_retries)
          (keep (of_tenant msg.tenant_id) (t.visits.visit (values s.repo.endpoints)))
        ≡ []
      → handle_message hmac_hex status_text max_retries c t none msg s
        ≡ some (record {
          system = record s {
            queue =
                set_stream c.stream_name
                  (set_group c.group_name
                    (record gr { pending = drop_all (msg.id ∷ []) gr.pending })
                    st)
                  s.queue;
          };
          attempts = [];
        })
  unfolding handle_message
  handle_message-unattended c t msg s st gr s_full g_full at_stream at_group live looks empty =
      ground (
        arith,
        unattended t msg s.repo live looks empty,
        ack_present c.stream_name c.group_name s_full g_full s.queue st gr at_stream at_group msg.id
            [],
      )

  -- A message that was claimed as often as the limit allows is not sent again: its stored event goes
  -- to the dead letter queue, the message is acknowledged, and its count goes up by one.
  pub handle_claimed-poison :
      (c : Config) (t : MessageTurn) (msg : QueueMessage) (counts : Map Text ℕ) (s : System)
      (st : Stream) (gr : Group) (e : Event)
      → is_empty c.stream_name ≡ false
      → is_empty c.group_name ≡ false
      → get c.stream_name s.queue.streams ≡ some st
      → get c.group_name st.groups ≡ some gr
      → get msg.event_id s.repo.events ≡ some e
      → let count = suc (count_of hmac_hex status_text max_retries msg.id counts) in
        ltb_ℤ c.max_claim_attempts (pos count) ≡ true
        → handle_claimed hmac_hex status_text max_retries c t none none msg counts s ≡ (
          some (record {
            system = record {
              repo = record s.repo {
                events = put msg.event_id (record e { status = EventStatus.dlq }) s.repo.events;
              };
              queue =
                  set_stream c.stream_name
                    (set_group c.group_name
                      (record gr { pending = drop_all (msg.id ∷ []) gr.pending })
                      st)
                    s.queue;
            };
            attempts = [];
          }),
          put msg.id count counts,
        )
  unfolding handle_claimed update_event_status
  handle_claimed-poison c t msg counts s st gr e s_full g_full at_stream at_group stored over =
      ground (
        arith,
        ack_present c.stream_name c.group_name s_full g_full s.queue st gr at_stream at_group msg.id
            [],
      )
