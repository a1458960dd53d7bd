-- ===== src/Api/Broker.antt =====
-- internal/api/stream.go: the broker of server-sent events and the connections that it serves.
use web_hook_project.Prelude.{
  ℕ, ◌*◌, Bool, true, false, List, [], ◌∷◌, ◌++◌, Option, none, some, Text, nat_eq, if◌then◌else◌,
  ltb, length, Map, get, put, del,
}
use web_hook_project.Prelude.Errors.{Result, ok, err}
use web_hook_project.Prelude.Int.{ℤ, pos, is_positive}
use web_hook_project.Domain.{DeliveryAttempt}

-- SSEBroker: the channels of the registered clients, by number, with what is in their buffers. A
-- channel is new, and so empty, when ServeHTTP registers it.
pub record Broker : Type 0 where
  pub clients : Map ℕ (List DeliveryAttempt)
  pub ping_interval : ℤ

abbrev pub default_ping_interval : ℤ
default_ping_interval = pos (15 * 1_000_000_000)

abbrev pub client_buffer_size : ℕ
client_buffer_size = 64

-- NewSSEBrokerWithPingInterval and NewSSEBroker
unfoldable pub new_broker_with_ping_interval : ℤ → Broker
new_broker_with_ping_interval interval = record {
  clients = [];
  ping_interval = if is_positive interval then interval else default_ping_interval;
}

abbrev pub new_broker : Broker
new_broker = record { clients = []; ping_interval = default_ping_interval }

unfoldable pub register_client : ℕ → Broker → Broker
register_client ch b = record b { clients = put ch [] b.clients }

unfoldable pub unregister_client : ℕ → Broker → Broker
unregister_client ch b = record b { clients = del ch b.clients }

abbrev pub client_count : Broker → ℕ
client_count b = length b.clients

-- A send that does not wait: a full buffer drops the attempt.
abbrev pub offered : DeliveryAttempt → List DeliveryAttempt → List DeliveryAttempt
offered a buffer = if ltb (length buffer) client_buffer_size then buffer ++ (a ∷ []) else buffer

unfoldable pub offer_all :
    DeliveryAttempt → Map ℕ (List DeliveryAttempt) → Map ℕ (List DeliveryAttempt)
offer_all a [] = []
offer_all a ((ch, buffer) ∷ rest) = (ch, offered a buffer) ∷ offer_all a rest

unfoldable pub broadcast : Option DeliveryAttempt → Broker → Broker
broadcast none b = b
broadcast (some a) b = record b { clients = offer_all a b.clients }

-- What is written to a connection: ": ping\n\n" and "data: %s\n\n".
pub data Frame : Type 0 where
  ping : Frame
  data_of : Text → Frame

-- A connection of ServeHTTP: its channel, what was written, and whether the handler has returned.
pub record Connection : Type 0 where
  pub channel : ℕ
  pub written : List Frame
  pub returned : Bool

-- What one pass of the loop takes up: the end of the request's context, a tick, or an attempt in the
-- channel; and whether the write succeeds.
pub data Turn : Type 0 where
  context_done : Turn
  ticks receives : Bool → Turn

-- ServeHTTP up to its loop, for a writer that can flush.
abbrev pub connect : ℕ → Broker → Connection × Broker
connect ch b = (record { channel = ch; written = []; returned = false }, register_client ch b)

abbrev pub leave : Connection → Broker → Connection × Broker
leave c b = (record c { returned = true }, unregister_client c.channel b)

abbrev pub write : Frame → Bool → Connection → Broker → Connection × Broker
write frame written c b =
    if written then (record c { written = c.written ++ (frame ∷ []) }, b) else leave c b

-- One pass; `marshal` is json.Marshal. The loop waits where the channel is empty.
unfoldable pub serve_turn :
    (DeliveryAttempt → Result Text) → Turn → Connection → Broker → Connection × Broker
serve_turn marshal t c b = if c.returned then (c, b) else (elim t [
  | context_done ↦ leave c b
  | ticks written ↦ write ping written c b
  | receives written ↦ elim (get c.channel b.clients) [
    | none ↦ (c, b)
    | some [] ↦ (c, b)
    | some (a ∷ buffer) ↦
        let b' : Broker = record b { clients = put c.channel buffer b.clients } in
        elim (marshal a) [ err e ↦ (c, b') | ok text ↦ write (data_of text) written c b' ]
  ]
])
