-- ===== src/Lib.antt =====
-- The webhook engine: events are taken in over HTTP, stored with an outbox row in one step, moved by a
-- relay to a stream, and delivered by workers to the tenants' endpoints under a signature, with retries
-- and a dead letter queue.
--
-- The parts and their files:
--   Domain: internal/domain. Tenants, endpoints, events, outbox rows and attempts, with Validate.
--   Storage: internal/storage/memory.go. Each method of MemoryRepository is a function on the record
--     of its maps (CreateEventWithOutbox is create_event_with_outbox, and so on). A call that fails
--     returns its error beside the state that it left. Storage/History is any sequence of its calls.
--   Queue: internal/queue/stream.go from line 245 on. MemoryStreamQueue; Queue/History lets one stream
--     and one group run under any sequence of calls.
--     Queue/Redis is RedisStreamQueue, and Queue/Wire relates what it writes and reads.
--   Idempotency: internal/idempotency/guard.go. MemoryGuard; Idempotency/Guard is the interface Guard,
--     as operations on a state with their laws, Idempotency/Calls what clients get from the laws,
--     Idempotency/Memory and Idempotency/RedisLaws that both guards keep them, and Idempotency/Redis is
--     RedisGuard with its scripts.
--   Relay: internal/outbox/relay.go. ProcessNextBatch on both stores, and Start as a machine with the
--     phases polling, draining and returned.
--   Retry: internal/retry/scheduler.go.
--   Signature: internal/dispatcher/hmac.go.
--   Dispatcher: internal/dispatcher/client.go. Dispatch; the receiver is a function from requests to
--     replies. Dispatcher/Restricted and Dispatcher/Dial are internal/dispatcher/ssrf.go, and
--     Dispatcher/Ranges gives the restricted addresses as ranges of numbers. Dispatcher/Build is what
--     NewDispatcher and NewSafeHTTPClient build.
--   Worker: internal/worker/pool.go. processMessage; Worker/Loops has the passes of workerLoop and
--     pelRecoveryLoop, Worker/Lifecycle Start, Stop and Shutdown, and Worker/Pipeline follows an event
--     from its outbox row through the relay, the queue and a worker to the receiver. Worker/Redelivery is
--     about further messages of one event, Worker/Claims about messages that are claimed again and again.
--   Api: internal/api/handler.go. The handlers on the repository and the guard. Api/Broker is
--     internal/api/stream.go, Api/Stream one of its connections, and Api/Router internal/api/router.go.
--     Api/Health has the health check and the gate of the event stream.
--   Server: cmd/server/main.go. The settings of the environment, the parts that main puts together and the
--     order of its shutdown.
--   Soak: cmd/soak/main.go. The destination and the load of the soak test, and its verdict.
--   MockReceiver: cmd/mockreceiver/main.go. The log of captured requests and the flaky counters, and the
--     handlers on them.
--   WebhookClient: sdk/go/webhookclient. The calls of the Go client, its check of signatures, and, in
--     WebhookClient/Published, the client against the ingestion handler.
--   Prelude: maps, lists, numerals, errors and the order of Go's map visits.
--   Examples: test data, and the theorems at concrete inputs.
--
-- How they meet: a handler works on the repository and the guard; the relay reads pending rows of the
-- repository, publishes to the queue and marks the rows; a worker reads the queue, delivers through the
-- dispatcher, which writes attempts and statuses to the repository, and acknowledges the message.
--
-- Conventions. A method that holds a mutex is one step. Time and fresh identifiers are arguments. The
-- error of a context is an argument of each call that looks at it, so it may end between two calls. The
-- order in which Go visits a map is an argument too, any rearrangement of the entries. A time is a
-- count of nanoseconds from Go's zero time. Outbox ids are bit patterns of an int64, with its
-- wrap-around; the signature check computes on int64 with its wrap-around; other counts are numbers
-- without a bound.
--
-- Fuel: the loop over the attempts at one endpoint has fuel MaxRetries + 1, which is enough since the
-- loop leaves behind attempt MaxRetries. The numeral writer has one unit more than the number.
--
-- Servers and libraries are parameters, with what the code relies on as hypotheses: the Redis server's
-- commands, package net, JSON, HMAC, time formats, float64, the HTTP client and random numbers. A text is
-- its bytes. ToLower lowers ASCII letters only, which is enough for a comparison with hexadecimal digits.
-- Where a select has several cases that are ready, the choice is an argument.
--
-- Not modelled: the PostgreSQL repository, whose behaviour is that of SQL statements; metrics; the
-- chaos command; the TypeScript client and the dashboard. Goroutines that run at the same time are
-- steps one after another: the workers of a pool are modelled one pass at a time. The text that an
-- error is wrapped in is cut down to its fixed words.
pub mod Prelude
pub mod Domain
pub mod Storage
pub mod Queue
pub mod Idempotency
pub mod Relay
pub mod Retry
pub mod Signature
pub mod Dispatcher
pub mod Worker
pub mod Server
pub mod Soak
pub mod Api
pub mod MockReceiver
pub mod WebhookClient
pub mod Examples
