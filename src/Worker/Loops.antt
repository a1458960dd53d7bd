-- ===== src/Worker/Loops.antt =====
-- internal/worker/pool.go: workerLoop and pelRecoveryLoop, one pass at a time.
use web_hook_project.Prelude.{
  ℕ, Bool, true, false, ◌||◌, List, [], ◌∷◌, ◌++◌, Option, none, some, Text, codes, ◌==◌, text_eq,
  if◌then◌else◌, Map,
}
use web_hook_project.Prelude.Errors.{is_canceled, ok, err, Context}
use web_hook_project.Prelude.Int.{ℤ}
use web_hook_project.Prelude.Sorting.{Ranging}
use web_hook_project.Domain.{Time, DeliveryAttempt, is_empty}
use web_hook_project.Queue.{QueueMessage, PendingEntry, Wait, read_events, auto_claim}
use web_hook_project.Relay.{System, on_queue}
use web_hook_project.Worker.{
  Config, MessageTurn, Flow, returns, continues, Handled, handle_message, handle_claimed,
}

abbrev pub has_ended : Context → Bool
has_ended none = false
has_ended (some e) = true

-- What the loop over the messages finds at each: the context before it, the message's turn, and the
-- context of the acknowledgement.
abbrev pub Turns : Type 0
Turns = QueueMessage → Context × MessageTurn × Context

-- What one pass of workerLoop finds: the context at the top, the read's, and the one during the pause
-- behind a failed read.
pub record WorkerTurn : Type 0 where
  pub at_top : Context
  pub at_read : Context
  pub read_time : Time
  pub waits : List Wait
  pub after_read : Context
  pub at_pause : Context
  pub turns : Turns

-- What one pass of the inner loop of pelRecoveryLoop finds.
pub record ClaimTurn : Type 0 where
  pub at_top : Context
  pub at_claim : Context
  pub claim_time : Time
  pub visits : Ranging (Text × PendingEntry)
  pub after_claim : Context
  pub at_update : QueueMessage → Context
  pub turns : Turns

-- claimAttempts and startID
pub record Claims : Type 0 where
  pub counts : Map Text ℕ
  pub start_id : Text

-- How a pass of the inner loop ends: the goroutine returns, the next tick is awaited, or the loop
-- goes on.
pub data Pass : Type 0 where
  leaves awaits repeats : Pass

module _ (hmac_hex : Text → Text → Text) (status_text : ℕ → Text) (max_retries : ℤ) where
  abbrev pub Work : Type 0
  Work = Handled hmac_hex status_text max_retries

  abbrev pub with_seen : List DeliveryAttempt → Option (Flow × Work) → Option (Flow × Work)
  with_seen seen none = none
  with_seen seen (some (f, h)) =
      some (f, record { system = h.system; attempts = seen ++ h.attempts })

  abbrev pub idle : System → Work
  idle s = record { system = s; attempts = [] }

  -- The loop of workerLoop over the messages of one read; a context that has ended leaves the
  -- messages behind it pending.
  unfoldable pub handle_all : Config → Turns → List QueueMessage → System → Option (Flow × Work)
  handle_all c turns [] s = some (continues, idle s)
  handle_all c turns (msg ∷ msgs) s =
      let (at_loop, t, at_ack) = turns msg in
      elim at_loop [
        | some ended ↦ some (returns, idle s)
        | none ↦ elim (handle_message hmac_hex status_text max_retries c t at_ack msg s) [
          | none ↦ none
          | some h ↦ with_seen h.attempts (handle_all c turns msgs h.system)
        ]
      ]

  -- One pass of workerLoop.
  unfoldable pub worker_pass : Config → Text → WorkerTurn → System → Option (Flow × Work)
  worker_pass c consumer t s = elim t.at_top [
    | some ended ↦ some (returns, idle s)
    | none ↦
        let (found, s) =
          on_queue
            (read_events c.stream_name c.group_name consumer c.batch_size c.poll_interval t.at_read
              t.read_time t.waits)
            s in
        elim found [
          | err e ↦
              if is_canceled e || has_ended t.after_read
              then some (returns, idle s)
              else (elim t.at_pause [
                | some ended ↦ some (returns, idle s)
                | none ↦ some (continues, idle s)
              ])
          | ok msgs ↦ handle_all c t.turns msgs s
        ]
  ]

  -- The loop of pelRecoveryLoop over the claimed messages.
  unfoldable pub claim_all :
      Config
      → ClaimTurn
      → List QueueMessage
      → Map Text ℕ
      → System
      → Option (Flow × Work) × Map Text ℕ
  claim_all c t [] counts s = (some (continues, idle s), counts)
  claim_all c t (msg ∷ msgs) counts s =
      let (at_loop, m, at_ack) = t.turns msg in
      elim at_loop [
        | some ended ↦ (some (returns, idle s), counts)
        | none ↦
            let (done, counts') =
              handle_claimed hmac_hex status_text max_retries c m (t.at_update msg) at_ack msg
                counts s in
            elim done [
              | none ↦ (none, counts')
              | some h ↦
                  let (rest, counts'') = claim_all c t msgs counts' h.system in
                  (with_seen h.attempts rest, counts'')
            ]
      ]

  -- Where the inner loop goes behind a claim that gave messages.
  abbrev pub pass_of : Flow → Text → Pass
  pass_of returns next = leaves
  pass_of continues next = if next == codes "0-0" || is_empty next then awaits else repeats

  -- One pass of the inner loop. The in-memory queue does not look at `start_id`.
  unfoldable pub claim_pass : Config → ClaimTurn → Claims → System → Option (Pass × Work) × Claims
  claim_pass c t k s = elim t.at_top [
    | some ended ↦ (some (leaves, idle s), k)
    | none ↦
        let (claimed, s) =
          on_queue
            (auto_claim t.visits t.at_claim t.claim_time c.stream_name c.group_name
              (codes "pel-auto-reclaimer") c.min_idle_duration c.batch_size)
            s in
        elim claimed [
          | err e ↦
              if is_canceled e || has_ended t.after_claim
              then (some (leaves, idle s), k)
              else (some (awaits, idle s), k)
          | ok ([], next) ↦ (some (awaits, idle s), record k { start_id = codes "0-0" })
          | ok (msg ∷ msgs, next) ↦
              let (done, counts) = claim_all c t (msg ∷ msgs) k.counts s in
              elim done [
                | none ↦ (none, record k { counts = counts })
                | some (returns, h) ↦ (some (leaves, h), record k { counts = counts })
                | some (continues, h) ↦
                    (some (pass_of continues next, h), record { counts = counts; start_id = next })
              ]
        ]
  ]
