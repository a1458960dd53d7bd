-- ===== src/Worker/Settle.antt =====
-- The attempts at one endpoint, with contexts that do not end: where they leave the event.
use web_hook_project.Prelude.{
  ℕ, zero, suc, ◌-◌, ◌≤◌, ◌<◌, Bool, true, false, List, [], ◌∷◌, ◌++◌, none, some, ◌≡◌, ◌≢◌, ◌⊎◌,
  inl, inr, refl, sym, subst, ap, ◌∙◌, arith, Text, codes, text_eq, get, put, get-put_self,
  get-put_ne, Map,
}
use web_hook_project.Prelude.Int.{ℤ, pos, ltb_ℤ, pos_part}
use web_hook_project.Domain.{Endpoint, Event, EventStatus, DeliveryAttempt, DeliveryStatus, or_now}
use web_hook_project.Storage.{MemoryRepository}
use web_hook_project.Dispatcher.{Dispatched, attempt_of, request_of}
use web_hook_project.Dispatcher.Delivery.{dispatch_lem, classify_retrying, settled}
use web_hook_project.Worker.{AttemptTurn, continues, Run, with_attempts, attempt_loop}
use web_hook_project.Worker.Delivery.{behind, attempt_live, exchanged}

-- An attempt that is not cut off: its contexts do not end, and its request can be made.
pub record IsLiveAttempt (t : AttemptTurn) : Type 0 where
  pub loops : t.at_loop ≡ none
  pub waits : t.at_wait ≡ none
  pub made : t.exchange.create_err ≡ none
  pub records : t.exchange.at_record ≡ none
  pub updates : t.exchange.at_update ≡ none

-- UUIDs that no stored attempt has, from attempt `n` on, and that differ.
pub record IsFresh (turns : ℕ → AttemptTurn) (n : ℕ) (m : MemoryRepository) : Type 0 where
  pub unused : (k : ℕ) → n ≤ k → get (codes "att_" ++ (turns k).exchange.uuid) m.attempts ≡ none
  pub distinct : (j k : ℕ) → j < k → (turns j).exchange.uuid ≢ (turns k).exchange.uuid

unfoldable pub any_success : List DeliveryAttempt → Bool
any_success [] = false
any_success (a ∷ rest) =
    let later = any_success rest in elim a.status [ DeliveryStatus.success ↦ true | _ ↦ later ]

-- A run that went on to the next endpoint and left the event delivered, if one of its attempts was
-- a success, or else in the dead letter queue.
abbrev pub Settles : Text → Run → Type 0
Settles id r =
    (seen : List DeliveryAttempt) × (m : MemoryRepository) × (x : Event) × (r
      ≡ some (continues, seen, m))
    × (get id m.events ≡ some x)
    × (((x.status ≡ EventStatus.delivered) × (any_success seen ≡ true))
        ⊎ ((x.status ≡ EventStatus.dlq) × (any_success seen ≡ false)))

module _ (hmac_hex : Text → Text → Text) (status_text : ℕ → Text) (max_retries : ℤ) where
  module _ (n : ℕ) (a : DeliveryAttempt) (m : MemoryRepository) (again : Run) where
    abbrev sent : Dispatched
    sent = record { attempt = some a; error = none; notified = a ∷ [] }

    abbrev followed : Run
    followed = behind hmac_hex status_text max_retries n none sent m again

    follows_last : a.status ≢ DeliveryStatus.retrying → followed ≡ some (continues, a ∷ [], m)
    follows_last h = ground arith

    follows_retry :
        a.status ≡ DeliveryStatus.retrying
        → ltb_ℤ max_retries (pos (suc n)) ≡ false
        → followed ≡ with_attempts (a ∷ []) again
    follows_retry h more = ground arith

  followed-Settles :
      (st : DeliveryStatus) (n : ℕ) (id : Text) (old : Event) (events : Map Text Event)
      (a : DeliveryAttempt) (m : MemoryRepository) (again : Run)
      → a.status ≡ st
      → m.events ≡ settled st id old events
      → (st ≡ DeliveryStatus.retrying
          → (ltb_ℤ max_retries (pos (suc n)) ≡ false) × Settles id again)
      → Settles id (followed n a m again)
  unfolding settled any_success
  followed-Settles DeliveryStatus.success n id old events a m again e h goes =
      let x : Event = record old { status = EventStatus.delivered } in
      (
        a ∷ [],
        m,
        x,
        follows_last n a m again (λ r. cc),
        cc (h, get-put_self id x events),
        inl (refl, rw e refl),
      )
  followed-Settles DeliveryStatus.failed n id old events a m again e h goes =
      let x : Event = record old { status = EventStatus.dlq } in
      (
        a ∷ [],
        m,
        x,
        follows_last n a m again (λ r. cc),
        cc (h, get-put_self id x events),
        inr (refl, rw e refl),
      )
  followed-Settles DeliveryStatus.retrying n id old events a m again e h goes =
      let (more, (seen, m', x, done, stored, ended)) = goes refl in
      (
        a ∷ seen,
        m',
        x,
        follows_retry n a m again e more ∙ ap (with_attempts (a ∷ [])) done,
        stored,
        rw e ended,
      )

  kept_lem :
      (st : DeliveryStatus) (id : Text) (old : Event) (events : Map Text Event)
      → st ≡ DeliveryStatus.retrying
      → settled st id old events ≡ events
  unfolding settled
  kept_lem st id old events e = rw e refl

  IsFresh-next :
      (turns : ℕ → AttemptTurn) (n : ℕ) (m : MemoryRepository) (a : DeliveryAttempt)
      (m' : MemoryRepository)
      → m'.attempts ≡ put (codes "att_" ++ (turns n).exchange.uuid) a m.attempts
      → IsFresh turns n m
      → IsFresh turns (suc n) m'
  IsFresh-next turns n m a m' same fresh = record {
    unused = λ k le.
        let differ : codes "att_" ++ (turns k).exchange.uuid
            ≢ codes "att_" ++ (turns n).exchange.uuid =
          λ e. fresh.distinct n k (omega arith) (cc) in
        ap (get (codes "att_" ++ (turns k).exchange.uuid)) same
        ∙ get-put_ne (codes "att_" ++ (turns n).exchange.uuid)
            (codes "att_" ++ (turns k).exchange.uuid) a m.attempts differ
        ∙ fresh.unused k (omega arith);
    distinct = fresh.distinct;
  }

  -- With contexts that do not end, requests that can be made, fresh ids and a stored event, the
  -- attempts at an endpoint settle the event, whatever the receiver answers: it is delivered if one
  -- of the attempts was a success, and else it is in the dead letter queue.
  pub attempt_loop-Settles :
      (fuel : ℕ) (turns : ℕ → AttemptTurn) (ep : Endpoint) (e old : Event) (n : ℕ)
      (m : MemoryRepository)
      → pos_part max_retries - suc n < fuel
      → ((k : ℕ) → IsLiveAttempt (turns k))
      → IsFresh turns (suc n) m
      → get e.id m.events ≡ some old
      → Settles e.id (attempt_loop hmac_hex status_text max_retries fuel turns ep e (suc n) m)
  attempt_loop-Settles zero turns ep e old n m lt live fresh stored = absurd (omega arith)
  attempt_loop-Settles (suc fuel) turns ep e old n m lt live fresh stored =
      let k = suc n in
      let x = (turns k).exchange in
      let l = live k in
      let r = x.receiver (request_of hmac_hex status_text max_retries x.unix_now ep e) in
      let a = attempt_of hmac_hex status_text max_retries x ep e (pos k) r in
      let done =
        dispatch_lem hmac_hex status_text max_retries x ep e old (pos k) m l.made l.records
          l.updates (fresh.unused k (omega arith)) stored in
      let m' : MemoryRepository = record m {
        attempts =
            put a.id (record a { executed_at = or_now x.record_time a.executed_at }) m.attempts;
        events = settled a.status e.id old m.events;
      } in
      let again = attempt_loop hmac_hex status_text max_retries fuel turns ep e (suc k) m' in
      let path =
        attempt_live hmac_hex status_text max_retries fuel turns ep e k m l.loops
        ∙ ap
            (λ w.
              behind hmac_hex status_text max_retries k w
                (exchanged hmac_hex status_text max_retries fuel turns ep e k m).0
                (exchanged hmac_hex status_text max_retries fuel turns ep e k m).1
                (attempt_loop hmac_hex status_text max_retries fuel turns ep e (suc k)
                  (exchanged hmac_hex status_text max_retries fuel turns ep e k m).1))
            l.waits
        ∙ ap
            (λ p.
              behind hmac_hex status_text max_retries k none p.0 p.1
                (attempt_loop hmac_hex status_text max_retries fuel turns ep e (suc k) p.1))
            done in
      subst (Settles e.id) (sym path) (
        followed-Settles a.status k e.id old m.events a m' again refl refl (λ retries.
          let (below, _) = (classify_retrying max_retries (pos k) r).0 retries in
          let kept : get e.id m'.events ≡ some old =
            cc (kept_lem a.status e.id old m.events retries, stored) in
          (
            ground (arith, below),
            attempt_loop-Settles fuel turns ep e old k m' (ground (arith, below, lt)) live
                (IsFresh-next turns k m
                  (record a { executed_at = or_now x.record_time a.executed_at }) m' refl fresh)
                kept,
          )))
