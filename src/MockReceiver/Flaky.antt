-- ===== src/MockReceiver/Flaky.antt =====
-- cmd/mockreceiver/main.go: the flaky endpoint over any sequence of requests to the server.
use web_hook_project.Prelude.{
  ℕ, suc, ◌+◌, ◌%◌, Bool, true, false, not, ◌&&◌, List, [], ◌∷◌, Option, none, some, Text, codes,
  ◌==◌, text_eq, text_beq, nat_eq, if◌then◌else◌, ◌≡◌, refl, ap, ◌∙◌, arith, get, get-put,
  text_beq_iff, Bool-cases, inl, inr,
}
use web_hook_project.Prelude.Errors.{Result, ok, err, Result-cases}
use web_hook_project.Prelude.Int.{ℤ}
use web_hook_project.Domain.{is_empty}
use web_hook_project.MockReceiver.{FlakyState, attempts_of, next_attempt, new_flaky_state}
use web_hook_project.MockReceiver.Handlers.{
  MockServer, new_mock_server_with_capacity, Request, Response, Call, read_all, webhook_id_of,
  flaky_response, capture_request, handle_webhook_success, handle_webhook_flaky,
  handle_webhook_poison, handle_webhook_slow, handle_inspect_logs, handle_inspect_clear,
  handle_health, routed, serve,
}

abbrev pub is_read : Result Text → Bool
is_read (ok body) = true
is_read (err e) = false

-- A request that comes to the counter of the flaky endpoint, and one that it counts for an id.
abbrev pub is_counted : Request → Bool
is_counted r =
    not (r.method == codes "OPTIONS")
    && (r.path == codes "/webhook/flaky")
    && is_read (read_all r.body)

abbrev pub is_attempt : Text → Request → Bool
is_attempt key r = is_counted r && (webhook_id_of r == key)

abbrev pub count_attempts : Text → List (Call × Request) → ℕ
count_attempts key [] = 0
count_attempts key ((c, r) ∷ rs) = (if is_attempt key r then 1 else 0) + count_attempts key rs

-- Another id's count does not move, nor the counts of all ids without an id.
next_attempt-attempts_of :
    (id key : Text) (f : FlakyState)
    → is_empty key ≡ false
    → attempts_of key (next_attempt id f).1 ≡ attempts_of key f + (if id == key then 1 else 0)
unfolding next_attempt
next_attempt-attempts_of id key f full = ground (
  arith,
  get-put id key (suc (attempts_of id f)) f.attempts,
  text_beq_iff id key,
  text_beq_iff key id,
)

counted_attempts :
    (b : Bool) (id key : Text) (f : FlakyState)
    → is_empty key ≡ false
    → attempts_of key (if b then (next_attempt id f).1 else f)
      ≡ attempts_of key f + (if b && (id == key) then 1 else 0)
counted_attempts true id key f full = next_attempt-attempts_of id key f full
counted_attempts false id key f full = omega arith

no_attempts : (id : Text) → attempts_of id new_flaky_state ≡ 0
unfolding get
no_attempts id = refl

next_attempt_lem :
    (id : Text) (f : FlakyState)
    → is_empty id ≡ false
    → (next_attempt id f).0 ≡ attempts_of id f + 1
unfolding next_attempt
next_attempt_lem id f full = ground arith

abbrev pub status_of : Option Response → Option ℕ
status_of none = none
status_of (some a) = some a.status

flaky_response-status :
    (c : Call) (n m : ℕ)
    → n ≡ m
    → status_of (flaky_response c n) ≡ some (if m % 3 == 0 then 200 else 500)
flaky_response-status c n m same = ground arith

module _ (parse_duration : Text → Result ℤ) (gone : ℤ → Bool) where
  abbrev pub serve_all : List (Call × Request) → MockServer → MockServer
  serve_all [] s = s
  serve_all ((c, r) ∷ rs) s = serve_all rs (serve parse_duration gone c r s).1

  flaky-state :
      (c : Call) (r : Request) (s : MockServer)
      → (handle_webhook_flaky c r s).1.flaky_state ≡ (
          if is_read (read_all r.body)
          then (next_attempt (webhook_id_of r) s.flaky_state).1
          else s.flaky_state)
  unfolding handle_webhook_flaky capture_request
  flaky-state c r s = elim (Result-cases (read_all r.body)) [
    | inl (e, unread) ↦ ground arith
    | inr (body, read) ↦ ground arith
  ]

  success-state :
      (c : Call) (r : Request) (s : MockServer)
      → (handle_webhook_success c r s).1.flaky_state ≡ s.flaky_state
  unfolding handle_webhook_success capture_request
  success-state c r s = elim (Result-cases (read_all r.body)) [
    | inl (e, unread) ↦ ground arith
    | inr (body, read) ↦ ground arith
  ]

  poison-state :
      (c : Call) (r : Request) (s : MockServer)
      → (handle_webhook_poison c r s).1.flaky_state ≡ s.flaky_state
  unfolding handle_webhook_poison capture_request
  poison-state c r s = elim (Result-cases (read_all r.body)) [
    | inl (e, unread) ↦ ground arith
    | inr (body, read) ↦ ground arith
  ]

  slow-state :
      (c : Call) (r : Request) (s : MockServer)
      → (handle_webhook_slow parse_duration gone c r s).1.flaky_state ≡ s.flaky_state
  unfolding handle_webhook_slow capture_request
  slow-state c r s = elim (Result-cases (read_all r.body)) [
    | inl (e, unread) ↦ ground arith
    | inr (body, read) ↦ ground arith
  ]

  routed_flaky :
      (c : Call) (r : Request) (s : MockServer)
      → r.path ≡ codes "/webhook/flaky"
      → routed parse_duration gone c r s ≡ handle_webhook_flaky c r s
  unfolding routed text_beq
  routed_flaky c r s here = rw here refl

  routed-state :
      (c : Call) (r : Request) (s : MockServer)
      → (r.path == codes "/webhook/flaky") ≡ false
      → (routed parse_duration gone c r s).1.flaky_state ≡ s.flaky_state
  unfolding routed handle_inspect_logs handle_inspect_clear handle_health
  routed-state c r s elsewhere =
      ground (arith, success-state c r s, poison-state c r s, slow-state c r s)

  serve-state :
      (c : Call) (r : Request) (s : MockServer)
      → (serve parse_duration gone c r s).1.flaky_state
        ≡ (if is_counted r then (next_attempt (webhook_id_of r) s.flaky_state).1 else s.flaky_state)
  unfolding serve
  serve-state c r s = elim (Bool-cases (r.path == codes "/webhook/flaky")) [
    | inl here ↦
        let run = routed_flaky c r s ((text_beq_iff r.path (codes "/webhook/flaky")).0 here) in
        ground (arith, flaky-state c r s)
    | inr elsewhere ↦ ground (arith, routed-state c r s elsewhere)
  ]

  serve-attempts_of :
      (key : Text) (c : Call) (r : Request) (s : MockServer)
      → is_empty key ≡ false
      → attempts_of key (serve parse_duration gone c r s).1.flaky_state
        ≡ attempts_of key s.flaky_state + (if is_attempt key r then 1 else 0)
  serve-attempts_of key c r s full =
      ap (attempts_of key) (serve-state c r s)
      ∙ counted_attempts (is_counted r) (webhook_id_of r) key s.flaky_state full

  pub serve_all-attempts_of :
      (key : Text) (rs : List (Call × Request)) (s : MockServer)
      → is_empty key ≡ false
      → attempts_of key (serve_all rs s).flaky_state
        ≡ attempts_of key s.flaky_state + count_attempts key rs
  serve_all-attempts_of key [] s full = omega arith
  serve_all-attempts_of key ((c, r) ∷ rs) s full =
      let first = serve-attempts_of key c r s full in
      let others = serve_all-attempts_of key rs (serve parse_duration gone c r s).1 full in
      others ∙ (rw first (omega arith))

  flaky-response :
      (c : Call) (r : Request) (s : MockServer)
      → is_counted r ≡ true
      → (serve parse_duration gone c r s).0
        ≡ flaky_response c (next_attempt (webhook_id_of r) s.flaky_state).0
  unfolding serve handle_webhook_flaky capture_request
  flaky-response c r s counted = elim (Result-cases (read_all r.body)) [
    | inl (e, unread) ↦ absurd (ground arith)
    | inr (body, read) ↦
        let here : (r.path == codes "/webhook/flaky") ≡ true = ground arith in
        let run = routed_flaky c r s ((text_beq_iff r.path (codes "/webhook/flaky")).0 here) in
        ground arith
  ]

  -- The flaky endpoint answers 200 to every third request of an id, and 500 to the others, whatever
  -- other requests the server has had in between.
  pub every_third_succeeds :
      (capacity : ℤ) (rs : List (Call × Request)) (c : Call) (r : Request)
      → is_empty (webhook_id_of r) ≡ false
      → is_attempt (webhook_id_of r) r ≡ true
      → let s = serve_all rs (new_mock_server_with_capacity capacity) in
        status_of (serve parse_duration gone c r s).0
        ≡ some (if (count_attempts (webhook_id_of r) rs + 1) % 3 == 0 then 200 else 500)
  every_third_succeeds capacity rs c r full counted =
      let id = webhook_id_of r in
      let s = serve_all rs (new_mock_server_with_capacity capacity) in
      let before = serve_all-attempts_of id rs (new_mock_server_with_capacity capacity) full in
      let none_yet : attempts_of id (new_mock_server_with_capacity capacity).flaky_state ≡ 0 =
        no_attempts id in
      let attempt = next_attempt_lem id s.flaky_state full in
      ap status_of (flaky-response c r s (ground arith))
      ∙ flaky_response-status c (next_attempt id s.flaky_state).0 (count_attempts id rs + 1)
          (attempt ∙ (rw (before, none_yet) (omega arith)))
