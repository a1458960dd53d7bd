-- ===== src/Worker/Delivery.antt =====
-- The worker's loops end, and what they leave.
use web_hook_project.Prelude.{
  ℕ, zero, suc, ◌+◌, ◌-◌, ◌*◌, ◌≤◌, ◌<◌, not, List, [], ◌∷◌, ◌++◌, none, some, ◌≡◌, inl, inr, refl,
  sym, subst, arith, Text, text_eq, if◌then◌else◌, length, length-append, Bool-cases, Option-cases,
  ap, ◌∙◌, append-nil, ◌==◌, All, All-append,
}
use web_hook_project.Prelude.Errors.{Error, Result-cases, Context}
use web_hook_project.Prelude.Int.{ℤ, pos, ltb_ℤ, pos_part}
use web_hook_project.Domain.{Endpoint, Event, DeliveryAttempt}
use web_hook_project.Storage.{MemoryRepository, record_delivery_attempt}
use web_hook_project.Storage.Invariant.{IsValid}
use web_hook_project.Dispatcher.{
  Exchange, Dispatched, dispatch, conclude, attempt_of, request_of, at_least_one,
}
use native.Mathlib.Nat.{suc-mul}
use web_hook_project.Dispatcher.Delivery.{dispatch-IsValid}
use web_hook_project.Worker.{
  AttemptTurn, MessageTurn, Flow, returns, continues, Run, made, is_retrying, with_attempts,
  attempt_loop, enough, endpoint_loop,
}

-- The attempts at endpoints with the given id, and the endpoints with that id.
unfoldable pub count_to : Text → List DeliveryAttempt → ℕ
count_to id [] = 0
count_to id (a ∷ rest) = (if a.endpoint_id == id then 1 else 0) + count_to id rest

unfoldable pub count_named : Text → List Endpoint → ℕ
count_named id [] = 0
count_named id (ep ∷ eps) = (if ep.id == id then 1 else 0) + count_named id eps

abbrev IsTo : Endpoint → DeliveryAttempt → Type 0
IsTo ep a = a.endpoint_id ≡ ep.id

-- A run at one endpoint that ended with a valid repository after at most `n` attempts.
abbrev pub Ends : Endpoint → ℕ → Run → Type 0
Ends ep n r =
    (f : Flow) × (seen : List DeliveryAttempt) × (m : MemoryRepository) × (r ≡ some (f, seen, m))
    × IsValid m
    × (length seen ≤ n)
    × All (IsTo ep) seen

Ends-le : (ep : Endpoint) (k n : ℕ) (r : Run) → k ≤ n → Ends ep k r → Ends ep n r
Ends-le ep k n r le (f, seen, m, e, v, few, to) = (f, seen, m, e, v, omega arith, to)

count_to-append :
    (id : Text) (xs ys : List DeliveryAttempt)
    → count_to id (xs ++ ys) ≡ count_to id xs + count_to id ys
unfolding count_to
count_to-append id [] ys = omega arith
count_to-append id (x ∷ xs) ys = omega (arith, count_to-append id xs ys)

count_to_le :
    (id : Text) (ep : Endpoint) (seen : List DeliveryAttempt)
    → All (IsTo ep) seen
    → count_to id seen ≤ (if ep.id == id then length seen else 0)
unfolding count_to
count_to_le id ep [] to = ground arith
count_to_le id ep (a ∷ rest) to = ground (arith, to.0, count_to_le id ep rest to.1)

made_le : (d : Dispatched) → length (made d) ≤ 1
made_le d = elim (Option-cases d.attempt) [
  | inl missing ↦ rw missing (omega arith)
  | inr (a, given) ↦ rw given (omega arith)
]

with_attempts-Ends :
    (ep : Endpoint) (k n : ℕ) (before : List DeliveryAttempt) (r : Run)
    → length before ≤ k
    → All (IsTo ep) before
    → Ends ep n r
    → Ends ep (k + n) (with_attempts before r)
with_attempts-Ends ep k n before r short here (f, seen, m, e, v, few, to) = (
  f,
  before ++ seen,
  m,
  rw e,
  v,
  omega (arith, length-append before seen),
  All-append (IsTo ep) before seen here to,
)

module _ (hmac_hex : Text → Text → Text) (status_text : ℕ → Text) (max_retries : ℤ) where
  -- What follows one attempt.
  abbrev pub behind : ℕ → Context → Dispatched → MemoryRepository → Run → Run
  behind n at_wait d m again =
      if not (is_retrying d)
      then some (continues, made d, m)
      else if ltb_ℤ max_retries (pos (suc n))
      then some (continues, made d, m)
      else (elim at_wait [
        | some ended ↦ some (returns, made d, m)
        | none ↦ with_attempts (made d) again
      ])

  behind-Ends :
      (ep : Endpoint) (n : ℕ) (at_wait : Context) (d : Dispatched) (m : MemoryRepository)
      (again : Run)
      → IsValid m
      → All (IsTo ep) (made d)
      → (suc n ≤ pos_part max_retries → Ends ep (pos_part max_retries - n) again)
      → Ends ep (suc (pos_part max_retries - n)) (behind n at_wait d m again)
  behind-Ends ep n at_wait d m again v to goes = elim (Bool-cases (is_retrying d)) [
    | inr last ↦ (continues, made d, m, rw last, v, omega (arith, made_le d), to)
    | inl retries ↦ elim (Bool-cases (ltb_ℤ max_retries (pos (suc n)))) [
      | inl over ↦ (continues, made d, m, rw (retries, over), v, omega (arith, made_le d), to)
      | inr more ↦ elim (Option-cases at_wait) [
        | inr (e, ended) ↦
            (returns, made d, m, rw (retries, more, ended), v, omega (arith, made_le d), to)
        | inl waited ↦
            subst (Ends ep (suc (pos_part max_retries - n))) (rw (retries, more, waited)) (
              Ends-le ep (1 + (pos_part max_retries - n)) (suc (pos_part max_retries - n))
                (with_attempts (made d) again) (omega arith)
                (with_attempts-Ends ep 1 (pos_part max_retries - n) (made d) again (made_le d) to
                  (goes (ground arith))))
      ]
    ]
  ]

  module _ (fuel : ℕ) (turns : ℕ → AttemptTurn) (ep : Endpoint) (e : Event) (n : ℕ)
      (m : MemoryRepository) where
    abbrev pub exchanged : Dispatched × MemoryRepository
    exchanged =
        dispatch hmac_hex status_text max_retries (turns n).exchange (some ep) (some e) (pos n) m

    attempt_ended :
        (x : Error)
        → (turns n).at_loop ≡ some x
        → attempt_loop hmac_hex status_text max_retries (suc fuel) turns ep e n m
          ≡ some (returns, [], m)
    unfolding attempt_loop
    attempt_ended x ended = ground arith

    pub attempt_live :
        (turns n).at_loop ≡ none
        → attempt_loop hmac_hex status_text max_retries (suc fuel) turns ep e n m
          ≡ behind n
              (turns n).at_wait
              exchanged.0
              exchanged.1
              (attempt_loop hmac_hex status_text max_retries fuel turns ep e (suc n) exchanged.1)
    unfolding attempt_loop
    attempt_live live = ground arith

  made-IsTo :
      (x : Exchange) (ep : Endpoint) (e : Event) (n : ℤ) (m : MemoryRepository)
      → All (IsTo ep) (made (dispatch hmac_hex status_text max_retries x (some ep) (some e) n m).0)
  unfolding dispatch conclude
  made-IsTo x ep e n m = elim (Option-cases x.create_err) [
    | inr (bad, failed) ↦ ground arith
    | inl fine ↦
        let reply = x.receiver (request_of hmac_hex status_text max_retries x.unix_now ep e) in
        let a = attempt_of hmac_hex status_text max_retries x ep e (at_least_one n) reply in
        elim (Result-cases (record_delivery_attempt x.at_record x.record_time a m).0) [
          | inl (bad, lost) ↦ ground arith
          | inr (u, stored) ↦ ground arith
        ]
  ]

  -- The loop over the attempts ends, and makes no attempt behind the policy's limit.
  attempt_loop-Ends :
      (fuel : ℕ) (turns : ℕ → AttemptTurn) (ep : Endpoint) (e : Event) (n : ℕ)
      (m : MemoryRepository)
      → IsValid m
      → pos_part max_retries - n < fuel
      → Ends ep
          (suc (pos_part max_retries - n))
          (attempt_loop hmac_hex status_text max_retries fuel turns ep e n m)
  attempt_loop-Ends zero turns ep e n m v lt = absurd (omega arith)
  attempt_loop-Ends (suc fuel) turns ep e n m v lt = elim (Option-cases (turns n).at_loop) [
    | inr (x, ended) ↦
        (returns, [], m, attempt_ended fuel turns ep e n m x ended, v, omega arith, tt)
    | inl live ↦
        let r = exchanged fuel turns ep e n m in
        let valid =
          dispatch-IsValid hmac_hex status_text max_retries (turns n).exchange (some ep) (some e)
            (pos n) m v in
        let again = attempt_loop hmac_hex status_text max_retries fuel turns ep e (suc n) r.1 in
        subst (Ends ep (suc (pos_part max_retries - n)))
          (sym (attempt_live fuel turns ep e n m live))
          (behind-Ends ep n (turns n).at_wait r.0 r.1 again valid
            (made-IsTo (turns n).exchange ep e (pos n) m)
            (λ more.
              Ends-le ep (suc (pos_part max_retries - suc n)) (pos_part max_retries - n) again
                (omega arith) (attempt_loop-Ends fuel turns ep e (suc n) r.1 valid (omega arith))))
  ]

  -- The most attempts at one endpoint.
  abbrev pub limit : ℕ
  limit = suc (pos_part max_retries - 1)

  module _ (t : MessageTurn) (e : Event) (ep : Endpoint) (eps : List Endpoint)
      (m : MemoryRepository) where
    abbrev pub first : Run
    first =
        attempt_loop hmac_hex status_text max_retries (enough hmac_hex status_text max_retries)
          (t.attempts ep) ep e 1 m

    loop_returns :
        (seen : List DeliveryAttempt) (m' : MemoryRepository)
        → t.at_endpoint ep ≡ none
        → first ≡ some (returns, seen, m')
        → endpoint_loop hmac_hex status_text max_retries t e (ep ∷ eps) m ≡ some (returns, seen, m')
    unfolding endpoint_loop
    loop_returns seen m' live done = ground arith

    pub loop_continues :
        (seen : List DeliveryAttempt) (m' : MemoryRepository)
        → t.at_endpoint ep ≡ none
        → first ≡ some (continues, seen, m')
        → endpoint_loop hmac_hex status_text max_retries t e (ep ∷ eps) m
          ≡ with_attempts seen (endpoint_loop hmac_hex status_text max_retries t e eps m')
    unfolding endpoint_loop
    loop_continues seen m' live done = ground arith

    loop_ended :
        (x : Error)
        → t.at_endpoint ep ≡ some x
        → endpoint_loop hmac_hex status_text max_retries t e (ep ∷ eps) m ≡ some (returns, [], m)
    unfolding endpoint_loop
    loop_ended x ended = ground arith

  -- A run over endpoints that ended with a valid repository, after at most `limit` attempts for each
  -- of them.
  abbrev pub EndsAll : List Endpoint → Run → Type 0
  EndsAll eps r =
      (f : Flow) × (seen : List DeliveryAttempt) × (m : MemoryRepository) × (r ≡ some (f, seen, m))
      × IsValid m
      × (length seen ≤ length eps * limit)
      × ((id : Text) → count_to id seen ≤ count_named id eps * limit)

  nothing : (id : Text) (eps : List Endpoint) → count_to id [] ≤ count_named id eps * limit
  unfolding count_to
  nothing id eps = omega arith

  -- The attempts at the first endpoint, and those at the others.
  each-first :
      (id : Text) (ep : Endpoint) (eps : List Endpoint) (seen others : List DeliveryAttempt)
      → length seen ≤ limit
      → All (IsTo ep) seen
      → count_to id others ≤ count_named id eps * limit
      → count_to id (seen ++ others) ≤ count_named id (ep ∷ eps) * limit
  unfolding count_named
  each-first id ep eps seen others few to rest =
      let here = count_to_le id ep seen to in
      let both = count_to-append id seen others in
      let more : suc (count_named id eps) * limit ≡ count_named id eps * limit + limit =
        suc-mul (count_named id eps) limit in
      ground (arith, here, both, more)

  first-Ends :
      (t : MessageTurn) (e : Event) (ep : Endpoint) (eps : List Endpoint) (m : MemoryRepository)
      (f : Flow) (seen : List DeliveryAttempt) (m' : MemoryRepository)
      → t.at_endpoint ep ≡ none
      → first t e ep eps m ≡ some (f, seen, m')
      → IsValid m'
      → length seen ≤ limit
      → All (IsTo ep) seen
      → EndsAll eps (endpoint_loop hmac_hex status_text max_retries t e eps m')
      → EndsAll (ep ∷ eps) (endpoint_loop hmac_hex status_text max_retries t e (ep ∷ eps) m)
  first-Ends t e ep eps m returns seen m' live done valid few to others =
      let more : suc (length eps) * limit ≡ length eps * limit + limit =
        suc-mul (length eps) limit in
      (
        returns,
        seen,
        m',
        loop_returns t e ep eps m seen m' live done,
        valid,
        omega (arith, more, few),
        λ id.
            subst (λ l. count_to id l ≤ count_named id (ep ∷ eps) * limit) (append-nil seen)
              (each-first id ep eps seen [] few to (nothing id eps)),
      )
  first-Ends t e ep eps m continues seen m' live done valid few to
        (f, seen', m'', e', v, few', each) =
      let more : suc (length eps) * limit ≡ length eps * limit + limit =
        suc-mul (length eps) limit in
      (
        f,
        seen ++ seen',
        m'',
        loop_continues t e ep eps m seen m' live done ∙ ap (with_attempts seen) e',
        v,
        omega (arith, more, few, few', length-append seen seen'),
        λ id. each-first id ep eps seen seen' few to (each id),
      )

  -- From a valid repository and whatever the receivers answer, the loop over the endpoints ends, keeps the
  -- repository valid, and makes at most max(1, MaxRetries) attempts for each endpoint: in all, at most as
  -- many times the number of endpoints, and at the endpoints of each id, at most as many times the number
  -- of endpoints with that id.
  pub endpoint_loop_ends :
      (t : MessageTurn) (e : Event) (eps : List Endpoint) (m : MemoryRepository)
      → IsValid m
      → (f : Flow) × (seen : List DeliveryAttempt) × (m' : MemoryRepository) × (endpoint_loop
            hmac_hex status_text max_retries t e eps m
          ≡ some (f, seen, m'))
        × IsValid m'
        × (length seen ≤ length eps * suc (pos_part max_retries - 1))
        × ((id : Text) → count_to id seen ≤ count_named id eps * suc (pos_part max_retries - 1))
  unfolding endpoint_loop
  endpoint_loop_ends t e [] m v = (continues, [], m, refl, v, omega arith, λ id. nothing id [])
  endpoint_loop_ends t e (ep ∷ eps) m v = elim (Option-cases (t.at_endpoint ep)) [
    | inr (x, ended) ↦ (
      returns,
      [],
      m,
      loop_ended t e ep eps m x ended,
      v,
      omega arith,
      λ id. nothing id (ep ∷ eps),
    )
    | inl live ↦
        let (f, seen, m', done, valid, few, to) =
          attempt_loop-Ends (enough hmac_hex status_text max_retries) (t.attempts ep) ep e 1 m v
            (omega arith) in
        first-Ends t e ep eps m f seen m' live done valid few to
          (endpoint_loop_ends t e eps m' valid)
  ]
