-- ===== src/Examples/Guards.antt =====
-- The guards at concrete inputs, and a small server that stands in for Redis.
use web_hook_project.Prelude.{
  ◌+◌, ◌*◌, ◌/◌, ◌^◌, ◌<◌, true, false, List, [], ◌∷◌, Option, none, some, ◌≡◌, ◌≢◌, refl, sym, ◌∙◌,
  ap, subst, arith, inl, inr, Text, codes, text_eq, text_beq, Map, get, put, del, get-put_self,
  get-put_ne, get-del_self, get-del_ne, ltb,
}
use web_hook_project.Prelude.Errors.{message, Result, ok, err}
use web_hook_project.Prelude.Int.{pos, pos_part}
use web_hook_project.Domain.{Time}
use web_hook_project.Idempotency.{CachedResponse, acquire_lock, answer, new_memory_guard}
use web_hook_project.Idempotency.Guard.{lacks_parameters, vacant, busy, told, IsGuard, replied}
use web_hook_project.Idempotency.Calls.{
  Call, acquires, responds, releases, all_called, grant_excludes, response_replays,
}
use web_hook_project.Idempotency.Memory.{IsValidMemory, memory_guard, memory_guard-IsGuard}
use web_hook_project.Idempotency.Redis.{RedisServer}
use web_hook_project.Idempotency.RedisLaws.{KeepsKeys, Encodes, redis_guard, redis_guard-IsGuard}

-- Values with the times at which they go.
abbrev Values : Type 0
Values = Map Text (Text × Time)

abbrev live_value : Time → Option (Text × Time) → Option Text
live_value now none = none
live_value now (some (v, until)) = elim (ltb now until) [ true ↦ some v | false ↦ none ]

abbrev toy_server : RedisServer
toy_server = record {
  Store = Values;
  fetch = λ now k s. live_value now (get k s);
  set_nx = λ now k w ms s. (true, put k (w, now + ms * 10 ^ 6) s);
  set = λ now k w ttl s. put k (w, now + pos_part ttl / 10 ^ 6 * 10 ^ 6) s;
  remove = λ now k s. (1, del k s);
}

live_value-put :
    (later until : Time) (k w : Text) (s : Values)
    → later < until
    → live_value later (get k (put k (w, until) s)) ≡ some w
live_value-put later until k w s before =
    ap (live_value later) (get-put_self k (w, until) s) ∙ (ground arith)

live_value_only :
    (later until : Time) (k w v : Text) (s : Values)
    → live_value later (get k (put k (w, until) s)) ≡ some v
    → v ≡ w
live_value_only later until k w v s h =
    let found = sym (ap (live_value later) (get-put_self k (w, until) s)) ∙ h in ground arith

toy_server-KeepsKeys : KeepsKeys toy_server
toy_server-KeepsKeys = record {
  set_nx_won = λ now k w ms s free. refl;
  set_nx_stays =
      λ now later k w ms s free after before. live_value-put later (now + ms * 10 ^ 6) k w s before;
  set_nx_only = λ now later k w v ms s free. live_value_only later (now + ms * 10 ^ 6) k w v s;
  set_nx_apart = λ now later k j w ms s other.
      ap (live_value later) (get-put_ne k j (w, now + ms * 10 ^ 6) s other);
  set_stays = λ now later k w ttl s after before.
      live_value-put later (now + pos_part ttl / 10 ^ 6 * 10 ^ 6) k w s before;
  set_only =
      λ now later k w v ttl s. live_value_only later (now + pos_part ttl / 10 ^ 6 * 10 ^ 6) k w v s;
  set_apart = λ now later k j w ttl s other.
      ap (live_value later) (get-put_ne k j (w, now + pos_part ttl / 10 ^ 6 * 10 ^ 6) s other);
  remove_gone = λ now later k s. ap (live_value later) (get-del_self k s);
  remove_apart = λ now later k j s other. ap (live_value later) (get-del_ne k j s other);
}

abbrev toy_marshal : CachedResponse → Result Text
toy_marshal r = ok (0 ∷ r.status_code ∷ r.completed_at ∷ r.body)

abbrev toy_unmarshal : Text → Result CachedResponse
toy_unmarshal (a ∷ status ∷ at ∷ body) =
    ok (record { status_code = status; body = body; completed_at = at })
toy_unmarshal other = err (message "unexpected end of JSON input")

toy_reads_back : (r : CachedResponse) (v : Text) → toy_marshal r ≡ ok v → toy_unmarshal v ≡ ok r
toy_reads_back r v h =
    let same : 0 ∷ r.status_code ∷ r.completed_at ∷ r.body ≡ v = cc h in
    subst (λ w. toy_unmarshal w ≡ ok r) same refl

toy-Encodes : Encodes toy_marshal toy_unmarshal
toy-Encodes = record {
  writes = λ r. (0 ∷ r.status_code ∷ r.completed_at ∷ r.body, refl);
  reads_back = toy_reads_back;
  no_lock = λ r h. ground arith;
  no_grant = λ r h. ground arith;
}

memory_guard_example_valid : IsValidMemory new_memory_guard
unfolding get
memory_guard_example_valid k e h = absurd (ground arith)

redis_guard-IsGuard_example : IsGuard (redis_guard toy_server toy_marshal toy_unmarshal)
redis_guard-IsGuard_example =
    redis_guard-IsGuard toy_server toy_marshal toy_unmarshal toy_server-KeepsKeys toy-Encodes

-- Two clients with one key, and a third one with another.
abbrev between : List Call
between =
    acquires 150 (codes "t1") (codes "k1") (pos 1000)
    ∷ acquires 160 (codes "t1") (codes "k2") (pos 1000)
    ∷ releases 170 (codes "t1") (codes "k2")
    ∷ responds 180 (codes "t2") (codes "k1") 202 [] (pos 1000)
    ∷ []

-- A release and another request for the key.
abbrev later_calls : List Call
later_calls =
    releases 120 (codes "t1") (codes "k1") ∷ acquires 150 (codes "t1") (codes "k1") (pos 1000) ∷ []

abbrev stored_response : CachedResponse
stored_response = record { status_code = 202; body = codes "{}"; completed_at = 100 }

has_parameters : lacks_parameters (codes "t1") (codes "k1") ≡ false
unfolding text_beq
has_parameters = refl

apart12 : codes "t1:k1" ≢ codes "t1:k2"
apart12 h = ground arith

apart_tenant : codes "t1:k1" ≢ codes "t2:k1"
apart_tenant h = ground arith

granted_first :
    (memory_guard.acquire 100 (codes "t1") (codes "k1") (pos 1000) new_memory_guard).0
    ≡ ok (told vacant)
unfolding acquire_lock answer get text_beq
granted_first = refl

grant_excludes_example :
    (memory_guard.acquire 200 (codes "t1") (codes "k1") (pos 1000) (
      all_called memory_guard between
        (memory_guard.acquire 100 (codes "t1") (codes "k1") (pos 1000) new_memory_guard).1)).0
    ≡ ok (told busy)
grant_excludes_example =
    grant_excludes memory_guard memory_guard-IsGuard (codes "t1") (codes "k1") 100 200 (pos 1000)
      (pos 1000) between new_memory_guard memory_guard_example_valid granted_first
      ((omega arith, omega arith), ((omega arith, omega arith), (inl apart12, (apart_tenant, tt))))
      (omega arith) (omega arith)

response_replays_example :
    (memory_guard.acquire 200 (codes "t1") (codes "k1") (pos 1000) (
      all_called memory_guard later_calls
        (memory_guard.respond 100
          (codes "t1")
          (codes "k1")
          202
          (codes "{}")
          (pos 1000)
          new_memory_guard).1)).0
    ≡ ok (told (replied stored_response))
response_replays_example =
    response_replays memory_guard memory_guard-IsGuard (codes "t1") (codes "k1") 100 200 202
      (codes "{}") (pos 1000) (pos 1000) later_calls new_memory_guard memory_guard_example_valid
      has_parameters
      (inr (omega arith, omega arith, (stored_response, refl)), ((omega arith, omega arith), tt))
      (omega arith) (omega arith)
