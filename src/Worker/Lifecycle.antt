-- ===== src/Worker/Lifecycle.antt =====
-- internal/worker/pool.go: Start, Stop and Shutdown, and the goroutines that they start and await.
use web_hook_project.Prelude.{
  ℕ, zero, suc, ◌+◌, ◌-◌, Bool, true, false, not, ◌&&◌, ◌||◌, List, [], ◌∷◌, Option, none, some,
  ◌≡◌, refl, ap, sym, subst, ◌∙◌, arith, codes, ◌==◌, nat_eq, if◌then◌else◌,
}
use web_hook_project.Prelude.Errors.{message, wrap, Result, ok, err, Context}
use web_hook_project.Prelude.Int.{pos_part}
use web_hook_project.Queue.{MemoryStreamQueue, create_consumer_group}
use web_hook_project.Worker.{Config}
use web_hook_project.Worker.Loops.{has_ended}

-- `goroutines` is the count of the wait group, and `context` whether the pool has its context and
-- whether that was canceled.
pub record Pool : Type 0 where
  pub queue : MemoryStreamQueue
  pub started : Bool
  pub stopped : Bool
  pub context : Option Bool
  pub goroutines : ℕ

abbrev pub new_pool : MemoryStreamQueue → Pool
new_pool q = record { queue = q; started = false; stopped = false; context = none; goroutines = 0 }

abbrev pub cancel : Option Bool → Option Bool
cancel none = none
cancel (some canceled) = some true

-- What happens to a pool: the methods up to where they wait, a goroutine that returns, and the ways in
-- which the waits end.
unfoldable pub start : Config → Context → Pool → Result (Unit {0}) × Pool
start c ctx p = if p.started then (err (message "worker pool is already started"), p) else (
  ok tt,
  record p {
    queue = (create_consumer_group ctx c.stream_name c.group_name (codes "0") p.queue).1;
    started = true;
    context = some (has_ended ctx);
    goroutines = p.goroutines + (pos_part c.num_workers + 1);
  },
)

-- A goroutine may return only when its context has ended.
unfoldable pub goroutine_returns : Pool → Pool
goroutine_returns p = elim p.context [
  | some true ↦ record p { goroutines = p.goroutines - 1 }
  | other ↦ p
]

-- Stop and Shutdown up to the wait; `true` where there is a wait to come.
unfoldable pub signal : Pool → Bool × Pool
signal p =
    if p.stopped
    then (false, p)
    else (true, record p { stopped = true; context = cancel p.context })

abbrev pub timed_out : Context → Option (Result (Unit {0}))
timed_out none = none
timed_out (some e) = some (err (wrap "worker pool shutdown timed out" e))

-- A `select` between `done` and the end of the context. Where both are ready, Go takes either one:
-- `takes_done` is its choice.
abbrev pub select : Bool → Context → Option (Result (Unit {0}))
select takes_done ctx = if takes_done || not (has_ended ctx) then some (ok tt) else timed_out ctx

-- What the wait of Shutdown comes to: the goroutines have returned, or its context has ended; `none`
-- is a wait that goes on.
unfoldable pub shutdown_result : Bool → Context → Pool → Option (Result (Unit {0}))
shutdown_result takes_done ctx p = elim p.goroutines [
  | zero ↦ select takes_done ctx
  | suc n ↦ timed_out ctx
]

abbrev pub returned : ℕ → Pool → Pool
returned zero p = p
returned (suc n) p = returned n (goroutine_returns p)

-- Calls of Stop or Shutdown on a pool, and goroutines that get to a place where they may return.
pub data Move : Type 0 where
  signals returns_if_done : Move

abbrev pub moved : Move → Pool → Pool
moved signals p = (signal p).1
moved returns_if_done p = goroutine_returns p

abbrev pub all_moved : List Move → Pool → Pool
all_moved [] p = p
all_moved (m ∷ ms) p = all_moved ms (moved m p)

goroutine_returns_ended :
    (p : Pool)
    → p.context ≡ some true
    → goroutine_returns p ≡ record p { goroutines = p.goroutines - 1 }
unfolding goroutine_returns
goroutine_returns_ended p done = rw done refl

all_moved_kept :
    (ms : List Move) (p : Pool) → p.stopped ≡ true → p.context ≡ some false → all_moved ms p ≡ p
unfolding signal goroutine_returns
all_moved_kept [] p stopped live = refl
all_moved_kept (signals ∷ ms) p stopped live =
    let left : signal p ≡ (false, p) = ground arith in
    ap (λ q. all_moved ms q.1) left ∙ all_moved_kept ms p stopped live
all_moved_kept (returns_if_done ∷ ms) p stopped live =
    let left : goroutine_returns p ≡ p = ground arith in
    ap (all_moved ms) left ∙ all_moved_kept ms p stopped live

-- The wait of a pool with a canceled context and `n + k` goroutines is not over before the last of them
-- returned.
returned-goroutines :
    (n k : ℕ) (p : Pool)
    → p.context ≡ some true
    → p.goroutines ≡ n + k
    → (returned n p).goroutines ≡ k
returned-goroutines zero k p done count = count ∙ (omega arith)
returned-goroutines (suc n) k p done count =
    let p' = record p { goroutines = p.goroutines - 1 } in
    let fewer : p.goroutines - 1 ≡ n + k = rw count (omega arith) in
    let ended = goroutine_returns_ended p done in
    subst (λ q. (returned n q).goroutines ≡ k) (sym ended) (returned-goroutines n k p' done fewer)

shutdown_result_lem :
    (takes_done : Bool) (wait : Context) (k : ℕ) (p : Pool)
    → p.goroutines ≡ k
    → shutdown_result takes_done wait p
      ≡ (if k == 0 && (takes_done || not (has_ended wait)) then some (ok tt) else timed_out wait)
unfolding shutdown_result
shutdown_result_lem takes_done wait k p count = rw count (ground arith)

-- A pool that was started with a live context and then signalled has as many goroutines to wait for as
-- it has workers, and one more: with `n` of them back and `k` at work, the wait of Shutdown is over
-- without an error when `k` is 0, unless its own context has ended too and the select takes that; else
-- it is over only when its own context has ended, with the timeout error.
pub signal-drains :
    (c : Config) (q : MemoryStreamQueue) (takes_done : Bool) (wait : Context) (n k : ℕ)
    → n + k ≡ pos_part c.num_workers + 1
    → shutdown_result takes_done wait (returned n (signal (start c none (new_pool q)).1).1)
      ≡ (if k == 0 && (takes_done || not (has_ended wait)) then some (ok tt) else timed_out wait)
unfolding signal start
signal-drains c q takes_done wait n k count =
    let p = (signal (start c none (new_pool q)).1).1 in
    let all : p.goroutines ≡ n + k = omega arith in
    shutdown_result_lem takes_done wait k (returned n p) (returned-goroutines n k p refl all)

-- A pool whose Stop or Shutdown came before its Start can no more be stopped: once started with a live
-- context, it keeps all its goroutines, and its context live, through any further calls of Stop and
-- Shutdown.
pub signal-too_early :
    (c : Config) (q : MemoryStreamQueue) (ms : List Move)
    → let p = all_moved ms (start c none (signal (new_pool q)).1).1 in
      (p.goroutines ≡ pos_part c.num_workers + 1) × (p.context ≡ some false)
unfolding signal start
signal-too_early c q ms =
    let p = (start c none (signal (new_pool q)).1).1 in
    let kept = all_moved_kept ms p refl refl in rw kept (omega arith, refl)
