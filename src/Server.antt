-- ===== src/Server.antt =====
-- cmd/server/main.go: the settings of the environment, the parts that the server is put together from,
-- and its shutdown.
use web_hook_project.Prelude.{
  ◌<◌, Bool, true, false, ◌||◌, List, [], ◌∷◌, ◌++◌, Option, none, some, Text, codes, ◌==◌, text_eq,
  if◌then◌else◌, All, ◌≡◌, arith,
}
use web_hook_project.Prelude.Errors.{Error}
use web_hook_project.Prelude.Int.{ℤ, pos, pos_part}
use web_hook_project.Domain.{is_empty}
use web_hook_project.Retry.{Float64, default_backoff_policy, seconds}
use web_hook_project.Relay.{milliseconds}
use web_hook_project.Dispatcher.Build.{
  SafeClient, Dispatcher, new_dispatcher, with_metrics, with_attempt_callback,
}
use web_hook_project.Dispatcher.Dial.{Net, IsPublic, dial_context, dial_context-IsPublic}
use web_hook_project.Worker.{Config, with_defaults}

-- os.Getenv, which gives the empty text for a name that is not set, and strconv.Atoi
module _ (env : Text → Text) (atoi : Text → Option ℤ) where
  unfoldable pub get_env : Text → Text → Text
  get_env key default_val = if is_empty (env key) then default_val else env key

  unfoldable pub get_env_int : Text → ℤ → ℤ
  get_env_int key default_val =
      if is_empty (env key)
      then default_val
      else (elim (atoi (env key)) [ none ↦ default_val | some val ↦ val ])

  abbrev pub allow_local : Bool
  allow_local =
      env (codes "ALLOW_LOCAL_DISPATCH") == codes "true"
      || env (codes "ENABLE_SSRF_PROTECTION") == codes "false"

-- What an attempt to use PostgreSQL or Redis finds: the error of sql.Open and that of the ping.
pub record Reached : Type 0 where
  pub open_err : Option Error
  pub ping_err : Option Error

-- Which implementation is used, and whether there is a handle to close in the end.
pub record Backend : Type 0 where
  pub external : Bool
  pub has_handle : Bool

-- The repository: PostgreSQL where it can be opened and answers, else in memory.
unfoldable pub choose_repository : Text → Reached → Backend
choose_repository url reached =
    if is_empty url
    then record { external = false; has_handle = false }
    else (elim reached.open_err [
      | some e ↦ record { external = false; has_handle = false }
      | none ↦ elim reached.ping_err [
        | some e ↦ record { external = false; has_handle = true }
        | none ↦ record { external = true; has_handle = true }
      ]
    ])

-- The queue and the guard: both on Redis where it answers, else both in memory. An address that is
-- not a URL is dialed as it is.
unfoldable pub choose_queue_and_guard : Text → Option Error → Backend
choose_queue_and_guard url ping_err =
    if is_empty url then record { external = false; has_handle = false } else (elim ping_err [
      | some e ↦ record { external = false; has_handle = true }
      | none ↦ record { external = true; has_handle = true }
    ])

abbrev pub worker_config : ℤ → Config
worker_config worker_count = record {
  num_workers = worker_count;
  stream_name = codes "stream:events:pending";
  group_name = codes "worker-group";
  batch_size = pos 10;
  poll_interval = pos (milliseconds 100);
  min_idle_duration = pos 0;
  claim_interval = pos 0;
  max_claim_attempts = pos 0;
}

-- The parts of the running server: its address, its stores, its dispatcher, the configuration that its
-- worker pool is made with, and the size of the relay's batches.
pub record Server (f : Float64) : Type 0 where
  pub addr : Text
  pub repository : Backend
  pub queue_and_guard : Backend
  pub dispatcher : Dispatcher f
  pub worker_cfg : Config
  pub relay_batch_size : ℤ

unfoldable pub main_server :
    (f : Float64)
    → (Text → Text)
    → (Text → Option ℤ)
    → (postgres : Reached) → (redis_ping : Option Error) → Server f
main_server f env atoi postgres redis_ping =
    let safe_client : SafeClient = record {
      timeout = pos (seconds 10);
      allow_private = allow_local env atoi;
    } in
    record {
      addr = codes ":" ++ get_env env atoi (codes "PORT") (codes "8080");
      repository = choose_repository (env (codes "DATABASE_URL")) postgres;
      queue_and_guard = choose_queue_and_guard (env (codes "REDIS_URL")) redis_ping;
      dispatcher =
          with_attempt_callback f true
            (with_metrics f true (new_dispatcher f (some safe_client) (default_backoff_policy f)));
      worker_cfg = worker_config (get_env_int env atoi (codes "WORKER_COUNT") (pos 10));
      relay_batch_size = get_env_int env atoi (codes "RELAY_BATCH_SIZE") (pos 100);
    }

-- What the main goroutine does once a signal came; no step's error keeps it from the next.
pub data ShutdownStep : Type 0 where
  shuts_http_server cancels_root awaits_relay stops_pool closes_database closes_redis : ShutdownStep

abbrev pub closing : Backend → ShutdownStep → List ShutdownStep
closing b s = if b.has_handle then s ∷ [] else []

unfoldable pub shutdown_steps : (f : Float64) → Server f → List ShutdownStep
shutdown_steps f s =
    (shuts_http_server ∷ cancels_root ∷ awaits_relay ∷ stops_pool ∷ [])
    ++ (closing s.repository closes_database ++ closing s.queue_and_guard closes_redis)

-- With no override in the environment, the deliveries of the server contact no restricted address.
main_server-IsPublic :
    (f : Float64) (env : Text → Text) (atoi : Text → Option ℤ) (postgres : Reached)
    (redis_ping : Option Error) (net : Net) (addr : Text)
    → (env (codes "ALLOW_LOCAL_DISPATCH") == codes "true") ≡ false
    → (env (codes "ENABLE_SSRF_PROTECTION") == codes "false") ≡ false
    → let d = (main_server f env atoi postgres redis_ping).dispatcher in
      All (IsPublic net) (dial_context net d.client.allow_private addr).contacted
unfolding main_server new_dispatcher
main_server-IsPublic f env atoi postgres redis_ping net addr no_override protected =
    rw no_override (rw protected (dial_context-IsPublic net addr))

-- The pool of the server has a worker, whatever the environment says.
main_server-has_workers :
    (f : Float64) (env : Text → Text) (atoi : Text → Option ℤ) (postgres : Reached)
    (redis_ping : Option Error)
    → 0
      < pos_part (with_defaults (main_server f env atoi postgres redis_ping).worker_cfg).num_workers
unfolding main_server with_defaults
main_server-has_workers f env atoi postgres redis_ping = ground arith
