-- ===== src/Dispatcher/Build.antt =====
-- internal/dispatcher/client.go and ssrf.go: what NewDispatcher and NewSafeHTTPClient build.
use web_hook_project.Prelude.{Bool, false, Option, none, some, ◌==◌, nat_eq, if◌then◌else◌}
use web_hook_project.Prelude.Int.{ℤ, pos, negsuc}
use web_hook_project.Retry.{Float64, BackoffPolicy, default_backoff_policy, seconds}

-- The client of NewSafeHTTPClientWithAllowPrivate, by what it was made with; Dispatcher.Dial has its
-- dials.
pub record SafeClient : Type 0 where
  pub timeout : ℤ
  pub allow_private : Bool

-- NewSafeHTTPClient
abbrev pub new_safe_http_client : ℤ → SafeClient
new_safe_http_client timeout = record { timeout = timeout; allow_private = false }

-- The client and the policy of a Dispatcher; whether it has metrics and a callback.
pub record Dispatcher (f : Float64) : Type 0 where
  pub client : SafeClient
  pub policy : BackoffPolicy f
  pub has_metrics : Bool
  pub has_callback : Bool

abbrev pub client_or_default : Option SafeClient → SafeClient
client_or_default (some c) = c
client_or_default none = new_safe_http_client (pos (seconds 10))

abbrev pub is_zero : ℤ → Bool
is_zero (pos n) = n == 0
is_zero (negsuc n) = false

-- NewDispatcher
unfoldable pub new_dispatcher : (f : Float64) → Option SafeClient → BackoffPolicy f → Dispatcher f
new_dispatcher f client policy = record {
  client = client_or_default client;
  policy = if is_zero policy.max_retries then default_backoff_policy f else policy;
  has_metrics = false;
  has_callback = false;
}

-- WithMetrics and WithAttemptCallback; `true` stands for a value that is not nil.
abbrev pub with_metrics : (f : Float64) → Bool → Dispatcher f → Dispatcher f
with_metrics f given d = record d { has_metrics = given }

abbrev pub with_attempt_callback : (f : Float64) → Bool → Dispatcher f → Dispatcher f
with_attempt_callback f given d = record d { has_callback = given }
