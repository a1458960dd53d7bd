-- ===== src/Worker/Redelivery.antt =====
-- internal/worker/pool.go: an event that has been delivered is not sent again.
use web_hook_project.Prelude.{text_eq}
