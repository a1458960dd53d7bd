-- ===== src/WebhookClient.antt =====
-- sdk/go/webhookclient: the client for Go.
pub mod Signature
pub mod Requests
pub mod Published
