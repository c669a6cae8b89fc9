-- ===== src/Billing.antt =====
-- Gumroad billing: internal/billing and the webhook handler of internal/web/handlers_billing.go.
pub mod Products
pub mod Signature
pub mod Event
pub mod Database
pub mod Dispatcher
pub mod Webhook
pub mod Frame
pub mod Cases
pub mod Outcomes
pub mod Failures
pub mod Replay
mod Tests
