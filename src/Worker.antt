-- ===== src/Worker.antt =====
-- apps/worker/src: the evaluation of alerts, the throttle of attestations and the delivery of
-- webhooks, with the job processors of main.ts that use them.
pub mod Alerts
pub mod Throttle
pub mod Attestation
pub mod Delivery
pub mod Canonical
pub mod Report
pub mod Risk
pub mod Mail
mod Tests
