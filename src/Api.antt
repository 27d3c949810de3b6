-- ===== src/Api.antt =====
-- apps/api/src: the services behind the routes.
pub mod Chainhook
pub mod Parser
pub mod Keys
pub mod Alerts
pub mod Auth
pub mod RateLimit
pub mod Portfolios
pub mod Simulations
pub mod Receiver
mod Tests
