-- ===== src/Sdk.antt =====
-- packages/sdk/src: the HTTP transport of the client library.
pub mod Http
pub mod Client
pub mod Realtime
mod Tests
