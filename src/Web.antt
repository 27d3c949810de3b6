-- ===== src/Web.antt =====
-- apps/web/lib: the logic of the web application below its components.
pub mod Session
pub mod Requests
pub mod Policy
pub mod Sections
mod Tests
