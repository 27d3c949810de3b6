-- ===== src/Risk.antt =====
-- packages/risk-engine/src/index.ts: exposure, score and stress are its three parts.
pub mod Exposure
pub mod Score
pub mod Stress
pub mod Bounds
pub mod Levels
pub mod Shocks
pub mod Scenarios
mod Tests
