-- ===== src/Stacks.antt =====
-- packages/stacks: the decoding of contract data that every adapter shares.
pub mod Clarity
pub mod Client
mod Tests
