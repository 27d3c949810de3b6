-- ===== src/Adapters.antt =====
-- packages/adapter-native-stacks, adapter-bitpay and adapter-zest-v2: positions from what is read of
-- the chain.
pub mod Decode
pub mod Native
pub mod Bitpay
pub mod Zest
pub mod Ranges
mod Tests
