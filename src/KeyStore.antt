-- ===== src/KeyStore.antt =====
-- KeyStore of the daemon (infra/key_store.{hh,cc}): how API keys are kept in configuration files.
pub mod Defs
mod Xor
mod RoundTrip
pub mod Config
mod Tests
