-- ===== src/Store.antt =====
-- The store of API keys and usage (internal/store/store.go), with the key records of
-- internal/keymaker/keymaker.go. The state is what the store holds in memory; whether a write of the
-- state file worked is an argument.
pub mod Keys
pub mod Usage
