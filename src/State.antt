-- ===== src/State.antt =====
-- src/state: balances (accounts.c), and the store behind Redis (redis_state.c).
pub mod Balance
pub mod Redis
pub mod Store
