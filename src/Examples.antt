-- ===== src/Examples.antt =====
-- Concrete inputs: each theorem that has hypotheses is applied to some, and a few runs are
-- computed.
mod Core
mod State
mod Store
mod Block
mod Evm
mod Execution
mod Rpc
mod Mining
mod Race
mod Startup
