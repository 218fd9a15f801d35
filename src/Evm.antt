-- ===== src/Evm.antt =====
-- src/evm: gas (gas.c) and the executor (executor.c).
pub mod Gas
pub mod Overlay
pub mod Host
pub mod Executor
