-- ===== src/Block.antt =====
-- src/block: RLP and transactions (tx.c).
pub mod Rlp
pub mod Tx
