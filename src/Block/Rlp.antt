-- ===== src/Block/Rlp.antt =====
-- The RLP reader and the RLP writer of src/block/tx.c, and the code that both mean.
pub mod Result
pub mod Reader
pub mod Buffer
pub mod Code
pub mod Reading
pub mod Fields
pub mod Writing
