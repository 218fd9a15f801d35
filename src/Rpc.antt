-- ===== src/Rpc.antt =====
-- src/rpc: the JSON scanner (json.c), the methods (handlers.c) and the server (server.c).
pub mod Json
pub mod Node
pub mod Request
pub mod Reads
pub mod Call
pub mod Send
pub mod Dispatch
pub mod Batch
pub mod Client
pub mod Effects
pub mod Invariant
pub mod Wire
pub mod Threads
pub mod Mining
pub mod Faults
pub mod Answers
pub mod Quantity
