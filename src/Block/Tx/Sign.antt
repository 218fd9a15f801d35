-- ===== src/Block/Tx/Sign.antt =====
-- `evmdb_tx_signing_hash` and `evmdb_tx_recover_sender` of src/block/tx.c.
use evm_db.Prelude.{
  ℕ, ◌-◌, ◌%◌, ◌++◌, Bool, true, false, Option, none, some, ltb, leb, ◌==◌, ◌||◌, if◌then◌else◌,
  drop, take,
}
use evm_db.Prelude.Bytes.{Bytes}
use evm_db.Core.Keccak.{keccak256}
use evm_db.Block.Rlp.Result.{Result, ok, err, fault, diverge, ◌>>=◌}
use evm_db.Block.Rlp.Buffer.{
  Buffer, empty, ◌⨾◌, append_byte, append_bytes, append_uint64, append_bytes32, append_address,
  append_empty_list, wrap_list,
}
use evm_db.Block.Tx.{TxType, legacy, eip2930, eip1559, Tx, zero32, zero20}

module _ (alloc : ℕ → Bool) where
  unfoldable pub eip1559_payload : Tx → Buffer → Result Buffer
  eip1559_payload tx =
      append_uint64 alloc tx.chain_id
      ⨾ append_uint64 alloc tx.nonce
      ⨾ append_bytes32 alloc tx.max_priority_fee
      ⨾ append_bytes32 alloc tx.max_fee_per_gas
      ⨾ append_uint64 alloc tx.gas_limit
      ⨾ append_address alloc tx.to tx.to_is_null
      ⨾ append_bytes32 alloc tx.value
      ⨾ append_bytes alloc tx.payload
      ⨾ append_empty_list alloc

  unfoldable pub legacy_payload : Tx → Buffer → Result Buffer
  legacy_payload tx =
      append_uint64 alloc tx.nonce
      ⨾ append_bytes32 alloc tx.gas_price
      ⨾ append_uint64 alloc tx.gas_limit
      ⨾ append_address alloc tx.to tx.to_is_null
      ⨾ append_bytes32 alloc tx.value
      ⨾ append_bytes alloc tx.payload

  -- What EIP-155 adds for a chain id other than 0.
  unfoldable pub replay_payload : Tx → Buffer → Result Buffer
  replay_payload tx buf =
      if tx.chain_id == 0
      then ok buf
      else (append_uint64 alloc tx.chain_id
            ⨾ append_bytes32 alloc zero32
            ⨾ append_bytes32 alloc zero32)
          buf

  -- The bytes that are hashed.
  unfoldable pub signing_bytes : TxType → Tx → Result Buffer
  signing_bytes eip1559 tx = do
    payload ← eip1559_payload tx empty
    (append_byte alloc 0x02 ⨾ wrap_list alloc payload) empty
  signing_bytes legacy tx = do
    payload ← (legacy_payload tx ⨾ replay_payload tx) empty
    wrap_list alloc payload empty
  signing_bytes eip2930 tx = err

  unfoldable pub signing_hash : Tx → Result Bytes
  signing_hash tx = do encoded ← signing_bytes tx.type tx; ok (keccak256 encoded.bytes)

-- The recovery id, or `none` where the function returns -1.
unfoldable pub recovery_id : TxType → ℕ → Option ℕ
recovery_id eip1559 v = if ltb 1 v then none else some v
recovery_id eip2930 v = if ltb 1 v then none else some v
recovery_id legacy v =
    if v == 27 || v == 28 then some (v - 27) else if leb 35 v then some ((v - 35) % 2) else none

-- libsecp256k1: from a compact signature of 64 bytes, a recovery id and a message of 32 bytes to
-- the uncompressed public key of 65 bytes, or `none` where one of the calls fails.
abbrev pub Recover : Type 0
Recover = Bytes → ℕ → Bytes → Option Bytes

-- The context of libsecp256k1 is created where `context` says so.
module _ (alloc : ℕ → Bool) (context : Bool) (recover : Recover) where
  unfoldable pub recovered : Tx → Option Bytes → Bool × Tx
  recovered tx none = (false, record tx { sender = zero20 })
  recovered tx (some pubkey) =
      (true, record tx { sender = drop 12 (keccak256 (take 64 (drop 1 pubkey))) })

  unfoldable pub recover_with : Tx → Bytes → Option ℕ → Bool × Tx
  recover_with tx signing none = (false, tx)
  recover_with tx signing (some recid) =
      if context then recovered tx (recover (tx.r ++ tx.s) recid signing) else (false, tx)

  -- `false` is the return value -1, with the transaction as the call leaves it.
  unfoldable pub recover_from_hash : Tx → Result Bytes → Result (Bool × Tx)
  recover_from_hash tx (ok signing) = ok (recover_with tx signing (recovery_id tx.type tx.v))
  recover_from_hash tx err = ok (false, tx)
  recover_from_hash tx fault = fault
  recover_from_hash tx diverge = diverge

  unfoldable pub recover_sender : Tx → Result (Bool × Tx)
  recover_sender tx = recover_from_hash tx (signing_hash alloc tx)
