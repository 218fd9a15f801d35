-- ===== src/Block/Tx.antt =====
-- Transactions: `evmdb_tx_t` and the functions on it of src/block/tx.c.
pub mod Decode
pub mod Sign
pub mod Encoding
pub mod Fields
pub mod RoundTrip
pub mod Signing
pub mod Faults
pub mod Sender
use evm_db.Prelude.{ℕ, [], Bool, false, replicate}
use evm_db.Prelude.Bytes.{Bytes}

-- `evmdb_tx_type_t`.
pub data TxType : Type 0 where
  legacy eip2930 eip1559 : TxType

-- `evmdb_tx_t`. A `uint64_t` is a number, an array or a byte string is a list of bytes. `payload`
-- is the field `data`, and `sender` the field `from`.
pub record Tx : Type 0 where
  pub type : TxType
  pub chain_id : ℕ
  pub nonce : ℕ
  pub gas_price : Bytes
  pub max_fee_per_gas : Bytes
  pub max_priority_fee : Bytes
  pub gas_limit : ℕ
  pub to : Bytes
  pub to_is_null : Bool
  pub value : Bytes
  pub payload : Bytes
  pub v : ℕ
  pub r : Bytes
  pub s : Bytes
  pub hash : Bytes
  pub sender : Bytes
  pub raw : Bytes

abbrev pub zero32 : Bytes
zero32 = replicate 32 0

abbrev pub zero20 : Bytes
zero20 = replicate 20 0

-- `memset(tx, 0, sizeof(*tx))`.
abbrev pub zero_tx : Tx
zero_tx = record {
  type = TxType.legacy;
  chain_id = 0;
  nonce = 0;
  gas_price = zero32;
  max_fee_per_gas = zero32;
  max_priority_fee = zero32;
  gas_limit = 0;
  to = zero20;
  to_is_null = false;
  value = zero32;
  payload = [];
  v = 0;
  r = zero32;
  s = zero32;
  hash = zero32;
  sender = zero20;
  raw = [];
}
