-- ===== src/State/Store.antt =====
-- The store of src/state/redis_state.c: accounts, storage, code, receipts and the block number,
-- over Redis. One handle serves reads and writes (`ctx_read` is `ctx`). The getters ignore what
-- evmdb_hex_decode returns, so the buffer that the caller passes in is an argument.
pub mod Keys
pub mod Typed
pub mod Accounts
pub mod Storage
pub mod Blobs
pub mod Texts
use evm_db.Prelude.{
  ℕ, ◌+◌, ◌%◌, ◌^◌, [], ◌∷◌, ◌++◌, Option, none, some, Bool, if◌then◌else◌, length, replicate,
}
use evm_db.Prelude.Bytes.{Bytes}
use evm_db.Prelude.Text.{ascii}
use evm_db.Core.Hex
use evm_db.Core.Decimal
use evm_db.Core.Scan.{c_string}
use evm_db.State.Redis.{hget, hmget, hset, get, set, Reply, array, Redis, string_of}

pub record Account : Type 0 where
  pub address : Bytes
  pub nonce : ℕ
  pub balance : Bytes
  pub code_hash : Bytes

-- What is in the buffer of `size` characters behind `evmdb_hex_encode(bytes, n, out, size)`;
-- nothing if that refuses, which the sizes below exclude.
unfoldable pub hex_text : Bytes → ℕ → Bytes
hex_text bytes size = elim (Hex.encode bytes size) [ none ↦ [] | some text ↦ text ]

unfoldable pub addr_to_hex : Bytes → Bytes
addr_to_hex addr = hex_text addr 43

unfoldable pub hash_to_hex : Bytes → Bytes
hash_to_hex hash = hex_text hash 67

unfoldable pub bytes32_to_hex : Bytes → Bytes
bytes32_to_hex b = hex_text b 67

unfoldable pub account_key : Bytes → Bytes
account_key addr = ascii "account:" ++ addr_to_hex addr

unfoldable pub storage_key : Bytes → Bytes
storage_key addr = ascii "storage:" ++ addr_to_hex addr

unfoldable pub code_key : Bytes → Bytes
code_key addr = ascii "code:" ++ addr_to_hex addr

unfoldable pub receipt_key : Bytes → Bytes
receipt_key tx_hash = ascii "receipt:" ++ hash_to_hex tx_hash

abbrev pub block_key : Bytes
block_key = ascii "block:latest"

abbrev pub nonce_field : Bytes
nonce_field = ascii "nonce"

abbrev pub balance_field : Bytes
balance_field = ascii "balance"

abbrev pub codehash_field : Bytes
codehash_field = ascii "codehash"

-- A string reply is decoded into the buffer, anything else clears it.
unfoldable pub hex_value : Option Bytes → Bytes → Bytes
hex_value none out = replicate (length out) 0
hex_value (some str) out = (Hex.decode (some (c_string str)) out).1

unfoldable pub number_value : Option Bytes → ℕ
number_value none = 0
number_value (some str) = Decimal.strtoull (c_string str)

-- `evmdb_bytes_t`: the pointer, with `none` for NULL, and the length.
pub record Blob : Type 0 where
  pub content : Option Bytes
  pub len : ℕ

-- The answer of a read-only command is copied into memory from malloc, which may fail.
unfoldable pub blob : (ℕ → Bool) → ℕ → Option Bytes → Blob
blob alloc extra none = record { content = none; len = 0 }
blob alloc extra (some str) = record {
  content = if alloc ((length str + extra) % 2 ^ 64) then some str else none;
  len = length str;
}

-- The reply to HMGET with three fields; for any other reply the account is cleared.
unfoldable pub account_of : Bytes → Option Reply → Account → Account
account_of addr (some (array (nonce ∷ balance ∷ codehash ∷ []))) out = record {
  address = addr;
  nonce = number_value nonce;
  balance = hex_value balance out.balance;
  code_hash = hex_value codehash out.code_hash;
}
account_of addr _ out = record {
  address = addr;
  nonce = 0;
  balance = replicate 32 0;
  code_hash = replicate 32 0;
}

module _ (redis : Redis) where
  open redis use {Store, run}

  unfoldable pub get_account : Bytes → Account → Store → Account × Store
  get_account addr out s =
      let (r, s') =
        run (hmget (account_key addr) (nonce_field ∷ balance_field ∷ codehash_field ∷ [])) s in
      (account_of addr r out, s')

  unfoldable pub set_account : Account → Store → Store
  set_account acct s =
      (run
        (hset (account_key acct.address) (
          (nonce_field, Decimal.print acct.nonce)
          ∷ (balance_field, bytes32_to_hex acct.balance)
          ∷ (codehash_field, bytes32_to_hex acct.code_hash)
          ∷ []))
        s).1

  unfoldable pub get_balance : Bytes → Bytes → Store → Bytes × Store
  get_balance addr out s =
      let (r, s') = run (hget (account_key addr) balance_field) s in
      (hex_value (string_of r) out, s')

  unfoldable pub set_balance : Bytes → Bytes → Store → Store
  set_balance addr balance s =
      (run (hset (account_key addr) ((balance_field, bytes32_to_hex balance) ∷ [])) s).1

  unfoldable pub get_nonce : Bytes → Store → ℕ × Store
  get_nonce addr s =
      let (r, s') = run (hget (account_key addr) nonce_field) s in (number_value (string_of r), s')

  unfoldable pub set_nonce : Bytes → ℕ → Store → Store
  set_nonce addr nonce s =
      (run (hset (account_key addr) ((nonce_field, Decimal.print nonce) ∷ [])) s).1

  unfoldable pub get_storage : Bytes → Bytes → Bytes → Store → Bytes × Store
  get_storage addr key out s =
      let (r, s') = run (hget (storage_key addr) (bytes32_to_hex key)) s in
      (hex_value (string_of r) out, s')

  unfoldable pub set_storage : Bytes → Bytes → Bytes → Store → Store
  set_storage addr key value s =
      (run (hset (storage_key addr) ((bytes32_to_hex key, bytes32_to_hex value) ∷ [])) s).1

  unfoldable pub get_code : (ℕ → Bool) → Bytes → Store → Blob × Store
  get_code alloc addr s =
      let (r, s') = run (get (code_key addr)) s in (blob alloc 1 (string_of r), s')

  unfoldable pub set_code : Bytes → Bytes → Store → Store
  set_code addr code s = (run (set (code_key addr) code) s).1

  unfoldable pub get_receipt : (ℕ → Bool) → Bytes → Store → Blob × Store
  get_receipt alloc tx_hash s =
      let (r, s') = run (get (receipt_key tx_hash)) s in (blob alloc 0 (string_of r), s')

  unfoldable pub set_receipt : Bytes → Bytes → Store → Store
  set_receipt tx_hash bytes s = (run (set (receipt_key tx_hash) bytes) s).1

  unfoldable pub get_block_number : Store → ℕ × Store
  get_block_number s = let (r, s') = run (get block_key) s in (number_value (string_of r), s')

  unfoldable pub set_block_number : ℕ → Store → Store
  set_block_number number s = (run (set block_key (Decimal.print number)) s).1
