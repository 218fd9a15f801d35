-- ===== src/Evm/Host.antt =====
-- The host interface that src/evm/executor.c gives to the virtual machine. evmone is not part of
-- the program: an execution of it is a tree, a `Vm`, of the host functions that it calls, with what
-- it does on each answer. The tree is well founded, as an execution ends when its gas is used up.
-- `junk` is what an uninitialised local array holds, and `alloc` is malloc.
pub mod Runs
use evm_db.Prelude.{
  ℕ, ◌-◌, List, [], ◌++◌, Option, none, some, Bool, true, false, not, ◌&&◌, ◌||◌, ltb, ◌==◌,
  if◌then◌else◌, replicate, take, drop, min,
}
use evm_db.Prelude.Bytes.{Bytes}
use evm_db.Prelude.Text.{bytes_eq}
use evm_db.Core.Keccak.{keccak256}
use evm_db.State.Balance.{is_zero, low_bytes}
use evm_db.State.Redis.{Redis}
use evm_db.State.Store.{Blob, get_nonce, get_balance, get_code, get_storage}
use evm_db.Evm.Overlay.{Writes, get_write, set_write}

-- `evmdb_block_context_t`.
pub record BlockContext : Type 0 where
  pub number : ℕ
  pub timestamp : ℕ
  pub coinbase : Bytes
  pub gas_limit : ℕ
  pub base_fee : ℕ
  pub chain_id : ℕ

-- `evm_exec_context_t`; the store is passed on its own.
pub record Context : Type 0 where
  pub block_ctx : BlockContext
  pub tx_origin : Bytes
  pub tx_gas_price : Bytes
  pub writes : Writes

-- The fields of `struct evmc_tx_context` that are set; the others are zero.
pub record TxContext : Type 0 where
  pub tx_gas_price : Bytes
  pub tx_origin : Bytes
  pub block_coinbase : Bytes
  pub block_number : ℕ
  pub block_timestamp : ℕ
  pub block_gas_limit : ℕ
  pub chain_id : Bytes
  pub block_base_fee : Bytes

pub data StorageStatus : Type 0 where
  assigned added deleted modified : StorageStatus

-- `evmc_status_code`: zero, a positive code, or a negative one.
pub data Status : Type 0 where
  success : Status
  failure : ℕ → Status
  internal_error : ℕ → Status

-- `struct evmc_result`; `gas_left` is the two's complement of an int64_t.
pub record VmResult : Type 0 where
  pub status_code : Status
  pub gas_left : ℕ
  pub output : Bytes

-- `struct evmc_message`, of kind EVMC_CALL and depth 0.
pub record Message : Type 0 where
  pub flags : ℕ
  pub gas : ℕ
  pub recipient : Bytes
  pub sender : Bytes
  pub input : Bytes
  pub value : Bytes
  pub code_address : Bytes

pub data Vm : Type 0 where
  finish : VmResult → Vm
  ask_account_exists : Bytes → (Bool → Vm) → Vm
  ask_storage : Bytes → Bytes → (Bytes → Vm) → Vm
  write_storage : Bytes → Bytes → Bytes → (StorageStatus → Vm) → Vm
  ask_balance : Bytes → (Bytes → Vm) → Vm
  ask_code_size : Bytes → (ℕ → Vm) → Vm
  ask_code_hash : Bytes → (Bytes → Vm) → Vm
  ask_code : Bytes → ℕ → ℕ → (Bytes → Vm) → Vm
  ask_selfdestruct : Bytes → Bytes → (Bool → Vm) → Vm
  ask_call : Message → (VmResult → Vm) → Vm
  ask_tx_context : (TxContext → Vm) → Vm
  ask_block_hash : ℕ → (Bytes → Vm) → Vm
  write_log : Bytes → Bytes → List Bytes → Vm → Vm
  -- `true` is EVMC_ACCESS_COLD.
  ask_access_account : Bytes → (Bool → Vm) → Vm
  ask_access_storage : Bytes → Bytes → (Bool → Vm) → Vm
  ask_transient : Bytes → Bytes → (Bytes → Vm) → Vm
  write_transient : Bytes → Bytes → Bytes → Vm → Vm

unfoldable pub bytes32_from_uint64 : ℕ → Bytes
bytes32_from_uint64 value = replicate 24 0 ++ low_bytes 8 value

-- The bytes behind the pointer. A NULL with a length is what a failed malloc leaves; to read it is
-- undefined, and any bytes `stray` can stand there.
unfoldable pub content_of : Bytes → Blob → Bytes
content_of stray code = elim code.content [
  | none ↦ if code.len == 0 then [] else stray
  | some bytes ↦ bytes
]

unfoldable pub or_stored : Option Bytes → Bytes → Bytes
or_stored (some value) stored = value
or_stored none stored = stored

unfoldable pub storage_status : Bytes → Bytes → StorageStatus
storage_status current next =
    if bytes_eq current next
    then assigned
    else if is_zero current && not (is_zero next)
    then added
    else if not (is_zero current) && is_zero next
    then deleted
    else modified

unfoldable pub host_selfdestruct : Bytes → Bytes → Bool
host_selfdestruct address beneficiary = false

unfoldable pub host_call : Message → VmResult
host_call msg = record { status_code = failure 1; gas_left = 0; output = [] }

unfoldable pub host_get_tx_context : Context → TxContext
host_get_tx_context ctx = record {
  tx_gas_price = ctx.tx_gas_price;
  tx_origin = ctx.tx_origin;
  block_coinbase = ctx.block_ctx.coinbase;
  block_number = ctx.block_ctx.number;
  block_timestamp = ctx.block_ctx.timestamp;
  block_gas_limit = ctx.block_ctx.gas_limit;
  chain_id = bytes32_from_uint64 ctx.block_ctx.chain_id;
  block_base_fee = bytes32_from_uint64 ctx.block_ctx.base_fee;
}

unfoldable pub host_get_block_hash : ℕ → Bytes
host_get_block_hash number = replicate 32 0

unfoldable pub host_access_account : Bytes → Bool
host_access_account address = true

unfoldable pub host_access_storage : Bytes → Bytes → Bool
host_access_storage address key = true

unfoldable pub host_get_transient_storage : Bytes → Bytes → Bytes
host_get_transient_storage address key = replicate 32 0

module _ (redis : Redis) (alloc : ℕ → Bool) (junk : Bytes) where
  open redis use {Store}

  unfoldable pub host_account_exists : Bytes → Store → Bool × Store
  host_account_exists addr s =
      let (nonce, s1) = get_nonce redis addr s in
      let (balance, s2) = get_balance redis addr junk s1 in
      let (code, s3) = get_code redis alloc addr s2 in
      (not (nonce == 0) || (not (is_zero balance) || not (code.len == 0)), s3)

  -- The value that a slot has for the execution, and the store.
  unfoldable pub current_value : Option Bytes → Bytes → Bytes → Store → Bytes × Store
  current_value (some value) addr key s = (value, s)
  current_value none addr key s = get_storage redis addr key junk s

  unfoldable pub host_get_storage : Context → Bytes → Bytes → Store → Bytes × Store
  host_get_storage ctx addr key s = current_value (get_write ctx.writes addr key) addr key s

  unfoldable pub host_set_storage :
      Context → Bytes → Bytes → Bytes → Store → StorageStatus × Context × Store
  host_set_storage ctx addr key next s =
      let (current, s') = current_value (get_write ctx.writes addr key) addr key s in
      let (ok, writes) = set_write alloc ctx.writes addr key next in
      (if ok then storage_status current next else assigned, record ctx { writes = writes }, s')

  unfoldable pub host_get_balance : Bytes → Store → Bytes × Store
  host_get_balance addr s = get_balance redis addr junk s

  unfoldable pub host_get_code_size : Bytes → Store → ℕ × Store
  host_get_code_size addr s = let (code, s') = get_code redis alloc addr s in (code.len, s')

  unfoldable pub host_get_code_hash : Bytes → Store → Bytes × Store
  host_get_code_hash addr s =
      let (code, s') = get_code redis alloc addr s in (keccak256 (content_of junk code), s')

  -- The bytes that are copied; the function returns their number.
  unfoldable pub host_copy_code : Bytes → ℕ → ℕ → Store → Bytes × Store
  host_copy_code addr code_offset buffer_size s =
      let (code, s') = get_code redis alloc addr s in
      let bytes = drop code_offset (content_of junk code) in
      (
        if ltb code_offset code.len
            then take (min (code.len - code_offset) buffer_size) bytes
            else [],
        s',
      )

  -- One execution: each call of the host, and what the machine does on its answer.
  unfoldable pub run_vm : Vm → Context → Store → VmResult × Context × Store
  run_vm (finish r) ctx s = (r, ctx, s)
  run_vm (ask_account_exists a k) ctx s =
      let (r, s') = host_account_exists a s in run_vm (k r) ctx s'
  run_vm (ask_storage a key k) ctx s =
      let (r, s') = host_get_storage ctx a key s in run_vm (k r) ctx s'
  run_vm (write_storage a key v k) ctx s =
      let (r, ctx', s') = host_set_storage ctx a key v s in run_vm (k r) ctx' s'
  run_vm (ask_balance a k) ctx s = let (r, s') = host_get_balance a s in run_vm (k r) ctx s'
  run_vm (ask_code_size a k) ctx s = let (r, s') = host_get_code_size a s in run_vm (k r) ctx s'
  run_vm (ask_code_hash a k) ctx s = let (r, s') = host_get_code_hash a s in run_vm (k r) ctx s'
  run_vm (ask_code a offset size k) ctx s =
      let (r, s') = host_copy_code a offset size s in run_vm (k r) ctx s'
  run_vm (ask_selfdestruct a b k) ctx s = run_vm (k (host_selfdestruct a b)) ctx s
  run_vm (ask_call msg k) ctx s = run_vm (k (host_call msg)) ctx s
  run_vm (ask_tx_context k) ctx s = run_vm (k (host_get_tx_context ctx)) ctx s
  run_vm (ask_block_hash n k) ctx s = run_vm (k (host_get_block_hash n)) ctx s
  run_vm (write_log a bytes topics k) ctx s = run_vm k ctx s
  run_vm (ask_access_account a k) ctx s = run_vm (k (host_access_account a)) ctx s
  run_vm (ask_access_storage a key k) ctx s = run_vm (k (host_access_storage a key)) ctx s
  run_vm (ask_transient a key k) ctx s = run_vm (k (host_get_transient_storage a key)) ctx s
  run_vm (write_transient a key v k) ctx s = run_vm k ctx s
