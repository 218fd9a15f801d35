-- ===== src/Evm/Executor.antt =====
-- Transactions and calls: src/evm/executor.c.
-- `vm` is evmone: the code and a message give an execution. `status_text` is
-- evmc_status_code_to_string. A result's `logs` are always NULL, and the first component of what a
-- function returns is `true` for 0 and `false` for -1.
pub mod Address
pub mod Calls
pub mod Checks
pub mod Transactions
use evm_db.Prelude.{
  ℕ, ◌+◌, ◌-◌, ◌%◌, ◌^◌, ◌/◌, [], ◌∷◌, ◌++◌, Option, none, some, Bool, true, false, not, ◌&&◌, ltb,
  leb, ◌==◌, if◌then◌else◌, length, take, drop, zero, suc,
}
use evm_db.Prelude.Bytes.{Bytes}
use evm_db.Prelude.Text.{ascii}
use evm_db.Core.Keccak.{keccak256}
use evm_db.Core.Decimal
use evm_db.State.Redis.{Redis}
use evm_db.State.Store.{Blob, get_code, get_nonce, set_code, set_nonce}
use evm_db.Block.Tx.{Tx, zero20, zero32}
use evm_db.Evm.Gas.{add_data_gas}
use evm_db.Evm.Overlay.{commit}
use evm_db.Evm.Host.{
  BlockContext, Context, Status, success, failure, internal_error, VmResult, Message, Vm,
  bytes32_from_uint64, run_vm,
}

-- `evmdb_exec_result_t`.
pub record ExecResult : Type 0 where
  pub success : Bool
  pub gas_used : ℕ
  pub output : Blob
  pub log_count : ℕ
  pub error : Bytes

abbrev pub no_output : Blob
no_output = record { content = none; len = 0 }

-- `snprintf` into the 256 characters of `error`.
unfoldable pub with_error : ExecResult → Bytes → ExecResult
with_error result text = record result { error = take 255 text }

unfoldable pub copy_output : (ℕ → Bool) → Bytes → Blob
copy_output alloc bytes =
    if length bytes == 0
    then no_output
    else if alloc (length bytes)
    then record { content = some bytes; len = length bytes }
    else no_output

unfoldable pub rlp_encode_bytes : Bytes → Bytes
rlp_encode_bytes (b ∷ []) = if leb b 0x7f then b ∷ [] else (0x80 + 1) ∷ b ∷ []
rlp_encode_bytes bytes = ((0x80 + length bytes) % 256) ∷ bytes

-- The bytes of a number below 256 ^ fuel without leading zeros, in front of `encoded`.
unfoldable pub uint64_bytes : ℕ → ℕ → Bytes → Bytes
uint64_bytes zero value encoded = encoded
uint64_bytes (suc fuel) value encoded =
    let longer = uint64_bytes fuel (value / 256) (value % 256 ∷ encoded) in
    if value == 0 then encoded else longer

unfoldable pub rlp_encode_uint64 : ℕ → Bytes
rlp_encode_uint64 value =
    if value == 0 then 0x80 ∷ [] else rlp_encode_bytes (uint64_bytes 8 value [])

unfoldable pub rlp_encode_list : Bytes → Bytes
rlp_encode_list payload = ((0xc0 + length payload) % 256) ∷ payload

-- The pointers are not NULL, so this always returns 0.
unfoldable pub compute_create_address : Bytes → ℕ → Bytes
compute_create_address sender nonce =
    take 20
      (drop 12 (keccak256 (rlp_encode_list (rlp_encode_bytes sender ++ rlp_encode_uint64 nonce))))

-- What is left of the gas if the int64_t is positive.
unfoldable pub gas_left_of : ℕ → ℕ
gas_left_of gas_left = if ltb 0 gas_left && ltb gas_left (2 ^ 63) then gas_left else 0

unfoldable pub default_block_ctx : Option BlockContext → BlockContext
default_block_ctx (some block_ctx) = block_ctx
default_block_ctx none = record {
  number = 0;
  timestamp = 0;
  coinbase = zero20;
  gas_limit = 0;
  base_fee = 0;
  chain_id = 0;
}

unfoldable pub exec_context : BlockContext → Bytes → Context
exec_context block_ctx origin = record {
  block_ctx = block_ctx;
  tx_origin = origin;
  tx_gas_price = bytes32_from_uint64 block_ctx.base_fee;
  writes = record { list = []; cap = 0 };
}

unfoldable pub chain_mismatch : Option BlockContext → Tx → Bool
chain_mismatch none tx = false
chain_mismatch (some block_ctx) tx =
    not (tx.chain_id == 0) && not (tx.chain_id == block_ctx.chain_id)

unfoldable pub mismatch_text : Bytes → ℕ → ℕ → Bytes
mismatch_text what expected got =
    what ++ ascii ": expected " ++ Decimal.print expected ++ ascii ", got " ++ Decimal.print got

-- What the checks of a transaction come to: -1, or the gas of the transaction itself and the
-- nonce that was read.
pub data Verdict : Type 0 where
  refused : ExecResult → Verdict
  passed : ℕ → ℕ → Verdict

module _ (redis : Redis) where
  open redis use {Store}

  -- `initialized` is the test `evm && evm->initialized`.
  unfoldable pub check_tx : Bool → Tx → Option BlockContext → ExecResult → Store → Verdict × Store
  check_tx initialized tx block_ctx result s =
      let (current_nonce, s') = get_nonce redis tx.sender s in
      let intrinsic_gas = add_data_gas 21000 tx.payload in
      if not initialized
      then (refused (with_error result (ascii "EVM not initialized")), s)
      else if chain_mismatch block_ctx tx
      then (
        refused (
            with_error result (
              mismatch_text (ascii "chain id mismatch") (default_block_ctx block_ctx).chain_id
                tx.chain_id)),
        s,
      )
      else if not (tx.nonce == current_nonce)
      then (
        refused (with_error result (mismatch_text (ascii "nonce mismatch") current_nonce tx.nonce)),
        s',
      )
      else if ltb tx.gas_limit intrinsic_gas
      then (refused (with_error result (ascii "intrinsic gas too low")), s')
      else (passed intrinsic_gas current_nonce, s')

module _ (redis : Redis) (alloc : ℕ → Bool) (junk : Bytes) (vm : Message → Blob → Vm)
    (status_text : Status → Bytes) where
  open redis use {Store}

  -- The result of an execution that was not an internal error.
  unfoldable pub result_of : ℕ → VmResult → Bool → Bytes → ExecResult
  result_of gas r ok error = record {
    success = ok;
    gas_used = (gas + 2 ^ 64 - gas_left_of r.gas_left) % 2 ^ 64;
    output = copy_output alloc r.output;
    log_count = 0;
    error = take 255 error;
  }

  -- What follows the execution, by its status. A success that commits writes to the store.
  unfoldable pub finish_contract :
      ℕ → Bool → ExecResult → Status → VmResult × Context × Store → Bool × ExecResult × Store
  finish_contract gas commit_state result (internal_error n) (r, ctx, s) =
      (false, with_error result (status_text (internal_error n)), s)
  finish_contract gas commit_state result (failure n) (r, ctx, s) =
      (true, result_of gas r false (status_text (failure n)), s)
  finish_contract gas commit_state result success (r, ctx, s) =
      (true, result_of gas r true [], if commit_state then commit redis ctx.writes.list s else s)

  unfoldable pub execute_contract :
      Option BlockContext
      → Bytes
      → Bytes
      → Bytes
      → Bytes
      → Bytes
      → ℕ
      → ℕ
      → Bool
      → ExecResult
      → Store
      → Bool × ExecResult × Store
  execute_contract block_ctx origin sender to input value gas flags commit_state result s =
      let (code, s') = get_code redis alloc to s in
      let msg : Message = record {
        flags = flags;
        gas = gas;
        recipient = to;
        sender = sender;
        input = input;
        value = value;
        code_address = to;
      } in
      let run =
        run_vm redis alloc junk (vm msg code) (exec_context (default_block_ctx block_ctx) origin)
          s' in
      if code.len == 0
      then (
        true,
        record { success = true; gas_used = 0; output = no_output; log_count = 0; error = [] },
        s',
      )
      else finish_contract gas commit_state result run.0.status_code run

  -- The end of a transaction that was executed: the gas of the transaction itself, and the nonce.
  unfoldable pub finish_call : Tx → ℕ → ℕ → Bool × ExecResult × Store → Bool × ExecResult × Store
  finish_call tx intrinsic_gas current_nonce (false, result, s) = (false, result, s)
  finish_call tx intrinsic_gas current_nonce (true, result, s) = (
    true,
    record result { gas_used = (result.gas_used + intrinsic_gas) % 2 ^ 64 },
    set_nonce redis tx.sender ((current_nonce + 1) % 2 ^ 64) s,
  )

  unfoldable pub create_contract : Tx → ℕ → ℕ → ExecResult → Store → Bool × ExecResult × Store
  create_contract tx intrinsic_gas current_nonce result s = (
    true,
    record result {
      success = true;
      gas_used = intrinsic_gas;
      output = no_output;
      log_count = 0;
      error = [];
    },
    set_nonce redis tx.sender ((current_nonce + 1) % 2 ^ 64)
        (set_code redis (compute_create_address tx.sender current_nonce) tx.payload s),
  )

  -- The part behind the guards.
  unfoldable pub apply_tx :
      Tx → Option BlockContext → ℕ → ℕ → ExecResult → Store → Bool × ExecResult × Store
  apply_tx tx block_ctx intrinsic_gas current_nonce result s =
      if tx.to_is_null
      then create_contract tx intrinsic_gas current_nonce result s
      else finish_call tx intrinsic_gas current_nonce (
          execute_contract block_ctx tx.sender tx.sender tx.to tx.payload zero32
            (tx.gas_limit - intrinsic_gas) 0 true
            (record result { output = no_output; log_count = 0 }) s)

  unfoldable pub continue_tx :
      Tx → Option BlockContext → ExecResult → Verdict → Store → Bool × ExecResult × Store
  continue_tx tx block_ctx result (refused result') s = (false, result', s)
  continue_tx tx block_ctx result (passed intrinsic_gas current_nonce) s =
      apply_tx tx block_ctx intrinsic_gas current_nonce result s

  unfoldable pub execute_tx :
      Bool → Tx → Option BlockContext → ExecResult → Store → Bool × ExecResult × Store
  execute_tx initialized tx block_ctx result s =
      let (verdict, s') = check_tx redis initialized tx block_ctx result s in
      continue_tx tx block_ctx result verdict s'

  -- EVMC_STATIC is 1.
  unfoldable pub evm_call :
      Bool
      → Bytes
      → Bytes
      → Bytes
      → Option BlockContext
      → ℕ
      → ExecResult
      → Store
      → Bool × ExecResult × Store
  evm_call initialized from to input block_ctx gas result s =
      if not initialized
      then (false, with_error result (ascii "EVM not initialized"), s)
      else execute_contract block_ctx from from to input zero32 gas 1 false result s
