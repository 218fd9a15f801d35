-- ===== src/Rpc/Call.antt =====
-- `eth_call` and `eth_estimateGas` of src/rpc/handlers.c.
use evm_db.Prelude.{
  ℕ, ◌+◌, ◌*◌, ◌/◌, ◌%◌, ◌^◌, [], ◌∷◌, Option, none, some, Bool, true, false, not, ◌==◌,
  if◌then◌else◌, length,
}
use evm_db.Prelude.Bytes.{Bytes}
use evm_db.Prelude.Text.{ascii}
use evm_db.State.Store.{Blob, hex_text}
use evm_db.Block.Rlp.Result.{ok, fault}
use evm_db.Block.Tx.{zero20}
use evm_db.Evm.Host.{BlockContext}
use evm_db.Evm.Executor.{ExecResult, no_output, evm_call}
use evm_db.Rpc.Node.{
  Node, Answer, make_response, make_error, quoted, number_response, make_block_context,
}
use evm_db.Rpc.Request.{
  extract_param_field_string, content_of_blob, decode_hex_bytes, parse_hex_uint64_or, decoded,
  intrinsic_gas_for_data,
}
use evm_db.Rpc.Reads.{array_param, refuse}

-- `evmdb_exec_result_t result = {0};`
abbrev pub zero_result : ExecResult
zero_result = record {
  success = false;
  gas_used = 0;
  output = no_output;
  log_count = 0;
  error = [];
}

-- `result.error[0] ? result.error : text`.
unfoldable pub error_or : Bytes → Bytes → Bytes
error_or [] text = text
error_or (c ∷ cs) text = c ∷ cs

-- The sender: zeros where no `from` is given, and `none` where it is no address.
unfoldable pub from_param : Option Bytes → Option Bytes
from_param none = some zero20
from_param (some from_hex) = array_param zero20 20 from_hex

module _ (node : Node) where
  open node use {redis, alloc, junk}
  open redis use {Store}

  unfoldable pub hex_response : Bytes → Option Bytes → ℕ → Answer
  hex_response id none size = fault
  hex_response id (some output) size =
      if alloc ((size + 4) % 2 ^ 64)
      then ok (make_response alloc id (quoted (size + 4) (hex_text output size)))
      else ok (make_error alloc id 32603 (ascii "internal error"))

  unfoldable pub output_response : Bytes → Blob → Answer
  output_response id output =
      let hex_len = (output.len * 2 + 3) % 2 ^ 64 in
      if output.len == 0
      then ok (make_response alloc id (ascii "\"0x\""))
      else if alloc hex_len
      then hex_response id output.content hex_len
      else ok (make_error alloc id 32603 (ascii "internal error"))

  unfoldable pub call_response : Bytes → Bool × ExecResult × Store → Answer × Store
  call_response id (false, result, s) =
      refuse node id 32603 (error_or result.error (ascii "execution failed")) s
  call_response id (true, result, s) =
      if not result.success
      then refuse node id 32000 (error_or result.error (ascii "execution reverted")) s
      else (output_response id result.output, s)

  unfoldable pub call_with :
      Bytes
      → Bytes
      → BlockContext
      → Option Bytes
      → Option Bytes
      → Option Blob
      → Store
      → Answer × Store
  call_with id request block_ctx none from input s =
      refuse node id 32602 (ascii "invalid to address") s
  call_with id request block_ctx (some to) none input s =
      refuse node id 32602 (ascii "invalid from address") s
  call_with id request block_ctx (some to) (some from) none s =
      refuse node id 32602 (ascii "invalid call data") s
  call_with id request block_ctx (some to) (some from) (some input) s =
      let gas =
        parse_hex_uint64_or (extract_param_field_string alloc request (ascii "gas"))
          node.gas_limit in
      call_response id (
        evm_call redis alloc junk node.vm node.status_text node.initialized from to
          (content_of_blob input) (some block_ctx) gas zero_result s)

  unfoldable pub call_to : Bytes → Bytes → BlockContext → Option Bytes → Store → Answer × Store
  call_to id request block_ctx none s = refuse node id 32602 (ascii "missing to address") s
  call_to id request block_ctx (some to_hex) s =
      call_with id request block_ctx (array_param junk 20 to_hex)
        (from_param (extract_param_field_string alloc request (ascii "from")))
        (decode_hex_bytes alloc (extract_param_field_string alloc request (ascii "data"))) s

  unfoldable pub handle_call : Bytes → Bytes → Store → Answer × Store
  handle_call id request s =
      let (block_ctx, s') = make_block_context node s in
      call_to id request block_ctx (extract_param_field_string alloc request (ascii "to")) s'

  unfoldable pub gas_response : Bytes → Option Bytes → Answer
  gas_response id none = ok (make_error alloc id 32602 (ascii "invalid transaction data"))
  gas_response id (some bytes) = ok (number_response alloc id (intrinsic_gas_for_data bytes))

  -- malloc(0) is asked too.
  unfoldable pub estimate_for : Bytes → Option Bytes → Answer
  estimate_for id none = ok (number_response alloc id 21000)
  estimate_for id (some data_hex) =
      let max_bytes = length data_hex / 2 in
      if alloc max_bytes
      then gas_response id (decoded max_bytes data_hex)
      else ok (make_error alloc id 32603 (ascii "internal error"))

  unfoldable pub handle_estimate_gas : Bytes → Bytes → Store → Answer × Store
  handle_estimate_gas id request s =
      (estimate_for id (extract_param_field_string alloc request (ascii "data")), s)
