-- ===== src/Rpc/Send.antt =====
-- `eth_sendRawTransaction` of src/rpc/handlers.c.
use evm_db.Prelude.{
  ℕ, ◌+◌, ◌/◌, ◌%◌, ◌^◌, [], ◌∷◌, ◌++◌, Option, none, some, Bool, true, false, if◌then◌else◌,
  length,
}
use evm_db.Prelude.Bytes.{Bytes}
use evm_db.Prelude.Text.{ascii}
use evm_db.State.Store.{hex_text, set_block_number, set_receipt}
use evm_db.Block.Rlp.Result.{Result, ok, err, fault, diverge}
use evm_db.Block.Tx.{TxType, legacy, eip2930, eip1559, Tx}
use evm_db.Block.Tx.Decode.{tx_decode}
use evm_db.Block.Tx.Sign.{recover_sender}
use evm_db.Evm.Executor.{ExecResult, compute_create_address, execute_tx}
use evm_db.Rpc.Node.{Node, Answer, printed, quoted, number_text, make_block_context}
use evm_db.Rpc.Request.{extract_first_param_string, decoded}
use evm_db.Rpc.Reads.{respond, refuse, zero_hash, zero_bloom}
use evm_db.Rpc.Call.{zero_result}

unfoldable pub to_json : Tx → Bytes
to_json tx = if tx.to_is_null then ascii "null" else quoted 64 (hex_text tx.to 43)

unfoldable pub contract_json : Tx → Bytes
contract_json tx =
    if tx.to_is_null
    then quoted 64 (hex_text (compute_create_address tx.sender tx.nonce) 43)
    else ascii "null"

unfoldable pub type_hex : TxType → Bytes
type_hex eip1559 = ascii "0x2"
type_hex eip2930 = ascii "0x1"
type_hex legacy = ascii "0x0"

-- The receipt, which has room for 2047 characters.
unfoldable pub receipt_text : ℕ → Tx → ℕ → ExecResult → Bytes
receipt_text base_fee tx mined_block_number result =
    let gas_used = number_text result.gas_used 32 in
    printed 2048 (
      ascii "{\"transactionHash\":\""
      ++ (hex_text tx.hash 67
          ++ (ascii "\",\"transactionIndex\":\"0x0\",\"blockHash\":"
              ++ (zero_hash
                  ++ (ascii ",\"blockNumber\":\""
                      ++ (number_text mined_block_number 32
                          ++ (ascii "\",\"from\":\""
                              ++ (hex_text tx.sender 43
                                  ++ (ascii "\",\"to\":"
                                      ++ (to_json tx
                                          ++ (ascii ",\"cumulativeGasUsed\":\""
                                              ++ (gas_used
                                                  ++ (ascii "\",\"gasUsed\":\""
                                                      ++ (gas_used
                                                          ++ (ascii "\",\"contractAddress\":"
                                                            ++ (contract_json tx
                                                            ++ (ascii ",\"logs\":[],\"logsBloom\":"
                                                            ++ (zero_bloom
                                                            ++ (ascii ",\"status\":\""
                                                            ++ ((if result.success
                                                            then ascii "0x1"
                                                            else ascii "0x0")
                                                            ++ (ascii "\",\"effectiveGasPrice\":\""
                                                            ++ (number_text base_fee 32
                                                            ++ (ascii "\",\"type\":\""
                                                            ++ (type_hex tx.type
                                                            ++ ascii "\"}"))))))))))))))))))))))))

module _ (node : Node) where
  open node use {redis, alloc, junk}
  open redis use {Store}

  -- What follows an execution. It is refused with its error, or is mined: the block number goes up, and
  -- the receipt is stored.
  unfoldable pub mine : Bytes → Tx → ℕ → Bool × ExecResult × Store → Answer × Store
  mine id tx number (false, result, s) = refuse node id 32603 result.error s
  mine id tx number (true, result, s) =
      let mined_block_number = (number + 1) % 2 ^ 64 in
      let mined = set_block_number redis mined_block_number s in
      let receipt = receipt_text node.base_fee tx mined_block_number result in
      if alloc 2048
      then respond node id (quoted 128 (hex_text tx.hash 67))
          (set_receipt redis tx.hash receipt mined)
      else refuse node id 32603 (ascii "internal error") mined

  unfoldable pub execute_and_mine : Bytes → Tx → Store → Answer × Store
  execute_and_mine id tx s =
      let (block_ctx, s') = make_block_context node s in
      mine id tx block_ctx.number (
        execute_tx redis alloc junk node.vm node.status_text node.initialized tx (some block_ctx)
          zero_result s')

  unfoldable pub send_recovered : Bytes → Result (Bool × Tx) → Store → Answer × Store
  send_recovered id (ok (true, tx)) s = execute_and_mine id tx s
  send_recovered id (ok (false, tx)) s = refuse node id 32602 (ascii "failed to recover sender") s
  send_recovered id err s = refuse node id 32602 (ascii "failed to recover sender") s
  send_recovered id fault s = (fault, s)
  send_recovered id diverge s = (diverge, s)

  unfoldable pub send_decoded : Bytes → Result Tx → Store → Answer × Store
  send_decoded id (ok tx) s =
      send_recovered id (recover_sender alloc node.context node.recover tx) s
  send_decoded id err s = refuse node id 32602 (ascii "failed to decode transaction") s
  send_decoded id fault s = (fault, s)
  send_decoded id diverge s = (diverge, s)

  -- No byte at all is refused as well.
  unfoldable pub send_bytes : Bytes → Option Bytes → Store → Answer × Store
  send_bytes id none s = refuse node id 32602 (ascii "invalid hex data") s
  send_bytes id (some []) s = refuse node id 32602 (ascii "invalid hex data") s
  send_bytes id (some (b ∷ raw)) s = send_decoded id (tx_decode alloc (b ∷ raw)) s

  unfoldable pub send_hex : Bytes → Option Bytes → Store → Answer × Store
  send_hex id none s = refuse node id 32602 (ascii "missing raw transaction parameter") s
  send_hex id (some raw_hex) s =
      let max_bytes = length raw_hex / 2 in
      if alloc max_bytes
      then send_bytes id (decoded max_bytes raw_hex) s
      else refuse node id 32603 (ascii "internal error") s

  unfoldable pub handle_send_raw_transaction : Bytes → Bytes → Store → Answer × Store
  handle_send_raw_transaction id request s =
      send_hex id (extract_first_param_string alloc request) s
