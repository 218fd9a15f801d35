-- ===== src/Rpc/Dispatch.antt =====
-- `dispatch_single` of src/rpc/handlers.c: the method by its name, and its answer.
use evm_db.Prelude.{List, [], ◌∷◌, if◌then◌else◌}
use evm_db.Prelude.Bytes.{Bytes}
use evm_db.Prelude.Text.{ascii, bytes_eq}
use evm_db.Block.Rlp.Result.{Result, ok, err, fault, diverge}
use evm_db.Rpc.Json.{parse_method}
use evm_db.Rpc.Json.Params.{parse_params}
use evm_db.Rpc.Node.{Node, Answer, number_response}
use evm_db.Rpc.Reads.{
  respond, refuse, handle_chain_id, handle_block_number, handle_gas_price, handle_get_balance,
  handle_get_transaction_count, handle_get_code, handle_net_version, handle_web3_client_version,
  handle_get_block_by_number, handle_get_transaction_receipt, handle_fee_history,
  handle_get_storage_at,
}
use evm_db.Rpc.Call.{handle_call, handle_estimate_gas}
use evm_db.Rpc.Send.{handle_send_raw_transaction}

-- The branches of the chain of comparisons. `constant` is an answer that depends on nothing.
pub data Method : Type 0 where
  chain_id block_number gas_price balance transaction_count code : Method
  send_raw_transaction net_version client_version call estimate_gas block : Method
  receipt fee_history priority_fee storage_at subscribe unknown : Method
  constant : Bytes → Method

-- The names in the order in which they are compared.
abbrev pub methods : List (Bytes × Method)
methods =
    (ascii "eth_chainId", chain_id)
    ∷ (ascii "eth_blockNumber", block_number)
    ∷ (ascii "eth_gasPrice", gas_price)
    ∷ (ascii "eth_getBalance", balance)
    ∷ (ascii "eth_getTransactionCount", transaction_count)
    ∷ (ascii "eth_getCode", code)
    ∷ (ascii "eth_sendRawTransaction", send_raw_transaction)
    ∷ (ascii "net_version", net_version)
    ∷ (ascii "web3_clientVersion", client_version)
    ∷ (ascii "eth_call", call)
    ∷ (ascii "eth_estimateGas", estimate_gas)
    ∷ (ascii "eth_getBlockByNumber", block)
    ∷ (ascii "eth_getBlockByHash", block)
    ∷ (ascii "eth_getTransactionByHash", constant (ascii "null"))
    ∷ (ascii "eth_getTransactionReceipt", receipt)
    ∷ (ascii "eth_getLogs", constant (ascii "[]"))
    ∷ (ascii "eth_feeHistory", fee_history)
    ∷ (ascii "eth_maxPriorityFeePerGas", priority_fee)
    ∷ (ascii "eth_accounts", constant (ascii "[]"))
    ∷ (ascii "eth_syncing", constant (ascii "false"))
    ∷ (ascii "eth_mining", constant (ascii "false"))
    ∷ (ascii "eth_hashrate", constant (ascii "\"0x0\""))
    ∷ (ascii "eth_getStorageAt", storage_at)
    ∷ (ascii "eth_getBlockTransactionCountByNumber", constant (ascii "\"0x0\""))
    ∷ (ascii "eth_protocolVersion", constant (ascii "\"0x42\""))
    ∷ (ascii "eth_subscribe", subscribe)
    ∷ []

unfoldable pub method_in : List (Bytes × Method) → Bytes → Method
method_in [] name = unknown
method_in ((known, m) ∷ rest) name =
    let later = method_in rest name in if bytes_eq known name then m else later

unfoldable pub method_of : Bytes → Method
method_of name = method_in methods name

module _ (node : Node) where
  open node use {redis, alloc}
  open redis use {Store}

  unfoldable pub handle : Method → Bytes → Bytes → List Bytes → Store → Answer × Store
  handle chain_id request id params s = handle_chain_id node id s
  handle block_number request id params s = handle_block_number node id s
  handle gas_price request id params s = handle_gas_price node id s
  handle balance request id params s = handle_get_balance node id params s
  handle transaction_count request id params s = handle_get_transaction_count node id params s
  handle code request id params s = handle_get_code node id params s
  handle send_raw_transaction request id params s = handle_send_raw_transaction node id request s
  handle net_version request id params s = handle_net_version node id s
  handle client_version request id params s = handle_web3_client_version node id s
  handle call request id params s = handle_call node id request s
  handle estimate_gas request id params s = handle_estimate_gas node id request s
  handle block request id params s = handle_get_block_by_number node id s
  handle receipt request id params s = handle_get_transaction_receipt node id params s
  handle fee_history request id params s = handle_fee_history node id s
  handle priority_fee request id params s = (ok (number_response alloc id node.base_fee), s)
  handle storage_at request id params s = handle_get_storage_at node id params s
  handle subscribe request id params s =
      refuse node id 32601 (ascii "subscriptions not supported over HTTP") s
  handle unknown request id params s = refuse node id 32601 (ascii "method not found") s
  handle (constant result) request id params s = respond node id result s

  unfoldable pub handle_parsed :
      Bytes × Bytes → Bytes → Result (List Bytes) → Store → Answer × Store
  handle_parsed (method, id) request (ok params) s = handle (method_of method) request id params s
  handle_parsed parsed request err s = (err, s)
  handle_parsed parsed request fault s = (fault, s)
  handle_parsed parsed request diverge s = (diverge, s)

  unfoldable pub dispatch_single : Bytes → Store → Answer × Store
  dispatch_single request s =
      handle_parsed (parse_method request 64 32) request (parse_params request 8) s
