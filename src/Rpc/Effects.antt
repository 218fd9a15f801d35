-- ===== src/Rpc/Effects.antt =====
-- What the methods of src/rpc/handlers.c do to the state: all of them but eth_sendRawTransaction
-- only read it.
use evm_db.Prelude.{
  ◌≡◌, ◌≢◌, refl, ◌∙◌, List, [], ◌∷◌, Option, none, some, Bool, true, false, not, if_lem,
}
use evm_db.Prelude.Bytes.{Bytes}
use evm_db.State.Redis.{Documented}
use evm_db.State.Store.{
  get_block_number, get_balance, get_nonce, get_code, get_storage, get_receipt, account_key,
  storage_key, code_key, receipt_key, block_key, nonce_field, balance_field, bytes32_to_hex,
}
use evm_db.Block.Rlp.Result.{Result, ok, err, fault, diverge}
use evm_db.Evm.Host.{BlockContext}
use evm_db.Evm.Executor.{ExecResult}
use evm_db.Evm.Executor.Calls.{evm_call-reads}
use evm_db.Rpc.Json.{parse_method}
use evm_db.Rpc.Node.{Node, Answer, make_block_context}
use evm_db.Rpc.Reads
use evm_db.Rpc.Call
use evm_db.Rpc.Dispatch.{
  Method, chain_id, block_number, gas_price, balance, transaction_count, code, send_raw_transaction,
  net_version, client_version, call, estimate_gas, block, receipt, fee_history, priority_fee,
  storage_at, subscribe, unknown, constant, method_of, handle, handle_parsed, dispatch_single,
}

module _ (node : Node) (docs : Documented node.redis) where
  open node use {redis, alloc, junk}
  open redis use {Store}

  -- The request left the store as it was.
  abbrev pub ReadsOnly : Store → Answer × Store → Type 0
  ReadsOnly s r = r.1 ≡ s

  pub number_store : (s : Store) → (get_block_number redis s).1 ≡ s
  unfolding get_block_number
  number_store s = docs.get_store s block_key

  pub context_store : (s : Store) → (make_block_context node s).1 ≡ s
  unfolding make_block_context
  context_store s = number_store s

  balance_reads :
      (id : Bytes) (addr : Option Bytes) (s : Store) → ReadsOnly s (Reads.balance_at node id addr s)
  unfolding Reads.balance_at get_balance
  balance_reads id none s = refl
  balance_reads id (some addr) s = docs.hget_store s (account_key addr) balance_field

  nonce_reads :
      (id : Bytes) (addr : Option Bytes) (s : Store) → ReadsOnly s (Reads.nonce_at node id addr s)
  unfolding Reads.nonce_at get_nonce
  nonce_reads id none s = refl
  nonce_reads id (some addr) s = docs.hget_store s (account_key addr) nonce_field

  code_reads :
      (id : Bytes) (addr : Option Bytes) (s : Store) → ReadsOnly s (Reads.code_at node id addr s)
  unfolding Reads.code_at get_code
  code_reads id none s = refl
  code_reads id (some addr) s = docs.get_store s (code_key addr)

  storage_reads :
      (id : Bytes) (addr key : Option Bytes) (s : Store)
      → ReadsOnly s (Reads.storage_at node id addr key s)
  unfolding Reads.storage_at get_storage
  storage_reads id none key s = refl
  storage_reads id (some addr) none s = refl
  storage_reads id (some addr) (some key) s =
      docs.hget_store s (storage_key addr) (bytes32_to_hex key)

  receipt_reads :
      (id : Bytes) (hash : Option Bytes) (s : Store) → ReadsOnly s (Reads.receipt_at node id hash s)
  unfolding Reads.receipt_at get_receipt
  receipt_reads id none s = refl
  receipt_reads id (some hash) s = docs.get_store s (receipt_key hash)

  block_reads : (id : Bytes) (s : Store) → ReadsOnly s (Reads.handle_get_block_by_number node id s)
  unfolding Reads.handle_get_block_by_number
  block_reads id s =
      if_lem (ReadsOnly s) (alloc 2048) _ _ (λ there. context_store s) (λ out. context_store s)

  fees_reads : (id : Bytes) (s : Store) → ReadsOnly s (Reads.handle_fee_history node id s)
  unfolding Reads.handle_fee_history
  fees_reads id s =
      if_lem (ReadsOnly s) (alloc 512) _ _ (λ there. number_store s) (λ out. number_store s)

  response_reads :
      (id : Bytes) (s : Store) (r : Bool × ExecResult × Store)
      → r.2 ≡ s
      → ReadsOnly s (Call.call_response node id r)
  unfolding Call.call_response
  response_reads id s (false, result, s') e = e
  response_reads id s (true, result, s') e =
      if_lem (ReadsOnly s) (not result.success) _ _ (λ bad. e) (λ good. e)

  call_with_reads :
      (id request : Bytes) (ctx : BlockContext) (to from : Option Bytes) (input : Option _)
      (s : Store)
      → ReadsOnly s (Call.call_with node id request ctx to from input s)
  unfolding Call.call_with
  call_with_reads id request ctx none from input s = refl
  call_with_reads id request ctx (some to) none input s = refl
  call_with_reads id request ctx (some to) (some from) none s = refl
  call_with_reads id request ctx (some to) (some from) (some input) s = response_reads id s _ (
      evm_call-reads redis docs alloc junk node.vm node.status_text node.initialized from to _
        (some ctx) _ _ s)

  call_to_reads :
      (id request : Bytes) (ctx : BlockContext) (to : Option Bytes) (s : Store)
      → ReadsOnly s (Call.call_to node id request ctx to s)
  unfolding Call.call_to
  call_to_reads id request ctx none s = refl
  call_to_reads id request ctx (some to) s = call_with_reads id request ctx _ _ _ s

  call_reads : (id request : Bytes) (s : Store) → ReadsOnly s (Call.handle_call node id request s)
  unfolding Call.handle_call
  call_reads id request s = call_to_reads id request _ _ _ ∙ context_store s

  pub handle_reads :
      (m : Method) (request id : Bytes) (params : List Bytes) (s : Store)
      → m ≢ send_raw_transaction
      → ReadsOnly s (handle node m request id params s)
  unfolding handle Reads.handle_chain_id Reads.handle_block_number Reads.handle_gas_price
      Reads.handle_get_balance Reads.handle_get_transaction_count Reads.handle_get_code
      Reads.handle_get_storage_at Reads.handle_get_transaction_receipt Reads.handle_net_version
      Reads.handle_web3_client_version Call.handle_estimate_gas
  handle_reads chain_id request id params s h = refl
  handle_reads block_number request id params s h = number_store s
  handle_reads gas_price request id params s h = refl
  handle_reads balance request id [] s h = refl
  handle_reads balance request id (p ∷ ps) s h = balance_reads id _ s
  handle_reads transaction_count request id [] s h = refl
  handle_reads transaction_count request id (p ∷ ps) s h = nonce_reads id _ s
  handle_reads code request id [] s h = refl
  handle_reads code request id (p ∷ ps) s h = code_reads id _ s
  handle_reads send_raw_transaction request id params s h = absurd (h refl)
  handle_reads net_version request id params s h = refl
  handle_reads client_version request id params s h = refl
  handle_reads call request id params s h = call_reads id request s
  handle_reads estimate_gas request id params s h = refl
  handle_reads block request id params s h = block_reads id s
  handle_reads receipt request id [] s h = refl
  handle_reads receipt request id (p ∷ ps) s h = receipt_reads id _ s
  handle_reads fee_history request id params s h = fees_reads id s
  handle_reads priority_fee request id params s h = refl
  handle_reads storage_at request id [] s h = refl
  handle_reads storage_at request id (p ∷ []) s h = refl
  handle_reads storage_at request id (p ∷ q ∷ ps) s h = storage_reads id _ _ s
  handle_reads subscribe request id params s h = refl
  handle_reads unknown request id params s h = refl
  handle_reads (constant result) request id params s h = refl

  parsed_reads :
      (method id request : Bytes) (params : Result (List Bytes)) (s : Store)
      → method_of method ≢ send_raw_transaction
      → ReadsOnly s (handle_parsed node (method, id) request params s)
  unfolding handle_parsed
  parsed_reads method id request (ok params) s h = handle_reads _ request id params s h
  parsed_reads method id request err s h = refl
  parsed_reads method id request fault s h = refl
  parsed_reads method id request diverge s h = refl

  -- On a Redis that keeps to its documentation, a request leaves the store as it was, whatever its
  -- text, unless its method is eth_sendRawTransaction.
  pub dispatch_single-reads :
      (request : Bytes) (s : Store)
      → method_of (parse_method request 64 32).0 ≢ send_raw_transaction
      → (dispatch_single node request s).1 ≡ s
  unfolding dispatch_single
  dispatch_single-reads request s h = parsed_reads _ _ request _ s h
