-- ===== src/Rpc/Invariant.antt =====
-- What the requests of src/rpc/handlers.c do to the kinds of the keys, up to dispatch_single.
pub mod Batches
use evm_db.Prelude.{
  ℕ, ◌/◌, ◌≡◌, ◌≢◌, refl, List, [], ◌∷◌, Option, none, some, Bool, true, false, if_lem, length, ◌⊎◌,
  inl, inr,
}
use evm_db.Prelude.Bytes.{Bytes}
use evm_db.State.Redis.{Documented}
use evm_db.State.Store.{Account, set_receipt, set_block_number}
use evm_db.State.Store.Typed.{IsTyped, setters-IsTyped}
use evm_db.Block.Rlp.Result.{Result, ok, err, fault, diverge}
use evm_db.Block.Tx.{Tx}
use evm_db.Evm.Host.{BlockContext}
use evm_db.Evm.Executor.{ExecResult, execute_tx}
use evm_db.Evm.Executor.Transactions.{execute_tx-Ends}
use evm_db.Rpc.Node.{Node, Answer}
use evm_db.Rpc.Send.{
  mine, execute_and_mine, send_recovered, send_decoded, send_bytes, send_hex,
  handle_send_raw_transaction,
}
use evm_db.Rpc.Dispatch.{
  Method, chain_id, block_number, gas_price, balance, transaction_count, code, send_raw_transaction,
  net_version, client_version, call, estimate_gas, block, receipt, fee_history, priority_fee,
  storage_at, subscribe, unknown, constant, method_of, handle, handle_parsed, dispatch_single,
}
use evm_db.Rpc.Effects.{context_store, handle_reads}

no_account : Account
no_account = record { address = []; nonce = 0; balance = []; code_hash = [] }

is_send-cases : (m : Method) → (m ≡ send_raw_transaction) ⊎ (m ≢ send_raw_transaction)
is_send-cases chain_id = inr (λ e. cc)
is_send-cases block_number = inr (λ e. cc)
is_send-cases gas_price = inr (λ e. cc)
is_send-cases balance = inr (λ e. cc)
is_send-cases transaction_count = inr (λ e. cc)
is_send-cases code = inr (λ e. cc)
is_send-cases send_raw_transaction = inl refl
is_send-cases net_version = inr (λ e. cc)
is_send-cases client_version = inr (λ e. cc)
is_send-cases call = inr (λ e. cc)
is_send-cases estimate_gas = inr (λ e. cc)
is_send-cases block = inr (λ e. cc)
is_send-cases receipt = inr (λ e. cc)
is_send-cases fee_history = inr (λ e. cc)
is_send-cases priority_fee = inr (λ e. cc)
is_send-cases storage_at = inr (λ e. cc)
is_send-cases subscribe = inr (λ e. cc)
is_send-cases unknown = inr (λ e. cc)
is_send-cases (constant result) = inr (λ e. cc)

module _ (node : Node) (docs : Documented node.redis) where
  open node use {redis, alloc, junk}
  open redis use {Store}

  abbrev pub Sound : Answer × Store → Type 0
  Sound r = IsTyped redis docs r.1

  executed-IsTyped :
      (tx : Tx) (ctx : Option BlockContext) (result : ExecResult) (s : Store)
      → IsTyped redis docs s
      → IsTyped redis docs
          (execute_tx redis alloc junk node.vm node.status_text node.initialized tx ctx result s).2
  executed-IsTyped tx ctx result s h =
      elim (execute_tx-Ends redis docs alloc junk node.vm node.status_text node.initialized tx ctx
        result s h) [
          | inl (e, same) ↦ rw same h
          | inr (e, accepted, (s', same, final)) ↦
              let (h0, h1, moved, h3, h4, h5, h6) =
                setters-IsTyped redis docs s' no_account tx.sender [] [] [] _ same.typed in
              rw final moved
        ]

  numbered-IsTyped :
      (n : ℕ) (hash text : Bytes) (s : Store)
      → IsTyped redis docs s
      → IsTyped redis docs (set_block_number redis n s)
        × IsTyped redis docs (set_receipt redis hash text (set_block_number redis n s))
  numbered-IsTyped n hash text s h =
      let (h0, h1, h2, h3, h4, h5, numbered) =
        setters-IsTyped redis docs s no_account [] [] [] [] n h in
      let (k0, k1, k2, k3, k4, written, k6) =
        setters-IsTyped redis docs (set_block_number redis n s) no_account [] hash [] text 0
          numbered in
      (numbered, written)

  mine-Sound :
      (id : Bytes) (tx : Tx) (number : ℕ) (r : Bool × ExecResult × Store)
      → IsTyped redis docs r.2
      → Sound (mine node id tx number r)
  unfolding mine
  mine-Sound id tx number (false, result, t) h = h
  mine-Sound id tx number (true, result, t) h =
      if_lem Sound (alloc 2048) _ _ (λ there. (numbered-IsTyped _ tx.hash _ t h).1)
        (λ out. (numbered-IsTyped _ tx.hash [] t h).0)

  mined-Sound :
      (id : Bytes) (tx : Tx) (s : Store)
      → IsTyped redis docs s
      → Sound (execute_and_mine node id tx s)
  unfolding execute_and_mine
  mined-Sound id tx s h =
      mine-Sound id tx _ _ (executed-IsTyped tx _ _ _ (rw (context_store node docs s) h))

  recovered-Sound :
      (id : Bytes) (r : Result (Bool × Tx)) (s : Store)
      → IsTyped redis docs s
      → Sound (send_recovered node id r s)
  unfolding send_recovered
  recovered-Sound id (ok (true, tx)) s h = mined-Sound id tx s h
  recovered-Sound id (ok (false, tx)) s h = h
  recovered-Sound id err s h = h
  recovered-Sound id fault s h = h
  recovered-Sound id diverge s h = h

  decoded-Sound :
      (id : Bytes) (r : Result Tx) (s : Store)
      → IsTyped redis docs s
      → Sound (send_decoded node id r s)
  unfolding send_decoded
  decoded-Sound id (ok tx) s h = recovered-Sound id _ s h
  decoded-Sound id err s h = h
  decoded-Sound id fault s h = h
  decoded-Sound id diverge s h = h

  bytes-Sound :
      (id : Bytes) (raw : Option Bytes) (s : Store)
      → IsTyped redis docs s
      → Sound (send_bytes node id raw s)
  unfolding send_bytes
  bytes-Sound id none s h = h
  bytes-Sound id (some []) s h = h
  bytes-Sound id (some (b ∷ bs)) s h = decoded-Sound id _ s h

  hex-Sound :
      (id : Bytes) (hex : Option Bytes) (s : Store)
      → IsTyped redis docs s
      → Sound (send_hex node id hex s)
  unfolding send_hex
  hex-Sound id none s h = h
  hex-Sound id (some hex) s h =
      if_lem Sound (alloc (length hex / 2)) _ _ (λ there. bytes-Sound id _ s h) (λ out. h)

  handled-Sound :
      (m : Method) (request id : Bytes) (params : List Bytes) (s : Store)
      → IsTyped redis docs s
      → Sound (handle node m request id params s)
  handled-Sound m request id params s h = elim (is_send-cases m) [
    | inl e ↦ rw e (unfold handle handle_send_raw_transaction in hex-Sound id _ s h)
    | inr other ↦ rw (handle_reads node docs m request id params s other) h
  ]

  parsed-Sound :
      (parsed : Bytes × Bytes) (request : Bytes) (params : Result (List Bytes)) (s : Store)
      → IsTyped redis docs s
      → Sound (handle_parsed node parsed request params s)
  unfolding handle_parsed
  parsed-Sound (method, id) request (ok params) s h =
      handled-Sound (method_of method) request id params s h
  parsed-Sound parsed request err s h = h
  parsed-Sound parsed request fault s h = h
  parsed-Sound parsed request diverge s h = h

  pub dispatch_single-Sound :
      (request : Bytes) (s : Store) → IsTyped redis docs s → Sound (dispatch_single node request s)
  unfolding dispatch_single
  dispatch_single-Sound request s h = parsed-Sound _ request _ s h
