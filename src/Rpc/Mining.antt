-- ===== src/Rpc/Mining.antt =====
-- What eth_sendRawTransaction leaves in the state: one block for each transaction that is carried out.
use evm_db.Prelude.{
  ℕ, ◌+◌, ◌%◌, ◌^◌, ◌≡◌, ◌<◌, refl, ap, ◌∙◌, [], some, Bool, true, false, if◌then◌else◌, length,
  ◌&&◌, Bool-cases, inl, inr, arith,
}
use evm_db.Prelude.Bytes.{Bytes, IsArray}
use evm_db.Prelude.Text.{bytes_eq, bytes_eq_refl}
use evm_db.State.Redis.{Documented}
use evm_db.State.Store.{
  Account, hex_text, get_nonce, get_balance, get_receipt, get_block_number, set_block_number,
  set_receipt,
}
use evm_db.State.Store.Typed.{IsTyped, setters-IsTyped}
use evm_db.State.Store.Blobs.{get_receipt-set_receipt, get_block_number-set_block_number}
use evm_db.State.Store.Texts.{accounts-set_receipt, accounts-set_block_number}
use evm_db.Block.Rlp.Result.{ok}
use evm_db.Block.Tx.{Tx}
use evm_db.Evm.Host.{BlockContext}
use evm_db.Evm.Executor.{ExecResult, execute_tx}
use evm_db.Evm.Executor.Transactions.{execute_tx-refused, execute_tx-Accepted, execute_tx-accounts}
use evm_db.Rpc.Node.{Node, Answer, make_response, make_error, quoted, make_block_context}
use evm_db.Rpc.Call.{zero_result}
use evm_db.Rpc.Send.{receipt_text, mine, execute_and_mine}
use evm_db.Rpc.Effects.{context_store}

zero_account : Account
zero_account = record { address = []; nonce = 0; balance = []; code_hash = [] }

module _ (node : Node) (id : Bytes) (tx : Tx) where
  open node use {redis, alloc}
  open redis use {Store}

  pub mine-mined :
      (r : Bool × ExecResult × Store) (number : ℕ)
      → r.0 ≡ true
      → alloc 2048 ≡ true
      → mine node id tx number r ≡ (
        ok (make_response alloc id (quoted 128 (hex_text tx.hash 67))),
        set_receipt redis tx.hash
            (receipt_text node.base_fee tx ((number + 1) % 2 ^ 64) r.1)
            (set_block_number redis ((number + 1) % 2 ^ 64) r.2),
      )
  unfolding mine
  mine-mined (true, result, t) number good there = rw there refl
  mine-mined (false, result, t) number good there = absurd cc

  pub mine-refused :
      (r : Bool × ExecResult × Store) (number : ℕ)
      → r.0 ≡ false
      → mine node id tx number r ≡ (ok (make_error alloc id 32603 r.1.error), r.2)
  unfolding mine
  mine-refused (false, result, t) number bad = refl
  mine-refused (true, result, t) number bad = absurd cc

module _ (node : Node) (docs : Documented node.redis) (id : Bytes) (tx : Tx) (s : node.redis.Store)
    (sender : IsArray 20 tx.sender) (typed : IsTyped node.redis docs s) where
  open node use {redis, alloc, junk}
  open redis use {Store}

  abbrev context : BlockContext
  context = (make_block_context node s).0

  -- The execution of the transaction in the block that is being made.
  abbrev pub run : Bool × ExecResult × Store
  run =
      execute_tx redis alloc junk node.vm node.status_text node.initialized tx (some context)
        zero_result s

  abbrev pub mined_number : ℕ
  mined_number = ((get_block_number redis s).0 + 1) % 2 ^ 64

  abbrev pub receipt : Bytes
  receipt = receipt_text node.base_fee tx mined_number run.1

  abbrev pub mined : Store
  mined = set_receipt redis tx.hash receipt (set_block_number redis mined_number run.2)

  runs_here : execute_and_mine node id tx s ≡ mine node id tx (get_block_number redis s).0 run
  unfolding execute_and_mine make_block_context
  runs_here =
      ap
        (λ (t : Store). mine node id tx context.number (
          execute_tx redis alloc junk node.vm node.status_text node.initialized tx (some context)
            zero_result t))
        (context_store node docs s)

  -- On a Redis that keeps to its documentation and a store that keeps strings and hashes apart: a
  -- transaction that is not carried out is answered by an error with its reason, and leaves the store
  -- as it was.
  pub execute_and_mine-refused :
      run.0 ≡ false
      → execute_and_mine node id tx s ≡ (ok (make_error alloc id 32603 run.1.error), s)
  execute_and_mine-refused bad =
      runs_here
      ∙ mine-refused node id tx run _ bad
      ∙ ap (λ (t : Store). (ok (make_error alloc id 32603 run.1.error), t))
          (execute_tx-refused redis docs alloc junk node.vm node.status_text node.initialized tx _ _
            s sender typed bad)

  mined-IsTyped : IsTyped redis docs run.2 → IsTyped redis docs mined
  mined-IsTyped h =
      let (h0, h1, h2, h3, h4, h5, numbered) =
        setters-IsTyped redis docs run.2 zero_account [] [] [] [] mined_number h in
      let (k0, k1, k2, k3, k4, with_receipt, k6) =
        setters-IsTyped redis docs (set_block_number redis mined_number run.2) zero_account []
          tx.hash [] receipt 0 numbered in
      with_receipt

  -- On a Redis that keeps to its documentation and a store that keeps strings and hashes apart, where every
  -- allocation succeeds: a transaction that is carried out is answered by its hash. The block number is
  -- one higher then, the receipt of the transaction can be read under its hash, the nonce of its
  -- sender is one higher, and no other nonce and no balance has changed.
  pub execute_and_mine-mined :
      (b out : Bytes)
      → ((n : ℕ) → alloc n ≡ true)
      → run.0 ≡ true
      → IsArray 32 tx.hash
      → IsArray 20 b
      → (execute_and_mine node id tx s
          ≡ (ok (make_response alloc id (quoted 128 (hex_text tx.hash 67))), mined))
        × ((get_block_number redis mined).0 ≡ mined_number)
        × ((get_receipt redis alloc tx.hash mined).0
            ≡ record { content = some receipt; len = length receipt })
        × ((get_nonce redis b mined).0 ≡ (
            if bytes_eq tx.sender b
            then ((get_nonce redis tx.sender s).0 + 1) % 2 ^ 64
            else (get_nonce redis b s).0))
        × ((get_balance redis b out mined).0 ≡ (get_balance redis b out s).0)
        × IsTyped redis docs mined
  execute_and_mine-mined b out good done hash hb =
      let numbered : Store = set_block_number redis mined_number run.2 in
      let (nonce, balance, apart) =
        execute_tx-accounts redis docs alloc junk node.vm node.status_text node.initialized tx
          (some context) zero_result s sender typed b out hb in
      let (written, kept) =
        get_receipt-set_receipt redis docs alloc tx.hash tx.hash receipt numbered hash hash in
      let (number, codes, receipts) =
        get_block_number-set_block_number redis docs alloc mined_number b tx.hash run.2
          (omega arith) in
      let (nonce1, balance1) = accounts-set_receipt redis docs tx.hash receipt b out numbered in
      let (nonce2, balance2) = accounts-set_block_number redis docs mined_number b out run.2 in
      (
        runs_here ∙ mine-mined node id tx run _ done (good 2048),
        kept ∙ number,
        ground (arith, written, bytes_eq_refl tx.hash, good ((length receipt + 0) % 2 ^ 64)),
        nonce1
            ∙ nonce2
            ∙ nonce
            ∙ ap
                (λ c.
                  if c && bytes_eq tx.sender b
                  then ((get_nonce redis tx.sender s).0 + 1) % 2 ^ 64
                  else (get_nonce redis b s).0)
                done,
        balance1 ∙ balance2 ∙ balance,
        mined-IsTyped apart,
      )

module _ (node : Node) (docs : Documented node.redis) (id : Bytes) (tx : Tx) (s : node.redis.Store)
    (sender : IsArray 20 tx.sender) (typed : IsTyped node.redis docs s) where
  open node use {redis, alloc, junk}
  open redis use {Store}

  abbrev once : Store
  once = mined node docs id tx s sender typed

  -- No replay: on a Redis that keeps to its documentation and a store that keeps strings and hashes apart,
  -- where every allocation succeeds, a transaction with a nonce of 64 bits that was carried out and
  -- mined changes nothing when it is sent again.
  pub execute_and_mine-once :
      (again : Bytes)
      → ((n : ℕ) → alloc n ≡ true)
      → (run node docs id tx s sender typed).0 ≡ true
      → IsArray 32 tx.hash
      → tx.nonce < 2 ^ 64
      → (execute_and_mine node again tx once).1 ≡ once
  execute_and_mine-once again good done hash fits =
      let (answer, number, text, moved, kept, apart) =
        execute_and_mine-mined node docs id tx s sender typed tx.sender [] good done hash sender in
      let first =
        execute_tx-Accepted redis docs alloc junk node.vm node.status_text node.initialized tx _ _ s
          sender typed done in
      let next : (get_nonce redis tx.sender once).0 ≡ (tx.nonce + 1) % 2 ^ 64 =
        ground (arith, moved, bytes_eq_refl tx.sender, first.in_turn) in
      elim (Bool-cases (run node docs again tx once sender apart).0) [
        | inl good_again ↦
            let second =
              execute_tx-Accepted redis docs alloc junk node.vm node.status_text node.initialized tx
                _ _ once sender apart good_again in
            absurd (omega (arith, second.in_turn, next))
        | inr bad ↦
            ap (λ (r : Answer × Store). r.1)
              (execute_and_mine-refused node docs again tx once sender apart bad)
      ]
