-- ===== src/Evm/Executor/Transactions.antt =====
-- `evmdb_evm_execute_tx` of executor.c: nonces, errors, and what is left in the store.
use evm_db.Prelude.{
  ℕ, ◌+◌, ◌%◌, ◌^◌, ◌<◌, ◌≡◌, ◌≢◌, refl, ◌∙◌, [], ◌-◌, Option, Bool, true, false, ◌&&◌,
  if◌then◌else◌, if_lem, arith, ◌⊎◌, inl, inr,
}
use evm_db.Prelude.Bytes.{Bytes, IsArray}
use evm_db.Prelude.Text.{bytes_eq, bytes_eq_refl}
use evm_db.State.Redis.{Redis, Documented}
use evm_db.State.Store.{Blob, get_nonce, set_nonce, get_balance, set_code, Account}
use evm_db.State.Store.Typed.{IsTyped, setters-IsTyped}
use evm_db.State.Store.Accounts.{get_nonce-set_nonce}
use evm_db.State.Store.Blobs.{accounts-set_code}
use evm_db.Block.Tx.{Tx, zero32}
use evm_db.Evm.Host.{BlockContext, Status, Message, Vm}
use evm_db.Evm.Executor.{
  ExecResult, finish_call, create_contract, apply_tx, execute_tx, Verdict, passed, check_tx,
  continue_tx, compute_create_address,
}
use evm_db.Evm.Executor.Checks.{
  Accepted, data_cost, gas-data_cost, Checked, check_tx-Checked, check_tx-passed,
}
use evm_db.Evm.Executor.Calls.{SameAccounts, execute_contract_ends, ContractEnds}

zero_account : Account
zero_account = record { address = []; nonce = 0; balance = []; code_hash = [] }

module _ (redis : Redis) (docs : Documented redis) (alloc : ℕ → Bool) (junk : Bytes)
    (vm : Message → Blob → Vm) (status_text : Status → Bytes) where
  open redis use {Store}

  -- The two ways in which a transaction ends.
  abbrev pub Ends : Bool → Tx → Option BlockContext → Store → Bool × ExecResult × Store → Type 0
  Ends initialized tx block_ctx s r =
      ((r.0 ≡ false) × (r.2 ≡ s))
      ⊎ ((r.0 ≡ true)
          × Accepted initialized tx block_ctx (get_nonce redis tx.sender s).0
          × ((s' : Store) × SameAccounts redis docs s s'
              × (r.2
                  ≡ set_nonce redis tx.sender (((get_nonce redis tx.sender s).0 + 1) % 2 ^ 64) s')))

  create-Ends :
      (initialized : Bool) (tx : Tx) (block_ctx : Option BlockContext) (ig : ℕ)
      (result : ExecResult) (s : Store)
      → IsTyped redis docs s
      → Accepted initialized tx block_ctx (get_nonce redis tx.sender s).0
      → Ends initialized tx block_ctx s (
          create_contract redis alloc junk vm status_text tx ig
            (get_nonce redis tx.sender s).0
            result
            s)
  unfolding create_contract
  create-Ends initialized tx block_ctx ig result s h accepted =
      let at : Bytes = compute_create_address tx.sender (get_nonce redis tx.sender s).0 in
      let (h0, h1, h2, h3, h4, h5, h6) =
        setters-IsTyped redis docs s zero_account at at at tx.payload 0 h in
      inr (
        refl,
        accepted,
        (
          set_code redis at tx.payload s,
          record {
            nonce = λ b. (accounts-set_code redis docs at b tx.payload [] s).0;
            balance = λ b out. (accounts-set_code redis docs at b tx.payload out s).1;
            typed = h4;
          },
          refl,
        ),
      )

  finish-Ends :
      (initialized : Bool) (tx : Tx) (block_ctx : Option BlockContext) (ig : ℕ) (s : Store)
      (r : Bool × ExecResult × Store)
      → ContractEnds redis docs alloc junk vm status_text s r
      → Accepted initialized tx block_ctx (get_nonce redis tx.sender s).0
      → Ends initialized tx block_ctx s
          (finish_call redis alloc junk vm status_text tx ig (get_nonce redis tx.sender s).0 r)
  unfolding finish_call
  finish-Ends initialized tx block_ctx ig s (false, result, s') (inl (bad, same)) accepted =
      inl (refl, same)
  finish-Ends initialized tx block_ctx ig s (false, result, s') (inr (bad, same)) accepted =
      absurd cc
  finish-Ends initialized tx block_ctx ig s (true, result, s') (inl (good, same)) accepted =
      absurd cc
  finish-Ends initialized tx block_ctx ig s (true, result, s') (inr (good, same)) accepted =
      inr (refl, accepted, (s', same, refl))

  apply-Ends :
      (initialized : Bool) (tx : Tx) (block_ctx : Option BlockContext) (ig : ℕ)
      (result : ExecResult) (s : Store)
      → IsTyped redis docs s
      → Accepted initialized tx block_ctx (get_nonce redis tx.sender s).0
      → Ends initialized tx block_ctx s (
          apply_tx redis alloc junk vm status_text tx block_ctx ig
            (get_nonce redis tx.sender s).0
            result
            s)
  unfolding apply_tx
  apply-Ends initialized tx block_ctx ig result s h accepted =
      if_lem (Ends initialized tx block_ctx s) tx.to_is_null _ _
        (λ creation. create-Ends initialized tx block_ctx ig result s h accepted)
        (λ call.
          finish-Ends initialized tx block_ctx ig s _
            (execute_contract_ends redis docs alloc junk vm status_text block_ctx tx.sender
              tx.sender tx.to tx.payload zero32 (tx.gas_limit - ig) 0 _ s h)
            accepted)

  created :
      (tx : Tx) (block_ctx : Option BlockContext) (result : ExecResult) (r : Verdict × Store)
      (ig nonce : ℕ)
      → r.0 ≡ passed ig nonce
      → tx.to_is_null ≡ true
      → ((continue_tx redis alloc junk vm status_text tx block_ctx result r.0 r.1).0 ≡ true)
        × ((continue_tx redis alloc junk vm status_text tx block_ctx result r.0 r.1).1.gas_used
            ≡ ig)
  unfolding continue_tx apply_tx create_contract
  created tx block_ctx result (verdict, s) ig nonce e creation = rw e (rw creation (refl, refl))

  continued-Ends :
      (initialized : Bool) (tx : Tx) (block_ctx : Option BlockContext) (result : ExecResult)
      (s : Store) (r : Verdict × Store)
      → IsTyped redis docs s
      → Checked redis docs alloc junk initialized tx block_ctx s r
      → Ends initialized tx block_ctx s
          (continue_tx redis alloc junk vm status_text tx block_ctx result r.0 r.1)
  unfolding continue_tx
  continued-Ends initialized tx block_ctx result s (verdict, t) h (inl (result', e, same)) =
      rw e (inl (refl, same))
  continued-Ends initialized tx block_ctx result s (verdict, t) h (inr (ig, e, same, accepted)) =
      rw e (rw same (apply-Ends initialized tx block_ctx ig result s h accepted))

  pub execute_tx-Ends :
      (initialized : Bool) (tx : Tx) (block_ctx : Option BlockContext) (result : ExecResult)
      (s : Store)
      → IsTyped redis docs s
      → Ends initialized tx block_ctx s
          (execute_tx redis alloc junk vm status_text initialized tx block_ctx result s)
  unfolding execute_tx
  execute_tx-Ends initialized tx block_ctx result s h =
      continued-Ends initialized tx block_ctx result s _ h
        (check_tx-Checked redis docs alloc junk initialized tx block_ctx result s)

  module _ (initialized : Bool) (tx : Tx) (block_ctx : Option BlockContext) (result : ExecResult)
      (s : Store) (sender : IsArray 20 tx.sender) (typed : IsTyped redis docs s) where
    abbrev run : Bool × ExecResult × Store
    run = execute_tx redis alloc junk vm status_text initialized tx block_ctx result s

    after_run :
        (b out : Bytes)
        → IsArray 20 b
        → (s' : Store) → SameAccounts redis docs s s'
        → (r : Bool × ExecResult × Store) → r.0 ≡ true
        → r.2 ≡ set_nonce redis tx.sender (((get_nonce redis tx.sender s).0 + 1) % 2 ^ 64) s'
        → ((get_nonce redis b r.2).0 ≡ (
            if r.0 && bytes_eq tx.sender b
            then ((get_nonce redis tx.sender s).0 + 1) % 2 ^ 64
            else (get_nonce redis b s).0))
          × ((get_balance redis b out r.2).0 ≡ (get_balance redis b out s).0)
          × IsTyped redis docs r.2
    after_run b out hb s' same r ok e =
        let n : ℕ = ((get_nonce redis tx.sender s).0 + 1) % 2 ^ 64 in
        let (nonce, balance) =
          get_nonce-set_nonce redis docs tx.sender b out n s' sender hb (omega arith) same.typed in
        let (h0, h1, h2, h3, h4, h5, h6) =
          setters-IsTyped redis docs s' zero_account tx.sender [] [] [] n same.typed in
        rw e (ground (arith, nonce, same.nonce b), balance ∙ same.balance b out, h2)

    -- On a store that keeps strings and hashes apart, a transaction that is refused leaves the
    -- store as it was.
    pub execute_tx-refused : run.0 ≡ false → run.2 ≡ s
    execute_tx-refused bad = elim (execute_tx-Ends initialized tx block_ctx result s typed) [
      | inl (e, same) ↦ same
      | inr (e, accepted, rest) ↦ absurd cc
    ]

    -- On a store that keeps strings and hashes apart, a transaction is carried out only if the
    -- machine is there, it has the chain id 0 or the one of the block (where a block is given), its
    -- nonce is the one of the sender's account, and its gas limit covers 21000 and 4 for each zero
    -- byte and 16 for each other byte of its data, modulo 2 ^ 64.
    pub execute_tx-Accepted :
        run.0 ≡ true → Accepted initialized tx block_ctx (get_nonce redis tx.sender s).0
    execute_tx-Accepted good = elim (execute_tx-Ends initialized tx block_ctx result s typed) [
      | inl (e, same) ↦ absurd cc
      | inr (e, accepted, rest) ↦ accepted
    ]

    -- A transaction that creates a contract is carried out if the machine is there, it has the chain id 0
    -- or the one of the block (where a block is given), its nonce is the one of the sender's account, and
    -- its gas limit covers 21000 and 4 for each zero byte and 16 for each other byte of its data, modulo
    -- 2 ^ 64; it uses just this gas.
    pub execute_tx-creates :
        tx.to_is_null ≡ true
        → Accepted initialized tx block_ctx (get_nonce redis tx.sender s).0
        → (run.0 ≡ true) × (run.1.gas_used ≡ (21000 + data_cost tx.payload) % 2 ^ 64)
    unfolding execute_tx
    execute_tx-creates creation accepted =
        let (good, gas) =
          created tx block_ctx result (check_tx redis initialized tx block_ctx result s) _ _
            (check_tx-passed redis docs alloc junk initialized tx block_ctx result s accepted)
            creation in
        (good, gas ∙ gas-data_cost tx.payload)

    -- On a store that keeps strings and hashes apart, for a sender and an address `b` of 20 bytes:
    -- after a transaction the sender's nonce is one higher if it was carried out, every other nonce
    -- and every balance is what it was (also where the transaction has a value), and the strings
    -- and the hashes of the store are still apart.
    pub execute_tx-accounts :
        (b out : Bytes)
        → IsArray 20 b
        → ((get_nonce redis b run.2).0 ≡ (
            if run.0 && bytes_eq tx.sender b
            then ((get_nonce redis tx.sender s).0 + 1) % 2 ^ 64
            else (get_nonce redis b s).0))
          × ((get_balance redis b out run.2).0 ≡ (get_balance redis b out s).0)
          × IsTyped redis docs run.2
    execute_tx-accounts b out hb = elim (execute_tx-Ends initialized tx block_ctx result s typed) [
      | inl (e, same) ↦ rw e (rw same (refl, refl, typed))
      | inr (e, accepted, (s', same, final)) ↦ after_run b out hb s' same run e final
    ]

module _ (redis : Redis) (docs : Documented redis) (alloc : ℕ → Bool) (junk : Bytes)
    (vm : Message → Blob → Vm) (status_text : Status → Bytes) (initialized : Bool) (tx : Tx)
    (block_ctx : Option BlockContext) (result : ExecResult) (s : redis.Store)
    (sender : IsArray 20 tx.sender) (typed : IsTyped redis docs s) where
  open redis use {Store}

  abbrev once : Store
  once = (execute_tx redis alloc junk vm status_text initialized tx block_ctx result s).2

  nonce_moves : (n : ℕ) → n < 2 ^ 64 → n ≢ (n + 1) % 2 ^ 64
  nonce_moves n h e = omega arith

  -- No replay: on a store that keeps strings and hashes apart, and for a nonce of 64 bits, a
  -- transaction that was carried out is refused when it comes again, whatever the block, and leaves
  -- the store as it is then.
  pub execute_tx-once :
      (later : Option BlockContext)
      → tx.nonce < 2 ^ 64
      → (execute_tx redis alloc junk vm status_text initialized tx block_ctx result s).0 ≡ true
      → ((execute_tx redis alloc junk vm status_text initialized tx later result once).0 ≡ false)
        × ((execute_tx redis alloc junk vm status_text initialized tx later result once).2 ≡ once)
  execute_tx-once later fits good =
      let accepted =
        execute_tx-Accepted redis docs alloc junk vm status_text initialized tx block_ctx result s
          sender typed good in
      let (moved, kept, typed') =
        execute_tx-accounts redis docs alloc junk vm status_text initialized tx block_ctx result s
          sender typed tx.sender [] sender in
      let next : (get_nonce redis tx.sender once).0 ≡ (tx.nonce + 1) % 2 ^ 64 =
        ground (arith, moved, good, bytes_eq_refl tx.sender, accepted.in_turn) in
      elim (execute_tx-Ends redis docs alloc junk vm status_text initialized tx later result once
        typed') [
          | inl same ↦ same
          | inr (e, again, rest) ↦ absurd (nonce_moves tx.nonce fits (again.in_turn ∙ next))
        ]
