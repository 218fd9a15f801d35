-- ===== src/Evm/Executor/Calls.antt =====
-- `evmdb_evm_call` and `execute_contract` of executor.c: what they leave in the store.
use evm_db.Prelude.{
  ℕ, ◌≡◌, refl, ◌∙◌, [], Option, Bool, true, false, not, ◌==◌, if_lem, ◌⊎◌, inl, inr,
}
use evm_db.Prelude.Bytes.{Bytes}
use evm_db.State.Redis.{Redis, Documented}
use evm_db.State.Store.{Blob, get_nonce, get_balance, get_code}
use evm_db.State.Store.Typed.{IsTyped}
use evm_db.Evm.Overlay.Commit.{accounts-commit}
use evm_db.Evm.Host.{
  BlockContext, Context, Status, success, failure, internal_error, VmResult, Message, Vm,
}
use evm_db.Evm.Host.Runs.{run_vm-store, code_store}
use evm_db.Evm.Executor.{ExecResult, execute_contract, finish_contract, evm_call}

-- No account has changed, and strings and hashes are still apart.
pub record SameAccounts (redis : Redis) (docs : Documented redis) (s s' : redis.Store)
    : Type 0 where
  pub nonce : (b : Bytes) → (get_nonce redis b s').0 ≡ (get_nonce redis b s).0
  pub balance : (b out : Bytes) → (get_balance redis b out s').0 ≡ (get_balance redis b out s).0
  pub typed : IsTyped redis docs s'

module _ (redis : Redis) (docs : Documented redis) (alloc : ℕ → Bool) (junk : Bytes)
    (vm : Message → Blob → Vm) (status_text : Status → Bytes) where
  open redis use {Store}

  finish_reads :
      (gas : ℕ) (result : ExecResult) (status : Status) (run : VmResult × Context × Store)
      → (finish_contract redis alloc junk vm status_text gas false result status run).2 ≡ run.2
  unfolding finish_contract
  finish_reads gas result success (r, ctx, s) = refl
  finish_reads gas result (failure n) (r, ctx, s) = refl
  finish_reads gas result (internal_error n) (r, ctx, s) = refl

  -- `evm_call` never changes the store, whatever the called code does.
  pub evm_call-reads :
      (initialized : Bool) (from to input : Bytes) (block_ctx : Option BlockContext) (gas : ℕ)
      (result : ExecResult) (s : Store)
      → (evm_call redis alloc junk vm status_text initialized from to input block_ctx gas result
          s).2
        ≡ s
  unfolding evm_call execute_contract
  evm_call-reads initialized from to input block_ctx gas result s =
      if_lem (λ (r : Bool × ExecResult × Store). r.2 ≡ s) (not initialized) _ _ (λ off. refl)
        (λ on.
          if_lem (λ (r : Bool × ExecResult × Store). r.2 ≡ s)
            ((get_code redis alloc to s).0.len == 0) _ _
            (λ none_there. code_store redis docs alloc junk to s)
            (λ there.
              finish_reads gas result _ _
              ∙ run_vm-store redis docs alloc junk _ _ _
              ∙ code_store redis docs alloc junk to s))

  same_store : (s s' : Store) → s' ≡ s → IsTyped redis docs s → SameAccounts redis docs s s'
  same_store s s' e h = rw e (record { nonce = λ b. refl; balance = λ b out. refl; typed = h })

  -- A refused execution leaves the store as it was, and any other one the accounts.
  abbrev pub ContractEnds : Store → Bool × ExecResult × Store → Type 0
  ContractEnds s r = ((r.0 ≡ false) × (r.2 ≡ s)) ⊎ ((r.0 ≡ true) × SameAccounts redis docs s r.2)

  finish_ends :
      (gas : ℕ) (result : ExecResult) (status : Status) (run : VmResult × Context × Store)
      (s : Store)
      → run.2 ≡ s
      → IsTyped redis docs s
      → ContractEnds s (finish_contract redis alloc junk vm status_text gas true result status run)
  unfolding finish_contract
  finish_ends gas result success (r, ctx, s') s e h = rw e (
      inr (
        refl,
        record {
          nonce = λ b. (accounts-commit redis docs ctx.writes.list b [] s h).0;
          balance = λ b out. (accounts-commit redis docs ctx.writes.list b out s h).1;
          typed = (accounts-commit redis docs ctx.writes.list [] [] s h).2;
        },
      ))
  finish_ends gas result (failure n) (r, ctx, s') s e h = inr (refl, same_store s s' e h)
  finish_ends gas result (internal_error n) (r, ctx, s') s e h = inl (refl, e)

  -- An execution that commits changes storage only: no nonce and no balance.
  pub execute_contract_ends :
      (block_ctx : Option BlockContext) (origin sender to input value : Bytes) (gas flags : ℕ)
      (result : ExecResult) (s : Store)
      → IsTyped redis docs s
      → ContractEnds s (
          execute_contract redis alloc junk vm status_text block_ctx origin sender to input value
            gas flags true result s)
  unfolding execute_contract
  execute_contract_ends block_ctx origin sender to input value gas flags result s h =
      if_lem (ContractEnds s) ((get_code redis alloc to s).0.len == 0) _ _
        (λ none_there. inr (refl, same_store s _ (code_store redis docs alloc junk to s) h))
        (λ there.
          finish_ends gas result _ _ s
            (run_vm-store redis docs alloc junk _ _ _ ∙ code_store redis docs alloc junk to s) h)
