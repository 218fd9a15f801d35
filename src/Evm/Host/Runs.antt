-- ===== src/Evm/Host/Runs.antt =====
-- Executions of the virtual machine against the host functions of executor.c.
use evm_db.Prelude.{ℕ, ◌≡◌, refl, ◌∙◌, Option, none, some, Bool}
use evm_db.Prelude.Bytes.{Bytes}
use evm_db.State.Redis.{Redis, Documented}
use evm_db.State.Store.{
  get_nonce, get_balance, get_code, get_storage, account_key, storage_key, code_key, nonce_field,
  balance_field, bytes32_to_hex,
}
use evm_db.Evm.Host.{
  Context, Vm, finish, ask_account_exists, ask_storage, write_storage, ask_balance, ask_code_size,
  ask_code_hash, ask_code, ask_selfdestruct, ask_call, ask_tx_context, ask_block_hash, write_log,
  ask_access_account, ask_access_storage, ask_transient, write_transient, current_value,
  host_account_exists, host_get_storage, host_set_storage, host_get_balance, host_get_code_size,
  host_get_code_hash, host_copy_code, run_vm, host_selfdestruct, host_call, host_get_tx_context,
  host_get_block_hash, host_access_account, host_access_storage, host_get_transient_storage,
}

module _ (redis : Redis) (docs : Documented redis) (alloc : ℕ → Bool) (junk : Bytes) where
  open redis use {Store}

  pub code_store : (addr : Bytes) (s : Store) → (get_code redis alloc addr s).1 ≡ s
  unfolding get_code
  code_store addr s = docs.get_store s (code_key addr)

  pub nonce_store : (addr : Bytes) (s : Store) → (get_nonce redis addr s).1 ≡ s
  unfolding get_nonce
  nonce_store addr s = docs.hget_store s (account_key addr) nonce_field

  balance_store : (addr : Bytes) (s : Store) → (get_balance redis addr junk s).1 ≡ s
  unfolding get_balance
  balance_store addr s = docs.hget_store s (account_key addr) balance_field

  exists_store : (addr : Bytes) (s : Store) → (host_account_exists redis alloc junk addr s).1 ≡ s
  unfolding host_account_exists
  exists_store addr s = code_store addr _ ∙ balance_store addr _ ∙ nonce_store addr s

  value_store :
      (o : Option Bytes) (addr key : Bytes) (s : Store)
      → (current_value redis alloc junk o addr key s).1 ≡ s
  unfolding current_value get_storage
  value_store (some v) addr key s = refl
  value_store none addr key s = docs.hget_store s (storage_key addr) (bytes32_to_hex key)

  -- An execution changes no store, whatever the machine does: its writes stay in the overlay.
  pub run_vm-store :
      (vm : Vm) (ctx : Context) (s : Store) → (run_vm redis alloc junk vm ctx s).2 ≡ s
  unfolding run_vm host_get_storage host_set_storage host_get_balance host_get_code_size
      host_get_code_hash host_copy_code
  run_vm-store (finish r) ctx s = refl
  run_vm-store (ask_account_exists a k) ctx s = run_vm-store (k _) ctx _ ∙ exists_store a s
  run_vm-store (ask_storage a key k) ctx s = run_vm-store (k _) ctx _ ∙ value_store _ a key s
  run_vm-store (write_storage a key v k) ctx s = run_vm-store (k _) _ _ ∙ value_store _ a key s
  run_vm-store (ask_balance a k) ctx s = run_vm-store (k _) ctx _ ∙ balance_store a s
  run_vm-store (ask_code_size a k) ctx s = run_vm-store (k _) ctx _ ∙ code_store a s
  run_vm-store (ask_code_hash a k) ctx s = run_vm-store (k _) ctx _ ∙ code_store a s
  run_vm-store (ask_code a offset size k) ctx s = run_vm-store (k _) ctx _ ∙ code_store a s
  run_vm-store (ask_selfdestruct a b k) ctx s = run_vm-store (k (host_selfdestruct a b)) ctx s
  run_vm-store (ask_call msg k) ctx s = run_vm-store (k (host_call msg)) ctx s
  run_vm-store (ask_tx_context k) ctx s = run_vm-store (k (host_get_tx_context ctx)) ctx s
  run_vm-store (ask_block_hash n k) ctx s = run_vm-store (k (host_get_block_hash n)) ctx s
  run_vm-store (write_log a bytes topics k) ctx s = run_vm-store k ctx s
  run_vm-store (ask_access_account a k) ctx s = run_vm-store (k (host_access_account a)) ctx s
  run_vm-store (ask_access_storage a key k) ctx s =
      run_vm-store (k (host_access_storage a key)) ctx s
  run_vm-store (ask_transient a key k) ctx s =
      run_vm-store (k (host_get_transient_storage a key)) ctx s
  run_vm-store (write_transient a key v k) ctx s = run_vm-store k ctx s
