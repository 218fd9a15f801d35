-- ===== src/Examples/Execution.antt =====
-- Runs of executor.c on the server in memory, with a machine that writes one slot and stops.
use evm_db.Prelude.{
  ◌+◌, ◌%◌, ◌^◌, ◌≡◌, refl, [], ◌∷◌, none, Bool, true, false, ◌&&◌, if◌then◌else◌, arith,
}
use evm_db.Prelude.Bytes.{Bytes}
use evm_db.Prelude.Text.{bytes_eq}
use evm_db.Core.Hex.{encode, hex_pairs, hex_char}
use evm_db.Block.Tx.{Tx, zero20, zero32, zero_tx}
use evm_db.State.Redis.{string_of}
use evm_db.State.Redis.Memory.{
  Table, memory, memory-Documented, find, text_in, field_in, reply, answer,
}
use evm_db.State.Store.{
  Blob, get_nonce, get_balance, get_code, set_code, account_key, code_key, hex_text, addr_to_hex,
  number_value, blob,
}
use evm_db.State.Store.Typed.{IsTyped, setters-IsTyped}
use evm_db.Evm.Gas.{add_data_gas}
use evm_db.Evm.Host.{Context, Status, success, Message, Vm, finish, write_storage, run_vm}
use evm_db.Evm.Executor.{
  ExecResult, no_output, execute_tx, check_tx, continue_tx, evm_call, chain_mismatch, apply_tx,
  execute_contract, finish_contract, finish_call, exec_context, default_block_ctx,
}
use evm_db.Evm.Executor.Calls.{evm_call-reads}
use evm_db.Evm.Executor.Checks.{Accepted, data_cost, OnChain}
use evm_db.Evm.Executor.Transactions.{
  execute_tx-refused, execute_tx-Accepted, execute_tx-creates, execute_tx-accounts, execute_tx-once,
}
use evm_db.Examples.Store.{alloc, word, blank, empty-IsTyped, zero20-IsArray}

abbrev pub machine : Message → Blob → Vm
machine msg code =
    write_storage msg.recipient word word
      (λ status. finish (record { status_code = success; gas_left = 100; output = [] }))

abbrev pub status_text : Status → Bytes
status_text status = []

-- The account of zeros has code.
abbrev pub store : Table
store = set_code memory zero20 (0x60 ∷ []) []

pub store-IsTyped : IsTyped memory memory-Documented store
store-IsTyped =
    let (h0, h1, h2, h3, h4, h5, h6) =
      setters-IsTyped memory memory-Documented [] blank zero20 [] [] (0x60 ∷ []) 0 empty-IsTyped in
    h4

abbrev pub call_tx : Tx
call_tx = record zero_tx { gas_limit = 30000; payload = 0x01 ∷ [] }

abbrev early_tx : Tx
early_tx = record zero_tx { nonce = 4; gas_limit = 30000 }

abbrev result : ExecResult
result = record { success = false; gas_used = 0; output = no_output; log_count = 0; error = [] }

abbrev run : Tx → Table → Bool × ExecResult × Table
run tx s = execute_tx memory alloc zero32 machine status_text true tx none result s

run_good : (run call_tx store).0 ≡ true
unfolding execute_tx check_tx continue_tx get_nonce number_value string_of answer find field_in
    reply set_code account_key code_key hex_text addr_to_hex encode hex_pairs hex_char bytes_eq
    chain_mismatch add_data_gas apply_tx execute_contract get_code blob text_in run_vm
    finish_contract finish_call
run_good = refl

run_early : (run early_tx store).0 ≡ false
unfolding execute_tx check_tx continue_tx get_nonce number_value string_of answer find field_in
    reply set_code account_key code_key hex_text addr_to_hex encode hex_pairs hex_char bytes_eq
    chain_mismatch
run_early = refl

evm_call-reads_example :
    (evm_call memory alloc zero32 machine status_text true zero20 zero20
      (0x01 ∷ [])
      none
      5000
      result
      store).2
    ≡ store
evm_call-reads_example =
    evm_call-reads memory memory-Documented alloc zero32 machine status_text true zero20 zero20
      (0x01 ∷ []) none 5000 result store

abbrev context : Context
context = exec_context (default_block_ctx none) zero20

abbrev message : Message
message = record {
  flags = 0;
  gas = 5000;
  recipient = zero20;
  sender = zero20;
  input = [];
  value = zero32;
  code_address = zero20;
}

execute_tx-refused_example : (run early_tx store).2 ≡ store
execute_tx-refused_example =
    execute_tx-refused memory memory-Documented alloc zero32 machine status_text true early_tx none
      result store zero20-IsArray store-IsTyped run_early

execute_tx-Accepted_example : Accepted true call_tx none (get_nonce memory zero20 store).0
execute_tx-Accepted_example =
    execute_tx-Accepted memory memory-Documented alloc zero32 machine status_text true call_tx none
      result store zero20-IsArray store-IsTyped run_good

abbrev create_tx : Tx
create_tx = record zero_tx { to_is_null = true; gas_limit = 21016; payload = 0x60 ∷ [] }

create_tx-Accepted : Accepted true create_tx none (get_nonce memory create_tx.sender store).0
unfolding OnChain get_nonce number_value string_of answer find field_in reply set_code data_cost
    account_key code_key hex_text addr_to_hex encode hex_pairs hex_char bytes_eq
create_tx-Accepted = record { ready = refl; chain = tt; in_turn = refl; gas = omega arith }

execute_tx-creates_example :
    ((run create_tx store).0 ≡ true)
    × ((run create_tx store).1.gas_used ≡ (21000 + data_cost (0x60 ∷ [])) % 2 ^ 64)
execute_tx-creates_example =
    execute_tx-creates memory memory-Documented alloc zero32 machine status_text true create_tx none
      result store zero20-IsArray store-IsTyped refl create_tx-Accepted

execute_tx-accounts_example :
    ((get_nonce memory zero20 (run call_tx store).2).0 ≡ (
      if (run call_tx store).0 && bytes_eq zero20 zero20
      then ((get_nonce memory zero20 store).0 + 1) % 2 ^ 64
      else (get_nonce memory zero20 store).0))
    × ((get_balance memory zero20 zero32 (run call_tx store).2).0
        ≡ (get_balance memory zero20 zero32 store).0)
    × IsTyped memory memory-Documented (run call_tx store).2
execute_tx-accounts_example =
    execute_tx-accounts memory memory-Documented alloc zero32 machine status_text true call_tx none
      result store zero20-IsArray store-IsTyped zero20 zero32 zero20-IsArray

execute_tx-once_example :
    ((run call_tx (run call_tx store).2).0 ≡ false)
    × ((run call_tx (run call_tx store).2).2 ≡ (run call_tx store).2)
execute_tx-once_example =
    execute_tx-once memory memory-Documented alloc zero32 machine status_text true call_tx none
      result store zero20-IsArray store-IsTyped none (omega arith) run_good
