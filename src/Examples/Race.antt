-- ===== src/Examples/Race.antt =====
-- Two threads that create a contract with the same nonce.
use evm_db.Prelude.{◌+◌, ◌%◌, ◌^◌, ◌≡◌, refl, [], ◌∷◌, true}
use evm_db.Prelude.Bytes.{Bytes}
use evm_db.Prelude.Text.{ascii, bytes_eq}
use evm_db.Core.Hex.{encode, hex_pairs, hex_char}
use evm_db.State.Redis.{string_of}
use evm_db.State.Redis.Memory.{
  Table, memory, memory-Documented, find, text_in, field_in, reply, answer,
}
use evm_db.State.Store.{
  set_code, get_nonce, get_block_number, hex_text, account_key, code_key, addr_to_hex, number_value,
}
use evm_db.Block.Tx.{Tx, zero_tx}
use evm_db.Evm.Gas.{add_data_gas}
use evm_db.Evm.Executor.{
  chain_mismatch, execute_tx, check_tx, continue_tx, apply_tx, create_contract,
}
use evm_db.Rpc.Node.{make_block_context}
use evm_db.Rpc.Threads.{waiting, Reach}
use evm_db.Rpc.Threads.Race.{execute, threads, told, both-told}
use evm_db.Examples.Store.{zero32-IsArray}
use evm_db.Examples.Execution.{store}
use evm_db.Examples.Rpc.{node}

abbrev one : Bytes
one = ascii "1"

abbrev two : Bytes
two = ascii "2"

abbrev creation : Tx
creation = record zero_tx { to_is_null = true; gas_limit = 60000; payload = 0x60 ∷ [] }

abbrev other_creation : Tx
other_creation = record zero_tx { to_is_null = true; gas_limit = 60000; payload = 0x61 ∷ [] }

creates : (execute node memory-Documented creation (make_block_context node store).0 store).0 ≡ true
unfolding execute_tx check_tx continue_tx get_nonce number_value string_of answer find field_in
    reply set_code account_key code_key hex_text addr_to_hex encode hex_pairs hex_char bytes_eq
    chain_mismatch add_data_gas apply_tx create_contract text_in make_block_context get_block_number
creates = refl

creates_other :
    (execute node memory-Documented other_creation (make_block_context node store).0 store).0 ≡ true
unfolding execute_tx check_tx continue_tx get_nonce number_value string_of answer find field_in
    reply set_code account_key code_key hex_text addr_to_hex encode hex_pairs hex_char bytes_eq
    chain_mismatch add_data_gas apply_tx create_contract text_in make_block_context get_block_number
creates_other = refl

both-told_example :
    (t : Table) × Reach node
      (threads node memory-Documented (waiting one creation) (waiting two other_creation) store)
      (threads node memory-Documented
        (told node memory-Documented one creation)
        (told node memory-Documented two other_creation)
        t)
    × ((get_block_number memory t).0 ≡ ((get_block_number memory store).0 + 1) % 2 ^ 64)
both-told_example =
    both-told node memory-Documented one two creation other_creation store (λ n. refl)
      zero32-IsArray zero32-IsArray refl refl creates creates_other
