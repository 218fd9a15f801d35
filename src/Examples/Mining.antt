-- ===== src/Examples/Mining.antt =====
-- A transaction that is mined, and a batch of two requests.
use evm_db.Prelude.{
  ◌≤◌, ℕ, ◌+◌, ◌%◌, ◌^◌, ◌<◌, ◌≡◌, refl, List, [], ◌∷◌, ◌++◌, some, true, if◌then◌else◌, length,
  arith,
}
use evm_db.Prelude.Bytes.{Bytes}
use evm_db.Prelude.Text.{ascii, bytes_eq}
use evm_db.Core.Scan.{strip_prefix, find_behind, skip_while, copy_until, starts, next, quoted_key}
use evm_db.Core.Hex.{encode, hex_pairs, hex_char}
use evm_db.Core.Decimal
use evm_db.State.Redis.{string_of}
use evm_db.State.Redis.Memory.{
  Table, memory, memory-Documented, find, text_in, field_in, reply, answer,
}
use evm_db.State.Store.{
  set_code, get_code, get_receipt, get_block_number, get_nonce, get_balance, hex_text, account_key,
  code_key, addr_to_hex, number_value, blob,
}
use evm_db.State.Store.Typed.{IsTyped}
use evm_db.Block.Rlp.Result.{ok}
use evm_db.Evm.Gas.{add_data_gas}
use evm_db.Evm.Host.{run_vm}
use evm_db.Evm.Executor.{
  chain_mismatch, execute_tx, check_tx, continue_tx, apply_tx, execute_contract, finish_contract,
  finish_call,
}
use evm_db.Rpc.Node.{make_response, make_error, quoted, printed, make_block_context}
use evm_db.Rpc.Json.{
  parse_method, extract_string, extract_id, id_value, find_string, at_quote, value_behind,
}
use evm_db.Rpc.Json.Params.{parse_params, find_params}
use evm_db.Rpc.Send.{execute_and_mine}
use evm_db.Rpc.Dispatch.{method_of, method_in, handle, handle_parsed, dispatch_single}
use evm_db.Rpc.Mining.{
  run, mined, mined_number, receipt, execute_and_mine-mined, execute_and_mine-once,
}
use evm_db.Rpc.Batch.{
  open_batch, batch_loop, run_item, step, take_object, handle_batch, handle_request, add_response,
  ensure, comma,
}
use evm_db.Rpc.Invariant.Batches.{handle_request-IsTyped}
use evm_db.Rpc.Batch.Objects.{body_text, empty, plain, Entry, entries_text}
use evm_db.Rpc.Batch.Buffer.{with_response}
use evm_db.Rpc.Batch.Room.{handle_batch-Roomy}
use evm_db.Rpc.Batch.Order.{list_text, list_rest, list_tail, Serves, handle_request-batch}
use evm_db.Examples.Store.{alloc, zero20-IsArray, zero32-IsArray}
use evm_db.Block.Tx.{zero20, zero32}
use evm_db.Examples.Execution.{store, store-IsTyped, call_tx}
use evm_db.Examples.Rpc.{node}

abbrev id : Bytes
id = ascii "1"

runs_well : (run node memory-Documented id call_tx store zero20-IsArray store-IsTyped).0 ≡ true
unfolding execute_tx check_tx continue_tx get_nonce number_value string_of answer find field_in
    reply set_code account_key code_key hex_text addr_to_hex encode hex_pairs hex_char bytes_eq
    chain_mismatch add_data_gas apply_tx execute_contract get_code blob text_in run_vm
    finish_contract finish_call make_block_context get_block_number
runs_well = refl

abbrev after : Table
after = mined node memory-Documented id call_tx store zero20-IsArray store-IsTyped

abbrev number : ℕ
number = mined_number node memory-Documented id call_tx store zero20-IsArray store-IsTyped

abbrev stored : Bytes
stored = receipt node memory-Documented id call_tx store zero20-IsArray store-IsTyped

execute_and_mine-mined_example :
    (execute_and_mine node id call_tx store
      ≡ (ok (make_response alloc id (quoted 128 (hex_text zero32 67))), after))
    × ((get_block_number memory after).0 ≡ number)
    × ((get_receipt memory alloc zero32 after).0
        ≡ record { content = some stored; len = length stored })
    × ((get_nonce memory zero20 after).0 ≡ (
        if bytes_eq zero20 zero20
        then ((get_nonce memory zero20 store).0 + 1) % 2 ^ 64
        else (get_nonce memory zero20 store).0))
    × ((get_balance memory zero20 zero32 after).0 ≡ (get_balance memory zero20 zero32 store).0)
    × IsTyped memory memory-Documented after
execute_and_mine-mined_example =
    execute_and_mine-mined node memory-Documented id call_tx store zero20-IsArray store-IsTyped
      zero20 zero32 (λ n. refl) runs_well zero32-IsArray zero20-IsArray

execute_and_mine-once_example : (execute_and_mine node (ascii "2") call_tx after).1 ≡ after
execute_and_mine-once_example =
    execute_and_mine-once node memory-Documented id call_tx store zero20-IsArray store-IsTyped
      (ascii "2") (λ n. refl) runs_well zero32-IsArray (omega arith)

-- A request for nothing, and one that has an id.
abbrev first_entry : Entry
first_entry = record { gap = []; body = empty; blank = tt }

abbrev second_entry : Entry
second_entry = record {
  gap = ascii ", ";
  body = plain b'"' refl (
      plain b'i' refl
        (plain b'd' refl (plain b'"' refl (plain b':' refl (plain b'5' refl empty)))));
  blank = (refl, (refl, tt));
}

abbrev unknown_method : Bytes → Bytes
unknown_method request_id =
    ascii "{\"jsonrpc\":\"2.0\",\"id\":"
    ++ (request_id ++ ascii ",\"error\":{\"code\":-32601,\"message\":\"method not found\"}}")

abbrev answers : List Bytes
answers = unknown_method (ascii "1") ∷ unknown_method (ascii "5") ∷ []

first_answer :
    dispatch_single node (ascii "{}") store ≡ (ok (some (unknown_method (ascii "1"))), store)
unfolding dispatch_single parse_method extract_string extract_id id_value find_string at_quote
    value_behind find_behind strip_prefix quoted_key skip_while starts next copy_until method_of
    method_in bytes_eq handle_parsed handle parse_params find_params make_error printed
    Decimal.print Decimal.digits
first_answer = refl

second_answer :
    dispatch_single node (ascii "{\"id\":5}") store
    ≡ (ok (some (unknown_method (ascii "5"))), store)
unfolding dispatch_single parse_method extract_string extract_id id_value find_string at_quote
    value_behind find_behind strip_prefix quoted_key skip_while starts next copy_until method_of
    method_in bytes_eq handle_parsed handle parse_params find_params make_error printed
    Decimal.print Decimal.digits
second_answer = refl

both_served : Serves node (first_entry ∷ second_entry ∷ []) answers store store
unfolding Serves body_text
both_served = (store, first_answer, (store, second_answer, refl))

answers_short : length (list_text answers) < 2 ^ 62
unfolding list_text list_rest list_tail
answers_short = omega arith

handle_request-batch_example :
    handle_request node (b'[' ∷ entries_text (first_entry ∷ second_entry ∷ [])) store
    ≡ (ok (some (list_text answers)), store)
handle_request-batch_example =
    handle_request-batch node (first_entry ∷ second_entry ∷ []) answers store store (λ n. refl)
      answers_short both_served

handle_request-IsTyped_example :
    IsTyped memory memory-Documented
      (handle_request node (b'[' ∷ entries_text (first_entry ∷ second_entry ∷ [])) store).1
handle_request-IsTyped_example =
    handle_request-IsTyped node memory-Documented
      (b'[' ∷ entries_text (first_entry ∷ second_entry ∷ [])) store store-IsTyped

-- A batch of one request for nothing.
one_answer :
    batch_loop node 4 (ascii "{}]") open_batch store
    ≡ (ok (with_response open_batch (unknown_method (ascii "1")) 4096), store)
unfolding batch_loop run_item step take_object add_response ensure comma dispatch_single
    parse_method extract_string extract_id id_value find_string at_quote value_behind find_behind
    strip_prefix quoted_key skip_while starts next copy_until method_of method_in bytes_eq
    handle_parsed handle parse_params find_params make_error printed Decimal.print Decimal.digits
one_answer = refl

handle_batch-Roomy_example :
    (handle_batch node (ascii "{}]") store
      ≡ (ok (some ((b'[' ∷ unknown_method (ascii "1")) ++ b']' ∷ [])), store))
    × (length (b'[' ∷ unknown_method (ascii "1")) + 3 ≤ 4096)
unfolding comma
handle_batch-Roomy_example =
    handle_batch-Roomy node (ascii "{}]") store store
      (with_response open_batch (unknown_method (ascii "1")) 4096) refl one_answer (omega arith)
