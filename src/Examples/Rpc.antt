-- ===== src/Examples/Rpc.antt =====
-- Requests to src/rpc, on the server in memory.
use evm_db.Prelude.{
  ℕ, ◌+◌, ◌*◌, ◌^◌, ◌≤◌, ◌<◌, ◌≡◌, ◌≢◌, refl, [], ◌∷◌, ◌++◌, some, true, length, replicate,
  length-replicate, All, arith,
}
use evm_db.Prelude.Bytes.{Bytes, IsByte, be_value}
use evm_db.Prelude.Text.{ascii, bytes_eq}
use evm_db.Core.Scan.{
  strip_prefix, find_behind, skip_while, copy_until, starts, next, quoted_key, c_string,
}
use evm_db.Core.Keccak.{keccak256}
use evm_db.Core.Decimal
use evm_db.State.Redis.Memory.{memory, memory-Documented}
use evm_db.State.Store.{set_receipt}
use evm_db.Block.Rlp.Result.{ok, fault}
use evm_db.Block.Rlp.Code.{
  trimmed, leading_zeros, be_bytes, big_endian, width, header, string_code, list_code,
}
use evm_db.Block.Tx.{zero20, zero32}
use evm_db.Block.Tx.Encoding.{signed_code}
use evm_db.Block.Tx.Sign.{recover_sender}
use evm_db.Rpc.Node.{Node, make_response}
use evm_db.Rpc.Json.{parse_method, extract_string, find_string, at_quote, value_behind}
use evm_db.Rpc.Json.Params.{parse_params}
use evm_db.Rpc.Json.RoundTrip.{request_text}
use evm_db.Rpc.Json.Strings.{params_text, parse_params-request_text}
use evm_db.Rpc.Json.Termination.{Parsed, parse_params-Parsed}
use evm_db.Rpc.Reads.{balance_response, receipt_at}
use evm_db.Rpc.Quantity.{digits_value, IsQuantity, balance_response_lem}
use evm_db.Rpc.Send.{send_recovered}
use evm_db.Rpc.Dispatch.{chain_id, send_raw_transaction, method_of, method_in, dispatch_single}
use evm_db.Rpc.Effects.{dispatch_single-reads}
use evm_db.Rpc.Wire.{send_name, hex_of, dispatch_single-signed_code}
use evm_db.Rpc.Faults.{receipt_at-fault, handle_received-fits, handle_received-fault}
use evm_db.Rpc.Client.{
  handle_received, serve, body_offset, content_length, content_length_at, first_of,
}
use evm_db.Examples.Store.{alloc, word, word-IsArray, zero32-IsArray}
use evm_db.Examples.Block.{transfer, transfer-IsTx}
use evm_db.Examples.Execution.{machine, status_text, store}

abbrev pub node : Node
node = record {
  redis = memory;
  alloc = alloc;
  junk = zero32;
  vm = machine;
  status_text = status_text;
  initialized = true;
  context = true;
  recover = λ signature recid hash. some (replicate 65 4);
  time = 1700000000;
  chain_id = 1;
  gas_limit = 30000000;
  base_fee = 7;
}

transfer-bytes : All IsByte (signed_code transfer)
unfolding signed_code list_code string_code header trimmed leading_zeros be_bytes big_endian width
transfer-bytes = ground arith

transfer_short : length (signed_code transfer) < 2 ^ 61
unfolding signed_code list_code string_code header trimmed leading_zeros be_bytes big_endian width
transfer_short = omega arith

dispatch_single-signed_code_example :
    dispatch_single node
      (request_text
        (ascii "7")
        send_name
        (b'"' ∷ (hex_of (signed_code transfer) ++ b'"' ∷ ascii "]}")))
      store
    ≡ send_recovered node
        (ascii "7")
        (recover_sender alloc true node.recover (record transfer {
          hash = keccak256 (signed_code transfer);
          sender = zero20;
          raw = signed_code transfer;
        }))
        store
dispatch_single-signed_code_example =
    dispatch_single-signed_code node (ascii "7") (ascii "]}") transfer store (λ n. refl) (refl, tt)
      (omega arith) transfer-IsTx transfer-bytes transfer_short

abbrev chain_request : Bytes
chain_request = ascii "{\"method\":\"eth_chainId\"}"

chain_method : method_of (parse_method chain_request 64 32).0 ≡ chain_id
unfolding parse_method extract_string find_string at_quote value_behind find_behind strip_prefix
    quoted_key skip_while starts next copy_until method_of method_in bytes_eq
chain_method = refl

chain_reads : method_of (parse_method chain_request 64 32).0 ≢ send_raw_transaction
chain_reads e = cc (chain_method, e)

dispatch_single-reads_example : (dispatch_single node chain_request store).1 ≡ store
dispatch_single-reads_example =
    dispatch_single-reads node memory-Documented chain_request store chain_reads

parse_params-request_text_example :
    (parse_method
        (request_text
          (ascii "12")
          (ascii "eth_getCode")
          (params_text (ascii "0x60" ∷ ascii "latest" ∷ [])))
        64
        32
      ≡ (ascii "eth_getCode", ascii "12"))
    × (parse_params
          (request_text
            (ascii "12")
            (ascii "eth_getCode")
            (params_text (ascii "0x60" ∷ ascii "latest" ∷ [])))
          8
        ≡ ok (ascii "0x60" ∷ ascii "latest" ∷ []))
parse_params-request_text_example =
    parse_params-request_text (ascii "12") (ascii "eth_getCode")
      (ascii "0x60" ∷ ascii "latest" ∷ [])
      (record {
        digits = ground arith;
        id_fits = omega arith;
        plain = ground arith;
        method_fits = omega arith;
        method_apart = λ e. ground (arith, e);
      })
      (omega arith) (ground arith)

parse_params-Parsed_example : Parsed 8 (parse_params (ascii "{\"params\":[nil,{") 8)
parse_params-Parsed_example = parse_params-Parsed (ascii "{\"params\":[nil,{") 8

balance_response_lem_example :
    (q : Bytes) × (balance_response node (ascii "1") word
      ≡ make_response alloc (ascii "1") (b'"' ∷ b'0' ∷ b'x' ∷ (q ++ b'"' ∷ [])))
    × IsQuantity q
    × (digits_value 0 q ≡ be_value word)
balance_response_lem_example = balance_response_lem node (ascii "1") word word-IsArray

receipt_at-fault_example :
    (receipt_at node (ascii "1") (some zero32) (set_receipt memory zero32 (ascii "{}") store)).0
    ≡ fault
receipt_at-fault_example =
    receipt_at-fault node memory-Documented (ascii "1") zero32 (ascii "{}") store (λ n. refl)
      zero32-IsArray (omega arith) (refl, (refl, tt))

abbrev short_request : Bytes
short_request = ascii "Content-Length: 12\r\n\r\n{}"

abbrev long_request : Bytes
long_request = ascii "Content-Length: 1048560\r\n\r\n{}"

short_fits :
    body_offset (c_string short_request) + content_length (c_string short_request) < 1024 * 1024
unfolding body_offset content_length content_length_at first_of c_string find_behind strip_prefix
    Decimal.atol Decimal.signed_long Decimal.skip_spaces Decimal.is_space Decimal.read_digits
    Decimal.is_digit
short_fits = omega arith

long_announced : content_length (c_string long_request) < 1024 * 1024
unfolding content_length content_length_at first_of c_string find_behind strip_prefix Decimal.atol
    Decimal.signed_long Decimal.skip_spaces Decimal.is_space Decimal.read_digits Decimal.is_digit
long_announced = omega arith

long_exceeds :
    1024 * 1024 ≤ body_offset (c_string long_request) + content_length (c_string long_request)
unfolding body_offset content_length content_length_at first_of c_string find_behind strip_prefix
    Decimal.atol Decimal.signed_long Decimal.skip_spaces Decimal.is_space Decimal.read_digits
    Decimal.is_digit
long_exceeds = omega arith

-- A client that sends all that it is asked for.
abbrev sender : ℕ → Bytes
sender n = replicate n b'a'

sends : (n : ℕ) → n ≤ length (sender n)
sends n = omega (arith, length-replicate {A = ℕ} n b'a')

handle_received-fits_example :
    (extra : Bytes) × (handle_received node sender short_request store
      ≡ serve node (ok (short_request ++ extra)) (body_offset (c_string short_request)) store)
handle_received-fits_example =
    handle_received-fits node sender short_request store (omega arith) short_fits

handle_received-fault_example : (handle_received node sender long_request store).0 ≡ fault
handle_received-fault_example =
    handle_received-fault node sender long_request store (omega arith) long_announced long_exceeds
      sends
