-- ===== src/Rpc/Wire.antt =====
-- eth_sendRawTransaction from the text of the request to the transaction in it.
use evm_db.Prelude.{
  ℕ, ◌+◌, ◌*◌, ◌/◌, ◌%◌, ◌^◌, ◌≤◌, ◌<◌, ◌≡◌, ◌≢◌, refl, ap, ◌∙◌, [], ◌∷◌, ◌++◌, Option, some, Bool,
  true, false, All, length, length-replicate, take, take-append, replicate, Option-cases, inl, inr,
  arith,
}
use evm_db.Prelude.Bits.{bit_and_nibble}
use evm_db.Prelude.Bytes.{Bytes, IsByte}
use evm_db.Prelude.Text.{ascii, bytes_eq}
use evm_db.Core.Hex.{hex_char, hex_pairs}
use evm_db.Core.Hex.Digits.{length-hex_pairs}
use evm_db.Core.Hex.Decode.{encode_lem, decode-encode}
use evm_db.Core.Keccak.{keccak256}
use evm_db.Core.Scan.{skip_while, is_quote, starts, next}
use evm_db.Core.Scan.Finding.{Plain}
use evm_db.Block.Rlp.Result.{ok}
use evm_db.Block.Tx.{Tx, zero20}
use evm_db.Block.Tx.Decode.{tx_decode}
use evm_db.Block.Tx.Encoding.{IsTx, signed_code}
use evm_db.Block.Tx.RoundTrip.{tx_decode-signed_code}
use evm_db.Block.Tx.Sign.{recover_sender}
use evm_db.Rpc.Json.{ends_number}
use evm_db.Rpc.Json.RoundTrip.{request_text, IsRequest, parse_method-request_text}
use evm_db.Rpc.Json.Termination.{parse_params-Parsed}
use evm_db.Rpc.Node.{Node}
use evm_db.Rpc.Request.{
  up_to_quote, copied_string, extract_quoted_string, find_params_array, extract_first_param_string,
  decoded,
}
use evm_db.Rpc.Send.{
  send_bytes, send_hex, send_decoded, send_recovered, handle_send_raw_transaction,
}
use evm_db.Rpc.Dispatch.{method_in, method_of, handle, handle_parsed, dispatch_single}

-- The text of bytes as a client sends them.
abbrev pub hex_of : Bytes → Bytes
hex_of bytes = b'0' ∷ b'x' ∷ hex_pairs bytes

hex_char-Plain : (d : ℕ) → d < 16 → is_quote (hex_char d) ≡ false
unfolding hex_char
hex_char-Plain d h = ground arith

hex_pairs-Plain : (bytes : Bytes) → Plain (hex_pairs bytes)
unfolding hex_pairs
hex_pairs-Plain [] = tt
hex_pairs-Plain (b ∷ bs) = (
  rw (bit_and_nibble (b / 16)) (hex_char-Plain (b / 16 % 16) (omega arith)),
  (rw (bit_and_nibble b) (hex_char-Plain (b % 16) (omega arith)), hex_pairs-Plain bs),
)

up_to_quote-Plain : (text rest : Bytes) → Plain text → up_to_quote (text ++ b'"' ∷ rest) ≡ some text
unfolding up_to_quote
up_to_quote-Plain [] rest h = elim (Option-cases (up_to_quote rest)) [
  | inl e ↦ rw (e, up_to_quote) refl
  | inr (text, e) ↦ rw (e, up_to_quote) refl
]
up_to_quote-Plain (c ∷ cs) rest (hc, h) = ground (arith, hc, up_to_quote-Plain cs rest h)

extract_first :
    (alloc : ℕ → Bool) (request text rest : Bytes)
    → find_params_array request ≡ some (b'"' ∷ (text ++ b'"' ∷ rest))
    → Plain text
    → alloc (length text + 1) ≡ true
    → extract_first_param_string alloc request ≡ some text
unfolding extract_first_param_string extract_quoted_string skip_while starts next copied_string
extract_first alloc request text rest e plain there =
    rw (e, extract_first_param_string)
      (rw (up_to_quote-Plain text rest plain, copied_string) (rw there refl))

decoded-hex_of :
    (bytes : Bytes)
    → All IsByte bytes
    → length bytes < 2 ^ 63
    → decoded (length (hex_of bytes) / 2) (hex_of bytes) ≡ some bytes
unfolding decoded
decoded-hex_of bytes h fits =
    let size : ℕ = length (hex_of bytes) / 2 in
    let room : length bytes ≤ length (replicate size 0) =
      omega (arith, length-hex_pairs bytes, length-replicate {A = ℕ} size 0) in
    let read =
      decode-encode bytes (replicate size 0) (hex_of bytes) (length bytes * 2 + 3) h room
        (encode_lem bytes _ (omega arith)) in
    rw (ap (λ (r : Option ℕ × Bytes). r.0) read, decoded)
      (ap (λ (r : Option ℕ × Bytes). some (take (length bytes) r.1)) read
        ∙ ap (λ (t : Bytes). some t) (take-append bytes _))

send_hex-decoded :
    (node : Node) (id raw_hex : Bytes) (b : ℕ) (bs : Bytes) (s : node.redis.Store)
    → node.alloc (length raw_hex / 2) ≡ true
    → decoded (length raw_hex / 2) raw_hex ≡ some (b ∷ bs)
    → send_hex node id (some raw_hex) s ≡ send_decoded node id (tx_decode node.alloc (b ∷ bs)) s
unfolding send_hex send_bytes
send_hex-decoded node id raw_hex b bs s there e = rw (there, send_hex) (rw e refl)

abbrev pub send_name : Bytes
send_name = ascii "eth_sendRawTransaction"

dispatch-send :
    (node : Node) (id params : Bytes) (s : node.redis.Store)
    → IsRequest id send_name
    → dispatch_single node (request_text id send_name params) s
      ≡ handle_send_raw_transaction node id (request_text id send_name params) s
unfolding dispatch_single handle_parsed handle method_of method_in bytes_eq
dispatch-send node id params s h =
    let (both, found, array) = parse_method-request_text id send_name params h in
    let parsed = parse_params-Parsed (request_text id send_name params) 8 in
    rw (both, dispatch_single) (rw (parsed.returns, handle_parsed) refl)

-- Where every allocation succeeds: a request for eth_sendRawTransaction with a number of at most 31 digits
-- as its id, whose first parameter is the hexadecimal text of bytes (not none of them, and less than
-- 2 ^ 62), is the decoding of these bytes and what follows it, whatever stands behind the parameter.
pub dispatch_single-hex_of :
    (node : Node) (id rest : Bytes) (b : ℕ) (bs : Bytes) (s : node.redis.Store)
    → ((n : ℕ) → node.alloc n ≡ true)
    → All (λ c. ends_number c ≡ false) id
    → length id ≤ 31
    → All IsByte (b ∷ bs)
    → length bs < 2 ^ 62
    → dispatch_single node (request_text id send_name (b'"' ∷ (hex_of (b ∷ bs) ++ b'"' ∷ rest))) s
      ≡ send_decoded node id (tx_decode node.alloc (b ∷ bs)) s
unfolding handle_send_raw_transaction
dispatch_single-hex_of node id rest b bs s good digits id_fits bytes fits =
    let text : Bytes = hex_of (b ∷ bs) in
    let params : Bytes = b'"' ∷ (text ++ b'"' ∷ rest) in
    let request : IsRequest id send_name = record {
      digits = digits;
      id_fits = id_fits;
      plain = ground arith;
      method_fits = omega arith;
      method_apart = λ e. ground (arith, e);
    } in
    let (both, found, array) = parse_method-request_text id send_name params request in
    let first =
      extract_first node.alloc (request_text id send_name params) text rest array
        (refl, (refl, hex_pairs-Plain (b ∷ bs))) (good _) in
    dispatch-send node id params s request
    ∙ ap (λ (o : Option Bytes). send_hex node id o s) first
    ∙ send_hex-decoded node id text b bs s (good _) (decoded-hex_of (b ∷ bs) bytes (omega arith))

decode-nothing : (alloc : ℕ → Bool) (t : Tx) → tx_decode alloc [] ≢ ok t
unfolding tx_decode
decode-nothing alloc t e = cc

dispatch_single-decoded :
    (node : Node) (id rest raw : Bytes) (t : Tx) (s : node.redis.Store)
    → ((n : ℕ) → node.alloc n ≡ true)
    → All (λ c. ends_number c ≡ false) id
    → length id ≤ 31
    → All IsByte raw
    → length raw < 2 ^ 61
    → tx_decode node.alloc raw ≡ ok t
    → dispatch_single node (request_text id send_name (b'"' ∷ (hex_of raw ++ b'"' ∷ rest))) s
      ≡ send_recovered node id (recover_sender node.alloc node.context node.recover t) s
unfolding send_decoded
dispatch_single-decoded node id rest [] t s good digits id_fits bytes fits e =
    absurd (decode-nothing node.alloc t e)
dispatch_single-decoded node id rest (b ∷ bs) t s good digits id_fits bytes fits e =
    dispatch_single-hex_of node id rest b bs s good digits id_fits bytes (omega arith)
    ∙ ap (λ r. send_decoded node id r s) e

-- Where every allocation succeeds: a request with a number of at most 31 digits as its id that carries the
-- encoding of a well-formed legacy or EIP-1559 transaction, shorter than 2 ^ 61 bytes, is the
-- recovery of the sender of this very transaction, and its execution, whatever stands behind.
pub dispatch_single-signed_code :
    (node : Node) (id rest : Bytes) (tx : Tx) (s : node.redis.Store)
    → ((n : ℕ) → node.alloc n ≡ true)
    → All (λ c. ends_number c ≡ false) id
    → length id ≤ 31
    → IsTx tx
    → All IsByte (signed_code tx)
    → length (signed_code tx) < 2 ^ 61
    → dispatch_single node
        (request_text id send_name (b'"' ∷ (hex_of (signed_code tx) ++ b'"' ∷ rest)))
        s
      ≡ send_recovered node id
          (recover_sender node.alloc node.context node.recover (record tx {
            hash = keccak256 (signed_code tx);
            sender = zero20;
            raw = signed_code tx;
          }))
          s
dispatch_single-signed_code node id rest tx s good digits id_fits h bytes fits =
    dispatch_single-decoded node id rest (signed_code tx) _ s good digits id_fits bytes fits
      (tx_decode-signed_code node.alloc tx good h (omega arith))
