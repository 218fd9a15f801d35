-- ===== src/Rpc/Answers.antt =====
-- The texts of the answers fit the memory that is asked for them.
use evm_db.Prelude.{
  ℕ, zero, suc, ◌+◌, ◌-◌, ◌/◌, ◌%◌, ◌^◌, ◌≤◌, ◌<◌, ◌≡◌, ap, [], ◌∷◌, ◌++◌, some, Bool, true, length,
  length-append, take-all, arith,
}
use evm_db.Prelude.Bytes.{Bytes}
use evm_db.Prelude.Text.{ascii}
use evm_db.Core.Decimal
use evm_db.Rpc.Node.{printed, make_response, make_error}

length-digits : (fuel v : ℕ) → length (Decimal.digits fuel v) ≤ fuel
unfolding Decimal.digits
length-digits zero v = omega arith
length-digits (suc fuel) v = ground (
  arith,
  length-digits fuel (v / 10),
  length-append (Decimal.digits fuel (v / 10)) ((b'0' + v % 10) ∷ []),
)

length-print : (v : ℕ) → length (Decimal.print v) ≤ 20
unfolding Decimal.print
length-print v = ground (arith, length-digits 20 v)

pub printed-whole : (size : ℕ) (text : Bytes) → length text < size → printed size text ≡ text
unfolding printed
printed-whole size text h = take-all (size - 1) text (omega arith)

-- The answers of JSON-RPC 2.0. A code is written as what stands behind its minus sign.
abbrev pub response_text : Bytes → Bytes → Bytes
response_text id result =
    ascii "{\"jsonrpc\":\"2.0\",\"id\":" ++ (id ++ (ascii ",\"result\":" ++ (result ++ ascii "}")))

abbrev pub error_text : Bytes → ℕ → Bytes → Bytes
error_text id code message =
    ascii "{\"jsonrpc\":\"2.0\",\"id\":"
    ++ (id
        ++ (ascii ",\"error\":{\"code\":-"
            ++ (Decimal.print code ++ (ascii ",\"message\":\"" ++ (message ++ ascii "\"}}")))))

make_response_whole :
    (alloc : ℕ → Bool) (id result : Bytes)
    → ((n : ℕ) → alloc n ≡ true)
    → length id + length result < 2 ^ 63
    → make_response alloc id result ≡ some (response_text id result)
unfolding make_response
make_response_whole alloc id result good h =
    let whole =
      printed-whole ((length id + length result + 64) % 2 ^ 64) (response_text id result) (
        omega (
          arith,
          length-append id (ascii ",\"result\":" ++ (result ++ ascii "}")),
          length-append result (ascii "}"),
        )) in
    rw (good ((length id + length result + 64) % 2 ^ 64), make_response)
      (ap (λ (t : Bytes). some t) whole)

make_error_whole :
    (alloc : ℕ → Bool) (id : Bytes) (code : ℕ) (message : Bytes)
    → ((n : ℕ) → alloc n ≡ true)
    → length id + length message < 2 ^ 63
    → make_error alloc id code message ≡ some (error_text id code message)
unfolding make_error
make_error_whole alloc id code message good h =
    let behind : Bytes = ascii ",\"message\":\"" ++ (message ++ ascii "\"}}") in
    let whole =
      printed-whole ((length id + length message + 128) % 2 ^ 64) (error_text id code message) (
        omega (
          arith,
          length-append id (ascii ",\"error\":{\"code\":-" ++ (Decimal.print code ++ behind)),
          length-append (Decimal.print code) behind,
          length-append message (ascii "\"}}"),
          length-print code,
        )) in
    rw (good ((length id + length message + 128) % 2 ^ 64), make_error)
      (ap (λ (t : Bytes). some t) whole)

-- For an id and a text that are shorter than 2 ^ 63 characters together, and where there is memory: a
-- response and an error are the whole JSON object, and none of it is cut off.
pub answers_whole :
    (alloc : ℕ → Bool) (id text : Bytes) (code : ℕ)
    → ((n : ℕ) → alloc n ≡ true)
    → length id + length text < 2 ^ 63
    → (make_response alloc id text ≡ some (response_text id text))
      × (make_error alloc id code text ≡ some (error_text id code text))
answers_whole alloc id text code good h =
    (make_response_whole alloc id text good h, make_error_whole alloc id code text good h)
