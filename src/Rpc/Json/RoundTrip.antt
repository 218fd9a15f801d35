-- ===== src/Rpc/Json/RoundTrip.antt =====
-- What json.c and handlers.c find in a request as a client prints it.
use evm_db.Prelude.{
  ◌≤◌, ◌≡◌, ◌≢◌, refl, ap, ◌∙◌, [], ◌∷◌, ◌++◌, none, some, false, All, length, arith,
}
use evm_db.Prelude.Bytes.{Bytes}
use evm_db.Prelude.Text.{ascii}
use evm_db.Core.Scan.{
  strip_prefix, find_behind, skip_while, is_quote, is_gap, starts, next, quoted_key,
}
use evm_db.Core.Scan.Finding.{Plain, find_behind-Plain, strip_prefix-other, copy_until-stops}
use evm_db.Rpc.Json.{
  find_string, value_behind, at_quote, extract_string, ends_number, id_value, extract_id,
  parse_method,
}
use evm_db.Rpc.Request.{behind_bracket, find_params_array}
use evm_db.Rpc.Json.Params.{find_params, in_array}

-- A request with a number as its id. `params` is what stands behind the bracket.
unfoldable pub request_text : Bytes → Bytes → Bytes → Bytes
request_text id method params =
    ascii "{\"jsonrpc\":\"2.0\",\"id\":"
    ++ (id ++ (ascii ",\"method\":\"" ++ (method ++ (ascii "\",\"params\":[" ++ params))))

-- An id in digits, and a method with no quote that is not itself called params; both fit the arrays
-- that dispatch_single has for them.
pub record IsRequest (id method : Bytes) : Type 0 where
  pub digits : All (λ c. ends_number c ≡ false) id
  pub id_fits : length id ≤ 31
  pub plain : Plain method
  pub method_fits : length method ≤ 63
  pub method_apart : method ≢ ascii "params"

number-Plain : (id : Bytes) → All (λ c. ends_number c ≡ false) id → Plain id
number-Plain [] h = tt
number-Plain (c ∷ cs) (hc, h) = (ground (arith, hc), number-Plain cs h)

abbrev front : Bytes
front = ascii "{\"jsonrpc\":\"2.0\",\"id\":"

abbrev behind_id : Bytes
behind_id = ascii ",\"method\":\""

abbrev behind_method : Bytes
behind_method = ascii "\",\"params\":["

-- The keys in front of the id and behind it.
fixed_keys :
    (rest : Bytes)
    → (find_behind (ascii "\"id\"") (front ++ rest) ≡ some (b':' ∷ rest))
      × (find_behind (ascii "\"method\"") (front ++ rest) ≡ find_behind (ascii "\"method\"") rest)
      × (find_behind (ascii "\"params\"") (front ++ rest) ≡ find_behind (ascii "\"params\"") rest)
      × (find_behind (ascii "\"method\"") (behind_id ++ rest) ≡ some (b':' ∷ b'"' ∷ rest))
unfolding find_behind strip_prefix
fixed_keys rest = (refl, refl, refl, refl)

params_behind :
    (rest : Bytes)
    → find_behind (ascii "\"params\"") (behind_method ++ rest) ≡ some (ascii ":[" ++ rest)
unfolding find_behind strip_prefix
params_behind rest = refl

params_method :
    (method rest : Bytes)
    → strip_prefix (ascii "params\"") (method ++ b'"' ∷ rest) ≡ none
    → find_behind (ascii "\"params\"") (behind_id ++ (method ++ b'"' ∷ rest))
      ≡ find_behind (ascii "\"params\"") (method ++ b'"' ∷ rest)
unfolding find_behind strip_prefix
params_method method rest h = rw (h, find_behind, strip_prefix) refl

find_method :
    (id method params : Bytes)
    → IsRequest id method
    → find_behind (ascii "\"method\"") (request_text id method params)
      ≡ some (b':' ∷ b'"' ∷ (method ++ (behind_method ++ params)))
unfolding request_text
find_method id method params h =
    (fixed_keys _).1
    ∙ find_behind-Plain (ascii "method\"") id _ (number-Plain id h.digits)
    ∙ (fixed_keys _).3

find_params_key :
    (id method params : Bytes)
    → IsRequest id method
    → find_behind (ascii "\"params\"") (request_text id method params) ≡ some (ascii ":[" ++ params)
unfolding request_text
find_params_key id method params h =
    (fixed_keys _).2
    ∙ find_behind-Plain (ascii "params\"") id _ (number-Plain id h.digits)
    ∙ params_method method _
        (strip_prefix-other (ascii "params") method _ (ground arith) h.plain h.method_apart)
    ∙ find_behind-Plain (ascii "params\"") method _ h.plain
    ∙ params_behind params

-- A text in quotes behind the colon is read as the method.
method_read :
    (json method rest : Bytes)
    → find_behind (ascii "\"method\"") json ≡ some (b':' ∷ b'"' ∷ (method ++ b'"' ∷ rest))
    → Plain method
    → length method ≤ 63
    → extract_string json (ascii "method") 64 ≡ some method
unfolding extract_string find_string quoted_key value_behind at_quote skip_while starts next
method_read json method rest e plain fits =
    rw (e, extract_string, find_string, quoted_key, value_behind, at_quote)
      (ap (λ (r : Bytes × Bytes). some r.0)
        (copy_until-stops is_quote 63 method b'"' rest plain refl fits))

digits_first :
    (id rest : Bytes)
    → All (λ c. ends_number c ≡ false) id
    → (skip_while is_gap (b':' ∷ (id ++ b',' ∷ rest)) ≡ id ++ b',' ∷ rest)
      × (starts b'"' (id ++ b',' ∷ rest) ≡ false)
unfolding skip_while starts
digits_first [] rest h = (refl, refl)
digits_first (c ∷ cs) rest (hc, h) = (ground (arith, hc), ground (arith, hc))

id_read :
    (json id rest : Bytes)
    → find_behind (ascii "\"id\"") json ≡ some (b':' ∷ (id ++ b',' ∷ rest))
    → All (λ c. ends_number c ≡ false) id
    → length id ≤ 31
    → extract_id json 32 ≡ id
unfolding extract_id value_behind id_value
id_read json id rest e digits fits =
    let (gap, unquoted) = digits_first id rest digits in
    rw (e, extract_id, value_behind)
      (rw gap (
        rw unquoted (
          ap (λ (r : Bytes × Bytes). r.0)
            (copy_until-stops ends_number 31 id b',' rest digits refl fits))))

both_read :
    (json id method : Bytes)
    → extract_string json (ascii "method") 64 ≡ some method
    → extract_id json 32 ≡ id
    → parse_method json 64 32 ≡ (method, id)
unfolding parse_method
both_read json id method m i = rw (m, parse_method) (ap (λ x. (method, x)) i)

array_found :
    (json params : Bytes)
    → find_behind (ascii "\"params\"") json ≡ some (ascii ":[" ++ params)
    → (find_params json ≡ some params) × (find_params_array json ≡ some params)
unfolding find_params find_params_array in_array behind_bracket skip_while starts next
array_found json params e = (rw (e, find_params) refl, rw (e, find_params_array) refl)

-- A request whose id is a number of at most 31 digits, and whose method has no quote and at most 63
-- characters and is not called params, is read back: evmdb_json_parse_method gives its method and its
-- id, and the parameters are looked for behind the bracket, whatever stands there.
pub parse_method-request_text :
    (id method params : Bytes)
    → IsRequest id method
    → (parse_method (request_text id method params) 64 32 ≡ (method, id))
      × (find_params (request_text id method params) ≡ some params)
      × (find_params_array (request_text id method params) ≡ some params)
unfolding request_text
parse_method-request_text id method params h = (
  both_read _ id method
      (method_read _ method _ (find_method id method params h) h.plain h.method_fits)
      (id_read _ id _ (fixed_keys _).0 h.digits h.id_fits),
  (array_found _ params (find_params_key id method params h)).0,
  (array_found _ params (find_params_key id method params h)).1,
)
