-- ===== src/Rpc/Request.antt =====
-- How src/rpc/handlers.c takes strings and numbers out of a request.
use evm_db.Prelude.{
  ℕ, ◌+◌, ◌/◌, [], ◌∷◌, Option, none, some, Bool, ◌==◌, if◌then◌else◌, length, take, replicate,
}
use evm_db.Prelude.Bytes.{Bytes}
use evm_db.Prelude.Text.{ascii}
use evm_db.Core.Hex
use evm_db.Core.Radix.{strtoull_any}
use evm_db.State.Store.{Blob}
use evm_db.Evm.Gas.{add_data_gas}
use evm_db.Evm.Executor.{no_output}
use evm_db.Core.Scan.{find_behind, skip_while, is_gap, is_blank, starts, next, quoted_key}

unfoldable pub behind_bracket : Bytes → Option Bytes
behind_bracket pos = if starts b'[' pos then some (next pos) else none

unfoldable pub find_params_array : Bytes → Option Bytes
find_params_array request = elim (find_behind (ascii "\"params\"") request) [
  | none ↦ none
  | some pos ↦ behind_bracket (skip_while is_gap pos)
]

-- The characters in front of the next quote; `none` if there is no other quote.
unfoldable pub up_to_quote : Bytes → Option Bytes
up_to_quote [] = none
up_to_quote (c ∷ cs) = elim (up_to_quote cs) [
  | none ↦ if c == b'"' then some [] else none
  | some text ↦ if c == b'"' then some [] else some (c ∷ text)
]

unfoldable pub copied_string : (ℕ → Bool) → Option Bytes → Option Bytes
copied_string alloc none = none
copied_string alloc (some text) = if alloc (length text + 1) then some text else none

-- `none` is -1, also where `malloc` fails.
unfoldable pub extract_quoted_string : (ℕ → Bool) → Bytes → Option Bytes
extract_quoted_string alloc pos =
    if starts b'"' pos then copied_string alloc (up_to_quote (next pos)) else none

unfoldable pub extract_first_param_string : (ℕ → Bool) → Bytes → Option Bytes
extract_first_param_string alloc request = elim (find_params_array request) [
  | none ↦ none
  | some pos ↦ extract_quoted_string alloc (skip_while is_blank pos)
]

-- The key is looked for from the parameters on to the end of the request. `search` holds 63 characters.
unfoldable pub find_field : Bytes → Option Bytes → Option Bytes
find_field key none = none
find_field key (some params) = find_behind (take 63 (quoted_key key)) params

unfoldable pub extract_param_field_string : (ℕ → Bool) → Bytes → Bytes → Option Bytes
extract_param_field_string alloc request key = elim (find_field key (find_params_array request)) [
  | none ↦ none
  | some pos ↦ extract_quoted_string alloc (skip_while is_gap pos)
]

unfoldable pub intrinsic_gas_for_data : Bytes → ℕ
intrinsic_gas_for_data bytes = add_data_gas 21000 bytes

-- The bytes that evmdb_hex_decode wrote to the front of fresh memory of `size` bytes, and -1 as `none`.
-- What the memory held before is cut off: behind 0x the block is one byte longer than what was decoded,
-- and that byte is not initialised.
unfoldable pub decoded : ℕ → Bytes → Option Bytes
decoded size hex =
    let (n, out) = Hex.decode (some hex) (replicate size 0) in
    elim n [ none ↦ none | some byte_len ↦ some (take byte_len out) ]

unfoldable pub blob_of : Option Bytes → Option Blob
blob_of none = none
blob_of (some bytes) = some (record { content = some bytes; len = length bytes })

-- The bytes behind the pointer; NULL has none.
unfoldable pub content_of_blob : Blob → Bytes
content_of_blob blob = elim blob.content [ none ↦ [] | some bytes ↦ bytes ]

-- `none` is -1.
unfoldable pub decode_hex_bytes : (ℕ → Bool) → Option Bytes → Option Blob
decode_hex_bytes alloc none = some no_output
decode_hex_bytes alloc (some hex) =
    let max_bytes = length hex / 2 in
    if max_bytes == 0
    then some no_output
    else if alloc max_bytes
    then blob_of (decoded max_bytes hex)
    else none

unfoldable pub parse_hex_uint64_or : Option Bytes → ℕ → ℕ
parse_hex_uint64_or none fallback = fallback
parse_hex_uint64_or (some []) fallback = fallback
parse_hex_uint64_or (some (c ∷ cs)) fallback = strtoull_any (c ∷ cs)
