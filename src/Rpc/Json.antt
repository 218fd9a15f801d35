-- ===== src/Rpc/Json.antt =====
-- The JSON scanner: src/rpc/json.c.
pub mod Params
pub mod Termination
pub mod RoundTrip
pub mod Strings
use evm_db.Prelude.{
  ℕ, ◌+◌, ◌-◌, [], ◌∷◌, ◌++◌, Option, none, some, Bool, not, ◌&&◌, ◌||◌, leb, ◌==◌, if◌then◌else◌,
  take,
}
use evm_db.Prelude.Bytes.{Bytes}
use evm_db.Prelude.Text.{ascii}
use evm_db.Core.Scan.{
  find_behind, skip_while, copy_until, is_gap, is_quote, starts, next, quoted_key,
}

-- What stands behind the gap after a key that is found.
unfoldable pub value_behind : Option Bytes → Option Bytes
value_behind none = none
value_behind (some pos) = some (skip_while is_gap pos)

unfoldable pub at_quote : Option Bytes → Option Bytes
at_quote none = none
at_quote (some pos) = if starts b'"' pos then some pos else none

-- `search` holds 127 characters at most.
unfoldable pub find_string : Bytes → Bytes → Option Bytes
find_string json key = at_quote (value_behind (find_behind (take 127 (quoted_key key)) json))

-- `none` is the return value -1, which leaves `out` as it was.
unfoldable pub extract_string : Bytes → Bytes → ℕ → Option Bytes
extract_string json key out_len = elim (find_string json key) [
  | none ↦ none
  | some pos ↦ some (copy_until is_quote (out_len - 1) (next pos)).0
]

abbrev pub is_digit : ℕ → Bool
is_digit c = leb b'0' c && leb c b'9'

-- The characters of a number: digits and signs.
abbrev pub ends_number : ℕ → Bool
ends_number c = not (is_digit c || c == b'-')

-- A string keeps its quotes, and is cut so that they and the NUL fit.
unfoldable pub id_value : Bytes → ℕ → Bytes
id_value pos out_len =
    if starts b'"' pos
    then b'"' ∷ (copy_until is_quote (out_len - 3) (next pos)).0 ++ b'"' ∷ []
    else (copy_until ends_number (out_len - 1) pos).0

unfoldable pub extract_id : Bytes → ℕ → Bytes
extract_id json out_len = elim (value_behind (find_behind (ascii "\"id\"") json)) [
  | none ↦ ascii "1"
  | some pos ↦ id_value pos out_len
]

-- The method and the id. `method` is the empty string where there is none.
unfoldable pub parse_method : Bytes → ℕ → ℕ → Bytes × Bytes
parse_method json method_len id_len = (
  elim (extract_string json (ascii "method") method_len) [ none ↦ [] | some method ↦ method ],
  extract_id json id_len,
)
