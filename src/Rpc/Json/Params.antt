-- ===== src/Rpc/Json/Params.antt =====
-- `evmdb_json_parse_params` of src/rpc/json.c.
use evm_db.Prelude.{
  ℕ, zero, suc, ◌+◌, ◌-◌, List, [], ◌∷◌, Option, none, some, Bool, false, not, ◌&&◌, ◌||◌, leb,
  ◌==◌, if◌then◌else◌, length,
}
use evm_db.Prelude.Bytes.{Bytes}
use evm_db.Prelude.Text.{ascii}
use evm_db.Block.Rlp.Result.{Result, ok, diverge, ◌>>=◌}
use evm_db.Core.Scan.{find_behind, skip_while, copy_until, is_gap, is_quote, is_blank, starts, next}

-- The loop to the matching brace, from a depth on. The depth is below 2 ^ 31, as a request has at most
-- 2 ^ 20 characters.
unfoldable pub skip_object : ℕ → Bytes → Bytes
skip_object depth [] = []
skip_object depth (c ∷ cs) =
    let deeper = if c == b'{' then depth + 1 else if c == b'}' then depth - 1 else depth in
    let rest = skip_object deeper cs in if depth == 0 then c ∷ cs else rest

abbrev pub ends_value : ℕ → Bool
ends_value c = c == b',' || c == b']'

unfoldable pub skip_quote : Bytes → Bytes
skip_quote pos = if starts b'"' pos then next pos else pos

-- One parameter, and what is left. A value that is no string, object or number leaves the array's
-- element as it was, the empty string.
unfoldable pub next_param : Bytes → Bytes × Bytes
next_param [] = ([], [])
next_param (c ∷ cs) =
    let (param, rest) = copy_until is_quote 255 cs in
    if c == b'"'
    then (param, skip_quote rest)
    else if c == b'{'
    then (ascii "{object}", skip_object 1 cs)
    else if (leb b'0' c && leb c b'9') || c == b'-'
    then copy_until ends_value 255 (c ∷ cs)
    else ([], skip_while (λ d. not (ends_value d)) (c ∷ cs))

-- `*pos && *pos != ']'`, and there is room for one more.
unfoldable pub goes_on : ℕ → Bytes → Bool
goes_on zero pos = false
goes_on (suc room) [] = false
goes_on (suc room) (c ∷ cs) = not (c == b']')

unfoldable pub push_param : Bytes → Result (List Bytes) → Result (List Bytes)
push_param param params = params >>= λ ps. ok (param ∷ ps)

-- `room` is `max_params - count`.
unfoldable pub params_loop : ℕ → ℕ → Bytes → Result (List Bytes)
params_loop zero room pos = diverge
params_loop (suc fuel) room pos =
    let p = skip_while is_blank pos in
    let params = push_param (next_param p).0 (params_loop fuel (room - 1) (next_param p).1) in
    if goes_on room pos then (if starts b']' p then ok [] else params) else ok []

unfoldable pub in_array : Bytes → Option Bytes
in_array pos = if starts b'[' pos then some (next pos) else none

-- The text behind `"params": [`.
unfoldable pub find_params : Bytes → Option Bytes
find_params json = elim (find_behind (ascii "\"params\"") json) [
  | none ↦ none
  | some pos ↦ in_array (skip_while is_gap pos)
]

-- Each round takes a character or is the last one, so the length is fuel enough.
unfoldable pub parse_params : Bytes → ℕ → Result (List Bytes)
parse_params json max_params = elim (find_params json) [
  | none ↦ ok []
  | some pos ↦ params_loop (length pos + 2) max_params pos
]
