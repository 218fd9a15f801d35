-- ===== src/Rpc/Node.antt =====
-- What the methods of src/rpc/handlers.c have at hand, and the texts that they answer with.
use evm_db.Prelude.{
  ℕ, ◌+◌, ◌-◌, ◌%◌, ◌^◌, [], ◌∷◌, ◌++◌, Option, none, some, Bool, if◌then◌else◌, length, take,
}
use evm_db.Prelude.Bytes.{Bytes}
use evm_db.Prelude.Text.{ascii}
use evm_db.Core.Hex
use evm_db.Core.Decimal
use evm_db.State.Redis.{Redis}
use evm_db.State.Store.{Blob, get_block_number}
use evm_db.Block.Rlp.Result.{Result}
use evm_db.Block.Tx.{zero20}
use evm_db.Block.Tx.Sign.{Recover}
use evm_db.Evm.Host.{BlockContext, Status, Message, Vm}

-- `struct evmdb_rpc`, with the libraries behind its pointers: Redis, evmone (`vm`, `status_text`, and
-- whether it is there), libsecp256k1 (`context`, `recover`), malloc (`alloc`), what an uninitialised
-- array of 32 bytes holds (`junk`), and the clock (`time` is what time(NULL) returns during the request).
pub record Node : Type 1 where
  pub redis : Redis
  pub alloc : ℕ → Bool
  pub junk : Bytes
  pub vm : Message → Blob → Vm
  pub status_text : Status → Bytes
  pub initialized : Bool
  pub context : Bool
  pub recover : Recover
  pub time : ℕ
  pub chain_id : ℕ
  pub gas_limit : ℕ
  pub base_fee : ℕ

-- The answer to one request: `ok none` is NULL.
abbrev pub Answer : Type 0
Answer = Result (Option Bytes)

-- `snprintf` into `size` characters.
unfoldable pub printed : ℕ → Bytes → Bytes
printed size text = take (size - 1) text

unfoldable pub make_response : (ℕ → Bool) → Bytes → Bytes → Option Bytes
make_response alloc id result =
    let len = (length id + length result + 64) % 2 ^ 64 in
    if alloc len
    then some (
        printed len (
          ascii "{\"jsonrpc\":\"2.0\",\"id\":"
          ++ (id ++ (ascii ",\"result\":" ++ (result ++ ascii "}")))))
    else none

-- All codes are negative: `code` is the number behind the minus sign.
unfoldable pub make_error : (ℕ → Bool) → Bytes → ℕ → Bytes → Option Bytes
make_error alloc id code message =
    let len = (length id + length message + 128) % 2 ^ 64 in
    if alloc len
    then some (
        printed len (
          ascii "{\"jsonrpc\":\"2.0\",\"id\":"
          ++ (id
              ++ (ascii ",\"error\":{\"code\":-"
                  ++ (Decimal.print code
                      ++ (ascii ",\"message\":\"" ++ (message ++ ascii "\"}}")))))))
    else none

-- `snprintf(buf, size, "\"%s\"", text)`.
unfoldable pub quoted : ℕ → Bytes → Bytes
quoted size text = printed size (b'"' ∷ text ++ b'"' ∷ [])

-- What is in a buffer of `size` characters behind `evmdb_hex_from_uint64(value, buffer, size)`.
unfoldable pub number_text : ℕ → ℕ → Bytes
number_text value size = elim (Hex.from_uint64 value size) [ none ↦ [] | some text ↦ text ]

-- The answer with a number.
unfoldable pub number_response : (ℕ → Bool) → Bytes → ℕ → Option Bytes
number_response alloc id value = make_response alloc id (quoted 64 (number_text value 32))

unfoldable pub make_block_context :
    (node : Node) → node.redis.Store → BlockContext × node.redis.Store
make_block_context node s =
    let (block_num, s') = get_block_number node.redis s in
    (
      record {
        number = block_num;
        timestamp = node.time;
        coinbase = zero20;
        gas_limit = node.gas_limit;
        base_fee = node.base_fee;
        chain_id = node.chain_id;
      },
      s',
    )
