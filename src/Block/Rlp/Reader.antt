-- ===== src/Block/Rlp/Reader.antt =====
-- The RLP reader of src/block/tx.c.
-- A pointer is the memory from the place that it points to up to the end of the allocation, so that
-- a read at an offset past its end is a `fault`. `size_t` arithmetic wraps round at 2 ^ 64.
use evm_db.Prelude.{
  ℕ, zero, suc, ◌+◌, ◌-◌, ◌*◌, ◌%◌, ◌^◌, [], ◌∷◌, ◌++◌, Option, none, some, ltb, leb, if◌then◌else◌,
  get_elem?, drop, replicate, min, bit_or,
}
use evm_db.Prelude.Bytes.{Bytes}
use evm_db.Block.Rlp.Result.{Result, ok, err, fault}

-- `rlp_reader_t`: `memory` is what `data` points to.
pub record Reader : Type 0 where
  pub memory : Bytes
  pub pos : ℕ
  pub len : ℕ

-- The `*out_data` and `*out_len` of an item.
pub record Item : Type 0 where
  pub start : Bytes
  pub size : ℕ

abbrev pub size_add : ℕ → ℕ → ℕ
size_add a b = (a + b) % 2 ^ 64

-- The first `n` bytes from a pointer, or `none` if memory ends before.
unfoldable pub read_bytes : ℕ → Bytes → Option Bytes
read_bytes zero memory = some []
read_bytes (suc n) [] = none
read_bytes (suc n) (b ∷ memory) = elim (read_bytes n memory) [
  | none ↦ none
  | some bytes ↦ some (b ∷ bytes)
]

-- `val = (val << 8) | data[i]`.
unfoldable pub be_loop : ℕ → Bytes → ℕ
be_loop val [] = val
be_loop val (b ∷ bs) = be_loop (bit_or (val * 256 % 2 ^ 64) b) bs

-- The item that starts at `pos`, behind which the reader stands.
abbrev pub take_item : Reader → ℕ → Item × Reader
take_item r size =
    (record { start = drop r.pos r.memory; size = size }, record r { pos = size_add r.pos size })

-- A list: the reader stays in front of its contents.
abbrev pub enter_list : Reader → ℕ → Item × Reader
enter_list r size = (record { start = drop r.pos r.memory; size = size }, r)

abbrev pub skip : ℕ → Reader → Reader
skip n r = record r { pos = size_add r.pos n }

-- `if (r->pos + str_len > r->len) return -1;` and the item behind it.
unfoldable pub take_string : Reader → ℕ → Result (Item × Reader)
take_string r str_len = if ltb r.len (size_add r.pos str_len) then err else ok (take_item r str_len)

-- The big-endian length in the `len_bytes` bytes at `pos`.
unfoldable pub take_length :
    Reader → ℕ → (Reader → ℕ → Result (Item × Reader)) → Result (Item × Reader)
take_length r len_bytes next =
    if ltb r.len (size_add r.pos len_bytes)
    then err
    else elim (read_bytes len_bytes (drop r.pos r.memory)) [
      | none ↦ fault
      | some bytes ↦ next (skip len_bytes r) (be_loop 0 bytes)
    ]

unfoldable pub decode_prefix : Reader → ℕ → Result (Item × Reader)
decode_prefix r prefix =
    if leb prefix 0x7f
    then ok (take_item r 1)
    else if leb prefix 0xb7
    then take_string (skip 1 r) (prefix - 0x80)
    else if leb prefix 0xbf
    then take_length (skip 1 r) (prefix - 0xb7) take_string
    else if leb prefix 0xf7
    then ok (enter_list (skip 1 r) (prefix - 0xc0))
    else take_length (skip 1 r) (prefix - 0xf7) (λ r' list_len. ok (enter_list r' list_len))

unfoldable pub decode_item : Reader → Result (Item × Reader)
decode_item r =
    if leb r.len r.pos
    then err
    else elim (get_elem? r.memory r.pos) [ none ↦ fault | some prefix ↦ decode_prefix r prefix ]

-- At most the first eight bytes.
unfoldable pub to_uint64 : Item → Result ℕ
to_uint64 item = elim (read_bytes (min item.size 8) item.start) [
  | none ↦ fault
  | some bytes ↦ ok (be_loop 0 bytes)
]

-- `rlp_to_bytes32` and `rlp_to_address`: at most the first `n` bytes, aligned to the right.
unfoldable pub to_array : ℕ → Item → Result Bytes
to_array n item =
    let len = min item.size n in
    elim (read_bytes len item.start) [
      | none ↦ fault
      | some bytes ↦ ok (replicate (n - len) 0 ++ bytes)
    ]

abbrev pub to_bytes32 : Item → Result Bytes
to_bytes32 = to_array 32

abbrev pub to_address : Item → Result Bytes
to_address = to_array 20
