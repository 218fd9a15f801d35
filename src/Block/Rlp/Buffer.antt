-- ===== src/Block/Rlp/Buffer.antt =====
-- The growing buffer and the RLP writer of src/block/tx.c.
-- `alloc n` says whether `realloc` to `n` bytes succeeds. `&&` and `||` over the return values are
-- the sequence of the calls: the first that fails ends it.
use evm_db.Prelude.{
  ℕ, zero, suc, ◌+◌, ◌*◌, ◌/◌, ◌%◌, ◌^◌, [], ◌∷◌, ◌++◌, Bool, ltb, leb, ◌==◌, if◌then◌else◌, length,
  bit_and,
}
use evm_db.Prelude.Bytes.{Bytes}
use evm_db.Block.Rlp.Result.{Result, ok, err, diverge, ◌>>=◌}

-- `rlp_buffer_t`: `len` is the length of `bytes`.
pub record Buffer : Type 0 where
  pub bytes : Bytes
  pub cap : ℕ

abbrev pub empty : Buffer
empty = record { bytes = []; cap = 0 }

-- The bytes of `value` from the lowest on, written in front of `bytes`, while value > 0. A 64-bit
-- value has eight at most.
unfoldable pub minimal_bytes : ℕ → ℕ → Bytes → Bytes
minimal_bytes zero value bytes = bytes
minimal_bytes (suc fuel) value bytes =
    let longer = minimal_bytes fuel (value / 256) (bit_and value 255 ∷ bytes) in
    if value == 0 then bytes else longer

-- `while (new_cap < needed) new_cap *= 2;`. Where `new_cap` has wrapped round to 0 it stays 0.
unfoldable pub grow : ℕ → ℕ → ℕ → Result ℕ
grow zero new_cap needed = if ltb new_cap needed then diverge else ok new_cap
grow (suc fuel) new_cap needed =
    let more = grow fuel (new_cap * 2 % 2 ^ 64) needed in
    if ltb new_cap needed then more else ok new_cap

infixl 6 ◌⨾◌
abbrev pub ◌⨾◌ : (Buffer → Result Buffer) → (Buffer → Result Buffer) → Buffer → Result Buffer
◌⨾◌ m n buf = m buf >>= n

-- The leading zeros of a 32-byte value are skipped.
unfoldable pub strip_zeros : Bytes → Bytes
strip_zeros [] = []
strip_zeros (b ∷ bs) = let rest = strip_zeros bs in if b == 0 then rest else b ∷ bs

module _ (alloc : ℕ → Bool) where
  unfoldable pub resize : Buffer → ℕ → Result Buffer
  resize buf new_cap = if alloc new_cap then ok (record buf { cap = new_cap }) else err

  unfoldable pub reserve : ℕ → Buffer → Result Buffer
  reserve additional buf =
      let needed = (length buf.bytes + additional) % 2 ^ 64 in
      if leb needed buf.cap
      then ok buf
      else grow 64 (if buf.cap == 0 then 64 else buf.cap) needed >>= resize buf

  unfoldable pub append : Bytes → Buffer → Result Buffer
  append bytes buf = do
    buf' ← reserve (length bytes) buf
    ok (record buf' { bytes = buf'.bytes ++ bytes })

  unfoldable pub append_byte : ℕ → Buffer → Result Buffer
  append_byte value = append (value ∷ [])

  unfoldable pub append_length : ℕ → ℕ → ℕ → Buffer → Result Buffer
  append_length len short_base long_base =
      let len_bytes = minimal_bytes 8 len [] in
      if leb len 55
      then append_byte ((short_base + len) % 256)
      else (append_byte ((long_base + length len_bytes) % 256) ⨾ append len_bytes)

  unfoldable pub append_string : Bytes → Buffer → Result Buffer
  append_string bytes = append_length (length bytes) 0x80 0xb7 ⨾ append bytes

  -- `rlp_append_bytes`: a single byte below 0x80 is its own code.
  unfoldable pub append_bytes : Bytes → Buffer → Result Buffer
  append_bytes (b ∷ []) = if leb b 0x7f then append_byte b else append_string (b ∷ [])
  append_bytes bytes = append_string bytes

  unfoldable pub append_uint64 : ℕ → Buffer → Result Buffer
  append_uint64 value =
      if value == 0 then append_bytes [] else append_bytes (minimal_bytes 8 value [])

  unfoldable pub append_bytes32 : Bytes → Buffer → Result Buffer
  append_bytes32 value = append_bytes (strip_zeros value)

  unfoldable pub append_address : Bytes → Bool → Buffer → Result Buffer
  append_address addr is_null = if is_null then append_bytes [] else append_bytes addr

  unfoldable pub append_empty_list : Buffer → Result Buffer
  append_empty_list = append_byte 0xc0

  unfoldable pub wrap_list : Buffer → Buffer → Result Buffer
  wrap_list payload = append_length (length payload.bytes) 0xc0 0xf7 ⨾ append payload.bytes
