-- ===== src/Core/Hex.antt =====
-- Hexadecimal text: src/core/hex.c.
-- A C string is the list of its characters in front of the terminating NUL. A buffer that the
-- caller passes in is an argument, and what it holds afterwards is a result.
pub mod Digits
pub mod Decode
pub mod Words
use evm_db.Prelude.{
  ℕ, zero, suc, ◌+◌, ◌-◌, ◌*◌, ◌/◌, ◌%◌, ◌^◌, [], ◌∷◌, ◌++◌, Option, none, some, Bool, true, false,
  ◌&&◌, ◌||◌, ltb, leb, ◌==◌, if◌then◌else◌, length, get_or, bit_and, bit_or,
}
use evm_db.Prelude.Bytes.{Bytes}

abbrev pub hex_chars : Bytes
hex_chars =
    b'0' ∷ b'1' ∷ b'2' ∷ b'3' ∷ b'4' ∷ b'5' ∷ b'6' ∷ b'7' ∷ b'8' ∷ b'9' ∷ b'a' ∷ b'b' ∷ b'c' ∷ b'd'
    ∷ b'e' ∷ b'f' ∷ []

-- `hex_chars[d]` for d below 16.
unfoldable pub hex_char : ℕ → ℕ
hex_char d = get_or hex_chars d 0

unfoldable pub hex_pairs : Bytes → Bytes
hex_pairs [] = []
hex_pairs (b ∷ bs) = hex_char (bit_and (b / 16) 15) ∷ hex_char (bit_and b 15) ∷ hex_pairs bs

-- `none` is the return value -1; the buffer is written only if that is not returned.
unfoldable pub encode : Bytes → ℕ → Option Bytes
encode bytes out_len =
    if ltb out_len ((length bytes * 2 + 3) % 2 ^ 64)
    then none
    else some (b'0' ∷ b'x' ∷ hex_pairs bytes)

-- `none` is the return value -1.
unfoldable pub hex_char_val : ℕ → Option ℕ
hex_char_val c =
    if leb b'0' c && leb c b'9'
    then some (c - b'0')
    else if leb b'a' c && leb c b'f'
    then some (c - b'a' + 10)
    else if leb b'A' c && leb c b'F'
    then some (c - b'A' + 10)
    else none

unfoldable pub skip_prefix : Bytes → Bytes
skip_prefix (a ∷ b ∷ cs) = if a == b'0' && (b == b'x' || b == b'X') then cs else a ∷ b ∷ cs
skip_prefix cs = cs

-- The loop over the pairs of digits. It writes `out` as it goes: on a bad digit the bytes in front
-- of that pair are written already.
unfoldable pub decode_loop : Bytes → Bytes → Bool × Bytes
decode_loop (h ∷ l ∷ cs) (o ∷ out) =
    let (ok, rest) = decode_loop cs out in
    elim (hex_char_val h) [
      | none ↦ (false, o ∷ out)
      | some hi ↦ elim (hex_char_val l) [
        | none ↦ (false, o ∷ out)
        | some lo ↦ (ok, (bit_or (hi * 16) lo % 256) ∷ rest)
      ]
    ]
decode_loop cs out = (true, out)

-- `decode (some hex) out` returns the number of bytes written, or `none` for -1, and the buffer.
-- `out_len` is the length of the buffer.
unfoldable pub decode : Option Bytes → Bytes → Option ℕ × Bytes
decode none out = (none, out)
decode (some hex) out =
    let digits = skip_prefix hex in
    let byte_len = length digits / 2 in
    let (ok, out') = decode_loop digits out in
    if length digits % 2 == 0
    then (if ltb (length out) byte_len
        then (none, out)
        else if ok
        then (some byte_len, out')
        else (none, out'))
    else (none, out)

-- `%llx`: the digits of a number below 16 ^ fuel, the highest first, and nothing for 0.
unfoldable pub print_hex : ℕ → ℕ → Bytes
print_hex zero v = []
print_hex (suc fuel) v =
    let front = print_hex fuel (v / 16) in if v == 0 then [] else front ++ (hex_char (v % 16) ∷ [])

-- `none` is -1. A uint64_t has 16 hexadecimal digits at most, so the 19 bytes of `buf` hold its
-- text.
unfoldable pub from_uint64 : ℕ → ℕ → Option Bytes
from_uint64 val out_len =
    if val == 0
    then (if ltb out_len 4 then none else some (b'0' ∷ b'x' ∷ b'0' ∷ []))
    else (let text = b'0' ∷ b'x' ∷ print_hex 16 val in
        if leb out_len (length text) then none else some text)

-- `*out = (*out << 4) | v` for each character; a bad character stops with what was read so far.
unfoldable pub to_uint64_loop : Bytes → ℕ → Bool × ℕ
to_uint64_loop [] out = (true, out)
to_uint64_loop (c ∷ cs) out = elim (hex_char_val c) [
  | none ↦ (false, out)
  | some v ↦ to_uint64_loop cs (bit_or (out * 16 % 2 ^ 64) v)
]

-- The return value (`false` for -1) and `*out`, which starts as `out`.
unfoldable pub to_uint64 : Option Bytes → ℕ → Bool × ℕ
to_uint64 none out = (false, out)
to_uint64 (some hex) out = to_uint64_loop (skip_prefix hex) 0
