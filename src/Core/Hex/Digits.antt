-- ===== src/Core/Hex/Digits.antt =====
-- One hexadecimal digit, and one byte as two of them.
use evm_db.Prelude.{ℕ, ◌*◌, ◌/◌, ◌%◌, ◌<◌, ◌≡◌, refl, [], ◌∷◌, some, length, bit_and, arith}
use evm_db.Prelude.Bits.{bit_and_nibble, bit_or_nibble}
use evm_db.Prelude.Bytes.{Bytes}
use evm_db.Core.Hex.{hex_char, hex_char_val, hex_pairs, decode_loop}

pub hex_char_val-hex_char : (d : ℕ) → d < 16 → hex_char_val (hex_char d) ≡ some d
unfolding hex_char_val hex_char
hex_char_val-hex_char d h = ground arith

pub hex_char_val-lt : (c d : ℕ) → hex_char_val c ≡ some d → d < 16
unfolding hex_char_val
hex_char_val-lt c d h = ground arith

pub length-hex_pairs : (bs : Bytes) → length (hex_pairs bs) ≡ length bs * 2
unfolding hex_pairs
length-hex_pairs [] = refl
length-hex_pairs (b ∷ bs) = omega (arith, length-hex_pairs bs)

-- The two digits of a byte, read back.
pub decode_loop-digits :
    (b o : ℕ) (cs out : Bytes)
    → b < 256
    → decode_loop (hex_char (bit_and (b / 16) 15) ∷ hex_char (bit_and b 15) ∷ cs) (o ∷ out)
      ≡ ((decode_loop cs out).0, b ∷ (decode_loop cs out).1)
unfolding decode_loop
decode_loop-digits b o cs out h = ground (
  arith,
  bit_and_nibble (b / 16),
  bit_and_nibble b,
  hex_char_val-hex_char (b / 16 % 16) (omega arith),
  hex_char_val-hex_char (b % 16) (omega arith),
  bit_or_nibble (b / 16 % 16) (b % 16) (omega arith),
)
