-- ===== src/Core/Radix.antt =====
-- `strtoull(text, NULL, 0)` of the C library: hexadecimal behind 0x, octal behind 0, and decimal.
use evm_db.Prelude.{ℕ, ◌+◌, ◌*◌, [], ◌∷◌, none, some, ltb, ◌&&◌, ◌||◌, ◌==◌, if◌then◌else◌}
use evm_db.Prelude.Bytes.{Bytes}
use evm_db.Core.Hex.{hex_char_val}
use evm_db.Core.Decimal.{skip_spaces, saturated, negated}

-- The digits up to the first character that is none.
unfoldable pub read_radix : ℕ → ℕ → Bytes → ℕ
read_radix base val [] = val
read_radix base val (c ∷ cs) = elim (hex_char_val c) [
  | none ↦ val
  | some d ↦ if ltb d base then read_radix base (val * base + d) cs else val
]

unfoldable pub read_any : Bytes → ℕ
read_any (a ∷ b ∷ cs) =
    if a == b'0' && (b == b'x' || b == b'X')
    then read_radix 16 0 cs
    else read_radix (if a == b'0' then 8 else 10) 0 (a ∷ b ∷ cs)
read_any cs = read_radix 10 0 cs

unfoldable pub signed_any : Bytes → ℕ
signed_any [] = 0
signed_any (c ∷ cs) =
    if c == b'-'
    then negated (read_any cs)
    else if c == b'+'
    then saturated (read_any cs)
    else saturated (read_any (c ∷ cs))

unfoldable pub strtoull_any : Bytes → ℕ
strtoull_any text = signed_any (skip_spaces text)
