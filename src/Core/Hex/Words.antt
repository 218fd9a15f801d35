-- ===== src/Core/Hex/Words.antt =====
-- Numbers as hexadecimal text: `from_uint64` and `to_uint64` of hex.c.
use evm_db.Prelude.{
  ℕ, zero, suc, ◌+◌, ◌*◌, ◌/◌, ◌%◌, ◌^◌, ◌≤◌, ◌<◌, ◌≡◌, refl, sym, ap, ◌∙◌, [], ◌∷◌, ◌++◌, none,
  some, true, ◌==◌, length, length-append, All, All-append, arith, Bool-cases, inl, inr, bit_or,
}
use evm_db.Prelude.Bits.{bit_or_nibble}
use evm_db.Prelude.Bytes.{Bytes}
use native.Mathlib.Nat.{pow-suc, mod-eq_of_lt}
use evm_db.Core.Hex.{
  hex_char, hex_char_val, print_hex, from_uint64, to_uint64_loop, to_uint64, skip_prefix,
}
use evm_db.Core.Hex.Digits.{hex_char_val-hex_char, hex_char_val-lt}

-- A character that is a digit, with its value.
abbrev pub IsHexDigit : ℕ → Type 0
IsHexDigit c = (d : ℕ) × (hex_char_val c ≡ some d)

unfoldable pub digit : ℕ → ℕ
digit c = elim (hex_char_val c) [ none ↦ 0 | some d ↦ d ]

-- The number that a row of digits stands for, behind `acc`.
unfoldable pub hex_value : ℕ → Bytes → ℕ
unfolding digit
hex_value acc [] = acc
hex_value acc (c ∷ cs) = hex_value (acc * 16 + digit c) cs

push_digit : (acc d : ℕ) → d < 16 → bit_or (acc % 2 ^ 64 * 16 % 2 ^ 64) d ≡ (acc * 16 + d) % 2 ^ 64
push_digit acc d h =
    let shifted : acc % 2 ^ 64 * 16 % 2 ^ 64 ≡ acc % 2 ^ 60 * 16 = omega arith in
    ap (λ (x : ℕ). bit_or x d) shifted ∙ bit_or_nibble (acc % 2 ^ 60) d h ∙ omega arith

pub digit_lem : (c d : ℕ) → hex_char_val c ≡ some d → digit c ≡ d
unfolding digit
digit_lem c d e = rw (e, digit)

to_uint64_loop-hex_value :
    (cs : Bytes) (acc : ℕ)
    → All IsHexDigit cs
    → to_uint64_loop cs (acc % 2 ^ 64) ≡ (true, hex_value acc cs % 2 ^ 64)
unfolding to_uint64_loop hex_value
to_uint64_loop-hex_value [] acc h = refl
to_uint64_loop-hex_value (c ∷ cs) acc ((d, e), h) =
    rw (e, to_uint64_loop)
      (rw (push_digit acc d (hex_char_val-lt c d e)) (
        rw (to_uint64_loop-hex_value cs (acc * 16 + d) h)
          (ap (λ x. (true, hex_value (acc * 16 + x) cs % 2 ^ 64)) (sym (digit_lem c d e)))))

-- On digits behind any prefix `to_uint64` succeeds. It reads the number modulo 2 ^ 64: more than
-- sixteen digits are accepted, and the upper ones are lost.
pub to_uint64-hex_value :
    (hex : Bytes) (out : ℕ)
    → All IsHexDigit (skip_prefix hex)
    → to_uint64 (some hex) out ≡ (true, hex_value 0 (skip_prefix hex) % 2 ^ 64)
unfolding to_uint64
to_uint64-hex_value hex out h = to_uint64_loop-hex_value (skip_prefix hex) 0 h

hex_value-append :
    (acc : ℕ) (xs ys : Bytes) → hex_value acc (xs ++ ys) ≡ hex_value (hex_value acc xs) ys
unfolding hex_value
hex_value-append acc [] ys = refl
hex_value-append acc (x ∷ xs) ys = hex_value-append (acc * 16 + digit x) xs ys

hex_char-IsHexDigit : (d : ℕ) → d < 16 → IsHexDigit (hex_char d)
hex_char-IsHexDigit d h = (d, hex_char_val-hex_char d h)

print_hex-IsHexDigit : (fuel v : ℕ) → All IsHexDigit (print_hex fuel v)
unfolding print_hex
print_hex-IsHexDigit zero v = tt
print_hex-IsHexDigit (suc fuel) v = elim (Bool-cases (v == 0)) [
  | inl e ↦ rw e tt
  | inr e ↦ rw e (
      All-append IsHexDigit (print_hex fuel (v / 16)) (hex_char (v % 16) ∷ [])
        (print_hex-IsHexDigit fuel (v / 16)) (hex_char-IsHexDigit (v % 16) (omega arith), tt))
]

hex_value_last :
    (xs : Bytes) (d : ℕ) → d < 16 → hex_value 0 (xs ++ hex_char d ∷ []) ≡ hex_value 0 xs * 16 + d
hex_value_last xs d h =
    hex_value-append 0 xs (hex_char d ∷ [])
    ∙ unfold hex_value in
      ap (λ x. hex_value 0 xs * 16 + x) (digit_lem (hex_char d) d (hex_char_val-hex_char d h))

-- With enough digits for the number, printing loses nothing.
hex_value-print_hex : (fuel v : ℕ) → v < 16 ^ fuel → hex_value 0 (print_hex fuel v) ≡ v
unfolding print_hex
hex_value-print_hex zero v h = unfold hex_value in omega arith
hex_value-print_hex (suc fuel) v h = elim (Bool-cases (v == 0)) [
  | inl e ↦ rw e (unfold hex_value in ground arith)
  | inr e ↦ rw e (
      omega (
        arith,
        hex_value_last (print_hex fuel (v / 16)) (v % 16) (omega arith),
        hex_value-print_hex fuel (v / 16) (omega (arith, pow-suc 16 fuel)),
      ))
]

length-print_hex : (fuel v : ℕ) → length (print_hex fuel v) ≤ fuel
unfolding print_hex
length-print_hex zero v = omega arith
length-print_hex (suc fuel) v = ground (
  arith,
  length-print_hex fuel (v / 16),
  length-append (print_hex fuel (v / 16)) (hex_char (v % 16) ∷ []),
)

-- Every uint64_t is printed into a buffer of 19 characters, and is read back as it was.
pub to_uint64-from_uint64 :
    (v n out : ℕ)
    → v < 2 ^ 64
    → 19 ≤ n
    → (text : Bytes) × (from_uint64 v n ≡ some text) × (to_uint64 (some text) out ≡ (true, v))
to_uint64-from_uint64 v n out h room = elim (Bool-cases (v == 0)) [
  | inl e ↦ (
    b'0' ∷ b'x' ∷ b'0' ∷ [],
    unfold from_uint64 in ground arith,
    unfold to_uint64 to_uint64_loop skip_prefix hex_char_val in ground arith,
  )
  | inr e ↦ (
    b'0' ∷ b'x' ∷ print_hex 16 v,
    unfold from_uint64 in ground (arith, length-print_hex 16 v),
    unfold skip_prefix in
        to_uint64-hex_value (b'0' ∷ b'x' ∷ print_hex 16 v) out (print_hex-IsHexDigit 16 v)
        ∙ ap (λ x. (true, x % 2 ^ 64)) (hex_value-print_hex 16 v (omega arith))
        ∙ ap (λ x. (true, x)) (mod-eq_of_lt h),
  )
]
