-- ===== src/Core/Decimal.antt =====
-- Decimal numbers as the C library prints and reads them for redis_state.c: `%llu` and
-- `strtoull(text, NULL, 10)`.
use evm_db.Prelude.{
  ℕ, zero, suc, ◌+◌, ◌-◌, ◌*◌, ◌/◌, ◌%◌, ◌^◌, ◌≤◌, ◌<◌, ◌≡◌, refl, ◌∙◌, [], ◌∷◌, ◌++◌, Bool, ◌&&◌,
  ◌||◌, min, ltb, leb, ◌==◌, if◌then◌else◌, All, All-append, Bool-cases, inl, inr, arith,
}
use native.Mathlib.Nat.{pow-suc}
use evm_db.Prelude.Bytes.{Bytes}

-- The digits of a number below 10 ^ fuel, and nothing for 0.
unfoldable pub digits : ℕ → ℕ → Bytes
digits zero v = []
digits (suc fuel) v =
    let front = digits fuel (v / 10) in if v == 0 then [] else front ++ (b'0' + v % 10) ∷ []

-- `%llu`: a uint64_t has twenty digits at most.
unfoldable pub print : ℕ → Bytes
print v = if v == 0 then b'0' ∷ [] else digits 20 v

unfoldable pub is_digit : ℕ → Bool
is_digit c = leb b'0' c && leb c b'9'

-- The digits up to the first other character.
unfoldable pub read_digits : ℕ → Bytes → ℕ
read_digits val [] = val
read_digits val (c ∷ cs) =
    let rest = read_digits (val * 10 + (c - b'0')) cs in if is_digit c then rest else val

unfoldable pub is_space : ℕ → Bool
is_space c = c == b' ' || (leb 9 c && leb c 13)

unfoldable pub skip_spaces : Bytes → Bytes
skip_spaces [] = []
skip_spaces (c ∷ cs) = let rest = skip_spaces cs in if is_space c then rest else c ∷ cs

-- A value above ULLONG_MAX gives ULLONG_MAX; a minus sign negates modulo 2 ^ 64.
unfoldable pub saturated : ℕ → ℕ
saturated val = if ltb val (2 ^ 64) then val else 2 ^ 64 - 1

unfoldable pub negated : ℕ → ℕ
negated val = if ltb val (2 ^ 64) then (2 ^ 64 - val) % 2 ^ 64 else 2 ^ 64 - 1

unfoldable pub signed : Bytes → ℕ
signed [] = 0
signed (c ∷ cs) =
    if c == b'-'
    then negated (read_digits 0 cs)
    else if c == b'+'
    then saturated (read_digits 0 cs)
    else saturated (read_digits 0 (c ∷ cs))

unfoldable pub strtoull : Bytes → ℕ
strtoull text = signed (skip_spaces text)

-- `(size_t)atol(text)`, as for `atoll`: LONG_MAX and LONG_MIN where the value does not fit.
unfoldable pub signed_long : Bytes → ℕ
signed_long [] = 0
signed_long (c ∷ cs) =
    if c == b'-'
    then (2 ^ 64 - min (2 ^ 63) (read_digits 0 cs)) % 2 ^ 64
    else if c == b'+'
    then min (2 ^ 63 - 1) (read_digits 0 cs)
    else min (2 ^ 63 - 1) (read_digits 0 (c ∷ cs))

unfoldable pub atol : Bytes → ℕ
atol text = signed_long (skip_spaces text)

abbrev pub IsDigit : ℕ → Type 0
IsDigit c = (b'0' ≤ c) × (c ≤ b'9')

pub digits-IsDigit : (fuel v : ℕ) → All IsDigit (digits fuel v)
unfolding digits
digits-IsDigit zero v = tt
digits-IsDigit (suc fuel) v = elim (Bool-cases (v == 0)) [
  | inl e ↦ rw e tt
  | inr e ↦ rw e (
      All-append IsDigit (digits fuel (v / 10)) ((b'0' + v % 10) ∷ [])
        (digits-IsDigit fuel (v / 10)) ((omega arith, omega arith), tt))
]

read_digits_last :
    (cs : Bytes) (val d : ℕ)
    → All IsDigit cs
    → d < 10
    → read_digits val (cs ++ (b'0' + d) ∷ []) ≡ read_digits val cs * 10 + d
unfolding read_digits is_digit
read_digits_last [] val d h k = ground arith
read_digits_last (c ∷ cs) val d ((lo, hi), h) k =
    ground (arith, read_digits_last cs (val * 10 + (c - b'0')) d h k)

read_digits-digits : (fuel v : ℕ) → v < 10 ^ fuel → read_digits 0 (digits fuel v) ≡ v
unfolding digits
read_digits-digits zero v h = unfold read_digits in omega arith
read_digits-digits (suc fuel) v h = elim (Bool-cases (v == 0)) [
  | inl e ↦ rw e (unfold read_digits in ground arith)
  | inr e ↦ rw e (
      omega (
        arith,
        read_digits_last (digits fuel (v / 10)) 0 (v % 10) (digits-IsDigit fuel (v / 10))
            (omega arith),
        read_digits-digits fuel (v / 10) (omega (arith, pow-suc 10 fuel)),
      ))
]

-- In front of a row of digits there is no space and no sign.
strtoull_digits :
    (cs : Bytes) → All IsDigit cs → read_digits 0 cs < 2 ^ 64 → strtoull cs ≡ read_digits 0 cs
unfolding strtoull signed skip_spaces is_space saturated
strtoull_digits [] h fits = unfold read_digits in refl
strtoull_digits (c ∷ cs) ((lo, hi), h) fits = ground arith

-- Every uint64_t is read back as it was printed.
pub strtoull-print : (v : ℕ) → v < 2 ^ 64 → strtoull (print v) ≡ v
unfolding print
strtoull-print v h = elim (Bool-cases (v == 0)) [
  | inl e ↦
      rw e
        (unfold strtoull signed skip_spaces is_space saturated read_digits is_digit in ground arith)
  | inr e ↦
      let value = read_digits-digits 20 v (omega arith) in
      rw e (strtoull_digits (digits 20 v) (digits-IsDigit 20 v) (omega (arith, value)) ∙ value)
]
