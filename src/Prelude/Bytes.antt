-- ===== src/Prelude/Bytes.antt =====
-- Byte strings, and the numbers that they stand for in big-endian order.
use Prim.Native.Nat.{ℕ, zero, suc, ◌+◌, ◌*◌, ◌/◌, ◌%◌, ◌^◌, ◌≤◌, ◌<◌}
use Prim.Native.Nat.add
use mathlib.Core.Path.{◌≡◌, refl, sym, ap, ap₂, ◌∙◌}
use mathlib.Core.List.{List, [], ◌∷◌, ◌++◌}
use native.Mathlib.Omega.{arith}
use native.Mathlib.Decide.{dec_lt}
use native.Mathlib.Nat.{pow-suc, div-add-mod', mod-lt, mod-eq_of_lt, mul-add-mod_self_left}
use evm_db.Prelude.Lists.{length, length-append, All, replicate}

abbrev pub Bytes : Type 0
Bytes = List ℕ

abbrev pub IsByte : ℕ → Type 0
IsByte b = b < 256

-- A C array `uint8_t a[n]`.
pub record IsArray (n : ℕ) (a : Bytes) : Type 0 where
  pub size : length a ≡ n
  pub bytes : All IsByte a

-- The big-endian value of a byte string.
abbrev pub be_value : Bytes → ℕ
be_value [] = 0
be_value (x ∷ xs) = x * 256 ^ length xs + be_value xs

pub pow_byte : (n : ℕ) → 256 ^ suc n ≡ 256 * 256 ^ n
pow_byte n = omega (arith, pow-suc 256 n)

pub mul_pow_byte : (x n : ℕ) → x * 256 ^ suc n ≡ 256 * (x * 256 ^ n)
mul_pow_byte x n = omega (arith, ap (λ (t : ℕ). x * t) (pow_byte n))

pub top_byte : (x p : ℕ) → x < 256 → x * p + p ≤ 256 * p
top_byte x p h = grind arith

pub be_value-lt : (xs : Bytes) → All IsByte xs → be_value xs < 256 ^ length xs
be_value-lt [] h = omega arith
be_value-lt (x ∷ xs) (hx, h) =
    omega (arith, be_value-lt xs h, top_byte x (256 ^ length xs) hx, pow_byte (length xs))

pow_byte-add : (m n : ℕ) → 256 ^ (m + n) ≡ 256 ^ m * 256 ^ n
pow_byte-add zero n = rw add.zero (omega arith)
pow_byte-add (suc m) n = omega (
  arith,
  ap (λ (k : ℕ). 256 ^ k) (add.suc m n),
  pow_byte (m + n),
  pow_byte-add m n,
  ap (λ (t : ℕ). t * 256 ^ n) (pow_byte m),
)

pub be_value-append :
    (xs ys : Bytes) → be_value (xs ++ ys) ≡ be_value xs * 256 ^ length ys + be_value ys
be_value-append [] ys = omega arith
be_value-append (x ∷ xs) ys = ground (
  arith,
  be_value-append xs ys,
  ap (λ (n : ℕ). x * 256 ^ n) (length-append xs ys),
  ap (λ (t : ℕ). x * t) (pow_byte-add (length xs) (length ys)),
)

pub be_value-zeros : (n : ℕ) → be_value (replicate n 0) ≡ 0
be_value-zeros zero = refl
be_value-zeros (suc n) = omega (arith, be_value-zeros n)

pub be_value-pad : (n : ℕ) (xs : Bytes) → be_value (replicate n 0 ++ xs) ≡ be_value xs
be_value-pad zero xs = refl
be_value-pad (suc n) xs = omega (arith, be_value-pad n xs)

pub next_multiple : (x y p : ℕ) → x < y → x * p + p ≤ y * p
next_multiple x y p h = grind arith

digits_unique : (x y p a b : ℕ) → a < p → b < p → x * p + a ≡ y * p + b → (x ≡ y) × (a ≡ b)
digits_unique x y p a b ha hb e = elim (dec_lt x y) [
  | yes h ↦ absurd (omega (arith, next_multiple x y p h))
  | no h ↦ elim (dec_lt y x) [
    | yes k ↦ absurd (omega (arith, next_multiple y x p k))
    | no k ↦ let same : x ≡ y = omega arith in (same, omega (arith, ap (λ (t : ℕ). t * p) same))
  ]
]

-- A byte string of a known length is determined by its value.
pub be_value-injective :
    (xs ys : Bytes)
    → length xs ≡ length ys
    → All IsByte xs
    → All IsByte ys
    → be_value xs ≡ be_value ys
    → xs ≡ ys
be_value-injective [] [] e hx hy v = refl
be_value-injective [] (y ∷ ys) e hx hy v = absurd (omega arith)
be_value-injective (x ∷ xs) [] e hx hy v = absurd (omega arith)
be_value-injective (x ∷ xs) (y ∷ ys) e (hx, hxs) (hy, hys) v =
    let same : length xs ≡ length ys = omega arith in
    let (top, low) =
      digits_unique x y (256 ^ length xs) (be_value xs) (be_value ys) (be_value-lt xs hxs)
        (rw same (be_value-lt ys hys)) (v ∙ ap (λ n. y * 256 ^ n + be_value ys) (sym same)) in
    ap₂ ◌∷◌ top (be_value-injective xs ys same hxs hys low)

pub one-le-pow_byte : (n : ℕ) → 1 ≤ 256 ^ n
one-le-pow_byte zero = omega arith
one-le-pow_byte (suc n) = omega (arith, pow_byte n, one-le-pow_byte n)

-- The digit of weight `p` in front of the digits below it.
pub mod_split : (v p : ℕ) → 1 ≤ p → v % (256 * p) ≡ v / p % 256 * p + v % p
mod_split v p h =
    let q : ℕ = v / p / 256 in
    let low : ℕ = v / p % 256 * p + v % p in
    let shape : v ≡ 256 * p * q + low =
      omega (arith, div-add-mod' v p, ap (λ (t : ℕ). t * p) (div-add-mod' (v / p) 256)) in
    let small : low < 256 * p = omega (arith, mod-lt v h, top_byte (v / p % 256) p (omega arith)) in
    ap (λ (t : ℕ). t % (256 * p)) shape ∙ mul-add-mod_self_left (256 * p) q low ∙ mod-eq_of_lt small

pub IsArray-lt : {n : ℕ} (xs : Bytes) → IsArray n xs → be_value xs < 256 ^ n
IsArray-lt xs h = omega (arith, be_value-lt xs h.bytes, ap (λ (k : ℕ). 256 ^ k) h.size)

pub IsArray-injective :
    {n : ℕ} (xs ys : Bytes) → IsArray n xs → IsArray n ys → be_value xs ≡ be_value ys → xs ≡ ys
IsArray-injective xs ys hx hy = be_value-injective xs ys (hx.size ∙ sym hy.size) hx.bytes hy.bytes
