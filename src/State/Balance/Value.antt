-- ===== src/State/Balance/Value.antt =====
-- The loops of accounts.c read as arithmetic on big-endian values.
use evm_db.Prelude.{
  ℕ, zero, suc, ◌+◌, ◌*◌, ◌%◌, ◌^◌, ◌≤◌, ◌<◌, ◌≡◌, refl, sym, ap, [], ◌∷◌, length, All, arith,
}
use evm_db.Prelude.Bits.{bit_and_byte}
use evm_db.Prelude.Bytes.{
  Bytes, IsByte, be_value, pow_byte, mul_pow_byte, one-le-pow_byte, mod_split,
}
use evm_db.State.Balance.{sub_byte, sub_loop, add_byte, add_loop, low_bytes}

sub_byte_value :
    (a b c : ℕ)
    → a < 256
    → b < 256
    → c ≤ 1
    → ((sub_byte a b c).0 + b + c ≡ a + (sub_byte a b c).1 * 256)
      × ((sub_byte a b c).0 < 256)
      × ((sub_byte a b c).1 ≤ 1)
unfolding sub_byte
sub_byte_value a b c ha hb hc = ground arith

-- What the subtraction loop leaves: digits of the same number, and a borrow of its weight.
pub record Subtracts (xs ys : Bytes) (out : Bytes) (borrow : ℕ) : Type 0 where
  pub size : length out ≡ length xs
  pub bytes : All IsByte out
  pub bit : borrow ≤ 1
  pub value : be_value out + be_value ys ≡ be_value xs + borrow * 256 ^ length xs

scaled : (d b c a e p : ℕ) → d + b + c ≡ a + e * 256 → d * p + b * p + c * p ≡ a * p + e * (256 * p)
scaled d b c a e p h = omega (arith, ap (λ (t : ℕ). t * p) h)

pub sub_loop-Subtracts :
    (xs ys : Bytes)
    → length xs ≡ length ys
    → All IsByte xs
    → All IsByte ys
    → Subtracts xs ys (sub_loop xs ys).0 (sub_loop xs ys).1
unfolding sub_loop
sub_loop-Subtracts [] [] e hx hy = record {
  size = refl;
  bytes = tt;
  bit = omega arith;
  value = refl;
}
sub_loop-Subtracts [] (y ∷ ys) e hx hy = absurd (omega arith)
sub_loop-Subtracts (x ∷ xs) [] e hx hy = absurd (omega arith)
sub_loop-Subtracts (x ∷ xs) (y ∷ ys) e (hx, hxs) (hy, hys) =
    let same : length ys ≡ length xs = omega arith in
    let ih = sub_loop-Subtracts xs ys (omega arith) hxs hys in
    let (v, lt, bit) = sub_byte_value x y (sub_loop xs ys).1 hx hy ih.bit in
    record {
      size = omega (arith, ih.size);
      bytes = (lt, ih.bytes);
      bit = bit;
      value =
          let n : ℕ = length xs in
          let c : ℕ = (sub_loop xs ys).1 in
          let d : ℕ = (sub_byte x y c).0 in
          let c' : ℕ = (sub_byte x y c).1 in
          omega (
            arith,
            ih.value,
            ap (λ (k : ℕ). d * 256 ^ k) ih.size,
            ap (λ (k : ℕ). y * 256 ^ k) same,
            scaled d y c x c' (256 ^ n) v,
            mul_pow_byte c' n,
          );
    }

add_byte_value :
    (a b c : ℕ)
    → a < 256
    → b < 256
    → c ≤ 1
    → (a + b + c ≡ (add_byte a b c).0 + (add_byte a b c).1 * 256)
      × ((add_byte a b c).0 < 256)
      × ((add_byte a b c).1 ≤ 1)
unfolding add_byte
add_byte_value a b c ha hb hc = rw bit_and_byte (omega arith, omega arith, omega arith)

-- What the addition loop leaves: digits of the same number, and a carry of its weight.
pub record Adds (xs ys : Bytes) (out : Bytes) (carry : ℕ) : Type 0 where
  pub size : length out ≡ length xs
  pub bytes : All IsByte out
  pub bit : carry ≤ 1
  pub value : be_value xs + be_value ys ≡ be_value out + carry * 256 ^ length xs

pub add_loop-Adds :
    (xs ys : Bytes)
    → length xs ≡ length ys
    → All IsByte xs
    → All IsByte ys
    → Adds xs ys (add_loop xs ys).0 (add_loop xs ys).1
unfolding add_loop
add_loop-Adds [] [] e hx hy = record { size = refl; bytes = tt; bit = omega arith; value = refl }
add_loop-Adds [] (y ∷ ys) e hx hy = absurd (omega arith)
add_loop-Adds (x ∷ xs) [] e hx hy = absurd (omega arith)
add_loop-Adds (x ∷ xs) (y ∷ ys) e (hx, hxs) (hy, hys) =
    let same : length ys ≡ length xs = omega arith in
    let ih = add_loop-Adds xs ys (omega arith) hxs hys in
    let (v, lt, bit) = add_byte_value x y (add_loop xs ys).1 hx hy ih.bit in
    record {
      size = omega (arith, ih.size);
      bytes = (lt, ih.bytes);
      bit = bit;
      value =
          let n : ℕ = length xs in
          let c : ℕ = (add_loop xs ys).1 in
          let d : ℕ = (add_byte x y c).0 in
          let c' : ℕ = (add_byte x y c).1 in
          omega (
            arith,
            ih.value,
            ap (λ (k : ℕ). d * 256 ^ k) ih.size,
            ap (λ (k : ℕ). y * 256 ^ k) same,
            ap (λ (t : ℕ). t * 256 ^ n) v,
            mul_pow_byte c' n,
          );
    }

pub length-low_bytes : (n v : ℕ) → length (low_bytes n v) ≡ n
unfolding low_bytes
length-low_bytes zero v = refl
length-low_bytes (suc n) v = ap suc (length-low_bytes n v)

pub low_bytes-bytes : (n v : ℕ) → All IsByte (low_bytes n v)
unfolding low_bytes
low_bytes-bytes zero v = tt
low_bytes-bytes (suc n) v = (omega arith, low_bytes-bytes n v)

pub low_bytes_value : (n v : ℕ) → be_value (low_bytes n v) ≡ v % 256 ^ n
unfolding low_bytes
low_bytes_value zero v = omega arith
low_bytes_value (suc n) v =
    rw (length-low_bytes, low_bytes_value n v, pow_byte)
      (sym (mod_split v (256 ^ n) (one-le-pow_byte n)))
