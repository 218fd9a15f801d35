-- ===== src/State/Balance/Laws.antt =====
-- What accounts.c computes on two balances of one size.
use evm_db.Prelude.{
  ℕ, zero, suc, ◌+◌, ◌-◌, ◌*◌, ◌%◌, ◌^◌, ◌≤◌, ◌<◌, ◌≡◌, ◌↔◌, refl, sym, ap, ◌∙◌, [], ◌∷◌, ◌++◌,
  true, ltb, leb, ◌==◌, length, length-append, replicate, All, All-append, All-replicate,
  length-replicate, arith,
}
use evm_db.Prelude.Bytes.{
  Bytes, IsByte, IsArray, be_value, be_value-lt, be_value-pad, IsArray-lt, IsArray-injective,
  one-le-pow_byte, next_multiple,
}
use evm_db.State.Balance.{cmp, sub_loop, sub, add_loop, add, low_bytes, from_uint64, is_zero}
use evm_db.State.Balance.Value.{
  sub_loop-Subtracts, add_loop-Adds, length-low_bytes, low_bytes-bytes, low_bytes_value,
}
use Prim.Native.Nat.{compare, Ordering}
use native.Mathlib.Decide.{dec_lt}
use native.Mathlib.Nat.{mod-eq_of_lt, mod-eq-sub-mod}

past_modulus : (v p : ℕ) → v < p → (v + p) % p ≡ v
past_modulus v p h = grind arith

borrow_decides :
    (x y z c p : ℕ)
    → x < p
    → y < p
    → z < p
    → c ≤ 1
    → z + y ≡ x + c * p
    → ((c == 0) ≡ leb y x) × (z ≡ (x + p - y) % p)
borrow_decides x y z zero p hx hy hz hc e =
    let split : x + p - y ≡ z + p = omega arith in
    (ground arith, rw split (sym (past_modulus z p hz)))
borrow_decides x y z (suc zero) p hx hy hz hc e =
    let split : x + p - y ≡ z = omega arith in (ground arith, rw split (sym (mod-eq_of_lt hz)))
borrow_decides x y z (suc (suc c)) p hx hy hz hc e = absurd (omega arith)

carry_decides :
    (x y z c p : ℕ)
    → z < p
    → c ≤ 1
    → x + y ≡ z + c * p
    → ((c == 0) ≡ ltb (x + y) p) × (z ≡ (x + y) % p)
carry_decides x y z zero p hz hc e =
    let split : x + y ≡ z = omega arith in (ground arith, rw split (sym (mod-eq_of_lt hz)))
carry_decides x y z (suc zero) p hz hc e =
    let split : x + y ≡ z + p = omega arith in (ground arith, rw split (sym (past_modulus z p hz)))
carry_decides x y z (suc (suc c)) p hz hc e = absurd (omega arith)

module _ {n : ℕ} (a b : Bytes) (ha : IsArray n a) (hb : IsArray n b) where
  -- For two arrays of one size: `sub` reports success exactly when `a` is at least `b`; in both
  -- cases `out` has the size of the inputs, holds bytes, and is the difference modulo 256 ^ n.
  pub sub_lem :
      ((sub a b).0 ≡ leb (be_value b) (be_value a))
      × IsArray n (sub a b).1
      × (be_value (sub a b).1 ≡ (be_value a + 256 ^ n - be_value b) % 256 ^ n)
  unfolding sub
  sub_lem =
      let s = sub_loop-Subtracts a b (ha.size ∙ sym hb.size) ha.bytes hb.bytes in
      let shape : IsArray n (sub_loop a b).0 = record {
        size = s.size ∙ ha.size;
        bytes = s.bytes;
      } in
      let (flag, value) =
        borrow_decides (be_value a) (be_value b) (be_value (sub_loop a b).0) (sub_loop a b).1
          (256 ^ n) (IsArray-lt a ha) (IsArray-lt b hb) (IsArray-lt _ shape) s.bit
          (s.value ∙ ap (λ k. be_value a + (sub_loop a b).1 * 256 ^ k) ha.size) in
      (flag, shape, value)

  -- For two arrays of one size: `add` reports success exactly when the sum is below 256 ^ n; in
  -- both cases `out` has the size of the inputs, holds bytes, and is the sum modulo 256 ^ n.
  pub add_lem :
      ((add a b).0 ≡ ltb (be_value a + be_value b) (256 ^ n))
      × IsArray n (add a b).1
      × (be_value (add a b).1 ≡ (be_value a + be_value b) % 256 ^ n)
  unfolding add
  add_lem =
      let s = add_loop-Adds a b (ha.size ∙ sym hb.size) ha.bytes hb.bytes in
      let shape : IsArray n (add_loop a b).0 = record {
        size = s.size ∙ ha.size;
        bytes = s.bytes;
      } in
      let (flag, value) =
        carry_decides (be_value a) (be_value b) (be_value (add_loop a b).0) (add_loop a b).1
          (256 ^ n) (IsArray-lt _ shape) s.bit
          (s.value ∙ ap (λ k. be_value (add_loop a b).0 + (add_loop a b).1 * 256 ^ k) ha.size) in
      (flag, shape, value)

wrapped_back : (x y p : ℕ) → x < p → y < p → ((x + y) % p + p - y) % p ≡ x
wrapped_back x y p hx hy = elim (dec_lt (x + y) p) [
  | yes h ↦
      let split : x + y + p - y ≡ x + p = omega arith in
      rw (mod-eq_of_lt h, split) (past_modulus x p hx)
  | no h ↦
      let over : p ≤ x + y = omega arith in
      let low : x + y - p < p = omega arith in
      let split : x + y - p + p - y ≡ x = omega arith in
      rw (mod-eq-sub-mod over, mod-eq_of_lt low, split) (mod-eq_of_lt hx)
]

-- For two arrays of one size: subtracting what was added gives the first balance back, also where
-- the sum wrapped round.
pub sub-add : {n : ℕ} (a b : Bytes) → IsArray n a → IsArray n b → (sub (add a b).1 b).1 ≡ a
sub-add {n} a b ha hb =
    let sum = add_lem a b ha hb in
    let back = sub_lem (add a b).1 b sum.1 hb in
    IsArray-injective _ _ back.1 ha (
      back.2
      ∙ ap (λ v. (v + 256 ^ n - be_value b) % 256 ^ n) sum.2
      ∙ wrapped_back (be_value a) (be_value b) (256 ^ n) (IsArray-lt a ha) (IsArray-lt b hb))

compare_digits :
    (x y p q a b : ℕ) (r : Ordering)
    → p ≡ q
    → a < p
    → b < q
    → r ≡ compare a b
    → elim (compare x y) [ Ordering.lt ↦ Ordering.lt | Ordering.gt ↦ Ordering.gt | Ordering.eq ↦ r ]
      ≡ compare (x * p + a) (y * q + b)
compare_digits x y p q a b r e ha hb h =
    ground (arith, next_multiple x y p, next_multiple y x p, ap (λ (t : ℕ). y * t) e)

-- `cmp` orders two arrays of one size as the numbers that they stand for.
pub cmp-eq-compare :
    (a b : Bytes)
    → length a ≡ length b
    → All IsByte a
    → All IsByte b
    → cmp a b ≡ compare (be_value a) (be_value b)
unfolding cmp
cmp-eq-compare [] [] e ha hb = refl
cmp-eq-compare [] (y ∷ ys) e ha hb = absurd (omega arith)
cmp-eq-compare (x ∷ xs) [] e ha hb = absurd (omega arith)
cmp-eq-compare (x ∷ xs) (y ∷ ys) e (hx, hxs) (hy, hys) =
    compare_digits x y (256 ^ length xs) (256 ^ length ys) (be_value xs) (be_value ys) _
      (ap (λ k. 256 ^ k) (omega arith)) (be_value-lt xs hxs) (be_value-lt ys hys)
      (cmp-eq-compare xs ys (omega arith) hxs hys)

padded :
    (m n v : ℕ)
    → v < 256 ^ n
    → IsArray (m + n) (replicate m 0 ++ low_bytes n v)
      × (be_value (replicate m 0 ++ low_bytes n v) ≡ v)
padded m n v h =
    let shape : IsArray (m + n) (replicate m 0 ++ low_bytes n v) = record {
      size = omega (
        arith,
        length-append (replicate m 0) (low_bytes n v),
        length-replicate m (let z : ℕ = 0 in z),
        length-low_bytes n v,
      );
      bytes =
          All-append _ (replicate m 0) (low_bytes n v) (All-replicate _ m 0 (omega arith))
            (low_bytes-bytes n v);
    } in
    (shape, be_value-pad m (low_bytes n v) ∙ low_bytes_value n v ∙ mod-eq_of_lt h)

-- `from_uint64` writes 32 bytes that stand for the same number.
pub from_uint64_lem :
    (v : ℕ) → v < 2 ^ 64 → IsArray 32 (from_uint64 v) × (be_value (from_uint64 v) ≡ v)
unfolding from_uint64
from_uint64_lem v h = padded 24 8 v (omega arith)

zero_product : (x n : ℕ) → x * 256 ^ n ≡ 0 → x ≡ 0
zero_product zero n e = refl
zero_product (suc x) n e = absurd (omega (arith, one-le-pow_byte n))

-- `is_zero` holds exactly for the number 0.
pub is_zero_iff : (a : Bytes) → (is_zero a ≡ true) ↔ (be_value a ≡ 0)
unfolding is_zero
is_zero_iff [] = (λ _. refl, λ _. refl)
is_zero_iff (x ∷ xs) = ground (arith, is_zero_iff xs, zero_product x (length xs))
