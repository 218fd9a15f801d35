-- ===== src/State/Balance.antt =====
-- 256-bit balances as 32 big-endian bytes: src/state/accounts.c.
-- The loops run from byte 31 down to byte 0. As recursions on the two arrays side by side, they do
-- the tail first and hand its borrow or carry to the byte in front of it.
pub mod Value
pub mod Laws
use evm_db.Prelude.{
  ℕ, zero, suc, ◌+◌, ◌-◌, ◌/◌, ◌%◌, ◌^◌, [], ◌∷◌, ◌++◌, Bool, true, false, ltb, ◌==◌, if◌then◌else◌,
  replicate, bit_and,
}
use evm_db.Prelude.Bytes.{Bytes}
use Prim.Native.Nat.{compare, Ordering}

-- `memcmp` on arrays of one size: the first byte that differs decides.
pub cmp : Bytes → Bytes → Ordering
cmp (a ∷ xs) (b ∷ ys) =
    let rest = cmp xs ys in
    elim (compare a b) [
      | Ordering.lt ↦ Ordering.lt
      | Ordering.gt ↦ Ordering.gt
      | Ordering.eq ↦ rest
    ]
cmp _ _ = Ordering.eq

-- One round of the subtraction on the bytes `a` and `b`. The C `diff` is a signed int; `diff < 0`
-- is `a < b + borrow`.
pub sub_byte : ℕ → ℕ → ℕ → ℕ × ℕ
sub_byte a b borrow =
    if ltb a (b + borrow)
    then ((a + 256 - (b + borrow)) % 256, 1)
    else ((a - (b + borrow)) % 256, 0)

-- The bytes written to `out`, and the last borrow.
pub sub_loop : Bytes → Bytes → Bytes × ℕ
sub_loop (a ∷ xs) (b ∷ ys) =
    let (out, borrow) = sub_loop xs ys in
    let (diff, borrow') = sub_byte a b borrow in (diff ∷ out, borrow')
sub_loop _ _ = ([], 0)

-- `false` stands for the return value -1. `out` is written in both cases.
pub sub : Bytes → Bytes → Bool × Bytes
sub a b = let (out, borrow) = sub_loop a b in (borrow == 0, out)

-- `(uint8_t)(sum & 0xff)` and `sum >> 8`.
pub add_byte : ℕ → ℕ → ℕ → ℕ × ℕ
add_byte a b carry = let sum = a + b + carry in (bit_and sum 0xff % 256, sum / 256)

pub add_loop : Bytes → Bytes → Bytes × ℕ
add_loop (a ∷ xs) (b ∷ ys) =
    let (out, carry) = add_loop xs ys in
    let (low, carry') = add_byte a b carry in (low ∷ out, carry')
add_loop _ _ = ([], 0)

pub add : Bytes → Bytes → Bool × Bytes
add a b = let (out, carry) = add_loop a b in (carry == 0, out)

-- Bytes `31 - i`, for i from 0 on, of `val >> (i * 8)`: the last `n` bytes of the array.
pub low_bytes : ℕ → ℕ → Bytes
low_bytes zero val = []
low_bytes (suc n) val = ((val / 256 ^ n) % 256) ∷ low_bytes n val

-- `memset(out, 0, 32)`, then the eight low bytes.
pub from_uint64 : ℕ → Bytes
from_uint64 val = replicate 24 0 ++ low_bytes 8 val

pub is_zero : Bytes → Bool
is_zero [] = true
is_zero (b ∷ bs) = let rest = is_zero bs in if b == 0 then rest else false
