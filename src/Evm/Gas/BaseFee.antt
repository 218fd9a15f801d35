-- ===== src/Evm/Gas/BaseFee.antt =====
-- The EIP-1559 base fee update while no product wraps round.
use Prim.Native.Nat.{max}
use native.Mathlib.Nat.{div-le_of_le-mul, mod-eq_of_lt}
use evm_db.Prelude.{ℕ, ◌+◌, ◌-◌, ◌*◌, ◌/◌, ◌^◌, ◌≤◌, ◌<◌, ◌≡◌, ◌↔◌, refl, none, some, arith}
use evm_db.Evm.Gas.{fee_delta, raise_fee, lower_fee, calc_base_fee}

product_le : (f d t : ℕ) → d ≤ t → f * d ≤ t * f
product_le f d t h = grind arith

-- A block that is off its target by the target at most moves the fee by an eighth at most.
eighth : (f d t : ℕ) → d ≤ t → f * d / t / 8 ≤ f / 8
eighth f d t h = let whole : f * d / t ≤ f = div-le_of_le-mul t (product_le f d t h) in omega arith

product_fits : (f d t limit : ℕ) → d ≤ t → t ≤ limit → f * limit < 2 ^ 64 → f * d < 2 ^ 64
product_fits f d t limit h k fits = grind arith

fee_fits : (f limit : ℕ) → 2 ≤ limit → f * limit < 2 ^ 64 → f + f < 2 ^ 64
fee_fits f limit h fits = grind arith

pub fee_delta_lem :
    (f d t limit : ℕ)
    → 0 < t
    → d ≤ t
    → t ≤ limit
    → f * limit < 2 ^ 64
    → (delta : ℕ) × (fee_delta f d t ≡ some delta) × (delta ≡ f * d / t / 8) × (delta ≤ f / 8)
unfolding fee_delta
fee_delta_lem f d t limit pos h k fits = (
  f * d / t / 8,
  rw (mod-eq_of_lt (product_fits f d t limit h k fits)) (ground arith),
  refl,
  eighth f d t h,
)

-- The update has no result exactly where the target is 0 and some gas was used: it divides by zero.
pub calc_base_fee-none_iff :
    (f used limit : ℕ) → (calc_base_fee f used limit ≡ none) ↔ ((limit < 2) × (0 < used))
unfolding calc_base_fee raise_fee lower_fee fee_delta
calc_base_fee-none_iff f used limit = ground arith

-- Above its target and at most at twice the target, a block raises the fee: by 1 at least, and by
-- an eighth or by 1 at most, if the product of fee and gas limit fits 64 bits.
pub calc_base_fee_rises :
    (f used limit : ℕ)
    → 2 ≤ limit
    → f * limit < 2 ^ 64
    → limit / 2 < used
    → used ≤ 2 * (limit / 2)
    → (fee : ℕ) × (calc_base_fee f used limit ≡ some fee) × (f < fee) × (fee ≤ f + max 1 (f / 8))
unfolding calc_base_fee
calc_base_fee_rises f used limit two fits over most =
    let target : ℕ = limit / 2 in
    let (delta, e, _, le) =
      fee_delta_lem f (used - target) target limit (omega arith) (omega arith) (omega arith) fits in
    (
      f + max 1 delta,
      ground (arith, e, raise_fee_lem f delta limit two fits le),
      omega arith,
      omega arith,
    )
  where
    raise_fee_lem :
        (f delta limit : ℕ)
        → 2 ≤ limit
        → f * limit < 2 ^ 64
        → delta ≤ f / 8
        → raise_fee f (some delta) ≡ some (f + max 1 delta)
    raise_fee_lem f delta limit two fits le =
        let double = fee_fits f limit two fits in unfold raise_fee in ground arith

-- Below its target a block lowers the fee or keeps it: by an eighth at most, and never below 1, if
-- the product of fee and gas limit fits 64 bits.
pub calc_base_fee_falls :
    (f used limit : ℕ)
    → f * limit < 2 ^ 64
    → used < limit / 2
    → (fee : ℕ) × (calc_base_fee f used limit ≡ some fee)
      × (fee ≤ max 1 f)
      × (f ≤ fee + f / 8)
      × (0 < fee)
unfolding calc_base_fee
calc_base_fee_falls f used limit fits under =
    let target : ℕ = limit / 2 in
    let (delta, e, _, le) =
      fee_delta_lem f (target - used) target limit (omega arith) (omega arith) (omega arith) fits in
    (
      max 1 (f - delta),
      ground (arith, e, lower_fee_lem f delta le),
      omega arith,
      omega arith,
      omega arith,
    )
  where
    lower_fee_lem :
        (f delta : ℕ) → delta ≤ f / 8 → lower_fee f (some delta) ≡ some (max 1 (f - delta))
    lower_fee_lem f delta le = unfold lower_fee in ground arith
