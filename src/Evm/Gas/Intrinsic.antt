-- ===== src/Evm/Gas/Intrinsic.antt =====
-- The intrinsic gas as a count of zero and nonzero bytes.
use evm_db.Prelude.{
  ℕ, ◌+◌, ◌*◌, ◌^◌, ◌≤◌, ◌<◌, ◌≡◌, [], ◌∷◌, Bool, true, false, ◌==◌, if◌then◌else◌, length, arith,
}
use evm_db.Prelude.Bytes.{Bytes}
use evm_db.Evm.Gas.{add_data_gas, intrinsic}

pub zero_bytes : Bytes → ℕ
zero_bytes [] = 0
zero_bytes (b ∷ bs) = zero_bytes bs + (if b == 0 then 1 else 0)

zero_bytes-le-length : (bs : Bytes) → zero_bytes bs ≤ length bs
unfolding zero_bytes
zero_bytes-le-length [] = omega arith
zero_bytes-le-length (b ∷ bs) = ground (arith, zero_bytes-le-length bs)

-- While no sum reaches 2 ^ 64, the loop charges 4 for each zero byte and 16 for each other byte.
pub add_data_gas_lem :
    (bs : Bytes) (gas : ℕ)
    → gas + 16 * length bs < 2 ^ 64
    → add_data_gas gas bs + 12 * zero_bytes bs ≡ gas + 16 * length bs
unfolding add_data_gas zero_bytes
add_data_gas_lem [] gas h = omega arith
add_data_gas_lem (b ∷ bs) gas h =
    ground (arith, add_data_gas_lem bs (gas + 4), add_data_gas_lem bs (gas + 16))

-- The intrinsic gas of data that fits memory: the base cost, 4 for each zero byte and 16 for each
-- other byte, and it lies between 4 and 16 per byte above the base cost.
pub intrinsic_lem :
    (bs : Bytes) (is_create : Bool)
    → length bs < 2 ^ 48
    → let base : ℕ = if is_create then 53000 else 21000 in
      (intrinsic bs is_create + 12 * zero_bytes bs ≡ base + 16 * length bs)
      × (base + 4 * length bs ≤ intrinsic bs is_create)
      × (intrinsic bs is_create ≤ base + 16 * length bs)
unfolding intrinsic
intrinsic_lem bs true h =
    let e = add_data_gas_lem bs 53000 (omega arith) in
    (e, omega (arith, zero_bytes-le-length bs), omega arith)
intrinsic_lem bs false h =
    let e = add_data_gas_lem bs 21000 (omega arith) in
    (e, omega (arith, zero_bytes-le-length bs), omega arith)
