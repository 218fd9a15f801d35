-- ===== src/Evm/Gas.antt =====
-- Base fee and intrinsic gas: src/evm/gas.c. All values are uint64_t.
pub mod BaseFee
pub mod Intrinsic
use evm_db.Prelude.{
  ℕ, ◌+◌, ◌-◌, ◌*◌, ◌/◌, ◌%◌, ◌^◌, [], ◌∷◌, Option, none, some, Bool, ltb, leb, ◌==◌, if◌then◌else◌,
}
use evm_db.Prelude.Bytes.{Bytes}

-- `parent_base_fee * gas_used_delta / parent_gas_target / 8`; the product wraps round, and a zero
-- target is a division by zero, `none`.
unfoldable pub fee_delta : ℕ → ℕ → ℕ → Option ℕ
fee_delta base_fee gas_used_delta target =
    if target == 0 then none else some (base_fee * gas_used_delta % 2 ^ 64 / target / 8)

unfoldable pub raise_fee : ℕ → Option ℕ → Option ℕ
raise_fee base_fee none = none
raise_fee base_fee (some delta) = some ((base_fee + (if ltb delta 1 then 1 else delta)) % 2 ^ 64)

unfoldable pub lower_fee : ℕ → Option ℕ → Option ℕ
lower_fee base_fee none = none
lower_fee base_fee (some delta) = some (if leb base_fee delta then 1 else base_fee - delta)

-- `none` is the trap on a division by zero.
unfoldable pub calc_base_fee : ℕ → ℕ → ℕ → Option ℕ
calc_base_fee base_fee gas_used gas_limit =
    let target = gas_limit / 2 in
    if gas_used == target
    then some base_fee
    else if ltb target gas_used
    then raise_fee base_fee (fee_delta base_fee (gas_used - target) target)
    else lower_fee base_fee (fee_delta base_fee (target - gas_used) target)

-- `gas += (data[i] == 0) ? 4 : 16` over the data.
unfoldable pub add_data_gas : ℕ → Bytes → ℕ
add_data_gas gas [] = gas
add_data_gas gas (b ∷ bs) = add_data_gas ((gas + (if b == 0 then 4 else 16)) % 2 ^ 64) bs

unfoldable pub intrinsic : Bytes → Bool → ℕ
intrinsic bytes is_create = add_data_gas (if is_create then 53000 else 21000) bytes
