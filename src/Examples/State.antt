-- ===== src/Examples/State.antt =====
-- Inputs for accounts.c.
use evm_db.Prelude.{◌+◌, ◌-◌, ◌%◌, ◌^◌, ◌≡◌, refl, [], ◌∷◌, leb, arith}
use evm_db.Prelude.Bytes.{Bytes, IsArray, be_value}
use evm_db.State.Balance.{sub}
use evm_db.State.Balance.Laws.{sub_lem}

abbrev low : Bytes
low = 0x01 ∷ 0x00 ∷ []

abbrev high : Bytes
high = 0xff ∷ 0x02 ∷ []

low-IsArray : IsArray 2 low
low-IsArray = record { size = refl; bytes = (omega arith, (omega arith, tt)) }

high-IsArray : IsArray 2 high
high-IsArray = record { size = refl; bytes = (omega arith, (omega arith, tt)) }

sub_lem_example :
    ((sub low high).0 ≡ leb (be_value high) (be_value low))
    × IsArray 2 (sub low high).1
    × (be_value (sub low high).1 ≡ (be_value low + 256 ^ 2 - be_value high) % 256 ^ 2)
sub_lem_example = sub_lem low high low-IsArray high-IsArray
