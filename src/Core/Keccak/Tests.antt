-- ===== src/Core/Keccak/Tests.antt =====
-- Known digests.
use evm_db.Prelude.{◌≡◌, refl, [], ◌∷◌}
use evm_db.Core.Keccak.{keccak256, keccakf, keccak_round, absorb, absorb_blocks, pad, squeeze}
use evm_db.Core.Keccak.{
  store64_le, store64_le_loop, load64_le, load64_le_loop, rotl64, column, spread,
}
use evm_db.Core.Keccak.{theta_lane, place, chi_lane, xor_lane}

-- The digest of the empty string.
keccak256_empty :
    keccak256 []
    ≡ 0xc5 ∷ 0xd2 ∷ 0x46 ∷ 0x01 ∷ 0x86 ∷ 0xf7 ∷ 0x23 ∷ 0x3c ∷ 0x92 ∷ 0x7e ∷ 0x7d ∷ 0xb2 ∷ 0xdc
      ∷ 0xc7 ∷ 0x03 ∷ 0xc0 ∷ 0xe5 ∷ 0x00 ∷ 0xb6 ∷ 0x53 ∷ 0xca ∷ 0x82 ∷ 0x27 ∷ 0x3b ∷ 0x7b ∷ 0xfa
      ∷ 0xd8 ∷ 0x04 ∷ 0x5d ∷ 0x85 ∷ 0xa4 ∷ 0x70 ∷ []
unfolding keccak256 keccakf keccak_round absorb absorb_blocks pad squeeze store64_le store64_le_loop
    load64_le load64_le_loop rotl64 column spread theta_lane place chi_lane xor_lane
keccak256_empty = refl
