-- ===== src/Evm/Executor/Address.antt =====
-- The address of a new contract (executor.c), against RLP as it is defined.
use evm_db.Prelude.{
  ℕ, zero, suc, ◌+◌, ◌/◌, ◌%◌, ◌≤◌, ◌≡◌, refl, ap, ◌∙◌, [], ◌∷◌, ◌++◌, ◌==◌, length, length-append,
  take, drop, arith, Bool-cases, inl, inr,
}
use evm_db.Prelude.Bytes.{Bytes, IsArray}
use evm_db.Prelude.Bits.{bit_and_byte}
use evm_db.Core.Keccak.{keccak256}
use evm_db.Block.Rlp.Buffer.{minimal_bytes}
use evm_db.Block.Rlp.Code.{
  header, string_code, list_code, be_bytes, minimal_bytes-be_bytes, be_bytes-zero, length-be_bytes,
}
use evm_db.Evm.Executor.{
  rlp_encode_bytes, uint64_bytes, rlp_encode_uint64, rlp_encode_list, compute_create_address,
}

rlp_encode_bytes_lem : (bs : Bytes) → length bs ≤ 55 → rlp_encode_bytes bs ≡ string_code bs
unfolding rlp_encode_bytes string_code header
rlp_encode_bytes_lem [] h = refl
rlp_encode_bytes_lem (b ∷ []) h = refl
rlp_encode_bytes_lem (b ∷ c ∷ bs) h = ground arith

rlp_encode_list_lem : (bs : Bytes) → length bs ≤ 55 → rlp_encode_list bs ≡ list_code bs
unfolding rlp_encode_list list_code header
rlp_encode_list_lem bs h = ground arith

uint64_bytes_lem : (fuel v : ℕ) (bs : Bytes) → uint64_bytes fuel v bs ≡ minimal_bytes fuel v bs
unfolding uint64_bytes minimal_bytes
uint64_bytes_lem zero v bs = refl
uint64_bytes_lem (suc fuel) v bs =
    ground (arith, bit_and_byte v, uint64_bytes_lem fuel (v / 256) (v % 256 ∷ bs))

rlp_encode_uint64_lem : (v : ℕ) → rlp_encode_uint64 v ≡ string_code (be_bytes v)
unfolding rlp_encode_uint64
rlp_encode_uint64_lem v = elim (Bool-cases (v == 0)) [
  | inl e ↦
      let none_left : v ≡ 0 = ground arith in
      rw none_left (rw be_bytes-zero (unfold string_code header in refl))
  | inr e ↦ rw e (
      ap rlp_encode_bytes (uint64_bytes_lem 8 v [] ∙ minimal_bytes-be_bytes v)
      ∙ rlp_encode_bytes_lem (be_bytes v) (omega (arith, length-be_bytes v)))
]

length-rlp_encode_bytes : (bs : Bytes) → length (rlp_encode_bytes bs) ≤ length bs + 1
unfolding rlp_encode_bytes
length-rlp_encode_bytes [] = omega arith
length-rlp_encode_bytes (b ∷ []) = ground arith
length-rlp_encode_bytes (b ∷ c ∷ bs) = omega arith

length-rlp_encode_uint64 : (v : ℕ) → length (rlp_encode_uint64 v) ≤ 9
unfolding rlp_encode_uint64
length-rlp_encode_uint64 v = ground (
  arith,
  length-rlp_encode_bytes (uint64_bytes 8 v []),
  ap length (uint64_bytes_lem 8 v [] ∙ minimal_bytes-be_bytes v),
  length-be_bytes v,
)

-- For a sender of 20 bytes: the address of a new contract is the last twenty bytes of the hash of
-- the RLP list of the sender's address and the nonce.
pub compute_create_address_lem :
    (sender : Bytes) (nonce : ℕ)
    → IsArray 20 sender
    → compute_create_address sender nonce
      ≡ take 20
          (drop 12 (keccak256 (list_code (string_code sender ++ string_code (be_bytes nonce)))))
unfolding compute_create_address
compute_create_address_lem sender nonce h =
    let address : rlp_encode_bytes sender ≡ string_code sender =
      rlp_encode_bytes_lem sender (omega (arith, h.size)) in
    let payload : Bytes = rlp_encode_bytes sender ++ rlp_encode_uint64 nonce in
    let short : length payload ≤ 55 = omega (
      arith,
      length-append (rlp_encode_bytes sender) (rlp_encode_uint64 nonce),
      length-rlp_encode_bytes sender,
      length-rlp_encode_uint64 nonce,
      h.size,
    ) in
    ap (λ bs. take 20 (drop 12 (keccak256 bs)))
      (rlp_encode_list_lem payload short
        ∙ ap (λ bs. list_code (bs ++ rlp_encode_uint64 nonce)) address
        ∙ ap (λ bs. list_code (string_code sender ++ bs)) (rlp_encode_uint64_lem nonce))
