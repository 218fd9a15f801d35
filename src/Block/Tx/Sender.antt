-- ===== src/Block/Tx/Sender.antt =====
-- `evmdb_tx_recover_sender` of tx.c, with libsecp256k1 as a parameter.
use evm_db.Prelude.{
  ℕ, ◌+◌, ◌*◌, ◌^◌, ◌≤◌, ◌≡◌, refl, ap, ◌∙◌, ◌++◌, some, Bool, true, length, take, drop, arith, inl,
  inr,
}
use evm_db.Prelude.Bytes.{Bytes}
use evm_db.Core.Keccak.{keccak256}
use evm_db.Block.Rlp.Result.{ok}
use evm_db.Block.Tx.{Tx, legacy}
use evm_db.Block.Tx.Sign.{
  signing_hash, recovery_id, Recover, recovered, recover_with, recover_from_hash, recover_sender,
}
use evm_db.Block.Tx.Encoding.{signing_code}
use evm_db.Block.Tx.Signing.{signing_hash-signing_code, recovery_id_legacy}

signed_hash :
    (alloc : ℕ → Bool) (tx : Tx)
    → ((n : ℕ) → alloc n ≡ true)
    → tx.type ≡ legacy
    → length (signing_code tx) ≤ 2 ^ 63
    → signing_hash alloc tx ≡ ok (keccak256 (signing_code tx))
signed_hash alloc tx good of_type fits = elim (signing_hash-signing_code alloc tx fits) [
  | inl e ↦ e
  | inr (e, inl (n, bad)) ↦ absurd (ground (arith, good n))
  | inr (e, inr other) ↦ absurd (ground arith)
]

-- Let libsecp256k1 find a public key for the signature (r, s), the parity in an EIP-155 `v`, and
-- the hash of the bytes that EIP-155 defines. Then the sender of that legacy transaction is set to
-- the last twenty bytes of the hash of the key without its first byte, and nothing else changes,
-- where every allocation succeeds and the encoding has 2 ^ 63 bytes at most.
pub recover_sender_lem :
    (alloc : ℕ → Bool) (recover : Recover) (tx : Tx) (parity chain_id : ℕ) (pubkey : Bytes)
    → ((n : ℕ) → alloc n ≡ true)
    → tx.type ≡ legacy
    → length (signing_code tx) ≤ 2 ^ 63
    → parity ≤ 1
    → tx.v ≡ 35 + 2 * chain_id + parity
    → recover (tx.r ++ tx.s) parity (keccak256 (signing_code tx)) ≡ some pubkey
    → recover_sender alloc true recover tx
      ≡ ok (true, record tx { sender = drop 12 (keccak256 (take 64 (drop 1 pubkey))) })
unfolding recover_sender recover_from_hash recover_with recovered
recover_sender_lem alloc recover tx parity chain_id pubkey good of_type fits bit v found =
    let id : recovery_id tx.type tx.v ≡ some parity =
      ap (λ t. recovery_id t tx.v) of_type ∙ (recovery_id_legacy chain_id parity tx.v 0 bit v).0 in
    rw (signed_hash alloc tx good of_type fits) (rw id (rw found refl))
