-- ===== src/Block/Tx/Signing.antt =====
-- `evmdb_tx_signing_hash` hashes the bytes that Ethereum defines, and what `v` means.
use evm_db.Prelude.{
  ℕ, ◌≡◌, ◌≤◌, ◌<◌, ◌^◌, ◌+◌, ◌*◌, ◌-◌, ◌/◌, ◌⊎◌, ◌↔◌, inl, inr, [], ◌∷◌, ◌++◌, Bool, false,
  if◌then◌else◌, ◌==◌, length, refl, sym, ap, arith, append-nil, append_assoc, Bool-cases, some,
  none, length-append,
}
use mathlib.Core.Path.{subst}
use evm_db.Prelude.Bytes.{Bytes}
use evm_db.Core.Keccak.{keccak256}
use evm_db.Block.Rlp.Result.{Result, ok, err, ◌>>=◌}
use evm_db.Block.Rlp.Code.{list_code, length-list_code}
use evm_db.Block.Rlp.Buffer.{Buffer, empty, ◌⨾◌, append_byte, wrap_list}
use evm_db.Block.Rlp.Writing.{
  Written, Writes, seq-Writes, as-Writes, append_byte-Writes, append_bytes-Writes,
  append_uint64-Writes, append_bytes32-Writes, append_address-Writes, append_empty_list-Writes,
  wrap_list-Writes,
}
use evm_db.Block.Tx.{TxType, legacy, eip2930, eip1559, Tx, zero32}
use evm_db.Block.Tx.Encoding.{
  eip1559_fields, legacy_fields, replay_code, signing_items, signing_code, typed,
}
use evm_db.Block.Tx.Sign.{
  eip1559_payload, legacy_payload, replay_payload, signing_bytes, signing_hash, recovery_id,
}

module _ (alloc : ℕ → Bool) (tx : Tx) where
  infixl 6 ◌then◌
  ◌then◌ :
      {m n : Buffer → Result Buffer} {xs ys : Bytes}
      → Writes alloc m xs
      → Writes alloc n ys
      → Writes alloc (m ⨾ n) (xs ++ ys)
  ◌then◌ {m} {n} {xs} {ys} hm hn = seq-Writes alloc m n xs ys hm hn

  eip1559_payload-Writes : Writes alloc (eip1559_payload alloc tx) (eip1559_fields tx [])
  unfolding eip1559_payload
  eip1559_payload-Writes = as-Writes alloc _ (simp (append_assoc, append-nil)) (
      append_uint64-Writes alloc tx.chain_id
      then append_uint64-Writes alloc tx.nonce
      then append_bytes32-Writes alloc tx.max_priority_fee
      then append_bytes32-Writes alloc tx.max_fee_per_gas
      then append_uint64-Writes alloc tx.gas_limit
      then append_address-Writes alloc tx.to tx.to_is_null
      then append_bytes32-Writes alloc tx.value
      then append_bytes-Writes alloc tx.payload
      then append_empty_list-Writes alloc)

  legacy_payload-Writes :
      (rest : Bytes) (m : Buffer → Result Buffer)
      → Writes alloc m rest
      → Writes alloc (legacy_payload alloc tx ⨾ m) (legacy_fields tx rest)
  unfolding legacy_payload
  legacy_payload-Writes rest m h = as-Writes alloc _ (simp append_assoc) (
      append_uint64-Writes alloc tx.nonce
      then append_bytes32-Writes alloc tx.gas_price
      then append_uint64-Writes alloc tx.gas_limit
      then append_address-Writes alloc tx.to tx.to_is_null
      then append_bytes32-Writes alloc tx.value
      then append_bytes-Writes alloc tx.payload
      then h)

  replay_payload-Writes : Writes alloc (replay_payload alloc tx) (replay_code tx)
  unfolding replay_payload
  replay_payload-Writes = elim (Bool-cases (tx.chain_id == 0)) [
    | inl absent ↦ rw absent (λ b bounded fits. inl (b, refl, sym (append-nil b.bytes), bounded))
    | inr present ↦ rw present (
        as-Writes alloc _ (simp append_assoc) (
          append_uint64-Writes alloc tx.chain_id
          then append_bytes32-Writes alloc zero32
          then append_bytes32-Writes alloc zero32))
  ]

  -- The two buffers of the function: the payload, and the list that wraps it.
  wrapped :
      (payload : Buffer → Result Buffer) (items : Bytes) (first : Bytes)
      (wrap : Buffer → Buffer → Result Buffer)
      → Writes alloc payload items
      → ((b : Buffer) → Writes alloc (wrap b) (first ++ list_code b.bytes))
      → length (first ++ list_code items) ≤ 2 ^ 63
      → Written alloc empty (first ++ list_code items) (payload empty >>= λ b. wrap b empty)
  wrapped payload items first wrap hp hw fits =
      elim (hp empty (omega arith)
        (omega (arith, length-append first (list_code items), length-list_code items))) [
          | inl (b, e, same, bounded) ↦
              let done =
                hw b empty (omega arith)
                  (omega (arith, ap (λ bs. length (first ++ list_code bs)) same)) in
              rw e
                (subst (λ bs. Written alloc empty (first ++ list_code bs) (wrap b empty)) same done)
          | inr (e, failed) ↦ inr (rw e refl, failed)
        ]

  signing_bytes-typed :
      (type : TxType)
      → length (typed type (list_code (signing_items type tx))) ≤ 2 ^ 63
      → ((b : Buffer) × (signing_bytes alloc type tx ≡ ok b)
          × (b.bytes ≡ typed type (list_code (signing_items type tx))))
        ⊎ ((signing_bytes alloc type tx ≡ err) × (((n : ℕ) × (alloc n ≡ false)) ⊎ (type ≡ eip2930)))
  unfolding signing_bytes
  signing_bytes-typed eip1559 fits =
      elim (wrapped (eip1559_payload alloc tx) (eip1559_fields tx []) (0x02 ∷ [])
        (λ b. append_byte alloc 0x02 ⨾ wrap_list alloc b) eip1559_payload-Writes
        (λ b. append_byte-Writes alloc 0x02 then wrap_list-Writes alloc b) fits) [
          | inl (b, e, same, bounded) ↦ inl (b, e, same)
          | inr (e, failed) ↦ inr (e, inl failed)
        ]
  signing_bytes-typed legacy fits =
      elim (wrapped (legacy_payload alloc tx ⨾ replay_payload alloc tx)
        (legacy_fields tx (replay_code tx)) [] (wrap_list alloc)
        (legacy_payload-Writes (replay_code tx) (replay_payload alloc tx) replay_payload-Writes)
        (wrap_list-Writes alloc) fits) [
          | inl (b, e, same, bounded) ↦ inl (b, e, same)
          | inr (e, failed) ↦ inr (e, inl failed)
        ]
  signing_bytes-typed eip2930 fits = inr (refl, inr refl)

-- `evmdb_tx_signing_hash` of a transaction whose encoding fits 2 ^ 63 bytes returns the hash of the
-- bytes that are signed, which for a legacy transaction with a chain id end in the chain id and two
-- zeros; it returns -1 only if an allocation fails or the type is EIP-2930.
pub signing_hash-signing_code :
    (alloc : ℕ → Bool) (tx : Tx)
    → length (signing_code tx) ≤ 2 ^ 63
    → (signing_hash alloc tx ≡ ok (keccak256 (signing_code tx)))
      ⊎ ((signing_hash alloc tx ≡ err) × (((n : ℕ) × (alloc n ≡ false)) ⊎ (tx.type ≡ eip2930)))
unfolding signing_hash signing_code
signing_hash-signing_code alloc tx fits = elim (signing_bytes-typed alloc tx tx.type fits) [
  | inl (b, e, same) ↦ inl (rw e (ap (λ bs. ok (keccak256 bs)) same))
  | inr (e, why) ↦ inr (rw e refl, why)
]

-- The `v` of EIP-155 carries the chain id and the parity: the recovery id is the parity, and the
-- chain id that `evmdb_tx_decode` derives is the one that was signed. At 27 and 28 only the parity
-- is there. The values below 27 and those between 28 and 35 are refused, and no others.
pub recovery_id_legacy :
    (chain_id parity v w : ℕ)
    → parity ≤ 1
    → v ≡ 35 + 2 * chain_id + parity
    → (recovery_id legacy v ≡ some parity)
      × ((v - 35) / 2 ≡ chain_id)
      × (recovery_id legacy (27 + parity) ≡ some parity)
      × ((recovery_id legacy w ≡ none) ↔ ((w < 27) ⊎ ((28 < w) × (w < 35))))
unfolding recovery_id
recovery_id_legacy chain_id parity v w h e =
    (ground arith, omega arith, ground arith, (λ k. ground arith, λ k. ground arith))
