-- ===== src/Block/Tx/Faults.antt =====
-- Where `evmdb_tx_decode` of tx.c reads past the bytes that it was given.
use evm_db.Prelude.{ℕ, ◌+◌, ◌≤◌, ◌≡◌, refl, [], ◌∷◌, true, arith}
use evm_db.Prelude.Bytes.{Bytes}
use evm_db.Block.Rlp.Result.{ok, fault}
use evm_db.Block.Rlp.Reader.{decode_item, decode_prefix}
use evm_db.Block.Tx.{Tx, zero_tx, legacy}
use evm_db.Block.Tx.Decode.{tx_decode, decode_payload, decode_fields, decode_legacy, read_field}

prefix_only :
    (n : ℕ)
    → n ≤ 55
    → decode_item (record { memory = (0xc0 + n) ∷ []; pos = 0; len = 1 })
      ≡ ok (record { start = []; size = n }, record { memory = (0xc0 + n) ∷ []; pos = 1; len = 1 })
unfolding decode_item decode_prefix
prefix_only n h = ground arith

no_field :
    (n : ℕ) (tx : Tx)
    → 1 ≤ n
    → decode_legacy (λ k. true) tx (record { memory = []; pos = 0; len = n }) ≡ fault
unfolding decode_legacy read_field decode_item
no_field n tx h = ground arith

payload_fault :
    (n : ℕ) (raw : Bytes)
    → 1 ≤ n
    → n ≤ 55
    → decode_payload (λ k. true) legacy ((0xc0 + n) ∷ []) raw ≡ fault
unfolding decode_payload decode_fields
payload_fault n raw lo hi =
    rw (prefix_only n hi) (rw (no_field n (record zero_tx { type = legacy; raw = raw }) lo) refl)

-- Where malloc succeeds: the length in the header of the outer list is not compared with the bytes
-- that follow: on a single byte that announces a list of 1 to 55 bytes the decoder reads behind the
-- end of its input.
pub tx_decode-fault : (n : ℕ) → 1 ≤ n → n ≤ 55 → tx_decode (λ k. true) ((0xc0 + n) ∷ []) ≡ fault
unfolding tx_decode
tx_decode-fault n lo hi = ground (arith, payload_fault n ((0xc0 + n) ∷ []) lo hi)
