-- ===== src/Block/Tx/RoundTrip.antt =====
-- `evmdb_tx_decode` reads back the transactions that Ethereum's encoding writes.
use evm_db.Prelude.{
  ℕ, ◌≡◌, ◌<◌, ◌^◌, ◌-◌, ◌/◌, [], ◌∷◌, Bool, true, if◌then◌else◌, leb, length, refl, sym, ap, arith,
  append-nil,
}
use evm_db.Prelude.Bytes.{Bytes}
use evm_db.Core.Keccak.{keccak256}
use evm_db.Block.Rlp.Result.{ok}
use evm_db.Block.Rlp.Reader.{Reader}
use evm_db.Block.Rlp.Code.{list_code, length-list_code, list_code_head}
use evm_db.Block.Rlp.Reading.{At}
use evm_db.Block.Rlp.Fields.{decode_item-list_code}
use evm_db.Block.Tx.{TxType, legacy, eip2930, eip1559, Tx, zero20}
use evm_db.Block.Tx.Encoding.{
  IsTx, IsTyped, typed, eip1559_fields, legacy_fields, signature_code, signed_items, signed_code,
}
use evm_db.Block.Tx.Decode.{decode_eip1559, decode_legacy, decode_fields, decode_payload, tx_decode}
use evm_db.Block.Tx.Fields.{
  number_Reads, word_Reads, recipient_Reads, payload_Reads, access_list_Reads, after_field,
}

-- The reader of the contents.
inner_At :
    (items payload : Bytes)
    → payload ≡ list_code items
    → length payload < 2 ^ 63
    → At (record { memory = items; pos = 0; len = length items }) items
inner_At items payload e fits = record {
  rest = refl;
  ends = omega arith;
  fits = omega (arith, ap length e, length-list_code items);
}

module _ (alloc : ℕ → Bool) (good : (n : ℕ) → alloc n ≡ true) (tx : Tx) (h : IsTx tx) where
  decode_eip1559-fields :
      (start : Tx) (lr : Reader)
      → At lr (eip1559_fields tx (signature_code tx))
      → decode_eip1559 alloc start lr
        ≡ ok (record start {
          chain_id = tx.chain_id;
          nonce = tx.nonce;
          max_priority_fee = tx.max_priority_fee;
          max_fee_per_gas = tx.max_fee_per_gas;
          gas_limit = tx.gas_limit;
          to = tx.to;
          to_is_null = tx.to_is_null;
          value = tx.value;
          payload = tx.payload;
          v = tx.v;
          r = tx.r;
          s = tx.s;
        })
  unfolding decode_eip1559
  decode_eip1559-fields start lr at =
      after_field _ _ (number_Reads lr tx.chain_id _ h.chain_id at) λ lr1 at1.
        after_field _ _ (number_Reads lr1 tx.nonce _ h.nonce at1) λ lr2 at2.
          after_field _ _ (word_Reads lr2 tx.max_priority_fee _ h.max_priority_fee at2) λ lr3 at3.
            after_field _ _ (word_Reads lr3 tx.max_fee_per_gas _ h.max_fee_per_gas at3) λ lr4 at4.
              after_field _ _ (number_Reads lr4 tx.gas_limit _ h.gas_limit at4) λ lr5 at5.
                after_field _ _ (recipient_Reads lr5 tx.to tx.to_is_null _ h.recipient at5)
                  λ lr6 at6. after_field _ _ (word_Reads lr6 tx.value _ h.value at6) λ lr7 at7.
                    after_field _ _ (payload_Reads alloc lr7 tx.payload _ good h.payload at7)
                      λ lr8 at8.
                        let (item, lr9, e9, at9) = access_list_Reads lr8 _ at8 in
                        rw e9 (
                          after_field _ _ (number_Reads lr9 tx.v _ h.v at9) λ lr10 at10.
                            after_field _ _ (word_Reads lr10 tx.r _ h.r at10) λ lr11 at11.
                              after_field _ _ (word_Reads lr11 tx.s [] h.s (rw append-nil at11))
                                λ lr12 at12. refl)

  decode_legacy-fields :
      (start : Tx) (lr : Reader)
      → At lr (legacy_fields tx (signature_code tx))
      → decode_legacy alloc start lr
        ≡ ok (record start {
          chain_id = if leb 35 tx.v then (tx.v - 35) / 2 else start.chain_id;
          nonce = tx.nonce;
          gas_price = tx.gas_price;
          gas_limit = tx.gas_limit;
          to = tx.to;
          to_is_null = tx.to_is_null;
          value = tx.value;
          payload = tx.payload;
          v = tx.v;
          r = tx.r;
          s = tx.s;
        })
  unfolding decode_legacy
  decode_legacy-fields start lr at =
      after_field _ _ (number_Reads lr tx.nonce _ h.nonce at) λ lr1 at1.
        after_field _ _ (word_Reads lr1 tx.gas_price _ h.gas_price at1) λ lr2 at2.
          after_field _ _ (number_Reads lr2 tx.gas_limit _ h.gas_limit at2) λ lr3 at3.
            after_field _ _ (recipient_Reads lr3 tx.to tx.to_is_null _ h.recipient at3) λ lr4 at4.
              after_field _ _ (word_Reads lr4 tx.value _ h.value at4) λ lr5 at5.
                after_field _ _ (payload_Reads alloc lr5 tx.payload _ good h.payload at5) λ lr6 at6.
                  after_field _ _ (number_Reads lr6 tx.v _ h.v at6) λ lr7 at7.
                    after_field _ _ (word_Reads lr7 tx.r _ h.r at7) λ lr8 at8.
                      after_field _ _ (word_Reads lr8 tx.s [] h.s (rw append-nil at8))
                        λ lr9 at9. refl

  -- The transaction as `evmdb_tx_decode` returns it.
  abbrev pub decoded : Bytes → Tx
  decoded raw = record tx { hash = keccak256 raw; sender = zero20; raw = raw }

  decode_payload-list_code :
      (type : TxType) (payload raw : Bytes)
      → tx.type ≡ type
      → payload ≡ list_code (signed_items type tx)
      → IsTyped type tx
      → length payload < 2 ^ 63
      → decode_payload alloc type payload raw ≡ ok (decoded raw)
  unfolding decode_payload decode_fields
  decode_payload-list_code eip1559 payload raw same e of_type fits =
      let (r', found) = decode_item-list_code payload (signed_items eip1559 tx) e fits in
      rw found (
        rw (decode_eip1559-fields _ _ (inner_At _ payload e fits))
          (λ i. ok (record (decoded raw) { type = sym same i; gas_price = sym of_type i })))
  decode_payload-list_code legacy payload raw same e of_type fits =
      let (r', found) = decode_item-list_code payload (signed_items legacy tx) e fits in
      rw found (
        rw (decode_legacy-fields _ _ (inner_At _ payload e fits)) (λ i. ok (record (decoded raw) {
          type = sym same i;
          chain_id = sym (of_type.2) i;
          max_fee_per_gas = sym (of_type.0) i;
          max_priority_fee = sym (of_type.1) i;
        })))
  decode_payload-list_code eip2930 payload raw same e of_type fits = absurd of_type

  tx_decode-typed :
      (type : TxType) (raw : Bytes)
      → tx.type ≡ type
      → raw ≡ typed type (list_code (signed_items type tx))
      → IsTyped type tx
      → length raw < 2 ^ 63
      → tx_decode alloc raw ≡ ok (decoded raw)
  unfolding tx_decode
  tx_decode-typed eip1559 [] same e of_type fits = cc
  tx_decode-typed eip1559 (b ∷ bs) same e of_type fits =
      let marker : b ≡ 0x02 = cc in
      ground (
        arith,
        good (length (b ∷ bs)),
        marker,
        decode_payload-list_code eip1559 bs (b ∷ bs) same (cc) of_type (omega arith),
      )
  tx_decode-typed legacy [] same e of_type fits =
      let (x, xs, head, le) = list_code_head (signed_items legacy tx) in cc
  tx_decode-typed legacy (b ∷ bs) same e of_type fits =
      let (x, xs, head, le) = list_code_head (signed_items legacy tx) in
      let marker : b ≡ x = cc in
      ground (
        arith,
        good (length (b ∷ bs)),
        marker,
        le,
        decode_payload-list_code legacy (b ∷ bs) (b ∷ bs) same e of_type fits,
      )
  tx_decode-typed eip2930 raw same e of_type fits = absurd of_type

-- For a legacy or an EIP-1559 transaction whose numbers fit 64 bits, whose words have 32 bytes and
-- whose recipient has 20 bytes or is absent, with the empty access list: where every allocation
-- succeeds and the encoding is shorter than 2 ^ 63 bytes, `evmdb_tx_decode` of the encoding returns
-- the transaction, with the hash of the encoding, the encoding itself, and no sender yet.
pub tx_decode-signed_code :
    (alloc : ℕ → Bool) (tx : Tx)
    → ((n : ℕ) → alloc n ≡ true)
    → IsTx tx
    → length (signed_code tx) < 2 ^ 63
    → tx_decode alloc (signed_code tx)
      ≡ ok (record tx { hash = keccak256 (signed_code tx); sender = zero20; raw = signed_code tx })
tx_decode-signed_code alloc tx good h fits =
    tx_decode-typed alloc good tx h tx.type (signed_code tx) refl (unfold signed_code in refl)
      h.of_type fits
