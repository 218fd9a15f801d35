-- ===== src/Examples/Block.antt =====
-- Inputs for tx.c.
use evm_db.Prelude.{
  ℕ, ◌^◌, ◌<◌, ◌≤◌, ◌≡◌, ◌⊎◌, refl, [], ◌∷◌, ◌++◌, some, true, false, take, drop, length, arith,
}
use evm_db.Prelude.Bytes.{Bytes}
use evm_db.Core.Keccak.{keccak256}
use evm_db.Block.Rlp.Result.{ok, err, fault}
use evm_db.Block.Rlp.Reader.{Reader}
use evm_db.Block.Rlp.Reading.{At}
use evm_db.Block.Rlp.Code.{
  trimmed, leading_zeros, be_bytes, big_endian, width, header, string_code, list_code,
}
use evm_db.Block.Tx.{Tx, eip2930, zero20, zero_tx}
use evm_db.Block.Tx.Decode.{tx_decode}
use evm_db.Block.Tx.Sign.{signing_hash, recover_sender, Recover}
use evm_db.Block.Tx.Encoding.{IsTx, signed_code, signing_code}
use evm_db.Block.Tx.RoundTrip.{tx_decode-signed_code}
use evm_db.Block.Tx.Signing.{signing_hash-signing_code}
use evm_db.Block.Tx.Faults.{tx_decode-fault}
use evm_db.Block.Tx.Sender.{recover_sender_lem}
use evm_db.Examples.Store.{alloc, word}

-- A legacy transaction with EIP-155.
abbrev pub transfer : Tx
transfer = record zero_tx {
  chain_id = 1;
  nonce = 9;
  gas_price = word;
  gas_limit = 21000;
  value = word;
  payload = 0x60 ∷ 0x00 ∷ [];
  v = 37;
  r = word;
  s = word;
}

pub transfer-IsTx : IsTx transfer
transfer-IsTx = record {
  chain_id = omega arith;
  nonce = omega arith;
  gas_price = refl;
  max_fee_per_gas = refl;
  max_priority_fee = refl;
  gas_limit = omega arith;
  recipient = refl;
  value = refl;
  payload = omega arith;
  v = omega arith;
  r = refl;
  s = refl;
  of_type = (refl, refl, refl);
}

transfer_fits : length (signed_code transfer) < 2 ^ 63
unfolding signed_code list_code string_code header trimmed leading_zeros be_bytes big_endian width
transfer_fits = omega arith

tx_decode-signed_code_example :
    tx_decode alloc (signed_code transfer)
    ≡ ok (record transfer {
      hash = keccak256 (signed_code transfer);
      sender = zero20;
      raw = signed_code transfer;
    })
tx_decode-signed_code_example =
    tx_decode-signed_code alloc transfer (λ n. refl) transfer-IsTx transfer_fits

signing_fits : length (signing_code transfer) ≤ 2 ^ 63
unfolding signing_code list_code string_code header trimmed leading_zeros be_bytes big_endian width
signing_fits = omega arith

signing_hash-signing_code_example :
    (signing_hash alloc transfer ≡ ok (keccak256 (signing_code transfer)))
    ⊎ ((signing_hash alloc transfer ≡ err)
        × (((n : ℕ) × (alloc n ≡ false)) ⊎ (transfer.type ≡ eip2930)))
signing_hash-signing_code_example = signing_hash-signing_code alloc transfer signing_fits

abbrev cat : Bytes
cat = 0x63 ∷ 0x61 ∷ 0x74 ∷ []

-- The code of `cat` and one more byte.
abbrev reader : Reader
reader = record { memory = string_code cat ++ 0x05 ∷ []; pos = 0; len = 5 }

reader-At : At reader (string_code cat ++ 0x05 ∷ [])
unfolding string_code header
reader-At = record { rest = refl; ends = refl; fits = omega arith }

abbrev one_item : Bytes
one_item = 0xc1 ∷ 0x05 ∷ []

one_item-list_code : one_item ≡ list_code (0x05 ∷ [])
unfolding list_code header
one_item-list_code = refl

tx_decode-fault_example : tx_decode (λ k. true) (0xc5 ∷ []) ≡ fault
tx_decode-fault_example = tx_decode-fault 5 (omega arith) (omega arith)

-- A library that finds the same key for every signature.
abbrev key : Bytes
key = 0x04 ∷ (word ++ word)

abbrev recover : Recover
recover signature parity hash = some key

recover_sender_lem_example :
    recover_sender alloc true recover transfer
    ≡ ok (true, record transfer { sender = drop 12 (keccak256 (take 64 (drop 1 key))) })
recover_sender_lem_example =
    recover_sender_lem alloc recover transfer 0 1 key (λ n. refl) refl signing_fits (omega arith)
      (omega arith) refl
