-- ===== src/Block/Tx/Encoding.antt =====
-- The encodings that Ethereum defines for a transaction, without a buffer or a reader.
use evm_db.Prelude.{
  ℕ, ◌≡◌, ◌<◌, ◌^◌, ◌-◌, ◌/◌, [], ◌∷◌, ◌++◌, Bool, true, false, if◌then◌else◌, ◌==◌, leb, length,
}
use evm_db.Prelude.Bytes.{Bytes}
use evm_db.Block.Rlp.Code.{be_bytes, trimmed, string_code, list_code}
use evm_db.Block.Tx.{TxType, legacy, eip2930, eip1559, Tx, zero32, zero20}

abbrev pub number_code : ℕ → Bytes
number_code v = string_code (be_bytes v)

abbrev pub word_code : Bytes → Bytes
word_code bs = string_code (trimmed bs)

abbrev pub recipient_code : Bytes → Bool → Bytes
recipient_code to is_null = string_code (if is_null then [] else to)

-- The fields that are signed, with `rest` behind them.
abbrev pub eip1559_fields : Tx → Bytes → Bytes
eip1559_fields tx rest =
    number_code tx.chain_id
    ++ (number_code tx.nonce
        ++ (word_code tx.max_priority_fee
            ++ (word_code tx.max_fee_per_gas
                ++ (number_code tx.gas_limit
                    ++ (recipient_code tx.to tx.to_is_null
                        ++ (word_code tx.value
                            ++ (string_code tx.payload ++ (list_code [] ++ rest))))))))

abbrev pub legacy_fields : Tx → Bytes → Bytes
legacy_fields tx rest =
    number_code tx.nonce
    ++ (word_code tx.gas_price
        ++ (number_code tx.gas_limit
            ++ (recipient_code tx.to tx.to_is_null
                ++ (word_code tx.value ++ (string_code tx.payload ++ rest)))))

abbrev pub signature_code : Tx → Bytes
signature_code tx = number_code tx.v ++ (word_code tx.r ++ word_code tx.s)

-- What EIP-155 puts in the place of the signature.
abbrev pub replay_code : Tx → Bytes
replay_code tx =
    if tx.chain_id == 0
    then []
    else number_code tx.chain_id ++ (word_code zero32 ++ word_code zero32)

-- The list whose hash is signed.
abbrev pub signing_items : TxType → Tx → Bytes
signing_items eip1559 tx = eip1559_fields tx []
signing_items legacy tx = legacy_fields tx (replay_code tx)
signing_items eip2930 tx = []

-- The list that is sent.
abbrev pub signed_items : TxType → Tx → Bytes
signed_items eip1559 tx = eip1559_fields tx (signature_code tx)
signed_items legacy tx = legacy_fields tx (signature_code tx)
signed_items eip2930 tx = []

abbrev pub typed : TxType → Bytes → Bytes
typed legacy bytes = bytes
typed eip2930 bytes = 0x01 ∷ bytes
typed eip1559 bytes = 0x02 ∷ bytes

unfoldable pub signing_code : Tx → Bytes
signing_code tx = typed tx.type (list_code (signing_items tx.type tx))

unfoldable pub signed_code : Tx → Bytes
signed_code tx = typed tx.type (list_code (signed_items tx.type tx))

-- The values that the fields which one type has can take, and zeros in the others. The chain id of
-- a legacy transaction is the one in `v`.
abbrev pub IsTyped : TxType → Tx → Type 0
IsTyped eip1559 tx = tx.gas_price ≡ zero32
IsTyped legacy tx =
    (tx.max_fee_per_gas ≡ zero32)
    × (tx.max_priority_fee ≡ zero32)
    × (tx.chain_id ≡ (if leb 35 tx.v then (tx.v - 35) / 2 else 0))
IsTyped eip2930 tx = ⊥

abbrev pub IsRecipient : Bool → Bytes → Type 0
IsRecipient true to = to ≡ zero20
IsRecipient false to = length to ≡ 20

pub record IsTx (tx : Tx) : Type 0 where
  pub chain_id : tx.chain_id < 2 ^ 64
  pub nonce : tx.nonce < 2 ^ 64
  pub gas_price : length tx.gas_price ≡ 32
  pub max_fee_per_gas : length tx.max_fee_per_gas ≡ 32
  pub max_priority_fee : length tx.max_priority_fee ≡ 32
  pub gas_limit : tx.gas_limit < 2 ^ 64
  pub recipient : IsRecipient tx.to_is_null tx.to
  pub value : length tx.value ≡ 32
  pub payload : length tx.payload < 2 ^ 62
  pub v : tx.v < 2 ^ 64
  pub r : length tx.r ≡ 32
  pub s : length tx.s ≡ 32
  pub of_type : IsTyped tx.type tx
