-- ===== src/Block/Tx/Decode.antt =====
-- `evmdb_tx_decode` of src/block/tx.c. `alloc n` says whether `malloc` of `n` bytes succeeds.
use evm_db.Prelude.{
  ℕ, ◌-◌, ◌/◌, [], ◌∷◌, Bool, true, false, Option, none, some, ltb, leb, ◌==◌, if◌then◌else◌,
  length,
}
use evm_db.Prelude.Bytes.{Bytes}
use evm_db.Core.Keccak.{keccak256}
use evm_db.Block.Rlp.Result.{Result, ok, err, fault, ◌>>=◌}
use evm_db.Block.Rlp.Reader.{
  Reader, Item, read_bytes, decode_item, to_uint64, to_bytes32, to_address,
}
use evm_db.Block.Tx.{TxType, legacy, eip2930, eip1559, Tx, zero_tx, zero20}

-- `if (rlp_decode_item(&lr, &item, &item_len) != 0) return -1;` and the conversion of the item.
unfoldable pub read_field {ℓ} : {A : Type ℓ} → (Item → Result A) → Reader → Result (A × Reader)
read_field convert lr = do (item, lr') ← decode_item lr; a ← convert item; ok (a, lr')

-- The recipient: an empty item is a contract creation.
unfoldable pub to_recipient : Item → Result (Bytes × Bool)
to_recipient item =
    if item.size == 0 then ok (zero20, true) else (to_address item >>= λ addr. ok (addr, false))

unfoldable pub copied : Option Bytes → Result Bytes
copied none = fault
copied (some bytes) = ok bytes

module _ (alloc : ℕ → Bool) where
  -- The calldata: where `malloc` fails the field stays empty.
  unfoldable pub to_payload : Item → Result Bytes
  to_payload item =
      if ltb 0 item.size
      then (if alloc item.size then copied (read_bytes item.size item.start) else ok [])
      else ok []

  unfoldable pub decode_eip1559 : Tx → Reader → Result Tx
  decode_eip1559 tx lr0 = do
    (chain_id, lr1) ← read_field to_uint64 lr0
    (nonce, lr2) ← read_field to_uint64 lr1
    (max_priority_fee, lr3) ← read_field to_bytes32 lr2
    (max_fee_per_gas, lr4) ← read_field to_bytes32 lr3
    (gas_limit, lr5) ← read_field to_uint64 lr4
    ((to, to_is_null), lr6) ← read_field to_recipient lr5
    (value, lr7) ← read_field to_bytes32 lr6
    (payload, lr8) ← read_field to_payload lr7
    (access_list, lr9) ← decode_item lr8
    (v, lr10) ← read_field to_uint64 lr9
    (r, lr11) ← read_field to_bytes32 lr10
    (s, lr12) ← read_field to_bytes32 lr11
    ok (record tx {
      chain_id = chain_id;
      nonce = nonce;
      max_priority_fee = max_priority_fee;
      max_fee_per_gas = max_fee_per_gas;
      gas_limit = gas_limit;
      to = to;
      to_is_null = to_is_null;
      value = value;
      payload = payload;
      v = v;
      r = r;
      s = s;
    })

  -- The chain id of a legacy transaction comes from `v`, as EIP-155 has it.
  unfoldable pub decode_legacy : Tx → Reader → Result Tx
  decode_legacy tx lr0 = do
    (nonce, lr1) ← read_field to_uint64 lr0
    (gas_price, lr2) ← read_field to_bytes32 lr1
    (gas_limit, lr3) ← read_field to_uint64 lr2
    ((to, to_is_null), lr4) ← read_field to_recipient lr3
    (value, lr5) ← read_field to_bytes32 lr4
    (payload, lr6) ← read_field to_payload lr5
    (v, lr7) ← read_field to_uint64 lr6
    (r, lr8) ← read_field to_bytes32 lr7
    (s, lr9) ← read_field to_bytes32 lr8
    ok (record tx {
      chain_id = if leb 35 v then (v - 35) / 2 else tx.chain_id;
      nonce = nonce;
      gas_price = gas_price;
      gas_limit = gas_limit;
      to = to;
      to_is_null = to_is_null;
      value = value;
      payload = payload;
      v = v;
      r = r;
      s = s;
    })

  -- The fields of each type; those of EIP-2930 are not read.
  unfoldable pub decode_fields : TxType → Tx → Reader → Result Tx
  decode_fields eip1559 tx lr = decode_eip1559 tx lr
  decode_fields legacy tx lr = decode_legacy tx lr
  decode_fields eip2930 tx lr = ok tx

  -- The outer list, its fields, and the hash of the raw bytes.
  unfoldable pub decode_payload : TxType → Bytes → Bytes → Result Tx
  decode_payload type payload raw = do
    (list, reader) ← decode_item (record { memory = payload; pos = 0; len = length payload })
    tx ←
        decode_fields type (record zero_tx { type = type; raw = raw })
          (record { memory = list.start; pos = 0; len = list.size })
    ok (record tx { hash = keccak256 raw })

  unfoldable pub tx_decode : Bytes → Result Tx
  tx_decode [] = err
  tx_decode (b ∷ bs) =
      if alloc (length (b ∷ bs))
      then (if b == 0x01
          then decode_payload eip2930 bs (b ∷ bs)
          else if b == 0x02
          then decode_payload eip1559 bs (b ∷ bs)
          else decode_payload legacy (b ∷ bs) (b ∷ bs))
      else err
