-- ===== src/State/Store/Storage.antt =====
-- Storage slots of redis_state.c: what `get_storage` returns after a setter.
use evm_db.Prelude.{◌≡◌, sym, ap, ◌∙◌, [], ◌∷◌, some, if◌then◌else◌, ◌&&◌, length, arith}
use evm_db.Prelude.Bytes.{Bytes, IsArray}
use evm_db.Prelude.Text.{bytes_eq}
use evm_db.State.Redis.{Redis, Documented, last_value, or_else}
use evm_db.State.Store.{
  storage_key, account_key, bytes32_to_hex, hex_value, get_storage, set_storage, get_balance,
  get_nonce, number_value, nonce_field, balance_field,
}
use evm_db.State.Store.Keys.{storage_key_eq, bytes32_to_hex_eq, hex_value-bytes32_to_hex}
use evm_db.State.Store.Typed.{IsTyped}

module _ (redis : Redis) (docs : Documented redis) where
  open redis use {Store, run}

  get_storage_lem :
      (addr key out : Bytes) (s : Store)
      → (get_storage redis addr key out s).0
        ≡ hex_value (docs.field s (storage_key addr) (bytes32_to_hex key)) out
  unfolding get_storage
  get_storage_lem addr key out s =
      ap (λ o. hex_value o out) (docs.hget_answer s (storage_key addr) (bytes32_to_hex key))

  slot_after :
      (a b k j value : Bytes) (s : Store)
      → IsArray 20 a
      → IsArray 20 b
      → IsArray 32 k
      → IsArray 32 j
      → IsTyped redis docs s
      → docs.field (set_storage redis a k value s) (storage_key b) (bytes32_to_hex j) ≡ (
          if bytes_eq a b && bytes_eq k j
          then some (bytes32_to_hex value)
          else docs.field s (storage_key b) (bytes32_to_hex j))
  unfolding set_storage last_value or_else
  slot_after a b k j value s ha hb hk hj h = ground (
    arith,
    docs.hset_field s (storage_key a) ((bytes32_to_hex k, bytes32_to_hex value) ∷ [])
        (storage_key b) (bytes32_to_hex j) (h.storage a),
    storage_key_eq a b ha hb,
    bytes32_to_hex_eq k j hk hj,
  )

  -- For arrays of their sizes and a store whose storage keys hold no strings: after `set_storage`
  -- that slot of that address has the new value, and every other slot, of this or another address,
  -- its old one.
  pub get_storage-set_storage :
      (a b k j value out : Bytes) (s : Store)
      → IsArray 20 a
      → IsArray 20 b
      → IsArray 32 k
      → IsArray 32 j
      → IsArray 32 value
      → length out ≡ 32
      → IsTyped redis docs s
      → (get_storage redis b j out (set_storage redis a k value s)).0
        ≡ (if bytes_eq a b && bytes_eq k j then value else (get_storage redis b j out s).0)
  get_storage-set_storage a b k j value out s ha hb hk hj hv size h = ground (
    arith,
    get_storage_lem b j out (set_storage redis a k value s),
    get_storage_lem b j out s,
    slot_after a b k j value s ha hb hk hj h,
    hex_value-bytes32_to_hex value out hv size,
  )

  account_field :
      (a b k value f : Bytes) (s : Store)
      → IsTyped redis docs s
      → docs.field (set_storage redis a k value s) (account_key b) f
        ≡ docs.field s (account_key b) f
  unfolding set_storage storage_key account_key bytes_eq
  account_field a b k value f s h =
      docs.hset_field s (storage_key a) ((bytes32_to_hex k, bytes32_to_hex value) ∷ [])
        (account_key b) f (h.storage a)

  -- `set_storage` changes no nonce and no balance.
  pub accounts-set_storage :
      (a b k value out : Bytes) (s : Store)
      → IsTyped redis docs s
      → ((get_nonce redis b (set_storage redis a k value s)).0 ≡ (get_nonce redis b s).0)
        × ((get_balance redis b out (set_storage redis a k value s)).0
            ≡ (get_balance redis b out s).0)
  unfolding get_nonce get_balance
  accounts-set_storage a b k value out s h = (
    ap number_value (
        docs.hget_answer (set_storage redis a k value s) (account_key b) nonce_field
        ∙ same_field nonce_field
        ∙ sym (docs.hget_answer s (account_key b) nonce_field)),
    ap (λ o. hex_value o out)
        (docs.hget_answer (set_storage redis a k value s) (account_key b) balance_field
          ∙ same_field balance_field
          ∙ sym (docs.hget_answer s (account_key b) balance_field)),
  )
    where
      same_field :
          (f : Bytes)
          → docs.field (set_storage redis a k value s) (account_key b) f
            ≡ docs.field s (account_key b) f
      same_field f = account_field a b k value f s h
