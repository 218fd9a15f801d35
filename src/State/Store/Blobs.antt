-- ===== src/State/Store/Blobs.antt =====
-- Code, receipts and the block number of redis_state.c: what a getter returns after a setter.
use evm_db.Prelude.{
  ℕ, ◌+◌, ◌%◌, ◌^◌, ◌<◌, ◌≡◌, refl, sym, ap, ◌∙◌, none, some, Bool, true, false, if◌then◌else◌,
  length, arith,
}
use evm_db.Prelude.Bytes.{Bytes, IsArray}
use evm_db.Prelude.Text.{bytes_eq}
use evm_db.Core.Decimal
use evm_db.State.Redis.{Redis, Documented}
use evm_db.State.Store.{
  blob, number_value, code_key, receipt_key, block_key, get_code, set_code, get_receipt,
  set_receipt, get_block_number, set_block_number, get_nonce, get_balance, hex_value, account_key,
  nonce_field, balance_field,
}
use evm_db.State.Store.Keys.{code_key_eq, receipt_key_eq, number_value-print}

module _ (redis : Redis) (docs : Documented redis) where
  open redis use {Store, run}

  get_code_lem :
      (alloc : ℕ → Bool) (addr : Bytes) (s : Store)
      → (get_code redis alloc addr s).0 ≡ blob alloc 1 (docs.text s (code_key addr))
  unfolding get_code
  get_code_lem alloc addr s = ap (blob alloc 1) (docs.get_answer s (code_key addr))

  get_receipt_lem :
      (alloc : ℕ → Bool) (tx_hash : Bytes) (s : Store)
      → (get_receipt redis alloc tx_hash s).0 ≡ blob alloc 0 (docs.text s (receipt_key tx_hash))
  unfolding get_receipt
  get_receipt_lem alloc tx_hash s = ap (blob alloc 0) (docs.get_answer s (receipt_key tx_hash))

  get_block_number_lem :
      (s : Store) → (get_block_number redis s).0 ≡ number_value (docs.text s block_key)
  unfolding get_block_number
  get_block_number_lem s = ap number_value (docs.get_answer s block_key)

  text_apart :
      (a u : Bytes)
      → (bytes_eq (code_key a) (receipt_key u) ≡ false)
        × (bytes_eq (receipt_key u) block_key ≡ false)
        × (bytes_eq block_key (code_key a) ≡ false)
        × (bytes_eq block_key (receipt_key u) ≡ false)
        × (bytes_eq block_key block_key ≡ true)
  unfolding bytes_eq code_key receipt_key
  text_apart a u = (refl, refl, refl, refl, refl)

  -- For addresses of 20 bytes: after `set_code` that address has the new code (copied, if memory
  -- can be had for it and the NUL behind it) and every other address its old code. No receipt
  -- changes.
  pub get_code-set_code :
      (alloc : ℕ → Bool) (a b code tx_hash : Bytes) (s : Store)
      → IsArray 20 a
      → IsArray 20 b
      → ((get_code redis alloc b (set_code redis a code s)).0 ≡ (
          if bytes_eq a b
          then record {
            content = if alloc ((length code + 1) % 2 ^ 64) then some code else none;
            len = length code;
          }
          else (get_code redis alloc b s).0))
        × ((get_receipt redis alloc tx_hash (set_code redis a code s)).0
            ≡ (get_receipt redis alloc tx_hash s).0)
  unfolding set_code blob
  get_code-set_code alloc a b code tx_hash s ha hb = (
    ground (
      arith,
      get_code_lem alloc b (set_code redis a code s),
      get_code_lem alloc b s,
      docs.set_text s (code_key a) code (code_key b),
      code_key_eq a b ha hb,
    ),
    ground (
      arith,
      get_receipt_lem alloc tx_hash (set_code redis a code s),
      get_receipt_lem alloc tx_hash s,
      docs.set_text s (code_key a) code (receipt_key tx_hash),
      text_apart a tx_hash,
    ),
  )

  -- For hashes of 32 bytes: after `set_receipt` that hash has the new receipt and every other hash
  -- its old one. The block number does not change.
  pub get_receipt-set_receipt :
      (alloc : ℕ → Bool) (t u bytes : Bytes) (s : Store)
      → IsArray 32 t
      → IsArray 32 u
      → ((get_receipt redis alloc u (set_receipt redis t bytes s)).0 ≡ (
          if bytes_eq t u
          then record {
            content = if alloc ((length bytes + 0) % 2 ^ 64) then some bytes else none;
            len = length bytes;
          }
          else (get_receipt redis alloc u s).0))
        × ((get_block_number redis (set_receipt redis t bytes s)).0 ≡ (get_block_number redis s).0)
  unfolding set_receipt blob
  get_receipt-set_receipt alloc t u bytes s ht hu = (
    ground (
      arith,
      get_receipt_lem alloc u (set_receipt redis t bytes s),
      get_receipt_lem alloc u s,
      docs.set_text s (receipt_key t) bytes (receipt_key u),
      receipt_key_eq t u ht hu,
    ),
    ground (
      arith,
      get_block_number_lem (set_receipt redis t bytes s),
      get_block_number_lem s,
      docs.set_text s (receipt_key t) bytes block_key,
      text_apart t t,
    ),
  )

  -- A block number below 2 ^ 64 is read back as it was set; setting it changes no code and no
  -- receipt.
  pub get_block_number-set_block_number :
      (alloc : ℕ → Bool) (n : ℕ) (addr tx_hash : Bytes) (s : Store)
      → n < 2 ^ 64
      → ((get_block_number redis (set_block_number redis n s)).0 ≡ n)
        × ((get_code redis alloc addr (set_block_number redis n s)).0
            ≡ (get_code redis alloc addr s).0)
        × ((get_receipt redis alloc tx_hash (set_block_number redis n s)).0
            ≡ (get_receipt redis alloc tx_hash s).0)
  unfolding set_block_number
  get_block_number-set_block_number alloc n addr tx_hash s h = (
    ground (
      arith,
      get_block_number_lem (set_block_number redis n s),
      docs.set_text s block_key (Decimal.print n) block_key,
      text_apart addr tx_hash,
      number_value-print n h,
    ),
    ground (
      arith,
      get_code_lem alloc addr (set_block_number redis n s),
      get_code_lem alloc addr s,
      docs.set_text s block_key (Decimal.print n) (code_key addr),
      text_apart addr tx_hash,
    ),
    ground (
      arith,
      get_receipt_lem alloc tx_hash (set_block_number redis n s),
      get_receipt_lem alloc tx_hash s,
      docs.set_text s block_key (Decimal.print n) (receipt_key tx_hash),
      text_apart addr tx_hash,
    ),
  )

  code_field :
      (a b code f : Bytes) (s : Store)
      → docs.field (set_code redis a code s) (account_key b) f ≡ docs.field s (account_key b) f
  unfolding set_code code_key account_key bytes_eq
  code_field a b code f s = docs.set_field s (code_key a) code (account_key b) f

  -- `set_code` changes no nonce and no balance.
  pub accounts-set_code :
      (a b code out : Bytes) (s : Store)
      → ((get_nonce redis b (set_code redis a code s)).0 ≡ (get_nonce redis b s).0)
        × ((get_balance redis b out (set_code redis a code s)).0 ≡ (get_balance redis b out s).0)
  unfolding get_nonce get_balance
  accounts-set_code a b code out s = (
    ap number_value (
        docs.hget_answer (set_code redis a code s) (account_key b) nonce_field
        ∙ code_field a b code nonce_field s
        ∙ sym (docs.hget_answer s (account_key b) nonce_field)),
    ap (λ o. hex_value o out)
        (docs.hget_answer (set_code redis a code s) (account_key b) balance_field
          ∙ code_field a b code balance_field s
          ∙ sym (docs.hget_answer s (account_key b) balance_field)),
  )
