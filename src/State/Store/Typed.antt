-- ===== src/State/Store/Typed.antt =====
-- Which keys of redis_state.c hold strings: never an account or a storage key.
use evm_db.Prelude.{ℕ, ◌≡◌, refl, ap, ◌∙◌, List, true, false, if◌then◌else◌}
use evm_db.Prelude.Bytes.{Bytes}
use evm_db.Prelude.Text.{bytes_eq}
use evm_db.State.Redis.{Redis, Documented, hset, set}
use evm_db.State.Store.{
  Account, account_key, storage_key, code_key, receipt_key, block_key, set_account, set_balance,
  set_nonce, set_storage, set_code, set_receipt, set_block_number,
}

pub record IsTyped (redis : Redis) (docs : Documented redis) (s : redis.Store) : Type 0 where
  pub account : (addr : Bytes) → docs.is_text s (account_key addr) ≡ false
  pub storage : (addr : Bytes) → docs.is_text s (storage_key addr) ≡ false

module _ (redis : Redis) (docs : Documented redis) where
  open redis use {Store, run}

  code_apart :
      (a b : Bytes)
      → (bytes_eq (code_key a) (account_key b) ≡ false)
        × (bytes_eq (code_key a) (storage_key b) ≡ false)
  unfolding bytes_eq code_key account_key storage_key
  code_apart a b = (refl, refl)

  receipt_apart :
      (a b : Bytes)
      → (bytes_eq (receipt_key a) (account_key b) ≡ false)
        × (bytes_eq (receipt_key a) (storage_key b) ≡ false)
  unfolding bytes_eq receipt_key account_key storage_key
  receipt_apart a b = (refl, refl)

  block_apart :
      (b : Bytes)
      → (bytes_eq block_key (account_key b) ≡ false) × (bytes_eq block_key (storage_key b) ≡ false)
  unfolding bytes_eq account_key storage_key
  block_apart b = (refl, refl)

  hset-IsTyped :
      (s : Store) (k : Bytes) (fs : List (Bytes × Bytes))
      → IsTyped redis docs s
      → IsTyped redis docs (run (hset k fs) s).1
  hset-IsTyped s k fs h = record {
    account = λ b. docs.hset_is_text s k fs (account_key b) ∙ h.account b;
    storage = λ b. docs.hset_is_text s k fs (storage_key b) ∙ h.storage b;
  }

  set_other :
      (s : Store) (k v j : Bytes)
      → bytes_eq k j ≡ false
      → docs.is_text s j ≡ false
      → docs.is_text (run (set k v) s).1 j ≡ false
  set_other s k v j apart h =
      docs.set_is_text s k v j ∙ ap (λ b. if b then true else docs.is_text s j) apart ∙ h

  set-IsTyped :
      (s : Store) (k v : Bytes)
      → ((b : Bytes) → (bytes_eq k (account_key b) ≡ false) × (bytes_eq k (storage_key b) ≡ false))
      → IsTyped redis docs s
      → IsTyped redis docs (run (set k v) s).1
  set-IsTyped s k v apart h = record {
    account = λ b. set_other s k v (account_key b) (apart b).0 (h.account b);
    storage = λ b. set_other s k v (storage_key b) (apart b).1 (h.storage b);
  }

  -- Every setter keeps the strings and the hashes of the store apart.
  pub setters-IsTyped :
      (s : Store) (acct : Account) (addr key value bytes : Bytes) (n : ℕ)
      → IsTyped redis docs s
      → IsTyped redis docs (set_account redis acct s)
        × IsTyped redis docs (set_balance redis addr value s)
        × IsTyped redis docs (set_nonce redis addr n s)
        × IsTyped redis docs (set_storage redis addr key value s)
        × IsTyped redis docs (set_code redis addr bytes s)
        × IsTyped redis docs (set_receipt redis key bytes s)
        × IsTyped redis docs (set_block_number redis n s)
  unfolding set_account set_balance set_nonce set_storage set_code set_receipt set_block_number
  setters-IsTyped s acct addr key value bytes n h = (
    hset-IsTyped s _ _ h,
    hset-IsTyped s _ _ h,
    hset-IsTyped s _ _ h,
    hset-IsTyped s _ _ h,
    set-IsTyped s (code_key addr) bytes (code_apart addr) h,
    set-IsTyped s (receipt_key key) bytes (receipt_apart key) h,
    set-IsTyped s block_key _ block_apart h,
  )

  pub set_storage-IsTyped :
      (s : Store) (addr key value : Bytes)
      → IsTyped redis docs s
      → IsTyped redis docs (set_storage redis addr key value s)
  unfolding set_storage
  set_storage-IsTyped s addr key value h = hset-IsTyped s _ _ h
