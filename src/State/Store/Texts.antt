-- ===== src/State/Store/Texts.antt =====
-- A receipt or a block number of redis_state.c leaves every account as it is.
use evm_db.Prelude.{ℕ, ◌≡◌, refl, sym, ap, ◌∙◌, none, false, if◌then◌else◌}
use evm_db.Prelude.Bytes.{Bytes}
use evm_db.Prelude.Text.{bytes_eq}
use evm_db.State.Redis.{Redis, Documented, set}
use evm_db.State.Store.{
  number_value, hex_value, account_key, receipt_key, block_key, nonce_field, balance_field,
  get_nonce, get_balance, set_receipt, set_block_number,
}

module _ (redis : Redis) (docs : Documented redis) where
  open redis use {Store, run}

  field_kept :
      (k v b f : Bytes) (s : Store)
      → bytes_eq k (account_key b) ≡ false
      → docs.field (run (set k v) s).1 (account_key b) f ≡ docs.field s (account_key b) f
  field_kept k v b f s apart =
      docs.set_field s k v (account_key b) f
      ∙ ap (λ c. if c then none else docs.field s (account_key b) f) apart

  accounts-set :
      (k v b out : Bytes) (s : Store)
      → bytes_eq k (account_key b) ≡ false
      → ((get_nonce redis b (run (set k v) s).1).0 ≡ (get_nonce redis b s).0)
        × ((get_balance redis b out (run (set k v) s).1).0 ≡ (get_balance redis b out s).0)
  unfolding get_nonce get_balance
  accounts-set k v b out s apart = (
    ap number_value (
        docs.hget_answer (run (set k v) s).1 (account_key b) nonce_field
        ∙ field_kept k v b nonce_field s apart
        ∙ sym (docs.hget_answer s (account_key b) nonce_field)),
    ap (λ o. hex_value o out)
        (docs.hget_answer (run (set k v) s).1 (account_key b) balance_field
          ∙ field_kept k v b balance_field s apart
          ∙ sym (docs.hget_answer s (account_key b) balance_field)),
  )

  keys_apart :
      (t b : Bytes)
      → (bytes_eq (receipt_key t) (account_key b) ≡ false)
        × (bytes_eq block_key (account_key b) ≡ false)
  unfolding bytes_eq receipt_key account_key
  keys_apart t b = (refl, refl)

  pub accounts-set_receipt :
      (t bytes b out : Bytes) (s : Store)
      → ((get_nonce redis b (set_receipt redis t bytes s)).0 ≡ (get_nonce redis b s).0)
        × ((get_balance redis b out (set_receipt redis t bytes s)).0
            ≡ (get_balance redis b out s).0)
  unfolding set_receipt
  accounts-set_receipt t bytes b out s =
      accounts-set (receipt_key t) bytes b out s (keys_apart t b).0

  pub accounts-set_block_number :
      (n : ℕ) (b out : Bytes) (s : Store)
      → ((get_nonce redis b (set_block_number redis n s)).0 ≡ (get_nonce redis b s).0)
        × ((get_balance redis b out (set_block_number redis n s)).0 ≡ (get_balance redis b out s).0)
  unfolding set_block_number
  accounts-set_block_number n b out s = accounts-set block_key _ b out s (keys_apart b b).1
