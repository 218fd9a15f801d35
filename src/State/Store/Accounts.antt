-- ===== src/State/Store/Accounts.antt =====
-- Accounts of redis_state.c: what a getter returns after a setter.
use evm_db.Prelude.{
  ℕ, ◌<◌, ◌^◌, ◌≡◌, refl, sym, ap, ◌∙◌, List, [], ◌∷◌, Option, if◌then◌else◌, length, arith,
  Bool-cases, inl, inr,
}
use mathlib.Core.Path.{fun_ext}
use evm_db.Prelude.Bytes.{Bytes, IsArray}
use evm_db.Prelude.Text.{bytes_eq, bytes_eq→eq}
use evm_db.Core.Decimal
use evm_db.State.Redis.{Redis, Documented, hset, last_value, or_else}
use evm_db.State.Store.{
  Account, account_key, nonce_field, balance_field, codehash_field, bytes32_to_hex, hex_value,
  number_value, account_of, get_account, set_account, get_balance, set_balance, get_nonce,
  set_nonce,
}
use evm_db.State.Store.Keys.{account_key_eq, number_value-print, hex_value-bytes32_to_hex}
use evm_db.State.Store.Typed.{IsTyped, setters-IsTyped}

pub record IsAccount (acct : Account) : Type 0 where
  pub address : IsArray 20 acct.address
  pub nonce : acct.nonce < 2 ^ 64
  pub balance : IsArray 32 acct.balance
  pub code_hash : IsArray 32 acct.code_hash

-- The account in the store under an address, its fields read into `out`.
stored : (Bytes → Option Bytes) → Bytes → Account → Account
stored field addr out = record {
  address = addr;
  nonce = number_value (field nonce_field);
  balance = hex_value (field balance_field) out.balance;
  code_hash = hex_value (field codehash_field) out.code_hash;
}

written : Account → List (Bytes × Bytes)
written acct =
    (nonce_field, Decimal.print acct.nonce)
    ∷ (balance_field, bytes32_to_hex acct.balance)
    ∷ (codehash_field, bytes32_to_hex acct.code_hash)
    ∷ []

module _ (redis : Redis) (docs : Documented redis) where
  open redis use {Store, run}

  get_account_lem :
      (addr : Bytes) (out : Account) (s : Store)
      → IsTyped redis docs s
      → (get_account redis addr out s).0 ≡ stored (docs.field s (account_key addr)) addr out
  unfolding get_account account_of stored
  get_account_lem addr out s h =
      ap (λ r. account_of addr r out) (docs.hmget_answer s (account_key addr) _ (h.account addr))

  -- On a store whose account keys hold no strings, the getters of one field agree with the getter
  -- of the account, and none of them changes the store.
  pub get_account-agrees :
      (addr : Bytes) (out : Account) (s : Store)
      → IsTyped redis docs s
      → ((get_account redis addr out s).0.address ≡ addr)
        × ((get_account redis addr out s).0.nonce ≡ (get_nonce redis addr s).0)
        × ((get_account redis addr out s).0.balance ≡ (get_balance redis addr out.balance s).0)
        × ((get_account redis addr out s).1 ≡ s)
        × ((get_nonce redis addr s).1 ≡ s)
        × ((get_balance redis addr out.balance s).1 ≡ s)
  unfolding get_account get_nonce get_balance
  get_account-agrees addr out s h =
      let e = get_account_lem addr out s h in
      let k : Bytes = account_key addr in
      (
        ap (λ a. a.address) e ∙ unfold stored in refl,
        ap (λ a. a.nonce) e
            ∙ unfold stored in ap number_value (sym (docs.hget_answer s k nonce_field)),
        ap (λ a. a.balance) e
            ∙ unfold stored in
              ap (λ o. hex_value o out.balance) (sym (docs.hget_answer s k balance_field)),
        docs.hmget_store s k _,
        docs.hget_store s k nonce_field,
        docs.hget_store s k balance_field,
      )

  field_after :
      (a b : Bytes) (fs : List (Bytes × Bytes)) (f : Bytes) (s : Store)
      → IsArray 20 a
      → IsArray 20 b
      → IsTyped redis docs s
      → docs.field (run (hset (account_key a) fs) s).1 (account_key b) f ≡ (
          if bytes_eq a b
          then or_else (last_value f fs) (docs.field s (account_key b) f)
          else docs.field s (account_key b) f)
  field_after a b fs f s ha hb h =
      docs.hset_field s (account_key a) fs (account_key b) f (h.account a)
      ∙ ap
          (λ t.
            if t
            then or_else (last_value f fs) (docs.field s (account_key b) f)
            else docs.field s (account_key b) f)
          (account_key_eq a b ha hb)

  get_balance_lem :
      (addr out : Bytes) (s : Store)
      → (get_balance redis addr out s).0
        ≡ hex_value (docs.field s (account_key addr) balance_field) out
  unfolding get_balance
  get_balance_lem addr out s =
      ap (λ o. hex_value o out) (docs.hget_answer s (account_key addr) balance_field)

  get_nonce_lem :
      (addr : Bytes) (s : Store)
      → (get_nonce redis addr s).0 ≡ number_value (docs.field s (account_key addr) nonce_field)
  unfolding get_nonce
  get_nonce_lem addr s = ap number_value (docs.hget_answer s (account_key addr) nonce_field)

  -- For addresses of 20 bytes, words of 32, and a store whose account keys hold no strings: after
  -- `set_balance` that account has the new balance and every other account its old one; no nonce
  -- changes.
  pub get_balance-set_balance :
      (a b balance out : Bytes) (s : Store)
      → IsArray 20 a
      → IsArray 20 b
      → IsArray 32 balance
      → length out ≡ 32
      → IsTyped redis docs s
      → ((get_balance redis b out (set_balance redis a balance s)).0
          ≡ (if bytes_eq a b then balance else (get_balance redis b out s).0))
        × ((get_nonce redis b (set_balance redis a balance s)).0 ≡ (get_nonce redis b s).0)
  unfolding set_balance last_value or_else bytes_eq
  get_balance-set_balance a b balance out s ha hb hv size h = (
    ground (
      arith,
      get_balance_lem b out (set_balance redis a balance s),
      get_balance_lem b out s,
      field_after a b ((balance_field, bytes32_to_hex balance) ∷ []) balance_field s ha hb h,
      hex_value-bytes32_to_hex balance out hv size,
    ),
    ground (
      arith,
      get_nonce_lem b (set_balance redis a balance s),
      get_nonce_lem b s,
      field_after a b ((balance_field, bytes32_to_hex balance) ∷ []) nonce_field s ha hb h,
    ),
  )

  -- For addresses of 20 bytes, a nonce of 64 bits, and a store whose account keys hold no strings:
  -- after `set_nonce` that account has the new nonce and every other account its old one; no
  -- balance changes.
  pub get_nonce-set_nonce :
      (a b out : Bytes) (nonce : ℕ) (s : Store)
      → IsArray 20 a
      → IsArray 20 b
      → nonce < 2 ^ 64
      → IsTyped redis docs s
      → ((get_nonce redis b (set_nonce redis a nonce s)).0
          ≡ (if bytes_eq a b then nonce else (get_nonce redis b s).0))
        × ((get_balance redis b out (set_nonce redis a nonce s)).0 ≡ (get_balance redis b out s).0)
  unfolding set_nonce last_value or_else bytes_eq
  get_nonce-set_nonce a b out nonce s ha hb fits h = (
    ground (
      arith,
      get_nonce_lem b (set_nonce redis a nonce s),
      get_nonce_lem b s,
      field_after a b ((nonce_field, Decimal.print nonce) ∷ []) nonce_field s ha hb h,
      number_value-print nonce fits,
    ),
    ground (
      arith,
      get_balance_lem b out (set_nonce redis a nonce s),
      get_balance_lem b out s,
      field_after a b ((nonce_field, Decimal.print nonce) ∷ []) balance_field s ha hb h,
    ),
  )

  field_written :
      (acct : Account) (addr : Bytes) (f : Bytes) (s : Store)
      → IsAccount acct
      → IsArray 20 addr
      → IsTyped redis docs s
      → docs.field (set_account redis acct s) (account_key addr) f ≡ (
          if bytes_eq acct.address addr
          then or_else (last_value f (written acct)) (docs.field s (account_key addr) f)
          else docs.field s (account_key addr) f)
  unfolding set_account written
  field_written acct addr f s ha hb h =
      field_after acct.address addr (written acct) f s ha.address hb h

  -- The fields that `set_account` writes, read back.
  stored-written :
      (acct out : Account) (old : Bytes → Option Bytes)
      → IsAccount acct
      → length out.balance ≡ 32
      → length out.code_hash ≡ 32
      → stored (λ f. or_else (last_value f (written acct)) (old f)) acct.address out ≡ acct
  unfolding stored written last_value or_else bytes_eq
  stored-written acct out old h size size' = rw (number_value-print acct.nonce h.nonce) (
      rw (hex_value-bytes32_to_hex acct.balance out.balance h.balance size)
        (rw (hex_value-bytes32_to_hex acct.code_hash out.code_hash h.code_hash size') refl))

  -- For arrays of their sizes, a nonce of 64 bits, and a store whose account keys hold no strings:
  -- after `set_account` the account is read back as it was written, and every other account has its
  -- old value.
  pub get_account-set_account :
      (acct : Account) (addr : Bytes) (out : Account) (s : Store)
      → IsAccount acct
      → IsArray 20 addr
      → length out.balance ≡ 32
      → length out.code_hash ≡ 32
      → IsTyped redis docs s
      → (get_account redis addr out (set_account redis acct s)).0
        ≡ (if bytes_eq acct.address addr then acct else (get_account redis addr out s).0)
  get_account-set_account acct addr out s ha hb size size' h =
      let k : Bytes = account_key addr in
      let after : docs.field (set_account redis acct s) k ≡ (λ f.
        if bytes_eq acct.address addr
        then or_else (last_value f (written acct)) (docs.field s k f)
        else docs.field s k f) =
        fun_ext (λ f. field_written acct addr f s ha hb h) in
      get_account_lem addr out (set_account redis acct s)
        (setters-IsTyped redis docs s acct addr addr addr addr 0 h).0
      ∙ ap (λ g. stored g addr out) after
      ∙ elim (Bool-cases (bytes_eq acct.address addr)) [
        | inl e ↦ rw e (
            ap (λ a. stored (λ f. or_else (last_value f (written acct)) (docs.field s k f)) a out)
              (sym (bytes_eq→eq acct.address addr e))
            ∙ stored-written acct out (docs.field s k) ha size size')
        | inr e ↦ rw e (sym (get_account_lem addr out s h))
      ]
