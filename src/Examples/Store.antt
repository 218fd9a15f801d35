-- ===== src/Examples/Store.antt =====
-- Inputs for redis_state.c, on the server in memory.
use evm_db.Prelude.{
  ℕ, ◌+◌, ◌%◌, ◌^◌, ◌≡◌, refl, [], ◌∷◌, none, some, Bool, true, ◌&&◌, if◌then◌else◌, replicate,
  arith,
}
use evm_db.Prelude.Bytes.{Bytes, IsArray}
use evm_db.Prelude.Text.{bytes_eq}
use evm_db.Block.Tx.{zero20, zero32}
use evm_db.State.Redis.Memory.{Table, memory, memory-Documented, memory_empty}
use evm_db.State.Store.{
  Account, get_account, set_account, get_balance, set_balance, get_nonce, set_nonce, get_storage,
  set_storage, get_code, set_code, get_receipt, set_receipt, get_block_number, set_block_number,
  account_key, storage_key,
}
use evm_db.State.Store.Typed.{IsTyped, setters-IsTyped}
use evm_db.State.Store.Accounts.{IsAccount, get_account-set_account, get_nonce-set_nonce}
use evm_db.State.Store.Storage.{get_storage-set_storage}
use evm_db.State.Store.Blobs.{
  get_code-set_code, get_receipt-set_receipt, get_block_number-set_block_number,
}

abbrev pub alloc : ℕ → Bool
alloc n = true

abbrev pub word : Bytes
word = 0x80 ∷ replicate 31 0

abbrev account : Account
account = record { address = zero20; nonce = 7; balance = word; code_hash = zero32 }

abbrev pub blank : Account
blank = record { address = zero20; nonce = 0; balance = zero32; code_hash = zero32 }

-- One account with a nonce.
abbrev pub store : Table
store = set_nonce memory zero20 3 []

pub empty-IsTyped : IsTyped memory memory-Documented []
empty-IsTyped = record {
  account = λ addr. memory_empty (account_key addr);
  storage = λ addr. memory_empty (storage_key addr);
}

pub store-IsTyped : IsTyped memory memory-Documented store
store-IsTyped =
    let (h0, h1, h2, h3, h4, h5, h6) =
      setters-IsTyped memory memory-Documented [] blank zero20 [] [] [] 3 empty-IsTyped in
    h2

pub zero20-IsArray : IsArray 20 zero20
zero20-IsArray = record { size = refl; bytes = ground arith }

pub zero32-IsArray : IsArray 32 zero32
zero32-IsArray = record { size = refl; bytes = ground arith }

pub word-IsArray : IsArray 32 word
word-IsArray = record { size = refl; bytes = ground arith }

account-IsAccount : IsAccount account
account-IsAccount = record {
  address = zero20-IsArray;
  nonce = omega arith;
  balance = word-IsArray;
  code_hash = zero32-IsArray;
}

setters-IsTyped_example :
    IsTyped memory memory-Documented (set_account memory account store)
    × IsTyped memory memory-Documented (set_balance memory zero20 word store)
    × IsTyped memory memory-Documented (set_nonce memory zero20 9 store)
    × IsTyped memory memory-Documented (set_storage memory zero20 zero32 word store)
    × IsTyped memory memory-Documented (set_code memory zero20 (0x60 ∷ []) store)
    × IsTyped memory memory-Documented (set_receipt memory zero32 (0x60 ∷ []) store)
    × IsTyped memory memory-Documented (set_block_number memory 9 store)
setters-IsTyped_example =
    setters-IsTyped memory memory-Documented store account zero20 zero32 word (0x60 ∷ []) 9
      store-IsTyped

get_account-set_account_example :
    (get_account memory zero20 blank (set_account memory account store)).0
    ≡ (if bytes_eq zero20 zero20 then account else (get_account memory zero20 blank store).0)
get_account-set_account_example =
    get_account-set_account memory memory-Documented account zero20 blank store account-IsAccount
      zero20-IsArray refl refl store-IsTyped

get_nonce-set_nonce_example :
    ((get_nonce memory zero20 (set_nonce memory zero20 9 store)).0
      ≡ (if bytes_eq zero20 zero20 then 9 else (get_nonce memory zero20 store).0))
    × ((get_balance memory zero20 zero32 (set_nonce memory zero20 9 store)).0
        ≡ (get_balance memory zero20 zero32 store).0)
get_nonce-set_nonce_example =
    get_nonce-set_nonce memory memory-Documented zero20 zero20 zero32 9 store zero20-IsArray
      zero20-IsArray (omega arith) store-IsTyped

get_storage-set_storage_example :
    (get_storage memory zero20 zero32 zero32 (set_storage memory zero20 word word store)).0 ≡ (
      if bytes_eq zero20 zero20 && bytes_eq word zero32
      then word
      else (get_storage memory zero20 zero32 zero32 store).0)
get_storage-set_storage_example =
    get_storage-set_storage memory memory-Documented zero20 zero20 word zero32 word zero32 store
      zero20-IsArray zero20-IsArray word-IsArray zero32-IsArray word-IsArray refl store-IsTyped

get_code-set_code_example :
    ((get_code memory alloc zero20 (set_code memory zero20 (0x60 ∷ []) store)).0 ≡ (
      if bytes_eq zero20 zero20
      then record { content = if alloc ((1 + 1) % 2 ^ 64) then some (0x60 ∷ []) else none; len = 1 }
      else (get_code memory alloc zero20 store).0))
    × ((get_receipt memory alloc word (set_code memory zero20 (0x60 ∷ []) store)).0
        ≡ (get_receipt memory alloc word store).0)
get_code-set_code_example =
    get_code-set_code memory memory-Documented alloc zero20 zero20 (0x60 ∷ []) word store
      zero20-IsArray zero20-IsArray

get_receipt-set_receipt_example :
    ((get_receipt memory alloc word (set_receipt memory zero32 (0x60 ∷ []) store)).0 ≡ (
      if bytes_eq zero32 word
      then record { content = if alloc ((1 + 0) % 2 ^ 64) then some (0x60 ∷ []) else none; len = 1 }
      else (get_receipt memory alloc word store).0))
    × ((get_block_number memory (set_receipt memory zero32 (0x60 ∷ []) store)).0
        ≡ (get_block_number memory store).0)
get_receipt-set_receipt_example =
    get_receipt-set_receipt memory memory-Documented alloc zero32 word (0x60 ∷ []) store
      zero32-IsArray word-IsArray

get_block_number-set_block_number_example :
    ((get_block_number memory (set_block_number memory 12 store)).0 ≡ 12)
    × ((get_code memory alloc zero20 (set_block_number memory 12 store)).0
        ≡ (get_code memory alloc zero20 store).0)
    × ((get_receipt memory alloc word (set_block_number memory 12 store)).0
        ≡ (get_receipt memory alloc word store).0)
get_block_number-set_block_number_example =
    get_block_number-set_block_number memory memory-Documented alloc 12 zero20 word store
      (omega arith)
