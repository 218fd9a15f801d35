-- ===== src/Examples/Evm.antt =====
-- Inputs for gas.c, for the overlay of executor.c and for the address of a new contract.
use evm_db.Prelude.{
  ◌<◌, ◌≡◌, ◌↔◌, refl, [], ◌∷◌, ◌++◌, none, some, ◌&&◌, if◌then◌else◌, take, drop, arith,
}
use evm_db.Prelude.Bytes.{Bytes}
use evm_db.Prelude.Text.{bytes_eq}
use evm_db.Block.Tx.{zero20, zero32}
use evm_db.Block.Rlp.Code.{be_bytes, string_code, list_code}
use evm_db.Core.Keccak.{keccak256}
use evm_db.State.Redis.Memory.{memory, memory-Documented}
use evm_db.State.Store.{get_storage}
use evm_db.Evm.Gas.{calc_base_fee}
use evm_db.Evm.Gas.BaseFee.{calc_base_fee-none_iff}
use evm_db.Evm.Overlay.{Write, Writes, find_write, get_write, set_write, commit}
use evm_db.Evm.Overlay.Lookup.{IsOverlay, set_write_lem}
use evm_db.Evm.Overlay.Commit.{IsWrite, seen, get_storage-commit}
use evm_db.Evm.Executor.{compute_create_address}
use evm_db.Evm.Executor.Address.{compute_create_address_lem}
use evm_db.Examples.Store.{alloc, word, store, store-IsTyped, zero20-IsArray, word-IsArray}

calc_base_fee-none_iff_example : (calc_base_fee 8 1 1 ≡ none) ↔ ((1 < 2) × (0 < 1))
calc_base_fee-none_iff_example = calc_base_fee-none_iff 8 1 1

abbrev calldata : Bytes
calldata = 0x60 ∷ 0x00 ∷ []

abbrev slot : Write
slot = record { address = zero20; key = word; value = word }

abbrev one_write : Writes
one_write = record { list = slot ∷ []; cap = 8 }

one_write-IsOverlay : IsOverlay one_write
one_write-IsOverlay = record { distinct = (unfold find_write in refl, tt); fits = omega arith }

set_write_lem_example :
    IsOverlay (set_write alloc one_write zero20 zero32 word).1
    × (get_write (set_write alloc one_write zero20 zero32 word).1 zero20 word ≡ (
        if (set_write alloc one_write zero20 zero32 word).0
          && (bytes_eq zero20 zero20 && bytes_eq zero32 word)
        then some word
        else get_write one_write zero20 word))
set_write_lem_example =
    set_write_lem alloc one_write zero20 zero32 word zero20 word one_write-IsOverlay (omega arith)

slot-IsWrite : IsWrite slot
slot-IsWrite = record { address = zero20-IsArray; key = word-IsArray; value = word-IsArray }

get_storage-commit_example :
    (get_storage memory zero20 word zero32 (commit memory (slot ∷ []) store)).0
    ≡ seen (find_write (slot ∷ []) zero20 word) (get_storage memory zero20 word zero32 store).0
get_storage-commit_example =
    get_storage-commit memory memory-Documented (slot ∷ []) zero20 word zero32 store
      (slot-IsWrite, tt) zero20-IsArray word-IsArray refl store-IsTyped

compute_create_address_lem_example :
    compute_create_address zero20 5
    ≡ take 20 (drop 12 (keccak256 (list_code (string_code zero20 ++ string_code (be_bytes 5)))))
compute_create_address_lem_example = compute_create_address_lem zero20 5 zero20-IsArray
