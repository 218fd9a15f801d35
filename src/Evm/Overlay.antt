-- ===== src/Evm/Overlay.antt =====
-- The storage writes of one execution, not yet in the store: `exec_context_*` of
-- src/evm/executor.c.
pub mod Lookup
pub mod Commit
use evm_db.Prelude.{
  ℕ, ◌+◌, ◌*◌, ◌%◌, ◌^◌, List, [], ◌∷◌, ◌++◌, Option, none, some, Bool, true, false, ◌&&◌, ◌==◌,
  if◌then◌else◌, length,
}
use evm_db.Prelude.Bytes.{Bytes}
use evm_db.Prelude.Text.{bytes_eq}
use evm_db.State.Redis.{Redis}
use evm_db.State.Store.{set_storage}

-- `storage_write_t`, 84 bytes.
pub record Write : Type 0 where
  pub address : Bytes
  pub key : Bytes
  pub value : Bytes

-- `writes`, the first `write_count` elements, and `write_cap`.
pub record Writes : Type 0 where
  pub list : List Write
  pub cap : ℕ

unfoldable pub is_at : Write → Bytes → Bytes → Bool
is_at w address key = bytes_eq w.address address && bytes_eq w.key key

-- From the last element to the first.
unfoldable pub find_write : List Write → Bytes → Bytes → Option Bytes
find_write [] address key = none
find_write (w ∷ ws) address key = elim (find_write ws address key) [
  | some value ↦ some value
  | none ↦ if is_at w address key then some w.value else none
]

unfoldable pub get_write : Writes → Bytes → Bytes → Option Bytes
get_write ctx address key = find_write ctx.list address key

-- The first element for the slot gets the value; `none` if there is none.
unfoldable pub replace_write : List Write → Bytes → Bytes → Bytes → Option (List Write)
replace_write [] address key value = none
replace_write (w ∷ ws) address key value =
    let later = replace_write ws address key value in
    if is_at w address key
    then some (record w { value = value } ∷ ws)
    else elim later [ none ↦ none | some ws' ↦ some (w ∷ ws') ]

unfoldable pub push_write : List Write → Bytes → Bytes → Bytes → List Write
push_write ws address key value = ws ++ record { address = address; key = key; value = value } ∷ []

module _ (alloc : ℕ → Bool) where
  unfoldable pub add_write : Writes → Bytes → Bytes → Bytes → Bool × Writes
  add_write ctx address key value =
      let new_cap = if ctx.cap == 0 then 8 else ctx.cap * 2 % 2 ^ 64 in
      let pushed = push_write ctx.list address key value in
      if length ctx.list == ctx.cap
      then (if alloc (new_cap * 84 % 2 ^ 64)
          then (true, record { list = pushed; cap = new_cap })
          else (false, ctx))
      else (true, record { list = pushed; cap = ctx.cap })

  -- `false` is the return value -1.
  unfoldable pub set_write : Writes → Bytes → Bytes → Bytes → Bool × Writes
  set_write ctx address key value = elim (replace_write ctx.list address key value) [
    | some ws ↦ (true, record { list = ws; cap = ctx.cap })
    | none ↦ add_write ctx address key value
  ]

-- evmdb_state_set_storage always returns 0, so `exec_context_commit` does too.
unfoldable pub commit : (redis : Redis) → List Write → redis.Store → redis.Store
commit redis [] s = s
commit redis (w ∷ ws) s = commit redis ws (set_storage redis w.address w.key w.value s)
