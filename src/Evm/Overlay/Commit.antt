-- ===== src/Evm/Overlay/Commit.antt =====
-- What is in the store of redis_state.c after `exec_context_commit` of executor.c.
use evm_db.Prelude.{
  ◌≡◌, refl, ap, ◌∙◌, List, [], ◌∷◌, Option, none, some, ◌&&◌, if◌then◌else◌, length, All, arith,
}
use evm_db.Prelude.Bytes.{Bytes, IsArray}
use evm_db.Prelude.Text.{bytes_eq}
use evm_db.State.Redis.{Redis, Documented}
use evm_db.State.Store.{get_storage, set_storage, get_nonce, get_balance}
use evm_db.State.Store.Typed.{IsTyped, set_storage-IsTyped}
use evm_db.State.Store.Storage.{get_storage-set_storage, accounts-set_storage}
use evm_db.Evm.Overlay.{Write, is_at, find_write, commit}

pub record IsWrite (w : Write) : Type 0 where
  pub address : IsArray 20 w.address
  pub key : IsArray 32 w.key
  pub value : IsArray 32 w.value

-- The value in the overlay, if there is one, and otherwise the value `stored`.
unfoldable pub seen : Option Bytes → Bytes → Bytes
seen (some v) stored = v
seen none stored = stored

seen_step :
    (w : Write) (ws : List Write) (b j old : Bytes)
    → seen (find_write ws b j) (if bytes_eq w.address b && bytes_eq w.key j then w.value else old)
      ≡ seen (find_write (w ∷ ws) b j) old
unfolding seen find_write is_at
seen_step w ws b j old = ground arith

module _ (redis : Redis) (docs : Documented redis) where
  open redis use {Store}

  -- For arrays of their sizes and a store whose storage keys hold no strings, a commit publishes
  -- the overlay: each slot then has in the store the value that the execution saw in it, and a slot
  -- with no write its old one.
  pub get_storage-commit :
      (ws : List Write) (b j out : Bytes) (s : Store)
      → All IsWrite ws
      → IsArray 20 b
      → IsArray 32 j
      → length out ≡ 32
      → IsTyped redis docs s
      → (get_storage redis b j out (commit redis ws s)).0
        ≡ seen (find_write ws b j) (get_storage redis b j out s).0
  unfolding commit
  get_storage-commit [] b j out s hw hb hj size h = unfold find_write seen in refl
  get_storage-commit (w ∷ ws) b j out s (hw, hws) hb hj size h =
      get_storage-commit ws b j out (set_storage redis w.address w.key w.value s) hws hb hj size
        (set_storage-IsTyped redis docs s w.address w.key w.value h)
      ∙ ap (seen (find_write ws b j)) (
          get_storage-set_storage redis docs w.address b w.key j w.value out s hw.address hb hw.key
            hj hw.value size h)
      ∙ seen_step w ws b j (get_storage redis b j out s).0

  -- A commit changes no nonce and no balance.
  pub accounts-commit :
      (ws : List Write) (b out : Bytes) (s : Store)
      → IsTyped redis docs s
      → ((get_nonce redis b (commit redis ws s)).0 ≡ (get_nonce redis b s).0)
        × ((get_balance redis b out (commit redis ws s)).0 ≡ (get_balance redis b out s).0)
        × IsTyped redis docs (commit redis ws s)
  unfolding commit
  accounts-commit [] b out s h = (refl, refl, h)
  accounts-commit (w ∷ ws) b out s h =
      let s' : Store = set_storage redis w.address w.key w.value s in
      let (n, m) = accounts-set_storage redis docs w.address b w.key w.value out s h in
      let (n', m', h') =
        accounts-commit ws b out s' (set_storage-IsTyped redis docs s w.address w.key w.value h) in
      (n' ∙ n, m' ∙ m, h')
