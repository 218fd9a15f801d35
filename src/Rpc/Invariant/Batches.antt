-- ===== src/Rpc/Invariant/Batches.antt =====
-- `evmdb_rpc_handle_request` of src/rpc/handlers.c and the state: single requests and batches.
use evm_db.Prelude.{◌+◌, if_lem, length}
use evm_db.Prelude.Bytes.{Bytes}
use evm_db.State.Redis.{Documented}
use evm_db.State.Store.Typed.{IsTyped}
use evm_db.Core.Scan.{skip_while, is_space, starts, next}
use evm_db.Block.Rlp.Result.{Result}
use evm_db.Rpc.Node.{Node}
use evm_db.Rpc.Batch.{Batch, open_batch, run_item, handle_batch, handle_request}
use evm_db.Rpc.Batch.Loop.{batch_loop-Holds}
use evm_db.Rpc.Invariant.{Sound, dispatch_single-Sound}

module _ (node : Node) (docs : Documented node.redis) where
  open node use {redis, alloc}
  open redis use {Store}

  -- The same for what a round of a batch leaves.
  abbrev Holds : Result Batch × Store → Type 0
  Holds r = IsTyped redis docs r.1

  run_item-Holds :
      (object : Bytes) (b : Batch) (s : Store)
      → IsTyped redis docs s
      → Holds (run_item node object b s)
  unfolding run_item
  run_item-Holds object b s h =
      if_lem Holds (alloc (length object + 1)) _ _
        (λ there. dispatch_single-Sound node docs object s h) (λ out. h)

  handle_batch-Sound :
      (p : Bytes) (s : Store) → IsTyped redis docs s → Sound node docs (handle_batch node p s)
  unfolding handle_batch
  handle_batch-Sound p s h =
      if_lem (Sound node docs) (alloc 4096) _ _
        (λ there.
          batch_loop-Holds node Holds run_item-Holds (λ b t held. held) (length p + 1) p open_batch
            s h)
        (λ out. h)

  -- Where no key of an account or of a storage holds a string, none does after a request either:
  -- whatever its text is, single or a batch, whether it is answered, refused, out of memory or faults
  -- on its way.
  pub handle_request-IsTyped :
      (request : Bytes) (s : Store)
      → IsTyped redis docs s
      → IsTyped redis docs (handle_request node request s).1
  unfolding handle_request
  handle_request-IsTyped request s h =
      if_lem (Sound node docs) (starts b'[' (skip_while is_space request)) _ _
        (λ opens. handle_batch-Sound (next (skip_while is_space request)) s h)
        (λ other. dispatch_single-Sound node docs (skip_while is_space request) s h)
