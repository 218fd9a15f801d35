-- ===== src/Rpc/Batch.antt =====
-- `evmdb_rpc_handle_request` of src/rpc/handlers.c: one request, or a batch of them.
pub mod Objects
pub mod Buffer
pub mod Loop
pub mod Room
pub mod Order
use evm_db.Prelude.{
  ℕ, zero, suc, ◌+◌, ◌-◌, ◌*◌, ◌%◌, ◌^◌, [], ◌∷◌, ◌++◌, Option, none, some, Bool, true, false, ltb,
  ◌==◌, if◌then◌else◌, length,
}
use evm_db.Prelude.Bytes.{Bytes}
use evm_db.Block.Rlp.Result.{Result, ok, err, fault, diverge, ◌>>=◌}
use evm_db.Core.Scan.{skip_while, is_space, is_blank, starts, next}
use evm_db.Rpc.Node.{Node, Answer}
use evm_db.Rpc.Dispatch.{dispatch_single}

-- The do loop over one object, from a depth on: the characters taken, and what is left.
unfoldable pub take_object : ℕ → Bytes → Bytes × Bytes
take_object depth [] = ([], [])
take_object depth (c ∷ cs) =
    let deeper = if c == b'{' then depth + 1 else if c == b'}' then depth - 1 else depth in
    let (item, rest) = take_object deeper cs in
    if deeper == 0 then (c ∷ [], cs) else (c ∷ item, rest)

-- What stands at a character that is no blank: the end of the batch, one object, or a character that
-- is passed over.
pub data Step : Type 0 where
  stop : Step
  skip : Bytes → Step
  found : Bytes → Bytes → Step

unfoldable pub step : Bytes → Step
step [] = stop
step (c ∷ cs) =
    let (object, rest) = take_object 0 (c ∷ cs) in
    if c == b']' then stop else if c == b'{' then found object rest else skip cs

-- The buffer of the answer: `buf` is what is written, so `buf_len` is its length.
pub record Batch : Type 0 where
  pub buf : Bytes
  pub buf_cap : ℕ
  pub first : Bool

-- The loop that doubles the capacity; `err` is the return value -1 with no response. Fuel 64 is
-- enough, as 4096 * 2 ^ 52 is the first capacity that size_t does not hold.
unfoldable pub ensure : (ℕ → Bool) → ℕ → ℕ → ℕ → Result ℕ
ensure alloc zero needed cap = diverge
ensure alloc (suc fuel) needed cap =
    let cap' = cap * 2 % 2 ^ 64 in
    let rest = ensure alloc fuel needed cap' in
    if ltb cap needed then (if alloc cap' then rest else err) else ok cap

unfoldable pub comma : Bool → Bytes
comma true = []
comma false = b',' ∷ []

unfoldable pub add_response : (ℕ → Bool) → Option Bytes → Batch → Result Batch
add_response alloc none b = ok b
add_response alloc (some resp) b =
    ensure alloc 64 ((length b.buf + length resp + 4) % 2 ^ 64) b.buf_cap >>= λ cap.
    ok (record { buf = b.buf ++ (comma b.first ++ resp); buf_cap = cap; first = false })

-- The closing bracket. Nobody looks at what this realloc returns.
unfoldable pub close_batch : (ℕ → Bool) → Batch → Answer
close_batch alloc b =
    let text = some (b.buf ++ b']' ∷ []) in
    if ltb b.buf_cap (length b.buf + 2)
    then (if alloc ((b.buf_cap + 2) % 2 ^ 64) then ok text else fault)
    else ok text

abbrev pub open_batch : Batch
open_batch = record { buf = b'[' ∷ []; buf_cap = 4096; first = true }

module _ (node : Node) where
  open node use {redis, alloc}
  open redis use {Store}

  -- An object for which there is no memory is passed over.
  unfoldable pub run_item : Bytes → Batch → Store → Result Batch × Store
  run_item object b s =
      let (answer, s') = dispatch_single node object s in
      if alloc (length object + 1)
      then (answer >>= λ resp. add_response alloc resp b, s')
      else (ok b, s)

  -- Each round takes a character or is the last one, so the length and one more is fuel enough.
  unfoldable pub batch_loop : ℕ → Bytes → Batch → Store → Result Batch × Store
  batch_loop zero p b s = (diverge, s)
  batch_loop (suc fuel) p b s = elim (step (skip_while is_blank p)) [
    | stop ↦ (ok b, s)
    | skip rest ↦ batch_loop fuel rest b s
    | found object rest ↦
        let (r, s') = run_item object b s in
        elim r [
          | ok b' ↦ batch_loop fuel rest b' s'
          | err ↦ (err, s')
          | fault ↦ (fault, s')
          | diverge ↦ (diverge, s')
        ]
  ]

  unfoldable pub handle_batch : Bytes → Store → Answer × Store
  handle_batch p s =
      let (r, s') = batch_loop (length p + 1) p open_batch s in
      if alloc 4096 then (r >>= close_batch alloc, s') else (err, s)

  unfoldable pub handle_request : Bytes → Store → Answer × Store
  handle_request request s =
      let text = skip_while is_space request in
      if starts b'[' text then handle_batch (next text) s else dispatch_single node text s
