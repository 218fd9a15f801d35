-- ===== src/Rpc/Batch/Room.antt =====
-- The room in the buffer of a batch, from its allocation to its last bracket.
use evm_db.Prelude.{
  ℕ, ◌+◌, ◌%◌, ◌^◌, ◌≤◌, ◌<◌, ◌≡◌, refl, sym, ap, ◌∙◌, [], ◌∷◌, ◌++◌, Option, none, some, Bool,
  true, length, length-append, if_lem, arith,
}
use evm_db.Prelude.Bytes.{Bytes}
use evm_db.Block.Rlp.Result.{Result, ok, err, fault, diverge, ◌>>=◌}
use evm_db.Rpc.Node.{Node, Answer}
use evm_db.Rpc.Dispatch.{dispatch_single}
use evm_db.Rpc.Batch.{
  Batch, open_batch, ensure, comma, add_response, run_item, batch_loop, handle_batch,
}
use evm_db.Rpc.Batch.Buffer.{Roomy, close-Roomy, add_response-Roomy, appended}
use evm_db.Rpc.Batch.Loop.{batch_loop-Holds}

-- A buffer has room if what it holds fits memory.
abbrev RoomyIfFits : Batch → Type 0
RoomyIfFits b = length b.buf + 4 < 2 ^ 64 → Roomy b

added-RoomyIfFits :
    (alloc : ℕ → Bool) (resp : Option Bytes) (b b' : Batch)
    → RoomyIfFits b
    → add_response alloc resp b ≡ ok b'
    → RoomyIfFits b'
added-RoomyIfFits alloc none b b' h e fits =
    let same : b ≡ b' = unfold add_response in cc in rw (sym same) (h (rw same fits))
added-RoomyIfFits alloc (some resp) b b' h e fits =
    let (cap, bought, same) =
      appended b resp (ensure alloc 64 ((length b.buf + length resp + 4) % 2 ^ 64) b.buf_cap) b'
        (unfold add_response in e) in
    let size : length b'.buf ≡ length b.buf + (length (comma b.first) + length resp) =
      ap (λ (x : Batch). length x.buf) same
      ∙ omega (
        arith,
        length-append b.buf (comma b.first ++ resp),
        length-append (comma b.first) resp,
      ) in
    (add_response-Roomy alloc (some resp) b b' (h (omega (arith, size)))
      (λ text same_text. let texts : length resp ≡ length text = cc in omega (arith, size, texts))
      e).0

-- The same for an outcome.
abbrev Good : {S : Type 0} → Result Batch × S → Type 0
Good r = (b : Batch) → r.0 ≡ ok b → RoomyIfFits b

answered-Good :
    (alloc : ℕ → Bool) (answer : Answer) (b b' : Batch)
    → RoomyIfFits b
    → (answer >>= λ resp. add_response alloc resp b) ≡ ok b'
    → RoomyIfFits b'
answered-Good alloc (ok resp) b b' h e = added-RoomyIfFits alloc resp b b' h e
answered-Good alloc err b b' h e = cc
answered-Good alloc fault b b' h e = cc
answered-Good alloc diverge b b' h e = cc

module _ (node : Node) where
  open node use {redis, alloc}
  open redis use {Store}

  run_item-Good :
      (object : Bytes) (b : Batch) (s : Store) → Good (ok b, s) → Good (run_item node object b s)
  unfolding run_item
  run_item-Good object b s h =
      if_lem Good (alloc (length object + 1)) _ _
        (λ there b' e. answered-Good alloc (dispatch_single node object s).0 b b' (h b refl) e)
        (λ out. h)

  start-Good : (s : Store) → Good (ok open_batch, s)
  start-Good s b e fits =
      let same : open_batch ≡ b = cc in rw (sym same) (record { room = omega arith })

  -- Whatever the requests are, and whatever malloc and realloc do: a batch that is read to its end, and
  -- whose answers together with 4 characters stay below 2 ^ 64, is answered by what the loop has put
  -- together and a bracket. Behind that text the buffer has room for the bracket and a NUL, so the last
  -- realloc, whose result nobody looks at, is not called.
  pub handle_batch-Roomy :
      (p : Bytes) (s t : Store) (b : Batch)
      → alloc 4096 ≡ true
      → batch_loop node (length p + 1) p open_batch s ≡ (ok b, t)
      → length b.buf + 4 < 2 ^ 64
      → (handle_batch node p s ≡ (ok (some (b.buf ++ b']' ∷ [])), t))
        × (length b.buf + 3 ≤ b.buf_cap)
  unfolding handle_batch
  handle_batch-Roomy p s t b there ran fits =
      let roomy =
        batch_loop-Holds node Good run_item-Good (λ c u h d e. cc) (length p + 1) p open_batch s
          (start-Good s) b (ap (λ (x : Result Batch × Store). x.0) ran) fits in
      (rw (there, handle_batch) (rw ran (rw (close-Roomy alloc b roomy) refl)), roomy.room)
