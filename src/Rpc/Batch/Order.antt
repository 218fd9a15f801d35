-- ===== src/Rpc/Batch/Order.antt =====
-- A batch is answered by its requests, one after the other.
use evm_db.Prelude.{
  ℕ, zero, suc, ◌+◌, ◌^◌, ◌≤◌, ◌<◌, ◌≡◌, refl, sym, ap, ◌∙◌, List, [], ◌∷◌, ◌++◌, append_assoc,
  some, Bool, true, false, length, length-append, arith,
}
use evm_db.Prelude.Bytes.{Bytes}
use evm_db.Block.Rlp.Result.{Result, ok}
use evm_db.Core.Scan.{skip_while, is_blank, starts, next}
use evm_db.Rpc.Node.{Node}
use evm_db.Rpc.Dispatch.{dispatch_single}
use evm_db.Rpc.Batch.{
  Batch, open_batch, comma, step, found, add_response, close_batch, run_item, batch_loop,
  handle_batch, handle_request,
}
use evm_db.Rpc.Batch.Objects.{Entry, entry_text, entries_text, step-entry}
use evm_db.Rpc.Batch.Buffer.{
  Roomy, with_response, close-Roomy, add_response-Roomy, add_response-appends,
}

-- A JSON array of texts: behind its first element, behind its bracket, and the whole.
unfoldable pub list_tail : List Bytes → Bytes
list_tail [] = b']' ∷ []
list_tail (r ∷ rs) = b',' ∷ r ++ list_tail rs

unfoldable pub list_rest : Bool → List Bytes → Bytes
list_rest false rs = list_tail rs
list_rest true [] = b']' ∷ []
list_rest true (r ∷ rs) = r ++ list_tail rs

unfoldable pub list_text : List Bytes → Bytes
list_text rs = b'[' ∷ list_rest true rs

list_rest-comma :
    (first : Bool) (r : Bytes) (rs : List Bytes)
    → list_rest first (r ∷ rs) ≡ (comma first ++ r) ++ list_rest false rs
unfolding list_rest list_tail comma
list_rest-comma true r rs = refl
list_rest-comma false r rs = refl

list_rest-nil : (first : Bool) → list_rest first [] ≡ b']' ∷ []
unfolding list_rest list_tail
list_rest-nil true = refl
list_rest-nil false = refl

length-entries_text : (es : List Entry) → length es ≤ length (entries_text es)
unfolding entries_text
length-entries_text [] = omega arith
length-entries_text (e ∷ es) = omega (
  arith,
  length-append e.gap (entry_text e ++ entries_text es),
  length-append (entry_text e) (entries_text es),
  length-entries_text es,
)

module _ (node : Node) where
  open node use {redis, alloc}
  open redis use {Store}

  -- Each request of the batch is answered with the state that the one before it left.
  unfoldable pub Serves : List Entry → List Bytes → Store → Store → Type 0
  Serves [] [] s t = s ≡ t
  Serves (e ∷ es) (r ∷ rs) s t =
      (s' : Store) × (dispatch_single node (entry_text e) s ≡ (ok (some r), s')) × Serves es rs s' t
  Serves _ _ s t = ⊥

  run_item-answer :
      (object resp : Bytes) (b b' : Batch) (s s' : Store)
      → alloc (length object + 1) ≡ true
      → dispatch_single node object s ≡ (ok (some resp), s')
      → add_response alloc (some resp) b ≡ ok b'
      → run_item node object b s ≡ (ok b', s')
  unfolding run_item
  run_item-answer object resp b b' s s' there e a =
      rw (there, run_item) (rw (e, run_item) (rw a refl))

  loop_found :
      (fuel : ℕ) (p object rest : Bytes) (b b' : Batch) (s s' : Store)
      → step (skip_while is_blank p) ≡ found object rest
      → run_item node object b s ≡ (ok b', s')
      → batch_loop node (suc fuel) p b s ≡ batch_loop node fuel rest b' s'
  unfolding batch_loop
  loop_found fuel p object rest b b' s s' e r =
      rw (e, batch_loop)
        (rw (ap (λ (x : Result Batch × Store). x.0) r, batch_loop)
          (ap (λ (x : Result Batch × Store). batch_loop node fuel rest b' x.1) r))

  -- What the loop leaves behind the answers that are in the buffer.
  abbrev Leaves : Bytes → Result Batch × Store → Store → Type 0
  Leaves text r t = (b' : Batch) × (r ≡ (ok b', t)) × Roomy b' × (b'.buf ++ b']' ∷ [] ≡ text)

  loop_stop :
      (fuel : ℕ) (b : Batch) (s : Store)
      → batch_loop node (suc fuel) (entries_text []) b s ≡ (ok b, s)
  unfolding batch_loop entries_text step skip_while
  loop_stop fuel b s = refl

  loop-Leaves :
      (fuel : ℕ) (es : List Entry) (rs : List Bytes) (b : Batch) (s t : Store)
      → ((n : ℕ) → alloc n ≡ true)
      → length es < fuel
      → Roomy b
      → length b.buf + length (list_rest b.first rs) + 4 < 2 ^ 63
      → Serves es rs s t
      → Leaves (b.buf ++ list_rest b.first rs) (batch_loop node fuel (entries_text es) b s) t
  unfolding Serves
  loop-Leaves zero es rs b s t good enough roomy small runs = absurd (omega arith)
  loop-Leaves (suc fuel) [] [] b s t good enough roomy small runs = (
    b,
    loop_stop fuel b s ∙ ap (λ x. (ok b, x)) runs,
    roomy,
    ap (λ x. b.buf ++ x) (sym (list_rest-nil b.first)),
  )
  loop-Leaves (suc fuel) [] (r ∷ rs) b s t good enough roomy small runs = absurd runs
  loop-Leaves (suc fuel) (e ∷ es) [] b s t good enough roomy small runs = absurd runs
  loop-Leaves (suc fuel) (e ∷ es) (r ∷ rs) b s t good enough roomy small (s', one, runs) =
      let sizes : length (list_rest b.first (r ∷ rs))
          ≡ length (comma b.first ++ r) + length (list_rest false rs) =
        ap length (list_rest-comma b.first r rs) ∙ length-append (comma b.first ++ r) _ in
      let front = length-append (comma b.first) r in
      let fits : length b.buf + length r + 4 < 2 ^ 63 = omega (arith, sizes, front) in
      let (cap, a) = add_response-appends alloc r b good (omega (arith, roomy.room)) fits in
      let (roomy', closed) =
        add_response-Roomy alloc (some r) b (with_response b r cap) roomy
          (λ text same. ground (arith, fits, same)) a in
      let (b', ran, ends, text) =
        loop-Leaves fuel es rs (with_response b r cap) s' t good (omega arith) roomy'
          (omega (arith, sizes, length-append b.buf (comma b.first ++ r))) runs in
      (
        b',
        loop_found fuel _ _ _ b _ s s' (step-entry e es)
              (run_item-answer (entry_text e) r b (with_response b r cap) s s' (good _) one a)
            ∙ ran,
        ends,
        text
            ∙ append_assoc b.buf (comma b.first ++ r) (list_rest false rs)
            ∙ ap (λ x. b.buf ++ x) (sym (list_rest-comma b.first r rs)),
      )

  handle_batch-closes :
      (p : Bytes) (s t : Store) (b : Batch) (text : Bytes)
      → alloc 4096 ≡ true
      → batch_loop node (length p + 1) p open_batch s ≡ (ok b, t)
      → close_batch alloc b ≡ ok (some text)
      → handle_batch node p s ≡ (ok (some text), t)
  unfolding handle_batch
  handle_batch-closes p s t b text there ran closed =
      rw (there, handle_batch) (rw ran (rw closed refl))

  batch_starts : (p : Bytes) (s : Store) → handle_request node (b'[' ∷ p) s ≡ handle_batch node p s
  unfolding handle_request skip_while starts next
  batch_starts p s = refl

  -- Where every allocation succeeds: a batch, that is an array of objects with blanks and commas in front
  -- of each, is answered by the array of the answers to these objects. Each of them is dispatched once,
  -- in order, with the state that the one before it left. The hypotheses: each of them has an answer (so
  -- that none faults), and the answers are shorter than 2 ^ 62 characters together.
  pub handle_request-batch :
      (es : List Entry) (rs : List Bytes) (s t : Store)
      → ((n : ℕ) → alloc n ≡ true)
      → length (list_text rs) < 2 ^ 62
      → Serves es rs s t
      → handle_request node (b'[' ∷ entries_text es) s ≡ (ok (some (list_text rs)), t)
  unfolding list_text
  handle_request-batch es rs s t good small runs =
      let (b, ran, roomy, text) =
        loop-Leaves (length (entries_text es) + 1) es rs open_batch s t good
          (omega (arith, length-entries_text es)) (record { room = omega arith }) (omega arith)
          runs in
      batch_starts (entries_text es) s
      ∙ handle_batch-closes (entries_text es) s t b _ (good 4096) ran (close-Roomy alloc b roomy)
      ∙ ap (λ x. (ok (some x), t)) text
