-- ===== src/Rpc/Threads/Race.antt =====
-- Two threads that make their checks before either of them goes on.
use evm_db.Prelude.{ℕ, ◌+◌, ◌%◌, ◌^◌, ◌≡◌, refl, sym, ap, ◌∙◌, [], some, Bool, true, arith}
use mathlib.Core.Path.{subst}
use evm_db.Prelude.Bytes.{Bytes, IsArray}
use evm_db.State.Redis.{Documented}
use evm_db.State.Store.{hex_text, get_block_number, set_block_number}
use evm_db.State.Store.Blobs.{get_receipt-set_receipt, get_block_number-set_block_number}
use evm_db.Block.Rlp.Result.{ok}
use evm_db.Block.Tx.{Tx}
use evm_db.Evm.Host.{BlockContext}
use evm_db.Evm.Host.Runs.{nonce_store}
use evm_db.Evm.Executor.{
  ExecResult, apply_tx, create_contract, execute_tx, Verdict, refused, passed, check_tx,
  continue_tx,
}
use evm_db.Rpc.Node.{Node, Answer, make_block_context, make_response, quoted}
use evm_db.Rpc.Call.{zero_result}
use evm_db.Rpc.Send.{mine}
use evm_db.Rpc.Mining.{mine-mined}
use evm_db.Rpc.Effects.{context_store}
use evm_db.Rpc.Threads.{
  resume, Thread, waiting, checked, finished, begin, finish, turn, System, Step, first_turn,
  second_turn, Reach, here, later,
}

module _ (node : Node) (docs : Documented node.redis) where
  open node use {redis, alloc, junk}
  open redis use {Store}

  abbrev check : Tx → BlockContext → Store → Verdict × Store
  check tx ctx s = check_tx redis node.initialized tx (some ctx) zero_result s

  abbrev pub execute : Tx → BlockContext → Store → Bool × ExecResult × Store
  execute tx ctx s =
      execute_tx redis alloc junk node.vm node.status_text node.initialized tx (some ctx)
        zero_result s

  -- The checks, and what follows them, are the whole function.
  execute_tx-check :
      (tx : Tx) (ctx : BlockContext) (s : Store)
      → execute tx ctx s ≡ resume node tx ctx (check tx ctx s).0 (check tx ctx s).1
  unfolding execute_tx
  execute_tx-check tx ctx s = refl

  check_store : (tx : Tx) (ctx : BlockContext) (s : Store) → (check tx ctx s).1 ≡ s
  unfolding check_tx
  check_store tx ctx s = ground (arith, nonce_store redis docs alloc junk tx.sender s)

  turn-waiting :
      (id : Bytes) (tx : Tx) (s : Store)
      → turn node (waiting id tx) s ≡ (
        checked id tx (make_block_context node s).0 (check tx (make_block_context node s).0 s).0,
        s,
      )
  unfolding turn begin
  turn-waiting id tx s =
      let ctx : BlockContext = (make_block_context node s).0 in
      ap (λ (t : Store). (checked id tx ctx (check tx ctx t).0, (check tx ctx t).1))
        (context_store node docs s)
      ∙ ap (λ (t : Store). (checked id tx ctx (check tx ctx s).0, t)) (check_store tx ctx s)

  -- The end of a thread whose checks were made on the store `s`, on the store `t`.
  abbrev ending : Bytes → Tx → Store → Store → Answer × Store
  ending id tx s t =
      let ctx = (make_block_context node s).0 in
      mine node id tx ctx.number (resume node tx ctx (check tx ctx s).0 t)

  turn-checked :
      (id : Bytes) (tx : Tx) (s t : Store)
      → turn node
          (checked id tx (make_block_context node s).0 (check tx (make_block_context node s).0 s).0)
          t
        ≡ (finished (ending id tx s t).0, (ending id tx s t).1)
  unfolding turn finish
  turn-checked id tx s t = refl

  -- The checks do not look at the store again: what they let pass creates its contract on any store.
  creates_on :
      (tx : Tx) (ctx : BlockContext) (v : Verdict) (s t : Store)
      → tx.to_is_null ≡ true
      → (resume node tx ctx v s).0 ≡ true
      → (resume node tx ctx v t).0 ≡ true
  unfolding continue_tx apply_tx create_contract
  creates_on tx ctx (refused result) s t creation done = cc
  creates_on tx ctx (passed intrinsic_gas nonce) s t creation done = rw creation refl

  -- A thread whose checks were passed on `s` is answered by the hash on every store `t`, and the block
  -- number is one above the one that it read.
  record Mined (id : Bytes) (tx : Tx) (s : Store) (r : Answer × Store) : Type 0 where
    answer : r.0 ≡ ok (make_response alloc id (quoted 128 (hex_text tx.hash 67)))
    number : (get_block_number redis r.1).0 ≡ ((get_block_number redis s).0 + 1) % 2 ^ 64

  context_number : (s : Store) → (make_block_context node s).0.number ≡ (get_block_number redis s).0
  unfolding make_block_context
  context_number s = refl

  ending-Mined :
      (id : Bytes) (tx : Tx) (s t : Store)
      → ((n : ℕ) → alloc n ≡ true)
      → IsArray 32 tx.hash
      → tx.to_is_null ≡ true
      → (execute tx (make_block_context node s).0 s).0 ≡ true
      → Mined id tx s (ending id tx s t)
  ending-Mined id tx s t good hash creation done =
      let ctx : BlockContext = (make_block_context node s).0 in
      let v : Verdict = (check tx ctx s).0 in
      let passes : (resume node tx ctx v t).0 ≡ true =
        creates_on tx ctx v (check tx ctx s).1 t creation
          (ap (λ (r : Bool × ExecResult × Store). r.0) (sym (execute_tx-check tx ctx s)) ∙ done) in
      let (written, kept) =
        get_receipt-set_receipt redis docs alloc tx.hash tx.hash _ (set_block_number redis _ _) hash
          hash in
      let (number, codes, receipts) =
        get_block_number-set_block_number redis docs alloc ((ctx.number + 1) % 2 ^ 64) [] tx.hash _
          (omega arith) in
      let e = mine-mined node id tx (resume node tx ctx v t) ctx.number passes (good 2048) in
      record {
        answer = ap (λ (r : Answer × Store). r.0) e;
        number =
            ap (λ (r : Answer × Store). (get_block_number redis r.1).0) e
            ∙ kept
            ∙ number
            ∙ ap (λ n. (n + 1) % 2 ^ 64) (context_number s);
      }

  abbrev pub threads : Thread → Thread → Store → System node
  threads first second s = record { first = first; second = second; store = s }

  first_moves :
      (a b c : Thread) (s t : Store)
      → turn node a s ≡ (c, t)
      → Step node (threads a b s) (threads c b t)
  first_moves a b c s t e =
      subst (λ (r : Thread × Store). Step node (threads a b s) (threads r.0 b r.1)) e first_turn

  second_moves :
      (a b c : Thread) (s t : Store)
      → turn node b s ≡ (c, t)
      → Step node (threads a b s) (threads a c t)
  second_moves a b c s t e =
      subst (λ (r : Thread × Store). Step node (threads a b s) (threads a r.0 r.1)) e second_turn

  -- The answer of eth_sendRawTransaction to a transaction that is mined.
  abbrev pub told : Bytes → Tx → Thread
  told id tx = finished (ok (make_response alloc id (quoted 128 (hex_text tx.hash 67))))

  -- On a Redis that keeps to its documentation, where every allocation succeeds: let two transactions that
  -- create contracts each be carried out if it came alone, also two with the same sender and the same
  -- nonce. If two connections send them at one time, the threads can take turns such that both are
  -- answered as mined, and the block number is raised only once.
  pub both-told :
      (id1 id2 : Bytes) (tx1 tx2 : Tx) (s : Store)
      → ((n : ℕ) → alloc n ≡ true)
      → IsArray 32 tx1.hash
      → IsArray 32 tx2.hash
      → tx1.to_is_null ≡ true
      → tx2.to_is_null ≡ true
      → (execute tx1 (make_block_context node s).0 s).0 ≡ true
      → (execute tx2 (make_block_context node s).0 s).0 ≡ true
      → (t : Store) × Reach node
          (threads (waiting id1 tx1) (waiting id2 tx2) s)
          (threads (told id1 tx1) (told id2 tx2) t)
        × ((get_block_number redis t).0 ≡ ((get_block_number redis s).0 + 1) % 2 ^ 64)
  both-told id1 id2 tx1 tx2 s good hash1 hash2 creation1 creation2 done1 done2 =
      let t1 : Store = (ending id1 tx1 s s).1 in
      let t2 : Store = (ending id2 tx2 s t1).1 in
      let one = ending-Mined id1 tx1 s s good hash1 creation1 done1 in
      let two = ending-Mined id2 tx2 s t1 good hash2 creation2 done2 in
      (
        t2,
        later
            (later
              (later (later here (first_moves _ _ _ s s (turn-waiting id1 tx1 s)))
                (second_moves _ _ _ s s (turn-waiting id2 tx2 s)))
              (first_moves _ _ _ s t1
                (turn-checked id1 tx1 s s ∙ ap (λ (a : Answer). (finished a, t1)) one.answer)))
            (second_moves _ _ _ t1 t2
              (turn-checked id2 tx2 s t1 ∙ ap (λ (a : Answer). (finished a, t2)) two.answer)),
        two.number,
      )
