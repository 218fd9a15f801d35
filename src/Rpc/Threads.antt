-- ===== src/Rpc/Threads.antt =====
-- Two connections at one time: server.c has a thread for each, and the lock of redis_state.c is held for
-- one command only. The threads here take turns between the checks of a transaction and what follows them.
pub mod Race
use evm_db.Prelude.{some, Bool}
use evm_db.Prelude.Bytes.{Bytes}
use evm_db.Block.Tx.{Tx}
use evm_db.Evm.Host.{BlockContext}
use evm_db.Evm.Executor.{ExecResult, Verdict, check_tx, continue_tx}
use evm_db.Rpc.Node.{Node, Answer, make_block_context}
use evm_db.Rpc.Call.{zero_result}
use evm_db.Rpc.Send.{mine}

-- A thread that is to send a transaction.
pub data Thread : Type 0 where
  waiting : Bytes → Tx → Thread
  checked : Bytes → Tx → BlockContext → Verdict → Thread
  finished : Answer → Thread

module _ (node : Node) where
  open node use {redis, alloc, junk}
  open redis use {Store}

  -- What follows the checks, on what they came to.
  abbrev pub resume : Tx → BlockContext → Verdict → Store → Bool × ExecResult × Store
  resume tx ctx verdict s =
      continue_tx redis alloc junk node.vm node.status_text tx (some ctx) zero_result verdict s

  unfoldable pub begin : Bytes → Tx → Store → Thread × Store
  begin id tx s =
      let (ctx, s1) = make_block_context node s in
      let (verdict, s2) = check_tx redis node.initialized tx (some ctx) zero_result s1 in
      (checked id tx ctx verdict, s2)

  unfoldable pub finish : Bytes → Tx → BlockContext → Verdict → Store → Thread × Store
  finish id tx ctx verdict s =
      let (answer, s') = mine node id tx ctx.number (resume tx ctx verdict s) in
      (finished answer, s')

  -- The next turn of one thread.
  unfoldable pub turn : Thread → Store → Thread × Store
  turn (waiting id tx) s = begin id tx s
  turn (checked id tx ctx verdict) s = finish id tx ctx verdict s
  turn (finished answer) s = (finished answer, s)

  pub record System : Type 0 where
    pub first : Thread
    pub second : Thread
    pub store : Store

  pub data Step (sys : System) : System → Type 0 where
    first_turn : Step sys (record {
      first = (turn sys.first sys.store).0;
      second = sys.second;
      store = (turn sys.first sys.store).1;
    })
    second_turn : Step sys (record {
      first = sys.first;
      second = (turn sys.second sys.store).0;
      store = (turn sys.second sys.store).1;
    })

  pub data Reach (start : System) : System → Type 0 where
    here : Reach start start
    later : {a b : System} → Reach start a → Step a b → Reach start b
