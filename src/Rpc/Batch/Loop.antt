-- ===== src/Rpc/Batch/Loop.antt =====
-- Induction over the rounds of the loop of a batch in src/rpc/handlers.c.
use evm_db.Prelude.{ℕ, zero, suc, ◌≡◌, refl}
use evm_db.Prelude.Bytes.{Bytes}
use evm_db.Block.Rlp.Result.{Result, ok, err, fault, diverge}
use evm_db.Core.Scan.{skip_while, is_blank}
use evm_db.Rpc.Node.{Node}
use evm_db.Rpc.Batch.{Batch, Step, stop, skip, found, step, run_item, batch_loop}

module _ (node : Node) where
  open node use {redis}
  open redis use {Store}

  -- What the loop does with the outcome of an object, as in its clause.
  after : ℕ → Bytes → Result Batch × Store → Result Batch × Store
  after fuel rest (r, s) = elim r [
    | ok b ↦ batch_loop node fuel rest b s
    | err ↦ (err, s)
    | fault ↦ (fault, s)
    | diverge ↦ (diverge, s)
  ]

  round : ℕ → Step → Batch → Store → Result Batch × Store
  round fuel stop b s = (ok b, s)
  round fuel (skip rest) b s = batch_loop node fuel rest b s
  round fuel (found object rest) b s = after fuel rest (run_item node object b s)

  batch_loop-round :
      (fuel : ℕ) (x : Step) (p : Bytes) (b : Batch) (s : Store)
      → step (skip_while is_blank p) ≡ x
      → batch_loop node (suc fuel) p b s ≡ round fuel x b s
  unfolding batch_loop round after
  batch_loop-round fuel stop p b s e = rw (e, batch_loop) refl
  batch_loop-round fuel (skip rest) p b s e = rw (e, batch_loop) refl
  batch_loop-round fuel (found object rest) p b s e = rw (e, batch_loop) refl

  -- A property of an outcome that each object keeps, and that does not need the loop to end.
  module _ (Holds : Result Batch × Store → Type 0)
      (item : (object : Bytes) (b : Batch) (s : Store)
        → Holds (ok b, s)
        → Holds (run_item node object b s))
      (endless : (b : Batch) (s : Store) → Holds (ok b, s) → Holds (diverge, s)) where
    abbrev Keeps : ℕ → Type 0
    Keeps fuel =
        (p : Bytes) (b : Batch) (s : Store) → Holds (ok b, s) → Holds (batch_loop node fuel p b s)

    after-Holds :
        (fuel : ℕ) (rest : Bytes) (r : Result Batch × Store)
        → Keeps fuel
        → Holds r
        → Holds (after fuel rest r)
    unfolding after
    after-Holds fuel rest (ok b, s) keeps h = keeps rest b s h
    after-Holds fuel rest (err, s) keeps h = h
    after-Holds fuel rest (fault, s) keeps h = h
    after-Holds fuel rest (diverge, s) keeps h = h

    round-Holds :
        (fuel : ℕ) (x : Step) (b : Batch) (s : Store)
        → Keeps fuel
        → Holds (ok b, s)
        → Holds (round fuel x b s)
    unfolding round
    round-Holds fuel stop b s keeps h = h
    round-Holds fuel (skip rest) b s keeps h = keeps rest b s h
    round-Holds fuel (found object rest) b s keeps h =
        after-Holds fuel rest _ keeps (item object b s h)

    pub batch_loop-Holds : (fuel : ℕ) → Keeps fuel
    unfolding batch_loop
    batch_loop-Holds zero p b s h = endless b s h
    batch_loop-Holds (suc fuel) p b s h =
        rw (batch_loop-round fuel _ p b s refl)
          (round-Holds fuel (step (skip_while is_blank p)) b s (batch_loop-Holds fuel) h)
