-- ===== src/Evm/Executor/Checks.antt =====
-- The checks of `evmdb_evm_execute_tx`.
use evm_db.Prelude.{
  ℕ, ◌+◌, ◌%◌, ◌^◌, ◌<◌, ◌≤◌, ◌≡◌, refl, ap, ◌∙◌, [], ◌∷◌, zero, suc, ◌↔◌, Option, none, some, Bool,
  true, false, not, ◌&&◌, ltb, ◌==◌, if◌then◌else◌, if_lem, arith, ◌⊎◌, inl, inr,
}
use evm_db.Prelude.Bytes.{Bytes}
use evm_db.State.Redis.{Redis, Documented}
use evm_db.State.Store.{get_nonce}
use evm_db.Block.Tx.{Tx}
use evm_db.Evm.Gas.{add_data_gas}
use evm_db.Evm.Host.{BlockContext}
use evm_db.Evm.Host.Runs.{nonce_store}
use evm_db.Evm.Executor.{ExecResult, chain_mismatch, Verdict, refused, passed, check_tx}

-- What the data of a transaction costs: 4 for a zero byte, and 16 for another.
unfoldable pub data_cost : Bytes → ℕ
data_cost [] = 0
data_cost (zero ∷ bs) = 4 + data_cost bs
data_cost (suc b ∷ bs) = 16 + data_cost bs

-- A transaction with the chain id 0 is for every chain, and a chain need not be given.
unfoldable pub OnChain : Option BlockContext → Tx → Type 0
OnChain none tx = Unit
OnChain (some ctx) tx = (tx.chain_id ≡ 0) ⊎ (tx.chain_id ≡ ctx.chain_id)

-- When a transaction is to be carried out, with no function of the executor.
pub record Accepted (initialized : Bool) (tx : Tx) (block_ctx : Option BlockContext) (nonce : ℕ)
    : Type 0 where
  pub ready : initialized ≡ true
  pub chain : OnChain block_ctx tx
  pub in_turn : tx.nonce ≡ nonce
  pub gas : (21000 + data_cost tx.payload) % 2 ^ 64 ≤ tx.gas_limit

add_data_gas-data_cost :
    (gas : ℕ) (bs : Bytes) → gas < 2 ^ 64 → add_data_gas gas bs ≡ (gas + data_cost bs) % 2 ^ 64
unfolding add_data_gas data_cost
add_data_gas-data_cost gas [] h = omega arith
add_data_gas-data_cost gas (zero ∷ bs) h =
    add_data_gas-data_cost ((gas + 4) % 2 ^ 64) bs (omega arith) ∙ omega arith
add_data_gas-data_cost gas (suc b ∷ bs) h =
    let other : (if suc b == 0 then 4 else 16) ≡ 16 = ground arith in
    ap (λ n. add_data_gas ((gas + n) % 2 ^ 64) bs) other
    ∙ add_data_gas-data_cost ((gas + 16) % 2 ^ 64) bs (omega arith)
    ∙ omega arith

pub gas-data_cost : (bs : Bytes) → add_data_gas 21000 bs ≡ (21000 + data_cost bs) % 2 ^ 64
gas-data_cost bs = add_data_gas-data_cost 21000 bs (omega arith)

chain_mismatch-OnChain :
    (block_ctx : Option BlockContext) (tx : Tx)
    → (chain_mismatch block_ctx tx ≡ false) ↔ OnChain block_ctx tx
unfolding chain_mismatch OnChain
chain_mismatch-OnChain none tx = (λ e. tt, λ h. refl)
chain_mismatch-OnChain (some ctx) tx = (
  λ e. chain_or tx.chain_id ctx.chain_id e,
  λ h. elim h [ inl e ↦ ground (arith, e) | inr e ↦ ground (arith, e) ],
)
  where
    chain_or : (a b : ℕ) → (not (a == 0) && not (a == b)) ≡ false → (a ≡ 0) ⊎ (a ≡ b)
    chain_or a b e = ground (arith, e)

module _ (redis : Redis) (docs : Documented redis) (alloc : ℕ → Bool) (junk : Bytes) where
  open redis use {Store}

  -- What the checks come to: they read the store, and pass what is accepted.
  abbrev pub Checked : Bool → Tx → Option BlockContext → Store → Verdict × Store → Type 0
  Checked initialized tx block_ctx s r =
      ((result' : ExecResult) × (r.0 ≡ refused result') × (r.1 ≡ s))
      ⊎ ((ig : ℕ) × (r.0 ≡ passed ig (get_nonce redis tx.sender s).0)
          × (r.1 ≡ s)
          × Accepted initialized tx block_ctx (get_nonce redis tx.sender s).0)

  pub check_tx-Checked :
      (initialized : Bool) (tx : Tx) (block_ctx : Option BlockContext) (result : ExecResult)
      (s : Store)
      → Checked initialized tx block_ctx s (check_tx redis initialized tx block_ctx result s)
  unfolding check_tx
  check_tx-Checked initialized tx block_ctx result s =
      let P : Verdict × Store → Type 0 = Checked initialized tx block_ctx s in
      let same : (get_nonce redis tx.sender s).1 ≡ s =
        nonce_store redis docs alloc junk tx.sender s in
      if_lem P (not initialized) _ _ (λ off. inl (_, refl, refl))
        (λ on.
          if_lem P (chain_mismatch block_ctx tx) _ _ (λ wrong. inl (_, refl, refl))
            (λ chain.
              if_lem P (not (tx.nonce == (get_nonce redis tx.sender s).0)) _ _
                (λ wrong. inl (_, refl, same))
                (λ in_turn.
                  if_lem P (ltb tx.gas_limit (add_data_gas 21000 tx.payload)) _ _
                    (λ low. inl (_, refl, same))
                    (λ gas. inr (
                      _,
                      refl,
                      same,
                      record {
                        ready = ground arith;
                        chain = (chain_mismatch-OnChain block_ctx tx).0 chain;
                        in_turn = ground arith;
                        gas = ground (arith, gas-data_cost tx.payload);
                      },
                    )))))

  pub check_tx-passed :
      (initialized : Bool) (tx : Tx) (block_ctx : Option BlockContext) (result : ExecResult)
      (s : Store)
      → Accepted initialized tx block_ctx (get_nonce redis tx.sender s).0
      → (check_tx redis initialized tx block_ctx result s).0
        ≡ passed (add_data_gas 21000 tx.payload) (get_nonce redis tx.sender s).0
  unfolding check_tx
  check_tx-passed initialized tx block_ctx result s h = ground (
    arith,
    h.ready,
    (chain_mismatch-OnChain block_ctx tx).1 h.chain,
    h.in_turn,
    h.gas,
    gas-data_cost tx.payload,
  )
