-- ===== src/Block/Rlp/Result.antt =====
-- What a C function of tx.c can do: return 0 with a value, return -1, read memory that was not
-- allocated, or loop for ever.
pub data Result {ℓ} (A : Type ℓ) : Type ℓ where
  ok : A → Result A
  err fault diverge : Result A

infixl 5 ◌>>=◌ ◌>>◌
abbrev pub ◌>>=◌ {ℓ κ} : {A : Type ℓ} {B : Type κ} → Result A → (A → Result B) → Result B
ok a >>= f = f a
err >>= f = err
fault >>= f = fault
diverge >>= f = diverge

abbrev pub ◌>>◌ {ℓ κ} : {A : Type ℓ} {B : Type κ} → Result A → Result B → Result B
m >> n = m >>= λ _. n
