-- ===== src/Core/Scan/Lengths.antt =====
-- How much the string functions take and leave.
use evm_db.Prelude.{
  ℕ, zero, suc, ◌+◌, ◌-◌, ◌≤◌, ◌≡◌, refl, [], ◌∷◌, Bool, true, false, length, if_lem, arith,
}
use evm_db.Prelude.Bytes.{Bytes}
use evm_db.Core.Scan.{skip_while, copy_until, starts, next}

pub length-skip_while :
    (test : ℕ → Bool) (text : Bytes) → length (skip_while test text) ≤ length text
unfolding skip_while
length-skip_while test [] = omega arith
length-skip_while test (c ∷ cs) = ground (arith, length-skip_while test cs)

-- The first character that is left does not pass the test.
pub starts-skip_while :
    (test : ℕ → Bool) (d : ℕ) (text : Bytes)
    → test d ≡ true
    → starts d (skip_while test text) ≡ false
unfolding skip_while starts
starts-skip_while test d [] h = refl
starts-skip_while test d (c ∷ cs) h =
    if_lem (λ (t : Bytes). starts d t ≡ false) (test c) (skip_while test cs) (c ∷ cs)
      (λ (e : test c ≡ true). unfold starts in starts-skip_while test d cs h)
      (λ (e : test c ≡ false). ground (arith, h, e))

pub length-next : (text : Bytes) → length (next text) ≡ length text - 1
unfolding next
length-next [] = refl
length-next (c ∷ cs) = omega arith

pub length-copy_until :
    (stops : ℕ → Bool) (limit : ℕ) (text : Bytes)
    → (length (copy_until stops limit text).0 ≤ limit)
      × (length (copy_until stops limit text).0 + length (copy_until stops limit text).1
          ≡ length text)
unfolding copy_until
length-copy_until stops zero [] = (omega arith, omega arith)
length-copy_until stops (suc limit) [] = (omega arith, omega arith)
length-copy_until stops zero (c ∷ cs) = (omega arith, omega arith)
length-copy_until stops (suc limit) (c ∷ cs) = ground (arith, length-copy_until stops limit cs)
