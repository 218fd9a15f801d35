-- ===== src/Rpc/Batch/Buffer.antt =====
-- The buffer in which the answers of a batch are put together.
use evm_db.Prelude.{
  ℕ, zero, suc, ◌+◌, ◌*◌, ◌%◌, ◌^◌, ◌≤◌, ◌<◌, ◌≡◌, refl, sym, ap, [], ◌∷◌, ◌++◌, Option, none, some,
  Bool, true, false, ltb, length, length-append, if_lem, ltb→lt, arith,
}
use native.Mathlib.Nat.{pow-suc, mul_assoc}
use evm_db.Prelude.Bytes.{Bytes}
use evm_db.Block.Rlp.Result.{Result, ok, err, fault, diverge, ◌>>=◌}
use evm_db.Rpc.Batch.{ensure, comma, Batch, add_response, close_batch}

-- The buffer has room for a comma, a bracket and a NUL.
pub record Roomy (b : Batch) : Type 0 where
  pub room : length b.buf + 3 ≤ b.buf_cap

ensure-le :
    (alloc : ℕ → Bool) (fuel needed cap cap' : ℕ)
    → ensure alloc fuel needed cap ≡ ok cap'
    → needed ≤ cap'
unfolding ensure
ensure-le alloc zero needed cap cap' e = cc
ensure-le alloc (suc fuel) needed cap cap' e =
    ground (arith, e, ensure-le alloc fuel needed (cap * 2 % 2 ^ 64) cap')

length-comma : (first : Bool) → length (comma first) ≤ 1
unfolding comma
length-comma true = omega arith
length-comma false = omega arith

pub close-Roomy :
    (alloc : ℕ → Bool) (b : Batch) → Roomy b → close_batch alloc b ≡ ok (some (b.buf ++ b']' ∷ []))
unfolding close_batch
close-Roomy alloc b h = ground (arith, h.room)

abbrev pub with_response : Batch → Bytes → ℕ → Batch
with_response b resp cap = record {
  buf = b.buf ++ (comma b.first ++ resp);
  buf_cap = cap;
  first = false;
}

pub appended :
    (b : Batch) (resp : Bytes) (r : Result ℕ) (b' : Batch)
    → (r >>= λ cap. ok (with_response b resp cap)) ≡ ok b'
    → (cap : ℕ) × (r ≡ ok cap) × (b' ≡ with_response b resp cap)
appended b resp (ok cap) b' e = (cap, refl, cc)
appended b resp err b' e = cc
appended b resp fault b' e = cc
appended b resp diverge b' e = cc

-- A buffer with room, to which a response is added that with it stays below 2 ^ 64 characters, has room
-- again.
pub add_response-Roomy :
    (alloc : ℕ → Bool) (resp : Option Bytes) (b b' : Batch)
    → Roomy b
    → ((text : Bytes) → resp ≡ some text → length b.buf + length text + 4 < 2 ^ 64)
    → add_response alloc resp b ≡ ok b'
    → Roomy b' × (close_batch alloc b' ≡ ok (some (b'.buf ++ b']' ∷ [])))
add_response-Roomy alloc none b b' h small e =
    let same : b ≡ b' = unfold add_response in cc in rw (sym same) (h, close-Roomy alloc b h)
add_response-Roomy alloc (some resp) b b' h small e =
    let (cap, bought, same) =
      appended b resp (ensure alloc 64 ((length b.buf + length resp + 4) % 2 ^ 64) b.buf_cap) b'
        (unfold add_response in e) in
    let roomy : Roomy b' = rw same (record {
      room = omega (
        arith,
        ensure-le alloc 64 _ b.buf_cap cap bought,
        small resp refl,
        length-append b.buf (comma b.first ++ resp),
        length-append (comma b.first) resp,
        length-comma b.first,
      );
    }) in
    (roomy, close-Roomy alloc b' roomy)

abbrev Bought : Result ℕ → Type 0
Bought r = (cap : ℕ) × (r ≡ ok cap)

ensure_round :
    (alloc : ℕ → Bool) (fuel needed cap : ℕ)
    → ((n : ℕ) → alloc n ≡ true)
    → (cap < needed → Bought (ensure alloc fuel needed (cap * 2 % 2 ^ 64)))
    → Bought (ensure alloc (suc fuel) needed cap)
unfolding ensure
ensure_round alloc fuel needed cap good rest =
    if_lem Bought (ltb cap needed) _ _
      (λ (less : ltb cap needed ≡ true).
        rw (good (cap * 2 % 2 ^ 64)) (rest (ltb→lt cap needed less)))
      (λ enough. (cap, refl))

twice : (cap fuel : ℕ) → cap * 2 ^ suc fuel ≡ cap * 2 * 2 ^ fuel
twice cap fuel = omega (arith, ap (λ (t : ℕ). cap * t) (pow-suc 2 fuel), mul_assoc cap 2 (2 ^ fuel))

ensure-grows :
    (alloc : ℕ → Bool) (fuel needed cap : ℕ)
    → ((n : ℕ) → alloc n ≡ true)
    → needed < 2 ^ 63
    → needed ≤ cap * 2 ^ fuel
    → Bought (ensure alloc (suc fuel) needed cap)
ensure-grows alloc zero needed cap good small enough =
    ensure_round alloc zero needed cap good (λ less. absurd (omega arith))
ensure-grows alloc (suc fuel) needed cap good small enough =
    ensure_round alloc (suc fuel) needed cap good (λ less.
      let same : cap * 2 % 2 ^ 64 ≡ cap * 2 = omega arith in
      ensure-grows alloc fuel needed (cap * 2 % 2 ^ 64) good small
        (rw same (omega (arith, twice cap fuel))))

-- Where every allocation succeeds, a response is appended, as long as all of it is below 2 ^ 63.
pub add_response-appends :
    (alloc : ℕ → Bool) (resp : Bytes) (b : Batch)
    → ((n : ℕ) → alloc n ≡ true)
    → 1 ≤ b.buf_cap
    → length b.buf + length resp + 4 < 2 ^ 63
    → (cap : ℕ) × (add_response alloc (some resp) b ≡ ok (with_response b resp cap))
unfolding add_response
add_response-appends alloc resp b good some_room small =
    let needed : ℕ = (length b.buf + length resp + 4) % 2 ^ 64 in
    let (cap, e) = ensure-grows alloc 63 needed b.buf_cap good (omega arith) (omega arith) in
    (cap, rw e refl)
