-- ===== src/Block/Rlp/Reading.antt =====
-- The reader on the code of a byte string: it finds the bytes and stands behind them.
use evm_db.Prelude.{
  ℕ, zero, suc, ◌+◌, ◌-◌, ◌*◌, ◌%◌, ◌^◌, ◌≤◌, ◌<◌, ◌≡◌, refl, ap, ◌∙◌, [], ◌∷◌, ◌++◌, length,
  length-append, All, arith, get_elem?, drop, some, bit_or, le→ltb, le→leb,
}
use native.Mathlib.Nat.{mod-eq_of_lt}
use evm_db.Prelude.Bytes.{Bytes, IsByte, be_value, mul_pow_byte, one-le-pow_byte}
use evm_db.Prelude.Bits.{bit_or_byte}
use evm_db.Block.Rlp.Result.{Result, ok}
use evm_db.Block.Rlp.Reader.{
  Reader, Item, read_bytes, be_loop, take_string, take_length, decode_prefix, decode_item, skip,
  size_add,
}
use evm_db.Block.Rlp.Code.{
  be_bytes, be_bytes_value, be_bytes-bytes, length-be_bytes, length-be_bytes_pos,
}

-- The reader stands in front of `xs`, which fill its range up to the end.
pub record At (r : Reader) (xs : Bytes) : Type 0 where
  pub rest : drop r.pos r.memory ≡ xs
  pub ends : r.pos + length xs ≡ r.len
  pub fits : r.len < 2 ^ 63

drop_more : (n : ℕ) (m xs ys : Bytes) → drop n m ≡ xs ++ ys → drop (n + length xs) m ≡ ys
drop_more n m [] ys e = let same : n + 0 ≡ n = omega arith in ap (λ k. drop k m) same ∙ e
drop_more zero (x ∷ m) (y ∷ xs) ys e =
    let same : 0 + suc (length xs) ≡ suc (0 + length xs) = omega arith in
    ap (λ k. drop k (x ∷ m)) same ∙ drop_more zero m xs ys cc
drop_more zero [] (y ∷ xs) ys e = cc
drop_more (suc n) [] (y ∷ xs) ys e = cc
drop_more (suc n) (x ∷ m) (y ∷ xs) ys e =
    let same : suc n + suc (length xs) ≡ suc (n + suc (length xs)) = omega arith in
    ap (λ k. drop k (x ∷ m)) same ∙ drop_more n m (y ∷ xs) ys e

get_elem?-drop :
    (n : ℕ) (m : Bytes) (x : ℕ) (xs : Bytes) → drop n m ≡ x ∷ xs → get_elem? m n ≡ some x
get_elem?-drop zero [] x xs e = cc
get_elem?-drop zero (y ∷ m) x xs e = cc
get_elem?-drop (suc n) [] x xs e = cc
get_elem?-drop (suc n) (y ∷ m) x xs e = get_elem?-drop n m x xs e

pub skip-At : (r : Reader) (xs ys : Bytes) → At r (xs ++ ys) → At (skip (length xs) r) ys
skip-At r xs ys a =
    let total = length-append xs ys in
    let moved : (r.pos + length xs) % 2 ^ 64 ≡ r.pos + length xs =
      mod-eq_of_lt (omega (arith, a.ends, a.fits, total)) in
    record {
      rest = ap (λ k. drop k r.memory) moved ∙ drop_more r.pos r.memory xs ys a.rest;
      ends = omega (arith, moved, a.ends, total);
      fits = a.fits;
    }

pub read_bytes-append : (xs ys : Bytes) → read_bytes (length xs) (xs ++ ys) ≡ some xs
unfolding read_bytes
read_bytes-append [] ys = refl
read_bytes-append (x ∷ xs) ys = rw (read_bytes-append xs ys)

le_scaled : (v p : ℕ) → 1 ≤ p → v ≤ v * p
le_scaled v p h = grind arith

-- Nothing is shifted out while the number fits 64 bits.
pub be_loop_value :
    (bs : Bytes) (val : ℕ)
    → All IsByte bs
    → val * 256 ^ length bs + be_value bs < 2 ^ 64
    → be_loop val bs ≡ val * 256 ^ length bs + be_value bs
unfolding be_loop
be_loop_value [] val h fits = omega arith
be_loop_value (b ∷ bs) val (hb, h) fits =
    let p : ℕ = 256 ^ length bs in
    let scaled : (val * 256 + b) * p + be_value bs
        ≡ val * 256 ^ length (b ∷ bs) + (b * p + be_value bs) =
      omega (arith, mul_pow_byte val (length bs)) in
    let small : val * 256 < 2 ^ 64 =
      omega (arith, mul_pow_byte val (length bs), le_scaled val p (one-le-pow_byte (length bs))) in
    let pushed : bit_or (val * 256 % 2 ^ 64) b ≡ val * 256 + b =
      ap (λ (x : ℕ). bit_or x b) (mod-eq_of_lt small) ∙ bit_or_byte val b hb in
    ap (λ v. be_loop v bs) pushed
    ∙ be_loop_value bs (val * 256 + b) h (omega (arith, scaled))
    ∙ scaled

pub be_loop-be_bytes : (v : ℕ) → v < 2 ^ 64 → be_loop 0 (be_bytes v) ≡ v
be_loop-be_bytes v h =
    let value = be_bytes_value v h in
    be_loop_value (be_bytes v) 0 (be_bytes-bytes v) (omega (arith, value)) ∙ omega (arith, value)

-- What a reader answers for one item: the bytes `d` with `rest` behind them.
abbrev pub Finds : Result (Item × Reader) → Bytes → Bytes → Type 0
Finds answer d rest =
    (r' : Reader) × (answer ≡ ok (record { start = d ++ rest; size = length d }, r')) × At r' rest

take_string-Finds :
    (r : Reader) (d rest : Bytes) → At r (d ++ rest) → Finds (take_string r (length d)) d rest
unfolding take_string
take_string-Finds r d rest a =
    let total = length-append d rest in
    let moved : (r.pos + length d) % 2 ^ 64 ≡ r.pos + length d =
      mod-eq_of_lt (omega (arith, a.ends, a.fits, total)) in
    (
      skip (length d) r,
      rw (le→ltb r.len (size_add r.pos (length d)) (omega (arith, moved, a.ends, total)))
          (ap (λ s. ok (record { start = s; size = length d }, skip (length d) r)) a.rest),
      skip-At r d rest a,
    )

-- A length of at most eight bytes, and what comes behind it.
pub take_length-At :
    (r : Reader) (n : ℕ) (rest : Bytes) (next : Reader → ℕ → Result (Item × Reader))
    → n < 2 ^ 64
    → At r (be_bytes n ++ rest)
    → take_length r (length (be_bytes n)) next ≡ next (skip (length (be_bytes n)) r) n
unfolding take_length
take_length-At r n rest next h a =
    let total = length-append (be_bytes n) rest in
    let moved : (r.pos + length (be_bytes n)) % 2 ^ 64 ≡ r.pos + length (be_bytes n) =
      mod-eq_of_lt (omega (arith, a.ends, a.fits, total)) in
    let reads : read_bytes (length (be_bytes n)) (drop r.pos r.memory) ≡ some (be_bytes n) =
      ap (read_bytes (length (be_bytes n))) a.rest ∙ read_bytes-append (be_bytes n) rest in
    rw
      (
        le→ltb r.len (size_add r.pos (length (be_bytes n))) (omega (arith, moved, a.ends, total)),
        reads,
      )
      (ap (next (skip (length (be_bytes n)) r)) (be_loop-be_bytes n h))

pub decode_item-At :
    (r : Reader) (x : ℕ) (xs : Bytes) → At r (x ∷ xs) → decode_item r ≡ decode_prefix r x
unfolding decode_item
decode_item-At r x xs a = ground (arith, a.ends, get_elem?-drop r.pos r.memory x xs a.rest)

-- One byte below 0x80 stands for itself.
pub decode_byte :
    (r : Reader) (x : ℕ) (rest : Bytes)
    → x ≤ 0x7f
    → At r (x ∷ rest)
    → Finds (decode_prefix r x) (x ∷ []) rest
unfolding decode_prefix
decode_byte r x rest h a = (
  skip 1 r,
  rw (le→leb x 0x7f h) (ap (λ s. ok (record { start = s; size = 1 }, skip 1 r)) a.rest),
  skip-At r (x ∷ []) rest a,
)

pub decode_short :
    (r : Reader) (d rest : Bytes)
    → length d ≤ 55
    → At r ((0x80 + length d) ∷ d ++ rest)
    → Finds (decode_prefix r (0x80 + length d)) d rest
unfolding decode_prefix
decode_short r d rest h a =
    let (r', e, a') =
      take_string-Finds (skip 1 r) d rest (skip-At r ((0x80 + length d) ∷ []) _ a) in
    let small : 0x80 + length d - 0x80 ≡ length d = omega arith in
    (r', ground (arith, e, small), a')

pub decode_long :
    (r : Reader) (d rest : Bytes)
    → 55 < length d
    → length d < 2 ^ 63
    → At r ((0xb7 + length (be_bytes (length d))) ∷ be_bytes (length d) ++ (d ++ rest))
    → Finds (decode_prefix r (0xb7 + length (be_bytes (length d)))) d rest
unfolding decode_prefix
decode_long r d rest h fits a =
    let k : ℕ = length (be_bytes (length d)) in
    let inner = skip-At r ((0xb7 + k) ∷ []) (be_bytes (length d) ++ (d ++ rest)) a in
    let behind = skip-At (skip 1 r) (be_bytes (length d)) (d ++ rest) inner in
    let (r', e, a') = take_string-Finds (skip k (skip 1 r)) d rest behind in
    let small : 0xb7 + k - 0xb7 ≡ k = omega arith in
    (
      r',
      ground (
        arith,
        small,
        length-be_bytes (length d),
        length-be_bytes_pos (length d) (omega arith),
        take_length-At (skip 1 r) (length d) (d ++ rest) take_string (omega arith) inner,
        e,
      ),
      a',
    )
