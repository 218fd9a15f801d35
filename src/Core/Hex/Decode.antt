-- ===== src/Core/Hex/Decode.antt =====
-- `encode` and `decode` of hex.c: what is written can be read back, and what is read was written.
use evm_db.Prelude.{
  ℕ, zero, suc, ◌+◌, ◌*◌, ◌/◌, ◌%◌, ◌≤◌, ◌≡◌, refl, sym, ap, ◌∙◌, [], ◌∷◌, ◌++◌, some, true, length,
  take, drop, All, arith, Option-cases, inl, inr,
}
use mathlib.Core.List.{map}
use mathlib.Core.Path.{subst}
use evm_db.Prelude.Bytes.{Bytes, IsByte}
use evm_db.Core.Hex.{hex_char, hex_char_val, hex_pairs, decode_loop, encode, decode, skip_prefix}
use evm_db.Core.Hex.Digits.{
  length-hex_pairs, decode_loop-digits, hex_char_val-hex_char, hex_char_val-lt,
}
use evm_db.Prelude.Bits.{bit_and_nibble, bit_or_nibble}
use evm_db.Prelude.{bit_and, bit_or}

pub decode_loop-hex_pairs :
    (bs out : Bytes)
    → All IsByte bs
    → length bs ≤ length out
    → decode_loop (hex_pairs bs) out ≡ (true, bs ++ drop (length bs) out)
unfolding hex_pairs
decode_loop-hex_pairs [] [] h e = unfold decode_loop in refl
decode_loop-hex_pairs [] (o ∷ out) h e = unfold decode_loop in refl
decode_loop-hex_pairs (b ∷ bs) [] h e = absurd (omega arith)
decode_loop-hex_pairs (b ∷ bs) (o ∷ out) (hb, hbs) e =
    decode_loop-digits b o (hex_pairs bs) out hb
    ∙ rw (decode_loop-hex_pairs bs out hbs (omega arith))

-- The text of a byte string, in a buffer that is large enough.
pub encode_lem :
    (bs : Bytes) (n : ℕ) → length bs * 2 + 3 ≤ n → encode bs n ≡ some (b'0' ∷ b'x' ∷ hex_pairs bs)
unfolding encode
encode_lem bs n h = ground arith

encode-some :
    (bs text : Bytes) (n : ℕ) → encode bs n ≡ some text → text ≡ b'0' ∷ b'x' ∷ hex_pairs bs
unfolding encode
encode-some bs text n e = ground arith

decode-hex_pairs :
    (bs out : Bytes)
    → All IsByte bs
    → length bs ≤ length out
    → decode (some (b'0' ∷ b'x' ∷ hex_pairs bs)) out
      ≡ (some (length bs), bs ++ drop (length bs) out)
unfolding decode skip_prefix
decode-hex_pairs bs out h fits =
    ground (arith, length-hex_pairs bs, decode_loop-hex_pairs bs out h fits)

-- `decode` reads back every byte string that `encode` wrote, if it fits the buffer; the bytes of
-- the buffer behind it keep their values.
pub decode-encode :
    (bs out text : Bytes) (n : ℕ)
    → All IsByte bs
    → length bs ≤ length out
    → encode bs n ≡ some text
    → decode (some text) out ≡ (some (length bs), bs ++ drop (length bs) out)
decode-encode bs out text n h fits e =
    ap (λ t. decode (some t) out) (encode-some bs text n e) ∙ decode-hex_pairs bs out h fits

-- What a successful run of the loop leaves in the buffer for 2 * k characters.
record Reads (k : ℕ) (cs out out' : Bytes) : Type 0 where
  pub size : length out' ≡ length out
  pub bytes : All IsByte (take k out')
  pub digits : map hex_char_val (hex_pairs (take k out')) ≡ map hex_char_val cs
  pub behind : drop k out' ≡ drop k out

pair-Reads :
    (k h l hi lo o : ℕ) (cs out out' : Bytes)
    → hex_char_val h ≡ some hi
    → hex_char_val l ≡ some lo
    → Reads k cs out out'
    → Reads (suc k) (h ∷ l ∷ cs) (o ∷ out) ((bit_or (hi * 16) lo % 256) ∷ out')
unfolding hex_pairs
pair-Reads k h l hi lo o cs out out' eh el r =
    let lt_hi = hex_char_val-lt h hi eh in
    let lt_lo = hex_char_val-lt l lo el in
    let b : ℕ = bit_or (hi * 16) lo % 256 in
    let byte : b ≡ hi * 16 + lo = omega (arith, bit_or_nibble hi lo lt_lo) in
    let high : hex_char_val (hex_char (bit_and (b / 16) 15)) ≡ hex_char_val h =
      ap (λ x. hex_char_val (hex_char x)) (omega (arith, bit_and_nibble (b / 16)))
      ∙ hex_char_val-hex_char hi lt_hi
      ∙ sym eh in
    let low : hex_char_val (hex_char (bit_and b 15)) ≡ hex_char_val l =
      ap (λ x. hex_char_val (hex_char x)) (omega (arith, bit_and_nibble b))
      ∙ hex_char_val-hex_char lo lt_lo
      ∙ sym el in
    record {
      size = ap suc r.size;
      bytes = (omega arith, r.bytes);
      digits = cc (high, low, r.digits);
      behind = r.behind;
    }

decode_loop_pair :
    (h l hi lo o : ℕ) (cs out : Bytes)
    → hex_char_val h ≡ some hi
    → hex_char_val l ≡ some lo
    → decode_loop (h ∷ l ∷ cs) (o ∷ out)
      ≡ ((decode_loop cs out).0, (bit_or (hi * 16) lo % 256) ∷ (decode_loop cs out).1)
unfolding decode_loop
decode_loop_pair h l hi lo o cs out eh el = ground arith

-- The loop goes past a pair only if both are digits.
decode_loop_digits :
    (h l o : ℕ) (cs out : Bytes)
    → (decode_loop (h ∷ l ∷ cs) (o ∷ out)).0 ≡ true
    → ((hi : ℕ) × (hex_char_val h ≡ some hi))
      × ((lo : ℕ) × (hex_char_val l ≡ some lo))
      × ((decode_loop cs out).0 ≡ true)
unfolding decode_loop
decode_loop_digits h l o cs out good = elim (Option-cases (hex_char_val h)) [
  | inl bad ↦ absurd (ground arith)
  | inr (hi, eh) ↦ elim (Option-cases (hex_char_val l)) [
    | inl bad ↦ absurd (ground arith)
    | inr (lo, el) ↦ ((hi, eh), (lo, el), ground arith)
  ]
]

decode_loop-Reads :
    (k : ℕ) (cs out : Bytes)
    → length cs ≡ 2 * k
    → k ≤ length out
    → (decode_loop cs out).0 ≡ true
    → Reads k cs out (decode_loop cs out).1
decode_loop-Reads zero [] out e fits good =
    unfold decode_loop hex_pairs in record { size = refl; bytes = tt; digits = refl; behind = refl }
decode_loop-Reads zero (c ∷ cs) out e fits good = absurd (omega arith)
decode_loop-Reads (suc k) [] out e fits good = absurd (omega arith)
decode_loop-Reads (suc k) (h ∷ []) out e fits good = absurd (omega arith)
decode_loop-Reads (suc k) (h ∷ l ∷ cs) [] e fits good = absurd (omega arith)
decode_loop-Reads (suc k) (h ∷ l ∷ cs) (o ∷ out) e fits good =
    let ((hi, eh), (lo, el), good') = decode_loop_digits h l o cs out good in
    let r = decode_loop-Reads k cs out (omega arith) (omega arith) good' in
    subst (λ p. Reads (suc k) (h ∷ l ∷ cs) (o ∷ out) p.1)
      (sym (decode_loop_pair h l hi lo o cs out eh el)) (pair-Reads k h l hi lo o cs out _ eh el r)

-- A successful `decode`: the characters behind the prefix are 2 * k digits, the buffer has room for
-- k bytes, its first k bytes are the bytes whose digits these are, and the rest keeps its values.
pub decode_sound :
    (hex out : Bytes) (k : ℕ)
    → (decode (some hex) out).0 ≡ some k
    → (length (skip_prefix hex) ≡ 2 * k)
      × (k ≤ length out)
      × (length (decode (some hex) out).1 ≡ length out)
      × All IsByte (take k (decode (some hex) out).1)
      × (map hex_char_val (hex_pairs (take k (decode (some hex) out).1))
          ≡ map hex_char_val (skip_prefix hex))
      × (drop k (decode (some hex) out).1 ≡ drop k out)
decode_sound hex out k e =
    let (even, fits, good, same) = decode_succeeds hex out k e in
    let r = decode_loop-Reads k (skip_prefix hex) out even fits good in
    rw same (even, fits, r.size, r.bytes, r.digits, r.behind)
  where
    decode_succeeds :
        (hex out : Bytes) (k : ℕ)
        → (decode (some hex) out).0 ≡ some k
        → (length (skip_prefix hex) ≡ 2 * k)
          × (k ≤ length out)
          × ((decode_loop (skip_prefix hex) out).0 ≡ true)
          × ((decode (some hex) out).1 ≡ (decode_loop (skip_prefix hex) out).1)
    decode_succeeds hex out k e = unfold decode in ground arith
