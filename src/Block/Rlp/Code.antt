-- ===== src/Block/Rlp/Code.antt =====
-- RLP as it is defined, with no buffer and no reader: the code of a byte string and of a list whose
-- items are coded already.
use evm_db.Prelude.{
  ℕ, zero, suc, ◌+◌, ◌-◌, ◌*◌, ◌/◌, ◌^◌, ◌≤◌, ◌<◌, ◌≡◌, ◌%◌, refl, ap, sym, ◌∙◌, drop, append_assoc,
  append-nil, [], ◌∷◌, ◌++◌, true, leb, ◌==◌, if◌then◌else◌, length, length-append, All, arith,
  bit_and, Bool-cases, inl, inr, replicate,
}
use evm_db.Prelude.Bytes.{Bytes, IsByte, be_value, pow_byte, mul_pow_byte}
use native.Mathlib.Nat.{div-add-mod'}
use evm_db.Prelude.Bits.{bit_and_byte}
use evm_db.Block.Rlp.Buffer.{minimal_bytes, strip_zeros}

-- How many bytes a number has, up to a bound, and the last bytes of a number in big-endian order.
unfoldable pub width : ℕ → ℕ → ℕ
width zero v = 0
width (suc bound) v = let more = width bound (v / 256) in if v == 0 then 0 else suc more

unfoldable pub big_endian : ℕ → ℕ → Bytes
big_endian zero v = []
big_endian (suc n) v = big_endian n (v / 256) ++ v % 256 ∷ []

-- A number of 64 bits without leading zero bytes, in big-endian order.
unfoldable pub be_bytes : ℕ → Bytes
be_bytes v = big_endian (width 8 v) v

-- A byte string without the zeros in front.
unfoldable pub leading_zeros : Bytes → ℕ
leading_zeros [] = 0
leading_zeros (zero ∷ bs) = suc (leading_zeros bs)
leading_zeros (suc b ∷ bs) = 0

unfoldable pub trimmed : Bytes → Bytes
trimmed bs = drop (leading_zeros bs) bs

unfoldable pub header : ℕ → ℕ → ℕ → Bytes
header short_base long_base n =
    if leb n 55 then (short_base + n) ∷ [] else (long_base + length (be_bytes n)) ∷ be_bytes n

unfoldable pub string_code : Bytes → Bytes
string_code (b ∷ []) = if leb b 0x7f then b ∷ [] else header 0x80 0xb7 1 ++ b ∷ []
string_code bytes = header 0x80 0xb7 (length bytes) ++ bytes

unfoldable pub list_code : Bytes → Bytes
list_code payload = header 0xc0 0xf7 (length payload) ++ payload

-- `minimal_bytes` writes the number in front of what is there.
minimal_bytes_value :
    (fuel v : ℕ) (bs : Bytes)
    → v < 256 ^ fuel
    → be_value (minimal_bytes fuel v bs) ≡ v * 256 ^ length bs + be_value bs
unfolding minimal_bytes
minimal_bytes_value zero zero bs h = omega arith
minimal_bytes_value zero (suc v) bs h = absurd (omega arith)
minimal_bytes_value (suc fuel) v bs h = elim (Bool-cases (v == 0)) [
  | inl e ↦ rw e (ground arith)
  | inr e ↦ rw e (
      omega (
        arith,
        minimal_bytes_value fuel (v / 256) (bit_and v 255 ∷ bs) (omega (arith, pow_byte fuel)),
        ap (λ (t : ℕ). t * 256 ^ length bs) (bit_and_byte v),
        mul_pow_byte (v / 256) (length bs),
        ap (λ (t : ℕ). t * 256 ^ length bs) (div-add-mod' v 256),
      ))
]

minimal_bytes-bytes :
    (fuel v : ℕ) (bs : Bytes) → All IsByte bs → All IsByte (minimal_bytes fuel v bs)
unfolding minimal_bytes
minimal_bytes-bytes zero v bs h = h
minimal_bytes-bytes (suc fuel) v bs h = ground (
  arith,
  bit_and_byte v,
  minimal_bytes-bytes fuel (v / 256) (bit_and v 255 ∷ bs) (omega (arith, bit_and_byte v), h),
)

length-minimal_bytes :
    (fuel v : ℕ) (bs : Bytes) → length (minimal_bytes fuel v bs) ≤ fuel + length bs
unfolding minimal_bytes
length-minimal_bytes zero v bs = omega arith
length-minimal_bytes (suc fuel) v bs =
    ground (arith, length-minimal_bytes fuel (v / 256) (bit_and v 255 ∷ bs))

length-minimal_bytes_pos :
    (fuel v : ℕ) (bs : Bytes) → 0 < length bs → 0 < length (minimal_bytes fuel v bs)
unfolding minimal_bytes
length-minimal_bytes_pos zero v bs h = h
length-minimal_bytes_pos (suc fuel) v bs h =
    ground (arith, length-minimal_bytes_pos fuel (v / 256) (bit_and v 255 ∷ bs))

minimal_bytes-big_endian :
    (bound v : ℕ) (bs : Bytes) → minimal_bytes bound v bs ≡ big_endian (width bound v) v ++ bs
unfolding minimal_bytes big_endian width
minimal_bytes-big_endian zero v bs = refl
minimal_bytes-big_endian (suc bound) v bs = elim (Bool-cases (v == 0)) [
  | inl e ↦ rw e refl
  | inr e ↦ rw e (
      minimal_bytes-big_endian bound (v / 256) (bit_and v 255 ∷ bs)
      ∙ ap (λ b. big_endian (width bound (v / 256)) (v / 256) ++ b ∷ bs) (bit_and_byte v)
      ∙ sym (append_assoc (big_endian (width bound (v / 256)) (v / 256)) (v % 256 ∷ []) bs))
]

-- What the program writes are the bytes of the number.
pub minimal_bytes-be_bytes : (v : ℕ) → minimal_bytes 8 v [] ≡ be_bytes v
unfolding be_bytes
minimal_bytes-be_bytes v = minimal_bytes-big_endian 8 v [] ∙ append-nil _

pub strip_zeros-trimmed : (bs : Bytes) → strip_zeros bs ≡ trimmed bs
unfolding strip_zeros trimmed leading_zeros
strip_zeros-trimmed [] = refl
strip_zeros-trimmed (zero ∷ bs) = strip_zeros-trimmed bs
strip_zeros-trimmed (suc b ∷ bs) = ground arith

-- The laws at the sizes of the program.
pub be_bytes_value : (v : ℕ) → v < 2 ^ 64 → be_value (be_bytes v) ≡ v
be_bytes_value v h =
    rw (sym (minimal_bytes-be_bytes v)) (omega (arith, minimal_bytes_value 8 v [] (omega arith)))

pub be_bytes-zero : be_bytes 0 ≡ []
unfolding be_bytes big_endian width
be_bytes-zero = refl

pub be_bytes-bytes : (v : ℕ) → All IsByte (be_bytes v)
be_bytes-bytes v = rw (sym (minimal_bytes-be_bytes v)) (minimal_bytes-bytes 8 v [] tt)

pub length-be_bytes : (v : ℕ) → length (be_bytes v) ≤ 8
length-be_bytes v = rw (sym (minimal_bytes-be_bytes v)) (omega (arith, length-minimal_bytes 8 v []))

pub length-be_bytes_pos : (v : ℕ) → 0 < v → 0 < length (be_bytes v)
unfolding minimal_bytes
length-be_bytes_pos v h =
    rw (sym (minimal_bytes-be_bytes v))
      (ground (arith, length-minimal_bytes_pos 7 (v / 256) (bit_and v 255 ∷ []) (omega arith)))

pub strip_zeros-bytes : (bs : Bytes) → All IsByte bs → All IsByte (strip_zeros bs)
unfolding strip_zeros
strip_zeros-bytes [] h = tt
strip_zeros-bytes (b ∷ bs) (hb, h) = ground (arith, strip_zeros-bytes bs h)

pub length-strip_zeros : (bs : Bytes) → length (strip_zeros bs) ≤ length bs
unfolding strip_zeros
length-strip_zeros [] = omega arith
length-strip_zeros (b ∷ bs) = ground (arith, length-strip_zeros bs)

-- What was skipped are zeros.
pub strip_zeros_pad :
    (bs : Bytes) → replicate (length bs - length (strip_zeros bs)) 0 ++ strip_zeros bs ≡ bs
unfolding strip_zeros
strip_zeros_pad [] = refl
strip_zeros_pad (b ∷ bs) = elim (Bool-cases (b == 0)) [
  | inl e ↦ rw e (rw (more (length-strip_zeros bs)) (cc (strip_zeros_pad bs, zero_of e)))
  | inr e ↦ rw e (rw (none_skipped (length bs)) refl)
]
  where
    more : {m n : ℕ} → m ≤ n → suc n - m ≡ suc (n - m)
    more h = omega arith

    zero_of : {c : ℕ} → (c == 0) ≡ true → c ≡ 0
    zero_of e = ground arith

    none_skipped : (n : ℕ) → suc n - suc n ≡ 0
    none_skipped n = omega arith

pub length-trimmed : (bs : Bytes) → length (trimmed bs) ≤ length bs
length-trimmed bs = rw (sym (strip_zeros-trimmed bs)) (length-strip_zeros bs)

pub trimmed_pad : (bs : Bytes) → replicate (length bs - length (trimmed bs)) 0 ++ trimmed bs ≡ bs
trimmed_pad bs = rw (sym (strip_zeros-trimmed bs)) (strip_zeros_pad bs)

pub length-list_code : (items : Bytes) → length items ≤ length (list_code items)
unfolding list_code
length-list_code items = omega (arith, length-append (header 0xc0 0xf7 (length items)) items)

-- The first byte of a list tells it from a typed transaction.
pub list_code_head :
    (items : Bytes) → (x : ℕ) × (xs : Bytes) × (list_code items ≡ x ∷ xs) × (0xc0 ≤ x)
unfolding list_code header
list_code_head items = elim (Bool-cases (leb (length items) 55)) [
  | inl short ↦ (0xc0 + length items, items, rw short refl, omega arith)
  | inr long ↦ (
    0xf7 + length (be_bytes (length items)),
    be_bytes (length items) ++ items,
    rw long refl,
    omega arith,
  )
]
