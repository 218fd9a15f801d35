-- ===== src/Block/Rlp/Fields.antt =====
-- Whole items: the reader against the code of a byte string, of a list, of a number and of an
-- array.
use evm_db.Prelude.{
  ℕ, ◌+◌, ◌-◌, ◌^◌, ◌<◌, ◌≡◌, refl, sym, ap, ◌∙◌, [], ◌∷◌, ◌++◌, leb, length, length-append, arith,
  append_assoc, min, replicate, Bool-cases, inl, inr, leb→le,
}
use evm_db.Prelude.Bytes.{Bytes}
use evm_db.Block.Rlp.Result.{ok}
use evm_db.Block.Rlp.Reader.{
  Reader, decode_prefix, decode_item, to_uint64, to_array, skip, enter_list,
}
use evm_db.Block.Rlp.Code.{
  be_bytes, trimmed, length-be_bytes, length-be_bytes_pos, header, string_code, list_code,
  trimmed_pad, length-trimmed,
}
use evm_db.Block.Rlp.Reading.{
  At, Finds, skip-At, read_bytes-append, be_loop-be_bytes, take_length-At, decode_item-At,
  decode_byte, decode_short, decode_long,
}

headed :
    (r : Reader) (d rest : Bytes)
    → length d < 2 ^ 63
    → At r ((header 0x80 0xb7 (length d) ++ d) ++ rest)
    → Finds (decode_item r) d rest
unfolding header
headed r d rest fits a = elim (Bool-cases (leb (length d) 55)) [
  | inl short ↦
      let a' : At r ((0x80 + length d) ∷ d ++ rest) = rw short at a in
      rw (decode_item-At r _ _ a') (decode_short r d rest (leb→le _ _ short) a')
  | inr long ↦
      let a' : At r ((0xb7 + length (be_bytes (length d))) ∷ be_bytes (length d) ++ (d ++ rest)) =
        rw (long, append_assoc) at a in
      rw (decode_item-At r _ _ a') (decode_long r d rest (ground arith) fits a')
]

-- `decode_item` in front of the code of a byte string finds that string, whatever comes behind it,
-- and leaves the reader in front of what comes behind.
pub decode_item-string_code :
    (r : Reader) (d rest : Bytes)
    → length d < 2 ^ 63
    → At r (string_code d ++ rest)
    → (r' : Reader) × (decode_item r ≡ ok (record { start = d ++ rest; size = length d }, r'))
      × At r' rest
unfolding string_code
decode_item-string_code r [] rest fits a = headed r [] rest fits a
decode_item-string_code r (b ∷ []) rest fits a = elim (Bool-cases (leb b 0x7f)) [
  | inl small ↦
      let a' : At r (b ∷ rest) = rw small at a in
      rw (decode_item-At r _ _ a') (decode_byte r b rest (leb→le _ _ small) a')
  | inr large ↦ headed r (b ∷ []) rest fits (rw large at a)
]
decode_item-string_code r (b ∷ c ∷ d) rest fits a = headed r (b ∷ c ∷ d) rest fits a

-- In front of a list, `decode_item` finds its contents and their length.
pub decode_item-list_code :
    (memory payload : Bytes)
    → memory ≡ list_code payload
    → length memory < 2 ^ 63
    → (r' : Reader) × (decode_item (record { memory = memory; pos = 0; len = length memory })
        ≡ ok (record { start = payload; size = length payload }, r'))
unfolding list_code header decode_prefix
decode_item-list_code memory payload e fits =
    let r : Reader = record { memory = memory; pos = 0; len = length memory } in
    let n : ℕ = length payload in
    elim (Bool-cases (leb n 55)) [
      | inl short ↦
          let whole : memory ≡ (0xc0 + n) ∷ payload = rw short at e in
          let a : At r ((0xc0 + n) ∷ payload) = record {
            rest = whole;
            ends = omega (arith, ap length whole);
            fits = fits;
          } in
          let small : 0xc0 + n - 0xc0 ≡ n = omega arith in
          let inner = skip-At r ((0xc0 + n) ∷ []) payload a in
          (skip 1 r, ground (arith, decode_item-At r _ _ a, small, inner.rest))
      | inr long ↦
          let k : ℕ = length (be_bytes n) in
          let whole : memory ≡ (0xf7 + k) ∷ be_bytes n ++ payload = rw long at e in
          let a : At r ((0xf7 + k) ∷ be_bytes n ++ payload) = record {
            rest = whole;
            ends = omega (arith, ap length whole);
            fits = fits;
          } in
          let small : 0xf7 + k - 0xf7 ≡ k = omega arith in
          let inner = skip-At r ((0xf7 + k) ∷ []) (be_bytes n ++ payload) a in
          let behind = skip-At (skip 1 r) (be_bytes n) payload inner in
          (
            skip k (skip 1 r),
            ground (
              arith,
              decode_item-At r _ _ a,
              small,
              length-be_bytes n,
              length-be_bytes_pos n (ground arith),
              take_length-At (skip 1 r) n payload (λ r' len. ok (enter_list r' len))
                  (omega (arith, length-append (be_bytes n) payload, ap length whole)) inner,
              behind.rest,
            ),
          )
    ]

-- The number whose bytes an item holds.
pub to_uint64-be_bytes :
    (v : ℕ) (rest : Bytes)
    → v < 2 ^ 64
    → to_uint64 (record { start = be_bytes v ++ rest; size = length (be_bytes v) }) ≡ ok v
unfolding to_uint64
to_uint64-be_bytes v rest h =
    let same : min (length (be_bytes v)) 8 ≡ length (be_bytes v) =
      omega (arith, length-be_bytes v) in
    rw (same, read_bytes-append (be_bytes v) rest, to_uint64) (ap ok (be_loop-be_bytes v h))

-- An array whose leading zeros were left out, and an array as it is.
pub to_array-trimmed :
    (n : ℕ) (bs rest : Bytes)
    → length bs ≡ n
    → to_array n (record { start = trimmed bs ++ rest; size = length (trimmed bs) }) ≡ ok bs
unfolding to_array
to_array-trimmed n bs rest e =
    let same : min (length (trimmed bs)) n ≡ length (trimmed bs) =
      omega (arith, length-trimmed bs, e) in
    rw (same, read_bytes-append (trimmed bs) rest, to_array)
      (rw same (
        ap (λ k. ok (replicate (k - length (trimmed bs)) 0 ++ trimmed bs)) (sym e)
        ∙ ap ok (trimmed_pad bs)))

pub to_array_whole :
    (n : ℕ) (bs rest : Bytes)
    → length bs ≡ n
    → to_array n (record { start = bs ++ rest; size = length bs }) ≡ ok bs
unfolding to_array
to_array_whole n bs rest e =
    let same : min (length bs) n ≡ length bs = omega (arith, e) in
    let full : n - length bs ≡ 0 = omega (arith, e) in
    rw (same, read_bytes-append bs rest, to_array) (rw (same, full) refl)
