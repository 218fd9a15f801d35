-- ===== src/Block/Rlp/Writing.antt =====
-- The writer of tx.c against the code that it means: each call appends the code of its argument,
-- stays within the buffer, ends, and fails only if an allocation fails.
use evm_db.Prelude.{
  ℕ, zero, suc, ◌+◌, ◌*◌, ◌%◌, ◌^◌, ◌≤◌, ◌≡◌, ◌⊎◌, refl, sym, ap, ◌∙◌, [], ◌∷◌, ◌++◌, Bool, true,
  false, ltb, leb, ◌==◌, if◌then◌else◌, length, length-append, arith, append_assoc, Bool-cases, inl,
  inr, leb→le,
}
use mathlib.Core.Path.{subst}
use native.Mathlib.Nat.{pow-suc, mod-eq_of_lt}
use evm_db.Prelude.Bytes.{Bytes}
use evm_db.Block.Rlp.Result.{Result, ok, err}
use evm_db.Block.Rlp.Buffer.{
  Buffer, ◌⨾◌, grow, resize, reserve, append, append_byte, append_length, append_string,
  append_bytes, append_uint64, append_bytes32, append_address, append_empty_list, wrap_list,
}
use evm_db.Block.Rlp.Code.{
  be_bytes, trimmed, minimal_bytes-be_bytes, strip_zeros-trimmed, header, string_code, list_code,
  length-be_bytes, be_bytes-zero,
}

-- `memcpy` to `data + len` never passes the end of the allocation.
abbrev pub IsBounded : Buffer → Type 0
IsBounded b = length b.bytes ≤ b.cap

-- The answer of a call on `b` that appends `xs`.
abbrev pub Written : (ℕ → Bool) → Buffer → Bytes → Result Buffer → Type 0
Written alloc b xs answer =
    ((b' : Buffer) × (answer ≡ ok b') × (b'.bytes ≡ b.bytes ++ xs) × IsBounded b')
    ⊎ ((answer ≡ err) × ((n : ℕ) × (alloc n ≡ false)))

-- The call `m` appends `xs` to every buffer with which they fit 2 ^ 63 bytes.
abbrev pub Writes : (ℕ → Bool) → (Buffer → Result Buffer) → Bytes → Type 0
Writes alloc m xs =
    (b : Buffer) → IsBounded b → length b.bytes + length xs ≤ 2 ^ 63 → Written alloc b xs (m b)

grow_ends :
    (fuel c needed : ℕ)
    → needed ≤ 2 ^ 63
    → needed ≤ c * 2 ^ fuel
    → (n : ℕ) × (grow fuel c needed ≡ ok n) × (needed ≤ n)
unfolding grow
grow_ends zero c needed h e = (c, ground arith, omega arith)
grow_ends (suc fuel) c needed h e = elim (Bool-cases (ltb c needed)) [
  | inl more ↦ rw more (
      let twice : c * 2 % 2 ^ 64 ≡ c * 2 = mod-eq_of_lt (ground arith) in
      rw twice
        (grow_ends fuel (c * 2) needed h (omega (arith, ap (λ (t : ℕ). c * t) (pow-suc 2 fuel)))))
  | inr done ↦ rw done (c, refl, ground arith)
]

module _ (alloc : ℕ → Bool) where
  pub seq-Writes :
      (m n : Buffer → Result Buffer) (xs ys : Bytes)
      → Writes alloc m xs
      → Writes alloc n ys
      → Writes alloc (m ⨾ n) (xs ++ ys)
  seq-Writes m n xs ys hm hn b bounded fits =
      elim (hm b bounded (omega (arith, length-append xs ys))) [
        | inl (b1, e1, c1, k1) ↦
            let room : length b1.bytes + length ys ≤ 2 ^ 63 =
              omega (arith, ap length c1, length-append b.bytes xs, length-append xs ys) in
            elim (hn b1 k1 room) [
              | inl (b2, e2, c2, k2) ↦
                  inl (b2, rw e1 e2, c2 ∙ ap (λ bs. bs ++ ys) c1 ∙ append_assoc b.bytes xs ys, k2)
              | inr (e2, failed) ↦ inr (rw e1 e2, failed)
            ]
        | inr (e1, failed) ↦ inr (rw e1 refl, failed)
      ]

  reserve_lem :
      (k : ℕ) (b : Buffer)
      → length b.bytes + k ≤ 2 ^ 63
      → ((b' : Buffer) × (reserve alloc k b ≡ ok b')
          × (b'.bytes ≡ b.bytes)
          × (length b.bytes + k ≤ b'.cap))
        ⊎ ((reserve alloc k b ≡ err) × ((n : ℕ) × (alloc n ≡ false)))
  unfolding reserve resize
  reserve_lem k b fits =
      let needed : ℕ = length b.bytes + k in
      let exact : needed % 2 ^ 64 ≡ needed = mod-eq_of_lt (omega arith) in
      let start : ℕ = if b.cap == 0 then 64 else b.cap in
      let positive : 1 ≤ start = ground arith in
      let (c, e, room) = grow_ends 64 start needed fits (omega (arith, positive)) in
      rw exact (elim (Bool-cases (leb needed b.cap)) [
        | inl enough ↦ rw enough (inl (b, refl, refl, leb→le _ _ enough))
        | inr short ↦ rw short (
            rw e (elim (Bool-cases (alloc c)) [
              | inl good ↦ inl (record b { cap = c }, rw (good, resize) refl, refl, room)
              | inr bad ↦ inr (rw (bad, resize) refl, (c, bad))
            ]))
      ])

  append-Writes : (xs : Bytes) → Writes alloc (append alloc xs) xs
  unfolding append
  append-Writes xs b bounded fits = elim (reserve_lem (length xs) b fits) [
    | inl (b', e, same, room) ↦ inl (
      record b' { bytes = b'.bytes ++ xs },
      rw e refl,
      ap (λ bs. bs ++ xs) same,
      omega (arith, length-append b'.bytes xs, ap length same),
    )
    | inr (e, failed) ↦ inr (rw e refl, failed)
  ]

  pub append_byte-Writes : (x : ℕ) → Writes alloc (append_byte alloc x) (x ∷ [])
  unfolding append_byte
  append_byte-Writes x = append-Writes (x ∷ [])

  module _ (m : Buffer → Result Buffer) {xs ys : Bytes} where
    pub as-Writes : xs ≡ ys → Writes alloc m xs → Writes alloc m ys
    as-Writes e h = subst (λ zs. Writes alloc m zs) e h

  -- Both bases of the program leave room for the length below 256.
  append_length-Writes :
      (n short long : ℕ)
      → short ≤ 192
      → long ≤ 247
      → Writes alloc (append_length alloc n short long) (header short long n)
  unfolding append_length header
  append_length-Writes n short long hs hl = elim (Bool-cases (leb n 55)) [
    | inl small ↦ rw small (
        as-Writes (append_byte alloc ((short + n) % 256))
          (ap (λ x. x ∷ []) (mod-eq_of_lt (omega (arith, leb→le _ _ small))))
          (append_byte-Writes ((short + n) % 256)))
    | inr large ↦
        let k : ℕ = length (be_bytes n) in
        rw (large, minimal_bytes-be_bytes n)
          (as-Writes (append_byte alloc ((long + k) % 256) ⨾ append alloc (be_bytes n))
            (ap (λ x. x ∷ be_bytes n) (mod-eq_of_lt (omega (arith, length-be_bytes n))))
            (seq-Writes (append_byte alloc ((long + k) % 256)) (append alloc (be_bytes n)) _ _
              (append_byte-Writes _) (append-Writes (be_bytes n))))
  ]

  append_string-Writes :
      (xs : Bytes) → Writes alloc (append_string alloc xs) (header 0x80 0xb7 (length xs) ++ xs)
  unfolding append_string
  append_string-Writes xs =
      seq-Writes (append_length alloc (length xs) 0x80 0xb7) (append alloc xs) _ _
        (append_length-Writes (length xs) 0x80 0xb7 (omega arith) (omega arith)) (append-Writes xs)

  -- `rlp_append_bytes` appends the RLP code of the bytes to a buffer that has its bytes within its
  -- capacity, if both together fit 2 ^ 63 bytes: it keeps what is there and the bound, and it fails
  -- only if an allocation fails.
  pub append_bytes-Writes : (xs : Bytes) → Writes alloc (append_bytes alloc xs) (string_code xs)
  unfolding append_bytes string_code
  append_bytes-Writes [] = append_string-Writes []
  append_bytes-Writes (x ∷ []) = elim (Bool-cases (leb x 0x7f)) [
    | inl small ↦ rw small (append_byte-Writes x)
    | inr large ↦ rw large (append_string-Writes (x ∷ []))
  ]
  append_bytes-Writes (x ∷ y ∷ xs) = append_string-Writes (x ∷ y ∷ xs)

  pub append_uint64-Writes :
      (v : ℕ) → Writes alloc (append_uint64 alloc v) (string_code (be_bytes v))
  unfolding append_uint64
  append_uint64-Writes v = elim (Bool-cases (v == 0)) [
    | inl zero_value ↦
        let none : v ≡ 0 = ground arith in
        rw zero_value (
          as-Writes (append_bytes alloc [])
            (ap string_code (sym be_bytes-zero) ∙ ap (λ n. string_code (be_bytes n)) (sym none))
            (append_bytes-Writes []))
    | inr some ↦ rw (some, minimal_bytes-be_bytes v) (append_bytes-Writes (be_bytes v))
  ]

  pub append_bytes32-Writes :
      (bs : Bytes) → Writes alloc (append_bytes32 alloc bs) (string_code (trimmed bs))
  unfolding append_bytes32
  append_bytes32-Writes bs = rw (strip_zeros-trimmed bs) (append_bytes-Writes (trimmed bs))

  pub append_address-Writes :
      (bs : Bytes) (is_null : Bool)
      → Writes alloc (append_address alloc bs is_null) (string_code (if is_null then [] else bs))
  unfolding append_address
  append_address-Writes bs true = append_bytes-Writes []
  append_address-Writes bs false = append_bytes-Writes bs

  pub append_empty_list-Writes : Writes alloc (append_empty_list alloc) (list_code [])
  unfolding append_empty_list list_code header
  append_empty_list-Writes = append_byte-Writes 0xc0

  pub wrap_list-Writes :
      (payload : Buffer) → Writes alloc (wrap_list alloc payload) (list_code payload.bytes)
  unfolding wrap_list list_code
  wrap_list-Writes payload =
      seq-Writes (append_length alloc (length payload.bytes) 0xc0 0xf7) (append alloc payload.bytes)
        _ _ (append_length-Writes (length payload.bytes) 0xc0 0xf7 (omega arith) (omega arith))
        (append-Writes payload.bytes)
