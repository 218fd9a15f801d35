-- ===== src/State/Store/Keys.antt =====
-- Texts in the store of redis_state.c: what is written is read back, and keys of different
-- addresses or hashes differ.
use evm_db.Prelude.{
  ℕ, ◌+◌, ◌*◌, ◌/◌, ◌%◌, ◌^◌, ◌≤◌, ◌<◌, ◌≡◌, refl, sym, ap, ◌∙◌, [], ◌∷◌, ◌++◌, some, ◌==◌, length,
  drop, replicate, length-replicate, append-nil, All, arith, Bool-cases, inl, inr,
}
use evm_db.Prelude.Bits.{bit_and_nibble}
use evm_db.Prelude.Bytes.{Bytes, IsArray}
use evm_db.Prelude.Text.{ascii, bytes_eq, bytes_eq→eq, bytes_eq_refl, bytes_eq-prefix}
use evm_db.Core.Hex
use evm_db.Core.Hex.{hex_char, hex_pairs}
use evm_db.Core.Hex.Decode.{encode_lem, decode-encode}
use evm_db.Core.Decimal
use evm_db.Core.Decimal.{IsDigit, digits-IsDigit, strtoull-print}
use evm_db.Core.Scan.{c_string}
use evm_db.State.Store.{
  hex_text, hex_value, number_value, addr_to_hex, hash_to_hex, bytes32_to_hex, account_key,
  storage_key, code_key, receipt_key,
}

abbrev NotNul : ℕ → Type 0
NotNul c = 1 ≤ c

c_string_lem : (cs : Bytes) → All NotNul cs → c_string cs ≡ cs
unfolding c_string
c_string_lem [] h = refl
c_string_lem (c ∷ cs) (hc, h) = ground (arith, c_string_lem cs h)

hex_char-NotNul : (d : ℕ) → d < 16 → 1 ≤ hex_char d
unfolding hex_char
hex_char-NotNul d h = ground arith

hex_pairs-NotNul : (bs : Bytes) → All NotNul (hex_pairs bs)
unfolding hex_pairs
hex_pairs-NotNul [] = tt
hex_pairs-NotNul (b ∷ bs) = (
  rw (bit_and_nibble (b / 16)) (hex_char-NotNul (b / 16 % 16) (omega arith)),
  (rw (bit_and_nibble b) (hex_char-NotNul (b % 16) (omega arith)), hex_pairs-NotNul bs),
)

digits-NotNul : (cs : Bytes) → All IsDigit cs → All NotNul cs
digits-NotNul [] h = tt
digits-NotNul (c ∷ cs) ((lo, hi), h) = (omega arith, digits-NotNul cs h)

print-NotNul : (v : ℕ) → All NotNul (Decimal.print v)
unfolding Decimal.print
print-NotNul v = elim (Bool-cases (v == 0)) [
  | inl e ↦ rw e (omega arith, tt)
  | inr e ↦ rw e (digits-NotNul (Decimal.digits 20 v) (digits-IsDigit 20 v))
]

pub hex_text_lem :
    (bytes : Bytes) (size : ℕ)
    → length bytes * 2 + 3 ≤ size
    → hex_text bytes size ≡ b'0' ∷ b'x' ∷ hex_pairs bytes
unfolding hex_text
hex_text_lem bytes size h = rw (encode_lem bytes size h, hex_text) refl

pub number_value-print : (v : ℕ) → v < 2 ^ 64 → number_value (some (Decimal.print v)) ≡ v
unfolding number_value
number_value-print v h = rw (c_string_lem (Decimal.print v) (print-NotNul v)) (strtoull-print v h)

drop-length : (xs : Bytes) → drop (length xs) xs ≡ []
drop-length [] = refl
drop-length (x ∷ xs) = drop-length xs

module _ (n size : ℕ) (room : n * 2 + 3 ≤ size) where
  -- A byte array written as text is read back into any buffer of its size.
  pub hex_value-hex_text :
      (v out : Bytes) → IsArray n v → length out ≡ n → hex_value (some (hex_text v size)) out ≡ v
  unfolding hex_value
  hex_value-hex_text v out h e =
      let same : length v ≡ length out = h.size ∙ sym e in
      let fits : length v * 2 + 3 ≤ size = omega (arith, h.size) in
      let text : Bytes = b'0' ∷ b'x' ∷ hex_pairs v in
      ap (λ t. hex_value (some t) out) (hex_text_lem v size fits)
      ∙ ap (λ t. (Hex.decode (some t) out).1)
          (c_string_lem text (omega arith, (omega arith, hex_pairs-NotNul v)))
      ∙ ap (λ p. p.1) (decode-encode v out text size h.bytes (omega arith) (encode_lem v size fits))
      ∙ ap (λ k. v ++ drop k out) same
      ∙ ap (λ xs. v ++ xs) (drop-length out)
      ∙ append-nil v

  hex_text-injective :
      (a b : Bytes) → IsArray n a → IsArray n b → hex_text a size ≡ hex_text b size → a ≡ b
  hex_text-injective a b ha hb e =
      let out : Bytes = replicate n 0 in
      sym (hex_value-hex_text a out ha (length-replicate n 0))
      ∙ ap (λ t. hex_value (some t) out) e
      ∙ hex_value-hex_text b out hb (length-replicate n 0)

  -- Texts are equal exactly for equal arrays.
  pub bytes_eq-hex_text :
      (a b : Bytes)
      → IsArray n a
      → IsArray n b
      → bytes_eq (hex_text a size) (hex_text b size) ≡ bytes_eq a b
  bytes_eq-hex_text a b ha hb = elim (Bool-cases (bytes_eq a b)) [
    | inl e ↦ rw (bytes_eq→eq a b e) (bytes_eq_refl (hex_text b size) ∙ sym (bytes_eq_refl b))
    | inr e ↦ elim (Bool-cases (bytes_eq (hex_text a size) (hex_text b size))) [
      | inr f ↦ f ∙ sym e
      | inl f ↦
          let same : a ≡ b =
            hex_text-injective a b ha hb (bytes_eq→eq (hex_text a size) (hex_text b size) f) in
          f ∙ sym (bytes_eq_refl a) ∙ ap (bytes_eq a) same
    ]
  ]

module _ (a b : Bytes) (ha : IsArray 20 a) (hb : IsArray 20 b) where
  same_address : bytes_eq (addr_to_hex a) (addr_to_hex b) ≡ bytes_eq a b
  unfolding addr_to_hex
  same_address = bytes_eq-hex_text 20 43 (omega arith) a b ha hb

  pub account_key_eq : bytes_eq (account_key a) (account_key b) ≡ bytes_eq a b
  unfolding account_key
  account_key_eq = bytes_eq-prefix (ascii "account:") (addr_to_hex a) (addr_to_hex b) ∙ same_address

  pub storage_key_eq : bytes_eq (storage_key a) (storage_key b) ≡ bytes_eq a b
  unfolding storage_key
  storage_key_eq = bytes_eq-prefix (ascii "storage:") (addr_to_hex a) (addr_to_hex b) ∙ same_address

  pub code_key_eq : bytes_eq (code_key a) (code_key b) ≡ bytes_eq a b
  unfolding code_key
  code_key_eq = bytes_eq-prefix (ascii "code:") (addr_to_hex a) (addr_to_hex b) ∙ same_address

module _ (a b : Bytes) (ha : IsArray 32 a) (hb : IsArray 32 b) where
  pub bytes32_to_hex_eq : bytes_eq (bytes32_to_hex a) (bytes32_to_hex b) ≡ bytes_eq a b
  unfolding bytes32_to_hex
  bytes32_to_hex_eq = bytes_eq-hex_text 32 67 (omega arith) a b ha hb

  pub receipt_key_eq : bytes_eq (receipt_key a) (receipt_key b) ≡ bytes_eq a b
  unfolding receipt_key hash_to_hex
  receipt_key_eq =
      bytes_eq-prefix (ascii "receipt:") (hash_to_hex a) (hash_to_hex b)
      ∙ bytes_eq-hex_text 32 67 (omega arith) a b ha hb

pub hex_value-bytes32_to_hex :
    (v out : Bytes) → IsArray 32 v → length out ≡ 32 → hex_value (some (bytes32_to_hex v)) out ≡ v
unfolding bytes32_to_hex
hex_value-bytes32_to_hex v out h e = hex_value-hex_text 32 67 (omega arith) v out h e
