-- ===== src/Rpc/Quantity.antt =====
-- The number that eth_getBalance prints.
use evm_db.Prelude.{
  ◌⊎◌, ◌-◌, leb, if◌then◌else◌, ℕ, ◌+◌, ◌*◌, ◌/◌, ◌%◌, ◌^◌, ◌≤◌, ◌<◌, ◌≡◌, refl, sym, ap, ◌∙◌, [],
  ◌∷◌, ◌++◌, true, false, ◌==◌, length, length-append, drop, All, if_lem, arith, bit_and,
}
use evm_db.Prelude.Bits.{bit_and_nibble}
use evm_db.Prelude.Bytes.{Bytes, IsByte, IsArray, be_value, mul_pow_byte}
use evm_db.Core.Hex.{hex_char, hex_pairs}
use evm_db.Core.Hex.Digits.{length-hex_pairs}
use evm_db.State.Store.{hex_text}
use evm_db.State.Store.Keys.{hex_text_lem}
use evm_db.Rpc.Node.{Node, make_response, quoted, printed}
use evm_db.Rpc.Reads.{trim_zeros, balance_response}
use evm_db.Rpc.Answers.{printed-whole}

-- A hexadecimal digit, in lower case.
abbrev pub IsDigit : ℕ → Type 0
IsDigit c = ((b'0' ≤ c) × (c ≤ b'9')) ⊎ ((b'a' ≤ c) × (c ≤ b'f'))

-- No zero in front of another digit, and at least one digit.
abbrev pub NoZeroInFront : Bytes → Type 0
NoZeroInFront [] = ⊥
NoZeroInFront (c ∷ []) = Unit
NoZeroInFront (c ∷ d ∷ cs) = (c == b'0') ≡ false

-- A quantity as the Ethereum JSON-RPC defines it, behind its 0x.
pub record IsQuantity (digits : Bytes) : Type 0 where
  pub all_digits : All IsDigit digits
  pub no_zero : NoZeroInFront digits

-- The number that digits stand for, behind a number.
unfoldable pub digits_value : ℕ → Bytes → ℕ
digits_value acc [] = acc
digits_value acc (c ∷ cs) =
    digits_value (acc * 16 + (if leb c b'9' then c - b'0' else c - b'a' + 10)) cs

hex_char-IsDigit : (n : ℕ) → n < 16 → IsDigit (hex_char n)
unfolding hex_char
hex_char-IsDigit n h = ground arith

hex_char-value :
    (acc n : ℕ) (cs : Bytes)
    → n < 16
    → digits_value acc (hex_char n ∷ cs) ≡ digits_value (acc * 16 + n) cs
unfolding digits_value hex_char
hex_char-value acc n cs h = ap (λ (x : ℕ). digits_value x cs) (ground arith)

nibbles :
    (b : ℕ)
    → b < 256
    → (bit_and (b / 16) 15 < 16) × (bit_and b 15 < 16) × ((b / 16) % 16 * 16 + b % 16 ≡ b)
nibbles b h = (omega (arith, bit_and_nibble (b / 16)), omega (arith, bit_and_nibble b), omega arith)

hex_pairs-IsDigit : (bs : Bytes) → All IsByte bs → All IsDigit (hex_pairs bs)
unfolding hex_pairs
hex_pairs-IsDigit [] h = tt
hex_pairs-IsDigit (b ∷ bs) (hb, h) =
    let (high, low, same) = nibbles b hb in
    (hex_char-IsDigit _ high, (hex_char-IsDigit _ low, hex_pairs-IsDigit bs h))

shift : (acc b p : ℕ) → (acc * 256 + b) * p ≡ 256 * (acc * p) + b * p
shift acc b p = grind arith

byte_value :
    (acc b : ℕ) (cs : Bytes)
    → b < 256
    → digits_value acc (hex_char (bit_and (b / 16) 15) ∷ hex_char (bit_and b 15) ∷ cs)
      ≡ digits_value (acc * 256 + b) cs
byte_value acc b cs h =
    let (high, low, same) = nibbles b h in
    hex_char-value acc (bit_and (b / 16) 15) (hex_char (bit_and b 15) ∷ cs) high
    ∙ hex_char-value (acc * 16 + bit_and (b / 16) 15) (bit_and b 15) cs low
    ∙ ap (λ (x : ℕ). digits_value x cs)
        (omega (arith, bit_and_nibble (b / 16), bit_and_nibble b, same))

digits_value-hex_pairs :
    (acc : ℕ) (bs : Bytes)
    → All IsByte bs
    → digits_value acc (hex_pairs bs) ≡ acc * 256 ^ length bs + be_value bs
unfolding hex_pairs
digits_value-hex_pairs acc [] h = unfold digits_value in omega arith
digits_value-hex_pairs acc (b ∷ bs) (hb, h) =
    byte_value acc b (hex_pairs bs) hb
    ∙ digits_value-hex_pairs (acc * 256 + b) bs h
    ∙ omega (arith, shift acc b (256 ^ length bs), mul_pow_byte acc (length bs))

digits_value-zero :
    (cs : Bytes) (c : ℕ) → (c == b'0') ≡ true → digits_value 0 (c ∷ cs) ≡ digits_value 0 cs
unfolding digits_value
digits_value-zero cs c e = let zero_digit : c ≡ b'0' = ground arith in rw zero_digit refl

-- What is left of a row of digits when the zeros in front are dropped.
pub record Trimmed (text text' : Bytes) : Type 0 where
  pub digits : All IsDigit text → All IsDigit text'
  pub no_zero : NoZeroInFront text'
  pub same : digits_value 0 text' ≡ digits_value 0 text
  pub shorter : length text' ≤ length text

trim_step :
    (a b : ℕ) (cs : Bytes)
    → Trimmed (b ∷ cs) (trim_zeros (b ∷ cs))
    → Trimmed (a ∷ b ∷ cs) (trim_zeros (a ∷ b ∷ cs))
unfolding trim_zeros
trim_step a b cs t =
    if_lem (Trimmed (a ∷ b ∷ cs)) (a == b'0') _ _
      (λ (e : (a == b'0') ≡ true). record {
        digits = λ (first, others). t.digits others;
        no_zero = t.no_zero;
        same = t.same ∙ sym (digits_value-zero (b ∷ cs) a e);
        shorter = omega (arith, t.shorter);
      })
      (λ (e : (a == b'0') ≡ false). record {
        digits = λ all. all;
        no_zero = e;
        same = refl;
        shorter = omega arith;
      })

trim_zeros-Trimmed : (c : ℕ) (cs : Bytes) → Trimmed (c ∷ cs) (trim_zeros (c ∷ cs))
trim_zeros-Trimmed c [] =
    unfold trim_zeros in
    record { digits = λ all. all; no_zero = tt; same = refl; shorter = omega arith }
trim_zeros-Trimmed c (d ∷ cs) = trim_step c d cs (trim_zeros-Trimmed d cs)

-- The digits of an array that is not empty.
pairs-Trimmed : (bs : Bytes) → 1 ≤ length bs → Trimmed (hex_pairs bs) (trim_zeros (hex_pairs bs))
unfolding hex_pairs
pairs-Trimmed [] h = absurd (omega arith)
pairs-Trimmed (b ∷ bs) h = trim_zeros-Trimmed _ _

-- A text that was not cut off anywhere.
balance_whole :
    (node : Node) (id balance q : Bytes)
    → length q ≤ 64
    → trim_zeros (drop 2 (hex_text balance 67)) ≡ q
    → balance_response node id balance
      ≡ make_response node.alloc id (b'"' ∷ b'0' ∷ b'x' ∷ (q ++ b'"' ∷ []))
unfolding balance_response quoted
balance_whole node id balance q fits e =
    rw (e, balance_response)
      (ap (λ t. make_response node.alloc id (printed 128 (b'"' ∷ t ++ b'"' ∷ [])))
          (printed-whole 67 (b'0' ∷ b'x' ∷ q) (omega arith))
        ∙ ap (λ t. make_response node.alloc id t)
            (printed-whole 128 (b'"' ∷ b'0' ∷ b'x' ∷ (q ++ b'"' ∷ []))
              (omega (arith, length-append q (b'"' ∷ [])))))

-- For a balance of 32 bytes: eth_getBalance answers with 0x and the hexadecimal digits, in lower case, of
-- the number that the balance stands for, with no needless zero in front of them, and cuts nothing off.
pub balance_response_lem :
    (node : Node) (id balance : Bytes)
    → IsArray 32 balance
    → (q : Bytes) × (balance_response node id balance
        ≡ make_response node.alloc id (b'"' ∷ b'0' ∷ b'x' ∷ (q ++ b'"' ∷ [])))
      × IsQuantity q
      × (digits_value 0 q ≡ be_value balance)
balance_response_lem node id balance h =
    let t = pairs-Trimmed balance (omega (arith, h.size)) in
    let text = hex_text_lem balance 67 (omega (arith, h.size)) in
    (
      trim_zeros (hex_pairs balance),
      balance_whole node id balance _ (omega (arith, t.shorter, length-hex_pairs balance, h.size))
          (ap (λ x. trim_zeros (drop 2 x)) text),
      record { all_digits = t.digits (hex_pairs-IsDigit balance h.bytes); no_zero = t.no_zero },
      t.same ∙ digits_value-hex_pairs 0 balance h.bytes ∙ omega arith,
    )
