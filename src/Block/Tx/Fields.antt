-- ===== src/Block/Tx/Fields.antt =====
-- One field of a transaction, read from the code of its value.
use evm_db.Prelude.{
  ℕ, ◌≡◌, ◌<◌, ◌^◌, [], ◌∷◌, ◌++◌, Bool, true, false, length, refl, sym, ap, ◌∙◌, arith,
}
use evm_db.Prelude.Bytes.{Bytes}
use evm_db.Block.Rlp.Result.{Result, ok, ◌>>=◌}
use evm_db.Block.Rlp.Reader.{Reader, Item, skip, decode_prefix, decode_item, to_uint64, to_bytes32}
use evm_db.Block.Rlp.Code.{
  be_bytes, trimmed, length-be_bytes, string_code, list_code, header, length-trimmed,
}
use evm_db.Block.Rlp.Reading.{At, read_bytes-append, skip-At, decode_item-At}
use evm_db.Block.Rlp.Fields.{
  decode_item-string_code, to_uint64-be_bytes, to_array-trimmed, to_array_whole,
}
use evm_db.Block.Tx.Encoding.{number_code, word_code, recipient_code, IsRecipient}
use evm_db.Block.Tx.Decode.{read_field, to_recipient, to_payload, copied}

-- The answer `a`, and the reader in front of `rest`.
abbrev pub Reads {ℓ} : {A : Type ℓ} → Result (A × Reader) → A → Bytes → Type ℓ
Reads answer a rest = (lr : Reader) × (answer ≡ ok (a, lr)) × At lr rest

field_Reads {ℓ} :
    {A : Type ℓ} (convert : Item → Result A) (lr : Reader) (d rest : Bytes) (a : A)
    → length d < 2 ^ 63
    → convert (record { start = d ++ rest; size = length d }) ≡ ok a
    → At lr (string_code d ++ rest)
    → Reads (read_field convert lr) a rest
unfolding read_field
field_Reads convert lr d rest a fits e at =
    let (lr', found, at') = decode_item-string_code lr d rest fits at in
    (lr', rw found (rw e refl), at')

pub number_Reads :
    (lr : Reader) (v : ℕ) (rest : Bytes)
    → v < 2 ^ 64
    → At lr (number_code v ++ rest)
    → Reads (read_field to_uint64 lr) v rest
number_Reads lr v rest h at =
    field_Reads to_uint64 lr (be_bytes v) rest v (omega (arith, length-be_bytes v))
      (to_uint64-be_bytes v rest h) at

pub word_Reads :
    (lr : Reader) (bs rest : Bytes)
    → length bs ≡ 32
    → At lr (word_code bs ++ rest)
    → Reads (read_field to_bytes32 lr) bs rest
word_Reads lr bs rest e at =
    field_Reads to_bytes32 lr (trimmed bs) rest bs (omega (arith, length-trimmed bs))
      (to_array-trimmed 32 bs rest e) at

recipient_lem :
    (to rest : Bytes)
    → length to ≡ 20
    → to_recipient (record { start = to ++ rest; size = length to }) ≡ ok (to, false)
unfolding to_recipient
recipient_lem to rest e = rw (to_array_whole 20 to rest e) (ground (arith, e))

pub recipient_Reads :
    (lr : Reader) (to : Bytes) (is_null : Bool) (rest : Bytes)
    → IsRecipient is_null to
    → At lr (recipient_code to is_null ++ rest)
    → Reads (read_field to_recipient lr) (to, is_null) rest
recipient_Reads lr to true rest e at =
    field_Reads to_recipient lr [] rest (to, true) (omega arith)
      (unfold to_recipient in ap (λ t. ok (t, true)) (sym e)) at
recipient_Reads lr to false rest e at =
    field_Reads to_recipient lr to rest (to, false) (omega arith) (recipient_lem to rest e) at

-- The calldata, where its allocation succeeds.
pub payload_Reads :
    (alloc : ℕ → Bool) (lr : Reader) (d rest : Bytes)
    → ((n : ℕ) → alloc n ≡ true)
    → length d < 2 ^ 62
    → At lr (string_code d ++ rest)
    → Reads (read_field (to_payload alloc) lr) d rest
payload_Reads alloc lr d rest good fits at =
    field_Reads (to_payload alloc) lr d rest d (omega arith) (converts d) at
  where
    converts : (d : Bytes) → to_payload alloc (record { start = d ++ rest; size = length d }) ≡ ok d
    converts [] = unfold to_payload in refl
    converts (b ∷ d) =
        unfold to_payload copied in
        rw (good (length (b ∷ d))) (ground (arith, read_bytes-append (b ∷ d) rest))

-- The access list, which is skipped: the empty list is one byte.
pub access_list_Reads :
    (lr : Reader) (rest : Bytes)
    → At lr (list_code [] ++ rest)
    → (item : Item) × (lr' : Reader) × (decode_item lr ≡ ok (item, lr')) × At lr' rest
unfolding list_code header
access_list_Reads lr rest at =
    let inner = skip-At lr (0xc0 ∷ []) rest at in
    (
      record { start = rest; size = 0 },
      skip 1 lr,
      decode_item-At lr 0xc0 rest at
          ∙ unfold decode_prefix in
            ap (λ bs. ok (record { start = bs; size = 0 }, skip 1 lr)) inner.rest,
      inner,
    )

-- A field in a `do` block: what follows is shown for any reader in front of what follows.
pub after_field {ℓ κ} :
    {A : Type ℓ} {B : Type κ} {m : Result (A × Reader)} {a : A} {rest : Bytes}
    (k : A × Reader → Result B) (c : Result B)
    → Reads m a rest
    → ((lr : Reader) → At lr rest → k (a, lr) ≡ c)
    → (m >>= k) ≡ c
after_field k c (lr, e, at) follows = rw e (follows lr at)
