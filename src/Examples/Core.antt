-- ===== src/Examples/Core.antt =====
-- Inputs for hex.c and config.c.
use evm_db.Core.Decimal
use evm_db.Core.Config.{config_defaults, config_load}
use evm_db.Core.Config.Settings.{file_text}
use evm_db.Core.Config.Meaning.{
  Setting, value_text, AreWritten, lines, configured, config_load-configured,
}
use evm_db.Prelude.{List, false, ◌≡◌, refl, [], ◌∷◌, ◌++◌, some, true, drop, arith}
use evm_db.Prelude.Bytes.{Bytes}
use evm_db.Prelude.Text.{ascii}
use evm_db.Core.Hex.{
  hex_char, hex_char_val, hex_pairs, encode, decode, decode_loop, skip_prefix, from_uint64,
  to_uint64,
}
use evm_db.Core.Hex.Decode.{decode-encode}
use evm_db.Core.Hex.Words.{to_uint64-from_uint64}

abbrev bytes : Bytes
bytes = 0x0f ∷ 0xa5 ∷ []

abbrev text : Bytes
text = ascii "0x0fa5"

abbrev buffer : Bytes
buffer = 1 ∷ 2 ∷ 3 ∷ []

encoded : encode bytes 7 ≡ some text
unfolding encode hex_pairs hex_char
encoded = refl

decode-encode_example : decode (some text) buffer ≡ (some 2, bytes ++ drop 2 buffer)
decode-encode_example =
    decode-encode bytes buffer text 7 (omega arith, (omega arith, tt)) (omega arith) encoded

decoded : (decode (some text) buffer).0 ≡ some 2
unfolding decode decode_loop skip_prefix hex_char_val
decoded = refl

f_digit : hex_char_val 0x66 ≡ some 15
unfolding hex_char_val
f_digit = refl

to_uint64-from_uint64_example :
    (text : Bytes) × (from_uint64 21000 19 ≡ some text) × (to_uint64 (some text) 7 ≡ (true, 21000))
to_uint64-from_uint64_example = to_uint64-from_uint64 21000 19 7 (omega arith) (omega arith)

-- Three settings, of which the last has no meaning.
abbrev settings : List Setting
settings =
    record { key = ascii "rpc_host"; value = ascii "::1"; quoted = true }
    ∷ record { key = ascii "rpc_port"; value = ascii "80"; quoted = false }
    ∷ record { key = ascii "color"; value = []; quoted = true }
    ∷ []

settings-AreWritten : AreWritten settings
unfolding Decimal.is_space value_text
settings-AreWritten = (
  record {
    key_start = refl;
    key_chars = ground arith;
    key_fits = omega arith;
    value_start = refl;
    value_chars = ground arith;
    value_fits = omega arith;
  },
  tt,
  (
    record {
      key_start = refl;
      key_chars = ground arith;
      key_fits = omega arith;
      value_start = refl;
      value_chars = ground arith;
      value_fits = omega arith;
    },
    refl,
    (
      record {
        key_start = refl;
        key_chars = ground arith;
        key_fits = omega arith;
        value_start = refl;
        value_chars = ground arith;
        value_fits = omega arith;
      },
      tt,
      tt,
    ),
  ),
)

config_load-configured_example :
    config_load (λ n. true) (some (file_text (lines settings))) config_defaults
    ≡ (true, configured (λ n. true) settings config_defaults)
config_load-configured_example =
    config_load-configured (λ n. true) settings config_defaults settings-AreWritten
