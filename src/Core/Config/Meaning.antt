-- ===== src/Core/Config/Meaning.antt =====
-- What a file of settings means for each field of the configuration: src/core/config.c.
use evm_db.Prelude.{
  length, ◌+◌, ◌%◌, ◌^◌, ℕ, ◌≡◌, refl, sym, ap, ◌∙◌, List, [], ◌∷◌, ◌++◌, none, some, Option, Bool,
  true, false, not, ◌==◌, if◌then◌else◌, All, Bool-cases, inl, inr, arith,
}
use evm_db.Prelude.Bytes.{Bytes}
use evm_db.Prelude.Text.{ascii, bytes_eq, bytes_eq→eq}
use evm_db.Core.Decimal
use evm_db.Core.Scan.{starts, next}
use evm_db.Core.Config.{Config, strdup, atoi, without_last_quote, unquote, set_option, config_load}
use evm_db.Core.Config.Settings.{
  StartsWith, IsSetting, AreSettings, file_text, set_all, config_load-file_text,
}

-- A line of the file, with the value in quotes or not.
pub record Setting : Type 0 where
  pub key : Bytes
  pub value : Bytes
  pub quoted : Bool

unfoldable pub value_text : Bool → Bytes → Bytes
value_text true value = b'"' ∷ value ++ b'"' ∷ []
value_text false value = value

-- A value that is written without quotes does not start with one.
abbrev pub Plain : Bool → Bytes → Type 0
Plain true value = Unit
Plain false value = StartsWith (λ c. not (c == b'"')) value

abbrev pub AreWritten : List Setting → Type 0
AreWritten [] = Unit
AreWritten (st ∷ settings) =
    IsSetting st.key (value_text st.quoted st.value)
    × Plain st.quoted st.value
    × AreWritten settings

-- The keys, and the values as they stand in the file.
unfoldable pub lines : List Setting → List (Bytes × Bytes)
lines [] = []
lines (st ∷ settings) = (st.key, value_text st.quoted st.value) ∷ lines settings

-- What the last setting of a name gives, or what was there.
unfoldable pub latest : {A : Type 0} → (Bytes → A) → Bytes → List Setting → A → A
latest read name [] now = now
latest read name (st ∷ settings) now =
    latest read name settings (if bytes_eq st.key name then read st.value else now)

-- A copy of a string, and the number that is an int modulo 2 ^ 32.
unfoldable pub copy_of : (ℕ → Bool) → Bytes → Option Bytes
copy_of alloc text = if alloc (length text + 1) then some text else none

unfoldable pub int_of : Bytes → ℕ
int_of text = Decimal.atol text % 2 ^ 32

-- Each field by its own name: strings are copied, an int has 32 bits, and the other numbers have 64.
unfoldable pub configured : (ℕ → Bool) → List Setting → Config → Config
configured alloc settings cfg = record {
  redis_host = latest (copy_of alloc) (ascii "redis_host") settings cfg.redis_host;
  redis_port = latest int_of (ascii "redis_port") settings cfg.redis_port;
  redis_password = latest (copy_of alloc) (ascii "redis_password") settings cfg.redis_password;
  redis_db = latest int_of (ascii "redis_db") settings cfg.redis_db;
  rpc_host = latest (copy_of alloc) (ascii "rpc_host") settings cfg.rpc_host;
  rpc_port = latest int_of (ascii "rpc_port") settings cfg.rpc_port;
  chain_id = latest Decimal.atol (ascii "chain_id") settings cfg.chain_id;
  gas_limit = latest Decimal.atol (ascii "gas_limit") settings cfg.gas_limit;
  base_fee = latest Decimal.atol (ascii "base_fee") settings cfg.base_fee;
  log_level = latest int_of (ascii "log_level") settings cfg.log_level;
}

without_last_quote-append : (value : Bytes) → without_last_quote (value ++ b'"' ∷ []) ≡ some value
unfolding without_last_quote
without_last_quote-append [] = refl
without_last_quote-append (c ∷ []) = refl
without_last_quote-append (c ∷ d ∷ cs) = rw (without_last_quote-append (d ∷ cs)) refl

unquote_as :
    (value : Bytes) (r : Option Bytes)
    → starts b'"' value ≡ false
    → without_last_quote (next value) ≡ r
    → unquote value ≡ value
unfolding unquote
unquote_as value none e same = rw (same, unquote) refl
unquote_as value (some text) e same = rw (same, unquote) (rw e refl)

starts-Plain : (value : Bytes) → StartsWith (λ c. not (c == b'"')) value → starts b'"' value ≡ false
unfolding starts
starts-Plain [] h = absurd h
starts-Plain (c ∷ cs) h = ground (arith, h)

unquote-value_text :
    (quoted : Bool) (value : Bytes) → Plain quoted value → unquote (value_text quoted value) ≡ value
unfolding value_text without_last_quote
unquote-value_text true value h =
    unfold unquote next starts in rw (without_last_quote-append value) refl
unquote-value_text false value h = unquote_as value _ (starts-Plain value h) refl

-- One setting, field by field.
applied : (ℕ → Bool) → Bytes → Bytes → Config → Config
applied alloc key value cfg = record {
  redis_host = if bytes_eq key (ascii "redis_host") then copy_of alloc value else cfg.redis_host;
  redis_port = if bytes_eq key (ascii "redis_port") then int_of value else cfg.redis_port;
  redis_password =
      if bytes_eq key (ascii "redis_password") then copy_of alloc value else cfg.redis_password;
  redis_db = if bytes_eq key (ascii "redis_db") then int_of value else cfg.redis_db;
  rpc_host = if bytes_eq key (ascii "rpc_host") then copy_of alloc value else cfg.rpc_host;
  rpc_port = if bytes_eq key (ascii "rpc_port") then int_of value else cfg.rpc_port;
  chain_id = if bytes_eq key (ascii "chain_id") then Decimal.atol value else cfg.chain_id;
  gas_limit = if bytes_eq key (ascii "gas_limit") then Decimal.atol value else cfg.gas_limit;
  base_fee = if bytes_eq key (ascii "base_fee") then Decimal.atol value else cfg.base_fee;
  log_level = if bytes_eq key (ascii "log_level") then int_of value else cfg.log_level;
}

-- A text is one of some names, or none of them.
by_name :
    (P : Bytes → Type 0) (names : List Bytes)
    → All P names
    → (key : Bytes) → (All (λ name. bytes_eq key name ≡ false) names → P key)
    → P key
by_name P [] h key other = other tt
by_name P (name ∷ names) (one, h) key other = elim (Bool-cases (bytes_eq key name)) [
  | inl e ↦ rw (bytes_eq→eq key name e) one
  | inr e ↦ by_name P names h key (λ rest. other (e, rest))
]

abbrev names : List Bytes
names =
    ascii "redis_host"
    ∷ ascii "redis_port"
    ∷ ascii "redis_password"
    ∷ ascii "redis_db"
    ∷ ascii "rpc_host"
    ∷ ascii "rpc_port"
    ∷ ascii "chain_id"
    ∷ ascii "gas_limit"
    ∷ ascii "base_fee"
    ∷ ascii "log_level"
    ∷ []

module _ (alloc : ℕ → Bool) (value : Bytes) (cfg : Config) where
  abbrev SetAs : Bytes → Type 0
  SetAs key = set_option alloc key value cfg ≡ applied alloc key value cfg

  known_names : All SetAs names
  unfolding set_option applied bytes_eq strdup atoi copy_of int_of
  known_names = (refl, (refl, (refl, (refl, (refl, (refl, (refl, (refl, (refl, (refl, tt))))))))))

  no_name : (key : Bytes) → All (λ name. bytes_eq key name ≡ false) names → SetAs key
  unfolding set_option applied strdup atoi copy_of int_of
  no_name key (h0, (h1, (h2, (h3, (h4, (h5, (h6, (h7, (h8, (h9, tt)))))))))) =
      rw (h0, h1, h2, h3, h4, h5, h6, h7, h8, h9) refl

  set_option-applied : (key : Bytes) → SetAs key
  set_option-applied key = by_name SetAs names known_names key (no_name key)

configured-applied :
    (alloc : ℕ → Bool) (st : Setting) (settings : List Setting) (cfg : Config)
    → configured alloc (st ∷ settings) cfg
      ≡ configured alloc settings (applied alloc st.key st.value cfg)
unfolding configured latest applied
configured-applied alloc st settings cfg = refl

set_all-configured :
    (alloc : ℕ → Bool) (settings : List Setting) (cfg : Config)
    → AreWritten settings
    → set_all alloc (lines settings) cfg ≡ configured alloc settings cfg
unfolding set_all lines
set_all-configured alloc [] cfg h = unfold configured latest in refl
set_all-configured alloc (st ∷ settings) cfg (one, plain, h) =
    ap (λ v. set_all alloc (lines settings) (set_option alloc st.key v cfg))
      (unquote-value_text st.quoted st.value plain)
    ∙ ap (λ c. set_all alloc (lines settings) c) (set_option-applied alloc st.value cfg st.key)
    ∙ set_all-configured alloc settings (applied alloc st.key st.value cfg) h
    ∙ sym (configured-applied alloc st settings cfg)

lines-AreSettings : (settings : List Setting) → AreWritten settings → AreSettings (lines settings)
unfolding lines
lines-AreSettings [] h = tt
lines-AreSettings (st ∷ settings) (one, plain, h) = (one, lines-AreSettings settings h)

-- A file of settings, one to a line and each with at most 63 characters of key and 255 of value, the
-- quotes counted, is loaded: each field is what the last setting of its name gives, with the quotes taken
-- off, and what it was where there is none. Settings of other names have no effect.
pub config_load-configured :
    (alloc : ℕ → Bool) (settings : List Setting) (cfg : Config)
    → AreWritten settings
    → config_load alloc (some (file_text (lines settings))) cfg
      ≡ (true, configured alloc settings cfg)
config_load-configured alloc settings cfg h =
    config_load-file_text alloc (lines settings) cfg (lines-AreSettings settings h)
    ∙ ap (λ c. (true, c)) (set_all-configured alloc settings cfg h)
