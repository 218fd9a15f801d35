-- ===== src/Core/Config/Settings.antt =====
-- A file of settings, as it is written and as config.c reads it.
use evm_db.Prelude.{
  ℕ, ◌-◌, ◌≤◌, ◌<◌, ◌≡◌, refl, sym, ap, ◌∙◌, List, [], ◌∷◌, ◌++◌, append_assoc, some, Bool, true,
  false, not, ◌&&◌, ◌||◌, ◌==◌, All, All-append, length, length-append, arith,
}
use evm_db.Prelude.Bytes.{Bytes}
use evm_db.Core.Decimal
use evm_db.Core.Scan.{c_string, skip_while, starts, next}
use evm_db.Core.Scan.Finding.{copy_until-stops}
use evm_db.Core.Config.{
  Config, glue, read_lines, is_skipped, scan_until, scan_value, scan_line, unquote, set_option,
  apply_line, apply_lines, config_load,
}

abbrev InLine : ℕ → Type 0
InLine c = ((c == b'\n') ≡ false) × ((c == 0) ≡ false)

abbrev InKey : ℕ → Type 0
InKey c = InLine c × ((c == b'=' || c == b' ') ≡ false)

-- A text that starts with a character that passes a test.
abbrev pub StartsWith : (ℕ → Bool) → Bytes → Type 0
StartsWith test [] = ⊥
StartsWith test (c ∷ cs) = test c ≡ true

abbrev starts_key : ℕ → Bool
starts_key c = not (Decimal.is_space c) && not (c == b'#' || (c == b'\n' || c == b'['))

-- A setting that can be written: the key has at most 63 characters and the value at most 255, both on one
-- line and not empty; no blank or = in the key, no comment or section mark in front of it, and no blank
-- in front of the value.
pub record IsSetting (key value : Bytes) : Type 0 where
  pub key_start : StartsWith starts_key key
  pub key_chars : All InKey key
  pub key_fits : length key ≤ 63
  pub value_start : StartsWith (λ c. not (Decimal.is_space c)) value
  pub value_chars : All InLine value
  pub value_fits : length value ≤ 255

abbrev pub AreSettings : List (Bytes × Bytes) → Type 0
AreSettings [] = Unit
AreSettings ((key, value) ∷ rest) = IsSetting key value × AreSettings rest

unfoldable pub file_text : List (Bytes × Bytes) → Bytes
file_text [] = []
file_text ((key, value) ∷ rest) = (key ++ (b' ' ∷ b'=' ∷ b' ' ∷ value)) ++ b'\n' ∷ file_text rest

-- The settings made one after the other.
unfoldable pub set_all : (ℕ → Bool) → List (Bytes × Bytes) → Config → Config
set_all alloc [] cfg = cfg
set_all alloc ((key, value) ∷ rest) cfg =
    set_all alloc rest (set_option alloc key (unquote value) cfg)

read_lines-line :
    (room : ℕ) (line rest : Bytes)
    → All InLine line
    → length line < room
    → read_lines room (line ++ b'\n' ∷ rest) ≡ (line ++ b'\n' ∷ []) ∷ read_lines 511 rest
unfolding read_lines glue
read_lines-line room [] rest h fits = ground arith
read_lines-line room (c ∷ cs) rest ((hc, no_nul), h) fits =
    ground (arith, hc, read_lines-line (room - 1) cs rest h (omega arith))

c_string-line :
    (line : Bytes) → All InLine line → c_string (line ++ b'\n' ∷ []) ≡ line ++ b'\n' ∷ []
unfolding c_string
c_string-line [] h = refl
c_string-line (c ∷ cs) ((hc, no_nul), h) = ground (arith, no_nul, c_string-line cs h)

key-line : (key : Bytes) → All InKey key → All InLine key
key-line [] h = tt
key-line (c ∷ cs) ((hc, stop), h) = (hc, key-line cs h)

key-stops : (key : Bytes) → All InKey key → All (λ c. (c == b'=' || c == b' ') ≡ false) key
key-stops [] h = tt
key-stops (c ∷ cs) ((hc, stop), h) = (stop, key-stops cs h)

value-stops : (value : Bytes) → All InLine value → All (λ c. (c == b'\n') ≡ false) value
value-stops [] h = tt
value-stops (c ∷ cs) ((hc, no_nul), h) = (hc, value-stops cs h)

value_first :
    (value rest : Bytes)
    → StartsWith (λ c. not (Decimal.is_space c)) value
    → (skip_while Decimal.is_space (value ++ rest) ≡ value ++ rest) × (1 ≤ length value)
unfolding skip_while
value_first [] rest h = absurd h
value_first (c ∷ cs) rest h = (ground (arith, h), omega arith)

key_first :
    (key rest : Bytes)
    → StartsWith starts_key key
    → (skip_while Decimal.is_space (key ++ rest) ≡ key ++ rest)
      × (1 ≤ length key)
      × (is_skipped (key ++ rest) ≡ false)
unfolding skip_while is_skipped
key_first [] rest h = absurd h
key_first (c ∷ cs) rest h = (ground (arith, h), omega arith, ground (arith, h))

scan_until-stops :
    (stops : ℕ → Bool) (width : ℕ) (text : Bytes) (c : ℕ) (rest : Bytes)
    → All (λ d. stops d ≡ false) text
    → stops c ≡ true
    → 1 ≤ length text
    → length text ≤ width
    → scan_until stops width (text ++ c ∷ rest) ≡ some (text, c ∷ rest)
unfolding scan_until
scan_until-stops stops width text c rest h e some_text fits =
    rw (copy_until-stops stops width text c rest h e fits, scan_until) (ground arith)

value_read :
    (key value : Bytes)
    → IsSetting key value
    → scan_value key (b' ' ∷ b'=' ∷ b' ' ∷ (value ++ b'\n' ∷ [])) ≡ some (key, value)
unfolding scan_value skip_while starts next Decimal.is_space
value_read key value h =
    let (first, some_text) = value_first value (b'\n' ∷ []) h.value_start in
    let read =
      scan_until-stops (λ c. c == b'\n') 255 value b'\n' [] (value-stops value h.value_chars) refl
        some_text h.value_fits in
    rw (first, scan_value) (rw (read, scan_value) refl)

line_read :
    (key value : Bytes)
    → IsSetting key value
    → scan_line (key ++ (b' ' ∷ b'=' ∷ b' ' ∷ (value ++ b'\n' ∷ []))) ≡ some (key, value)
unfolding scan_line
line_read key value h =
    let behind : Bytes = b'=' ∷ b' ' ∷ (value ++ b'\n' ∷ []) in
    let (first, some_key, plain) = key_first key (b' ' ∷ behind) h.key_start in
    let read =
      scan_until-stops (λ c. c == b'=' || c == b' ') 63 key b' ' behind (key-stops key h.key_chars)
        refl some_key h.key_fits in
    rw (first, scan_line) (rw (read, scan_line) (value_read key value h))

line_applied :
    (alloc : ℕ → Bool) (line key value : Bytes) (cfg : Config)
    → scan_line line ≡ some (key, value)
    → is_skipped line ≡ false
    → apply_line alloc line cfg ≡ set_option alloc key (unquote value) cfg
unfolding apply_line
line_applied alloc line key value cfg e plain = rw (e, apply_line) (rw plain refl)

setting_line : Bytes → Bytes → Bytes
setting_line key value = key ++ (b' ' ∷ b'=' ∷ b' ' ∷ value)

setting-InLine : (key value : Bytes) → IsSetting key value → All InLine (setting_line key value)
unfolding setting_line
setting-InLine key value h =
    All-append InLine key _ (key-line key h.key_chars)
      ((refl, refl), ((refl, refl), ((refl, refl), h.value_chars)))

apply_line-setting :
    (alloc : ℕ → Bool) (key value : Bytes) (cfg : Config)
    → IsSetting key value
    → apply_line alloc (c_string (setting_line key value ++ b'\n' ∷ [])) cfg
      ≡ set_option alloc key (unquote value) cfg
unfolding setting_line
apply_line-setting alloc key value cfg h =
    let behind : Bytes = b' ' ∷ b'=' ∷ b' ' ∷ (value ++ b'\n' ∷ []) in
    let (first, some_key, plain) = key_first key behind h.key_start in
    ap (λ t. apply_line alloc t cfg)
      (c_string-line _ (setting-InLine key value h)
        ∙ append_assoc key (b' ' ∷ b'=' ∷ b' ' ∷ value) (b'\n' ∷ []))
    ∙ line_applied alloc (key ++ behind) key value cfg (line_read key value h) plain

length-setting : (key value : Bytes) → IsSetting key value → length (setting_line key value) < 511
unfolding setting_line
length-setting key value h =
    omega (arith, length-append key (b' ' ∷ b'=' ∷ b' ' ∷ value), h.key_fits, h.value_fits)

lines_of :
    (key value rest : Bytes)
    → IsSetting key value
    → read_lines 511 (setting_line key value ++ b'\n' ∷ rest)
      ≡ (setting_line key value ++ b'\n' ∷ []) ∷ read_lines 511 rest
lines_of key value rest h =
    read_lines-line 511 _ rest (setting-InLine key value h) (length-setting key value h)

no_lines :
    (alloc : ℕ → Bool) (cfg : Config)
    → apply_lines alloc (read_lines 511 (file_text [])) cfg ≡ set_all alloc [] cfg
unfolding apply_lines read_lines file_text set_all
no_lines alloc cfg = refl

first_line :
    (alloc : ℕ → Bool) (key value : Bytes) (rest : List (Bytes × Bytes)) (cfg : Config)
    → IsSetting key value
    → apply_lines alloc (read_lines 511 (file_text ((key, value) ∷ rest))) cfg
      ≡ apply_lines alloc
          (read_lines 511 (file_text rest))
          (set_option alloc key (unquote value) cfg)
unfolding file_text apply_lines setting_line
first_line alloc key value rest cfg h =
    ap (λ t. apply_lines alloc t cfg) (lines_of key value (file_text rest) h)
    ∙ ap (apply_lines alloc (read_lines 511 (file_text rest)))
        (apply_line-setting alloc key value cfg h)

set_all-cons :
    (alloc : ℕ → Bool) (key value : Bytes) (rest : List (Bytes × Bytes)) (cfg : Config)
    → set_all alloc ((key, value) ∷ rest) cfg
      ≡ set_all alloc rest (set_option alloc key (unquote value) cfg)
unfolding set_all
set_all-cons alloc key value rest cfg = refl

apply_lines-file_text :
    (alloc : ℕ → Bool) (settings : List (Bytes × Bytes)) (cfg : Config)
    → AreSettings settings
    → apply_lines alloc (read_lines 511 (file_text settings)) cfg ≡ set_all alloc settings cfg
apply_lines-file_text alloc [] cfg h = no_lines alloc cfg
apply_lines-file_text alloc ((key, value) ∷ rest) cfg (one, h) =
    first_line alloc key value rest cfg one
    ∙ apply_lines-file_text alloc rest (set_option alloc key (unquote value) cfg) h
    ∙ sym (set_all-cons alloc key value rest cfg)

-- The lines of a file of settings are applied one after the other.
pub config_load-file_text :
    (alloc : ℕ → Bool) (settings : List (Bytes × Bytes)) (cfg : Config)
    → AreSettings settings
    → config_load alloc (some (file_text settings)) cfg ≡ (true, set_all alloc settings cfg)
unfolding config_load
config_load-file_text alloc settings cfg h =
    ap (λ c. (true, c)) (apply_lines-file_text alloc settings cfg h)
