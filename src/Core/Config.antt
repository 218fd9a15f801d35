-- ===== src/Core/Config.antt =====
-- The configuration: src/core/config.c.
pub mod Meaning
pub mod Settings
use evm_db.Prelude.{
  ℕ, ◌+◌, ◌-◌, ◌%◌, ◌^◌, List, [], ◌∷◌, Option, none, some, Bool, true, false, ◌||◌, ◌==◌,
  if◌then◌else◌, length,
}
use evm_db.Prelude.Bytes.{Bytes}
use evm_db.Prelude.Text.{ascii, bytes_eq}
use evm_db.Core.Decimal
use evm_db.Core.Scan.{c_string, skip_while, copy_until, starts, next}

-- `evmdb_config_t`. A string is `none` where the pointer is NULL; an `int` is the number modulo 2 ^ 32
-- that stands for it.
pub record Config : Type 0 where
  pub redis_host : Option Bytes
  pub redis_port : ℕ
  pub redis_password : Option Bytes
  pub redis_db : ℕ
  pub rpc_host : Option Bytes
  pub rpc_port : ℕ
  pub chain_id : ℕ
  pub gas_limit : ℕ
  pub base_fee : ℕ
  pub log_level : ℕ

unfoldable pub config_defaults : Config
config_defaults = record {
  redis_host = some (ascii "127.0.0.1");
  redis_port = 6379;
  redis_password = none;
  redis_db = 0;
  rpc_host = some (ascii "0.0.0.0");
  rpc_port = 8545;
  chain_id = 100100;
  gas_limit = 30000000;
  base_fee = 1000000000;
  log_level = 2;
}

-- A character in front of the rest of its piece.
unfoldable pub glue : ℕ → List Bytes → List Bytes
glue c [] = (c ∷ []) ∷ []
glue c (line ∷ lines) = (c ∷ line) ∷ lines

-- `fgets` on 512 characters: the pieces that the loop sees. A piece ends behind a line feed or has 511
-- characters; `room` is what is left of it.
unfoldable pub read_lines : ℕ → Bytes → List Bytes
read_lines room [] = []
read_lines room (c ∷ cs) =
    let full = c == b'\n' || room == 1 in
    let rest = read_lines (if full then 511 else room - 1) cs in
    if full then (c ∷ []) ∷ rest else glue c rest

-- `line[0] == '#' || line[0] == '\n' || line[0] == '['`.
unfoldable pub is_skipped : Bytes → Bool
is_skipped [] = false
is_skipped (c ∷ cs) = c == b'#' || (c == b'\n' || c == b'[')

-- A conversion of sscanf that takes one character at least.
unfoldable pub scan_until : (ℕ → Bool) → ℕ → Bytes → Option (Bytes × Bytes)
scan_until stops width text =
    let (copied, rest) = copy_until stops width text in
    if length copied == 0 then none else some (copied, rest)

unfoldable pub scan_value : Bytes → Bytes → Option (Bytes × Bytes)
scan_value key pos =
    let rest = skip_while Decimal.is_space pos in
    elim (scan_until (λ c. c == b'\n') 255 (skip_while Decimal.is_space (next rest))) [
      | none ↦ none
      | some (value, end) ↦ if starts b'=' rest then some (key, value) else none
    ]

-- `sscanf(line, " %63[^= ] = %255[^\n]", key, value)`; `none` if it does not return 2.
unfoldable pub scan_line : Bytes → Option (Bytes × Bytes)
scan_line line =
    elim (scan_until (λ c. c == b'=' || c == b' ') 63 (skip_while Decimal.is_space line)) [
      | none ↦ none
      | some (key, pos) ↦ scan_value key pos
    ]

-- The text without the quote that ends it; `none` if it ends otherwise.
unfoldable pub without_last_quote : Bytes → Option Bytes
without_last_quote [] = none
without_last_quote (c ∷ []) = if c == b'"' then some [] else none
without_last_quote (c ∷ d ∷ cs) = elim (without_last_quote (d ∷ cs)) [
  | none ↦ none
  | some text ↦ some (c ∷ text)
]

unfoldable pub unquote : Bytes → Bytes
unquote value = elim (without_last_quote (next value)) [
  | none ↦ value
  | some text ↦ if starts b'"' value then text else value
]

-- `strdup`.
unfoldable pub strdup : (ℕ → Bool) → Bytes → Option Bytes
strdup alloc text = if alloc (length text + 1) then some text else none

-- `atoi`, as the C library defines it: (int)strtol.
unfoldable pub atoi : Bytes → ℕ
atoi text = Decimal.atol text % 2 ^ 32

unfoldable pub set_option : (ℕ → Bool) → Bytes → Bytes → Config → Config
set_option alloc key value cfg =
    if bytes_eq key (ascii "redis_host")
    then record cfg { redis_host = strdup alloc value }
    else if bytes_eq key (ascii "redis_port")
    then record cfg { redis_port = atoi value }
    else if bytes_eq key (ascii "redis_password")
    then record cfg { redis_password = strdup alloc value }
    else if bytes_eq key (ascii "redis_db")
    then record cfg { redis_db = atoi value }
    else if bytes_eq key (ascii "rpc_host")
    then record cfg { rpc_host = strdup alloc value }
    else if bytes_eq key (ascii "rpc_port")
    then record cfg { rpc_port = atoi value }
    else if bytes_eq key (ascii "chain_id")
    then record cfg { chain_id = Decimal.atol value }
    else if bytes_eq key (ascii "gas_limit")
    then record cfg { gas_limit = Decimal.atol value }
    else if bytes_eq key (ascii "base_fee")
    then record cfg { base_fee = Decimal.atol value }
    else if bytes_eq key (ascii "log_level")
    then record cfg { log_level = atoi value }
    else cfg

unfoldable pub apply_line : (ℕ → Bool) → Bytes → Config → Config
apply_line alloc line cfg = elim (scan_line line) [
  | none ↦ cfg
  | some (key, value) ↦ if is_skipped line then cfg else set_option alloc key (unquote value) cfg
]

unfoldable pub apply_lines : (ℕ → Bool) → List Bytes → Config → Config
apply_lines alloc [] cfg = cfg
apply_lines alloc (line ∷ lines) cfg =
    apply_lines alloc lines (apply_line alloc (c_string line) cfg)

-- The file is `none` where it cannot be opened, which is the return value -1.
unfoldable pub config_load : (ℕ → Bool) → Option Bytes → Config → Bool × Config
config_load alloc none cfg = (false, cfg)
config_load alloc (some file) cfg = (true, apply_lines alloc (read_lines 511 file) cfg)
