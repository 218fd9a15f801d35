-- ===== src/Core/Scan.antt =====
-- C strings read from the front, as config.c and src/rpc do with pointers: what is left stands for the pointer,
-- and the empty list is the terminating NUL.
pub mod Lengths
pub mod Finding
use evm_db.Prelude.{
  ℕ, zero, suc, ◌+◌, [], ◌∷◌, ◌++◌, Option, none, some, Bool, false, ◌||◌, ◌==◌, if◌then◌else◌,
}
use evm_db.Prelude.Bytes.{Bytes}

-- What stands behind a prefix.
unfoldable pub strip_prefix : Bytes → Bytes → Option Bytes
strip_prefix [] text = some text
strip_prefix (p ∷ ps) [] = none
strip_prefix (p ∷ ps) (c ∷ cs) = if p == c then strip_prefix ps cs else none

-- `strstr(text, search)`, then `pos += strlen(search)`.
unfoldable pub find_behind : Bytes → Bytes → Option Bytes
find_behind search [] = strip_prefix search []
find_behind search (c ∷ cs) = elim (strip_prefix search (c ∷ cs)) [
  | some rest ↦ some rest
  | none ↦ find_behind search cs
]

-- `while (*pos && test(*pos)) pos++;`
unfoldable pub skip_while : (ℕ → Bool) → Bytes → Bytes
skip_while test [] = []
skip_while test (c ∷ cs) = let rest = skip_while test cs in if test c then rest else c ∷ cs

-- `while (*pos && !stop(*pos) && i < limit) out[i++] = *pos++;`: what was copied, and what is left.
unfoldable pub copy_until : (ℕ → Bool) → ℕ → Bytes → Bytes × Bytes
copy_until stop limit [] = ([], [])
copy_until stop zero (c ∷ cs) = ([], c ∷ cs)
copy_until stop (suc limit) (c ∷ cs) =
    let (copied, rest) = copy_until stop limit cs in
    if stop c then ([], c ∷ cs) else (c ∷ copied, rest)

abbrev pub is_gap : ℕ → Bool
is_gap c = c == b' ' || (c == b':' || c == b'\t')

abbrev pub is_space : ℕ → Bool
is_space c = c == b' ' || (c == b'\t' || (c == b'\n' || c == b'\r'))

abbrev pub is_blank : ℕ → Bool
is_blank c = c == b' ' || (c == b',' || (c == b'\t' || (c == b'\n' || c == b'\r')))

abbrev pub is_quote : ℕ → Bool
is_quote c = c == b'"'

-- `*pos == c`.
unfoldable pub starts : ℕ → Bytes → Bool
starts c [] = false
starts c (d ∷ ds) = d == c

-- `pos++`.
unfoldable pub next : Bytes → Bytes
next [] = []
next (c ∷ cs) = cs

unfoldable pub quoted_key : Bytes → Bytes
quoted_key key = b'"' ∷ key ++ b'"' ∷ []

-- A C string ends at the first NUL in its memory.
unfoldable pub c_string : Bytes → Bytes
c_string [] = []
c_string (c ∷ cs) = let rest = c_string cs in if c == 0 then [] else c ∷ rest
