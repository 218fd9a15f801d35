-- ===== src/Rpc/Json/Termination.antt =====
-- json.c ends on every text, and keeps within the arrays of its caller.
use evm_db.Prelude.{
  ℕ, zero, suc, ◌+◌, ◌-◌, ◌≤◌, ◌<◌, ◌≡◌, refl, List, [], ◌∷◌, some, true, false, not, ◌==◌,
  if◌then◌else◌, length, length-append, All, if_lem, Option-cases, inl, inr, arith,
}
use evm_db.Prelude.Bytes.{Bytes}
use evm_db.Prelude.Text.{ascii}
use evm_db.Block.Rlp.Result.{Result, ok}
use evm_db.Core.Scan.{skip_while, copy_until, is_quote, is_blank, starts, next, find_behind}
use evm_db.Core.Scan.Lengths.{length-skip_while, starts-skip_while, length-next, length-copy_until}
use evm_db.Rpc.Json.{
  find_string, value_behind, extract_string, ends_number, id_value, extract_id, parse_method,
}
use evm_db.Rpc.Json.Params.{
  skip_object, ends_value, skip_quote, next_param, goes_on, push_param, params_loop, find_params,
  parse_params,
}

length-skip_object : (depth : ℕ) (text : Bytes) → length (skip_object depth text) ≤ length text
unfolding skip_object
length-skip_object depth [] = omega arith
length-skip_object depth (c ∷ cs) =
    let deeper = if c == b'{' then depth + 1 else if c == b'}' then depth - 1 else depth in
    ground (arith, length-skip_object deeper cs)

length-skip_quote : (text : Bytes) → length (skip_quote text) ≤ length text
unfolding skip_quote
length-skip_quote text = ground (arith, length-next text)

-- One parameter has 255 characters at most, and takes one character at least unless it stands at the
-- end of a value.
next_param_lem :
    (pos : Bytes)
    → starts b',' pos ≡ false
    → starts b']' pos ≡ false
    → (length (next_param pos).0 ≤ 255) × (length (next_param pos).1 ≤ length pos - 1)
unfolding next_param starts skip_while copy_until
next_param_lem [] no_comma no_end = (omega arith, omega arith)
next_param_lem (c ∷ cs) no_comma no_end = ground (
  arith,
  length-copy_until is_quote 255 cs,
  length-copy_until ends_value 254 cs,
  length-copy_until ends_value 255 (c ∷ cs),
  length-skip_quote (copy_until is_quote 255 cs).1,
  length-skip_object 1 cs,
  length-skip_while (λ d. not (ends_value d)) cs,
)

-- What a run of the loop gives: no more parameters than there is room for, each of which fits.
pub record Parsed (room : ℕ) (result : Result (List Bytes)) : Type 0 where
  pub params : List Bytes
  pub returns : result ≡ ok params
  pub count : length params ≤ room
  pub fits : All (λ (p : Bytes). length p ≤ 255) params

push_Parsed :
    (room : ℕ) (param : Bytes) (rest : Result (List Bytes))
    → 1 ≤ room
    → length param ≤ 255
    → Parsed (room - 1) rest
    → Parsed room (push_param param rest)
unfolding push_param
push_Parsed room param rest some_room h p = record {
  params = param ∷ p.params;
  returns = ground (arith, p.returns);
  count = omega (arith, p.count);
  fits = (h, p.fits);
}

none_Parsed : (room : ℕ) → Parsed room (ok [])
none_Parsed room = record { params = []; returns = refl; count = omega arith; fits = tt }

goes_on_lem : (room : ℕ) (pos : Bytes) → goes_on room pos ≡ true → (1 ≤ room) × (1 ≤ length pos)
unfolding goes_on
goes_on_lem zero pos h = cc
goes_on_lem (suc room) [] h = cc
goes_on_lem (suc room) (c ∷ cs) h = (omega arith, omega arith)

-- One round, where what is left is done with the fuel that is left.
params_round-Parsed :
    (fuel room : ℕ) (pos : Bytes)
    → length pos < suc fuel
    → (length (next_param (skip_while is_blank pos)).1 < fuel
        → Parsed (room - 1) (params_loop fuel (room - 1) (next_param (skip_while is_blank pos)).1))
    → Parsed room (params_loop (suc fuel) room pos)
unfolding params_loop
params_round-Parsed fuel room pos h rest =
    let p : Bytes = skip_while is_blank pos in
    let shorter : length p ≤ length pos = length-skip_while is_blank pos in
    let no_comma = starts-skip_while is_blank b',' pos refl in
    if_lem (Parsed room) (goes_on room pos) _ _
      (λ (go : goes_on room pos ≡ true).
        if_lem (Parsed room) (starts b']' p) _ _ (λ end. none_Parsed room)
          (λ (there : starts b']' p ≡ false).
            let (some_room, some_text) = goes_on_lem room pos go in
            let (small, less) = next_param_lem p no_comma there in
            push_Parsed room (next_param p).0 _ some_room small
              (rest (omega (arith, less, shorter, some_text)))))
      (λ stop. none_Parsed room)

params_loop-Parsed :
    (fuel room : ℕ) (pos : Bytes) → length pos < fuel → Parsed room (params_loop fuel room pos)
params_loop-Parsed zero room pos h = absurd (omega arith)
params_loop-Parsed (suc fuel) room pos h =
    params_round-Parsed fuel room pos h (λ less. params_loop-Parsed fuel (room - 1) _ less)

-- The function returns on every text, with at most `max_params` parameters of at most 255 characters
-- each.
pub parse_params-Parsed :
    (json : Bytes) (max_params : ℕ) → Parsed max_params (parse_params json max_params)
unfolding parse_params
parse_params-Parsed json max_params = elim (Option-cases (find_params json)) [
  | inl e ↦ rw (e, parse_params) (none_Parsed max_params)
  | inr (pos, e) ↦
      rw (e, parse_params) (params_loop-Parsed (length pos + 2) max_params pos (omega arith))
]

extract_string-fits :
    (json key : Bytes) (out_len : ℕ) (out : Bytes)
    → extract_string json key out_len ≡ some out
    → length out ≤ out_len - 1
unfolding extract_string
extract_string-fits json key out_len out e = elim (Option-cases (find_string json key)) [
  | inl missing ↦ cc
  | inr (pos, found) ↦ ground (arith, e, found, length-copy_until is_quote (out_len - 1) (next pos))
]

id_value-fits :
    (pos : Bytes) (out_len : ℕ) → 3 ≤ out_len → length (id_value pos out_len) ≤ out_len - 1
unfolding id_value
id_value-fits pos out_len h = ground (
  arith,
  length-append (copy_until is_quote (out_len - 3) (next pos)).0 (b'"' ∷ []),
  length-copy_until is_quote (out_len - 3) (next pos),
  length-copy_until ends_number (out_len - 1) pos,
)

-- For arrays of at least one character for the method and at least three for the id, both are written
-- within their arrays, with room for the NUL.
pub parse_method-fits :
    (json : Bytes) (method_len id_len : ℕ)
    → 1 ≤ method_len
    → 3 ≤ id_len
    → (length (parse_method json method_len id_len).0 < method_len)
      × (length (parse_method json method_len id_len).1 < id_len)
unfolding parse_method extract_id
parse_method-fits json method_len id_len hm hi = (
  elim (Option-cases (extract_string json (ascii "method") method_len)) [
    | inl e ↦ rw (e, parse_method) (omega arith)
    | inr (m, e) ↦ rw (e, parse_method) (omega (arith, extract_string-fits json _ method_len m e))
  ],
  elim (Option-cases (value_behind (find_behind (ascii "\"id\"") json))) [
    | inl e ↦ rw (e, parse_method, extract_id) (omega arith)
    | inr (pos, e) ↦ rw (e, parse_method, extract_id) (omega (arith, id_value-fits pos id_len hi))
  ],
)
