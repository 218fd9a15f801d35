-- ===== src/Rpc/Json/Strings.antt =====
-- Parameters that are strings, as a client prints them and as json.c reads them.
use evm_db.Prelude.{
  ℕ, zero, suc, ◌-◌, ◌≤◌, ◌<◌, ◌≡◌, refl, ◌∙◌, List, [], ◌∷◌, ◌++◌, some, true, false, ◌==◌, All,
  length, length-append, arith,
}
use evm_db.Prelude.Bytes.{Bytes}
use evm_db.Prelude.Text.{ascii}
use evm_db.Block.Rlp.Result.{Result, ok}
use evm_db.Core.Scan.{skip_while, is_quote, is_blank, starts, next}
use evm_db.Core.Scan.Finding.{Plain, copy_until-stops}
use evm_db.Rpc.Json.Params.{
  skip_quote, next_param, goes_on, push_param, params_loop, find_params, parse_params,
}
use evm_db.Rpc.Json.RoundTrip.{request_text, IsRequest, parse_method-request_text}
use evm_db.Rpc.Json.{parse_method}

-- The parameters of a request as strings: behind a parameter, and behind the bracket.
unfoldable pub more_params : List Bytes → Bytes
more_params [] = ascii "]}"
more_params (p ∷ ps) = b',' ∷ b'"' ∷ (p ++ b'"' ∷ more_params ps)

unfoldable pub params_text : List Bytes → Bytes
params_text [] = ascii "]}"
params_text (p ∷ ps) = b'"' ∷ (p ++ b'"' ∷ more_params ps)

abbrev pub IsParam : Bytes → Type 0
IsParam p = Plain p × (length p ≤ 255)

push_lem :
    (p : Bytes) (rest : Result (List Bytes)) (ps : List Bytes)
    → rest ≡ ok ps
    → push_param p rest ≡ ok (p ∷ ps)
unfolding push_param
push_lem p rest ps e = rw e refl

next_param-string :
    (p rest : Bytes) → IsParam p → next_param (b'"' ∷ (p ++ b'"' ∷ rest)) ≡ (p, rest)
unfolding next_param skip_quote starts next
next_param-string p rest (plain, fits) =
    rw (copy_until-stops is_quote 255 p b'"' rest plain refl fits, next_param) refl

goes_on-lem :
    (room c : ℕ) (cs : Bytes) → 1 ≤ room → (c == b']') ≡ false → goes_on room (c ∷ cs) ≡ true
unfolding goes_on
goes_on-lem zero c cs h e = absurd (omega arith)
goes_on-lem (suc room) c cs h e = ground (arith, e)

params_loop-round :
    (fuel room : ℕ) (pos p param rest : Bytes)
    → goes_on room pos ≡ true
    → skip_while is_blank pos ≡ p
    → starts b']' p ≡ false
    → next_param p ≡ (param, rest)
    → params_loop (suc fuel) room pos ≡ push_param param (params_loop fuel (room - 1) rest)
unfolding params_loop
params_loop-round fuel room pos p param rest go skipped there one =
    rw (go, params_loop) (rw skipped (rw there (rw one refl)))

quote_first :
    (rest : Bytes)
    → (skip_while is_blank (b'"' ∷ rest) ≡ b'"' ∷ rest)
      × (skip_while is_blank (b',' ∷ b'"' ∷ rest) ≡ b'"' ∷ rest)
      × (starts b']' (b'"' ∷ rest) ≡ false)
unfolding skip_while starts
quote_first rest = (refl, refl, refl)

-- The bracket ends the loop, also where there is no room.
params_loop-end : (fuel room : ℕ) → params_loop (suc fuel) room (more_params []) ≡ ok []
unfolding params_loop more_params goes_on skip_while starts
params_loop-end fuel zero = refl
params_loop-end fuel (suc room) = refl

string_behind :
    (fuel room : ℕ) (p : Bytes) (ps : List Bytes)
    → IsParam p
    → 1 ≤ room
    → params_loop (suc fuel) room (more_params (p ∷ ps))
      ≡ push_param p (params_loop fuel (room - 1) (more_params ps))
unfolding more_params
string_behind fuel room p ps h some_room =
    params_loop-round fuel room _ _ p _ (goes_on-lem room b',' _ some_room refl) (quote_first _).1
      (quote_first _).2 (next_param-string p _ h)

string_first :
    (fuel room : ℕ) (p : Bytes) (ps : List Bytes)
    → IsParam p
    → 1 ≤ room
    → params_loop (suc fuel) room (params_text (p ∷ ps))
      ≡ push_param p (params_loop fuel (room - 1) (more_params ps))
unfolding params_text
string_first fuel room p ps h some_room =
    params_loop-round fuel room _ _ p _ (goes_on-lem room b'"' _ some_room refl) (quote_first _).0
      (quote_first _).2 (next_param-string p _ h)

params_loop-more :
    (fuel room : ℕ) (ps : List Bytes)
    → length ps < fuel
    → length ps ≤ room
    → All IsParam ps
    → params_loop fuel room (more_params ps) ≡ ok ps
params_loop-more zero room ps h fits plain = absurd (omega arith)
params_loop-more (suc fuel) room [] h fits plain = params_loop-end fuel room
params_loop-more (suc fuel) room (p ∷ ps) h fits (hp, plain) =
    string_behind fuel room p ps hp (omega arith)
    ∙ push_lem p _ ps (params_loop-more fuel (room - 1) ps (omega arith) (omega arith) plain)

length-more_params : (ps : List Bytes) → length ps ≤ length (more_params ps)
unfolding more_params
length-more_params [] = omega arith
length-more_params (p ∷ ps) =
    omega (arith, length-append p (b'"' ∷ more_params ps), length-more_params ps)

params_loop-first :
    (fuel room : ℕ) (ps : List Bytes)
    → length (params_text ps) < fuel
    → length ps ≤ room
    → All IsParam ps
    → params_loop fuel room (params_text ps) ≡ ok ps
unfolding params_text more_params
params_loop-first zero room ps h fits plain = absurd (omega arith)
params_loop-first (suc fuel) room [] h fits plain = params_loop-end fuel room
params_loop-first (suc fuel) room (p ∷ ps) h fits (hp, plain) =
    string_first fuel room p ps hp (omega arith)
    ∙ push_lem p _ ps (
        params_loop-more fuel (room - 1) ps
          (omega (arith, length-more_params ps, length-append p (b'"' ∷ more_params ps)))
          (omega arith) plain)

params_read :
    (json : Bytes) (max_params : ℕ) (ps : List Bytes)
    → find_params json ≡ some (params_text ps)
    → length ps ≤ max_params
    → All IsParam ps
    → parse_params json max_params ≡ ok ps
unfolding parse_params
params_read json max_params ps e fits plain =
    rw (e, parse_params) (params_loop-first _ max_params ps (omega arith) fits plain)

-- A request with a number of at most 31 digits as its id, a method with no quote, of at most 63 characters
-- and not called params, and at most eight strings as parameters, each with no quote and at most 255
-- characters, is read back: its method, its id and its parameters.
pub parse_params-request_text :
    (id method : Bytes) (ps : List Bytes)
    → IsRequest id method
    → length ps ≤ 8
    → All IsParam ps
    → (parse_method (request_text id method (params_text ps)) 64 32 ≡ (method, id))
      × (parse_params (request_text id method (params_text ps)) 8 ≡ ok ps)
parse_params-request_text id method ps h fits plain =
    let (both, found, array) = parse_method-request_text id method (params_text ps) h in
    (both, params_read _ 8 ps found fits plain)
