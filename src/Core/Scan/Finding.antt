-- ===== src/Core/Scan/Finding.antt =====
-- Where a text is found, and what is copied in front of a quote.
use evm_db.Prelude.{
  ℕ, zero, suc, ◌≤◌, ◌≡◌, ◌≢◌, refl, [], ◌∷◌, ◌++◌, Option, none, Bool, true, false, ◌==◌, All,
  length, if_lem, arith,
}
use evm_db.Prelude.Bytes.{Bytes}
use evm_db.Core.Scan.{strip_prefix, find_behind, copy_until, is_quote}

-- Texts with no quote in them.
abbrev pub Plain : Bytes → Type 0
Plain text = All (λ c. is_quote c ≡ false) text

-- A text that starts with a quote is not found in front of one.
pub find_behind-Plain :
    (key text rest : Bytes)
    → Plain text
    → find_behind (b'"' ∷ key) (text ++ rest) ≡ find_behind (b'"' ∷ key) rest
unfolding find_behind strip_prefix
find_behind-Plain key [] rest h = refl
find_behind-Plain key (c ∷ cs) rest (hc, h) = ground (arith, hc, find_behind-Plain key cs rest h)

-- Another key in quotes is no match.
pub strip_prefix-other :
    (key other rest : Bytes)
    → Plain key
    → Plain other
    → other ≢ key
    → strip_prefix (key ++ b'"' ∷ []) (other ++ b'"' ∷ rest) ≡ none
unfolding strip_prefix
strip_prefix-other [] [] rest hk ho differ = absurd (differ refl)
strip_prefix-other [] (o ∷ other) rest hk (h, ho) differ = ground (arith, h)
strip_prefix-other (k ∷ key) [] rest (h, hk) ho differ = ground (arith, h)
strip_prefix-other (k ∷ key) (o ∷ other) rest (h, hk) (g, ho) differ =
    if_lem (λ (r : Option Bytes). r ≡ none) (k == o) _ none
      (λ (e : (k == o) ≡ true).
        strip_prefix-other key other rest hk ho (λ same. differ (ground (arith, e, same))))
      (λ e. refl)

-- What stands in front of the first character that stops is copied, if it fits.
pub copy_until-stops :
    (stops : ℕ → Bool) (limit : ℕ) (text : Bytes) (c : ℕ) (rest : Bytes)
    → All (λ d. stops d ≡ false) text
    → stops c ≡ true
    → length text ≤ limit
    → copy_until stops limit (text ++ c ∷ rest) ≡ (text, c ∷ rest)
unfolding copy_until
copy_until-stops stops zero [] c rest h e fits = refl
copy_until-stops stops (suc limit) [] c rest h e fits = ground (arith, e)
copy_until-stops stops zero (d ∷ ds) c rest h e fits = absurd (omega arith)
copy_until-stops stops (suc limit) (d ∷ ds) c rest (hd, h) e fits =
    ground (arith, hd, copy_until-stops stops limit ds c rest h e (omega arith))
