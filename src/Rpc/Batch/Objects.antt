-- ===== src/Rpc/Batch/Objects.antt =====
-- Texts with matching braces, as a grammar, and how a batch is cut into them.
use evm_db.Prelude.{
  ℕ, ◌+◌, ◌-◌, ◌≤◌, ◌≡◌, refl, sym, ap, ◌∙◌, List, [], ◌∷◌, ◌++◌, append_assoc, Bool, true, ◌&&◌,
  not, ◌==◌, All, arith,
}
use evm_db.Prelude.Bytes.{Bytes}
use evm_db.Core.Scan.{skip_while, is_blank}
use evm_db.Rpc.Batch.{take_object, found, step}

abbrev pub is_plain : ℕ → Bool
is_plain c = not (c == b'{') && not (c == b'}')

-- What can stand between two braces that match.
pub data Body : Type 0 where
  empty : Body
  plain : (c : ℕ) → is_plain c ≡ true → Body → Body
  braces : Body → Body → Body

unfoldable pub body_text : Body → Bytes
body_text empty = []
body_text (plain c h rest) = c ∷ body_text rest
body_text (braces inner rest) = b'{' ∷ body_text inner ++ b'}' ∷ body_text rest

abbrev pub object_text : Body → Bytes
object_text body = b'{' ∷ body_text body ++ b'}' ∷ []

-- What take_object gives for a text in front of another one.
abbrev in_front : Bytes → Bytes × Bytes → Bytes × Bytes
in_front text r = (text ++ r.0, r.1)

open_brace :
    (depth : ℕ) (cs : Bytes)
    → take_object depth (b'{' ∷ cs) ≡ in_front (b'{' ∷ []) (take_object (depth + 1) cs)
unfolding take_object
open_brace depth cs = ground arith

close_brace :
    (depth : ℕ) (cs : Bytes)
    → 1 ≤ depth
    → take_object (depth + 1) (b'}' ∷ cs) ≡ in_front (b'}' ∷ []) (take_object depth cs)
unfolding take_object
close_brace depth cs h = let same : depth + 1 - 1 ≡ depth = omega arith in ground (arith, same)

plain_char :
    (depth c : ℕ) (cs : Bytes)
    → is_plain c ≡ true
    → 1 ≤ depth
    → take_object depth (c ∷ cs) ≡ in_front (c ∷ []) (take_object depth cs)
unfolding take_object
plain_char depth c cs p h = ground arith

-- A body is taken whole, at any depth inside an object.
take_object-body :
    (depth : ℕ) (body : Body) (rest : Bytes)
    → 1 ≤ depth
    → take_object depth (body_text body ++ rest)
      ≡ in_front (body_text body) (take_object depth rest)
unfolding body_text
take_object-body depth empty rest h = refl
take_object-body depth (plain c p body) rest h =
    plain_char depth c _ p h ∙ ap (in_front (c ∷ [])) (take_object-body depth body rest h)
take_object-body depth (braces inner body) rest h =
    ap (λ t. take_object depth (b'{' ∷ t))
      (append_assoc (body_text inner) (b'}' ∷ body_text body) rest)
    ∙ open_brace depth _
    ∙ ap (in_front (b'{' ∷ [])) (
        take_object-body (depth + 1) inner _ (omega arith)
        ∙ ap (in_front (body_text inner)) (
            close_brace depth _ h ∙ ap (in_front (b'}' ∷ [])) (take_object-body depth body rest h)))
    ∙ ap (λ t. (b'{' ∷ t, (take_object depth rest).1))
        (sym (append_assoc (body_text inner) (b'}' ∷ body_text body) _))

last_brace : (rest : Bytes) → take_object 1 (b'}' ∷ rest) ≡ (b'}' ∷ [], rest)
unfolding take_object
last_brace rest = refl

take_object-object_text :
    (body : Body) (rest : Bytes)
    → take_object 0 (object_text body ++ rest) ≡ (object_text body, rest)
take_object-object_text body rest =
    ap (λ t. take_object 0 (b'{' ∷ t)) (append_assoc (body_text body) (b'}' ∷ []) rest)
    ∙ open_brace 0 _
    ∙ ap (in_front (b'{' ∷ [])) (
        take_object-body 1 body (b'}' ∷ rest) (omega arith)
        ∙ ap (in_front (body_text body)) (last_brace rest))

-- One request of a batch, with the blanks and commas in front of it.
pub record Entry : Type 0 where
  pub gap : Bytes
  pub body : Body
  pub blank : All (λ c. is_blank c ≡ true) gap

abbrev pub entry_text : Entry → Bytes
entry_text e = object_text e.body

unfoldable pub entries_text : List Entry → Bytes
entries_text [] = b']' ∷ []
entries_text (e ∷ es) = e.gap ++ (entry_text e ++ entries_text es)

skip_while-blank :
    (gap rest : Bytes)
    → All (λ c. is_blank c ≡ true) gap
    → skip_while is_blank (gap ++ rest) ≡ skip_while is_blank rest
unfolding skip_while
skip_while-blank [] rest h = refl
skip_while-blank (c ∷ cs) rest (hc, h) = ground (arith, hc, skip_while-blank cs rest h)

skip_while-brace : (cs : Bytes) → skip_while is_blank (b'{' ∷ cs) ≡ b'{' ∷ cs
unfolding skip_while
skip_while-brace cs = refl

step_lem :
    (c : ℕ) (cs object rest : Bytes)
    → c ≡ b'{'
    → take_object 0 (c ∷ cs) ≡ (object, rest)
    → step (c ∷ cs) ≡ found object rest
unfolding step
step_lem c cs object rest e h = ground (arith, e, h)

-- In front of an entry the loop finds its object, and what is behind it.
pub step-entry :
    (e : Entry) (es : List Entry)
    → step (skip_while is_blank (entries_text (e ∷ es))) ≡ found (entry_text e) (entries_text es)
unfolding entries_text
step-entry e es =
    ap step (skip_while-blank e.gap _ e.blank ∙ skip_while-brace _)
    ∙ step_lem b'{' _ _ _ refl (take_object-object_text e.body (entries_text es))
