-- ===== src/Evm/Overlay/Lookup.antt =====
-- The overlay of executor.c as a map from slots to values.
use evm_db.Prelude.{
  ℕ, suc, ◌^◌, ◌<◌, ◌≤◌, ◌≡◌, refl, sym, List, [], ◌∷◌, none, some, Bool, true, false, ◌&&◌, ◌==◌,
  if◌then◌else◌, length, length-append, arith, Bool-cases, Option-cases, if_lem, inl, inr,
}
use mathlib.Core.Path.{subst}
use evm_db.Prelude.Bytes.{Bytes}
use evm_db.Prelude.Text.{bytes_eq, bytes_eq→eq, bytes_eq_sym}
use evm_db.Evm.Overlay.{
  Write, Writes, is_at, find_write, get_write, replace_write, push_write, add_write, set_write,
}

-- No slot occurs twice.
abbrev pub Distinct : List Write → Type 0
Distinct [] = Unit
Distinct (w ∷ ws) = (find_write ws w.address w.key ≡ none) × Distinct ws

pub record IsOverlay (ctx : Writes) : Type 0 where
  pub distinct : Distinct ctx.list
  pub fits : length ctx.list ≤ ctx.cap

-- What a lookup sees after a slot got a value.
abbrev pub Updates : List Write → List Write → Bytes → Bytes → Bytes → Type 0
Updates ws ws' a k v =
    (b j : Bytes)
    → find_write ws' b j ≡ (if bytes_eq a b && bytes_eq k j then some v else find_write ws b j)

is_at_eq : (w : Write) (a k : Bytes) → is_at w a k ≡ true → (w.address ≡ a) × (w.key ≡ k)
unfolding is_at
is_at_eq w a k e = (bytes_eq→eq w.address a (ground arith), bytes_eq→eq w.key k (ground arith))

replace_none :
    (ws : List Write) (a k v : Bytes) → replace_write ws a k v ≡ none → find_write ws a k ≡ none
unfolding replace_write find_write
replace_none [] a k v e = refl
replace_none (w ∷ ws) a k v e = ground (arith, replace_none ws a k v)

abbrev same_slot : Bytes → Bytes → Bytes → Bytes → Bool
same_slot a k b j = bytes_eq a b && bytes_eq k j

same_slot_sym : (a k b j : Bytes) → same_slot a k b j ≡ same_slot b j a k
same_slot_sym a k b j = ground (arith, bytes_eq_sym a b, bytes_eq_sym k j)

find_same :
    (ws : List Write) (a k b j : Bytes)
    → same_slot a k b j ≡ true
    → find_write ws b j ≡ find_write ws a k
find_same ws a k b j e =
    rw (bytes_eq→eq a b (ground arith)) (rw (bytes_eq→eq k j (ground arith)) refl)

is_at_same : (w : Write) (a k b j : Bytes) → is_at w a k ≡ true → is_at w b j ≡ same_slot a k b j
unfolding is_at
is_at_same w a k b j e = let (ea, ek) = is_at_eq w a k e in rw ea (rw ek refl)

replace_head :
    (w : Write) (ws : List Write) (a k v : Bytes)
    → is_at w a k ≡ true
    → find_write ws a k ≡ none
    → Updates (w ∷ ws) (record w { value = v } ∷ ws) a k v
unfolding find_write
replace_head w ws a k v e fresh b j =
    let here : is_at (record w { value = v }) b j ≡ same_slot a k b j =
      unfold is_at in is_at_same w a k b j e in
    ground (arith, is_at_same w a k b j e, find_same ws a k b j)

replace_cons :
    (w : Write) (ws ws' : List Write) (a k v : Bytes)
    → is_at w a k ≡ true
    → replace_write (w ∷ ws) a k v ≡ some ws'
    → ws' ≡ record w { value = v } ∷ ws
unfolding replace_write
replace_cons w ws ws' a k v e h = ground arith

replace_skip :
    (w : Write) (ws ws' : List Write) (a k v : Bytes)
    → is_at w a k ≡ false
    → replace_write (w ∷ ws) a k v ≡ some ws'
    → (later : List Write) × (replace_write ws a k v ≡ some later) × (ws' ≡ w ∷ later)
unfolding replace_write
replace_skip w ws ws' a k v e h = elim (Option-cases (replace_write ws a k v)) [
  | inl f ↦ absurd (ground arith)
  | inr (later, f) ↦ (later, f, ground arith)
]

abbrev Replaced : List Write → List Write → Bytes → Bytes → Bytes → Type 0
Replaced ws ws' a k v = Distinct ws' × (length ws' ≡ length ws) × Updates ws ws' a k v

Updates-cons :
    (w : Write) (ws later : List Write) (a k v : Bytes)
    → Updates ws later a k v
    → Updates (w ∷ ws) (w ∷ later) a k v
unfolding find_write
Updates-cons w ws later a k v updates b j = ground (arith, updates b j)

not_here :
    (w : Write) (ws later : List Write) (a k v : Bytes)
    → is_at w a k ≡ false
    → find_write ws w.address w.key ≡ none
    → Updates ws later a k v
    → find_write later w.address w.key ≡ none
unfolding is_at
not_here w ws later a k v off fresh updates =
    ground (arith, updates w.address w.key, same_slot_sym a k w.address w.key)

replace_lem :
    (ws ws' : List Write) (a k v : Bytes)
    → Distinct ws
    → replace_write ws a k v ≡ some ws'
    → Replaced ws ws' a k v
replace_lem [] ws' a k v h e = absurd (unfold replace_write in cc)
replace_lem (w ∷ ws) ws' a k v (fresh, h) e = elim (Bool-cases (is_at w a k)) [
  | inl here ↦
      let (ea, ek) = is_at_eq w a k here in
      let free : find_write ws a k ≡ none = rw (sym ea) (rw (sym ek) fresh) in
      subst (λ xs. Replaced (w ∷ ws) xs a k v) (sym (replace_cons w ws ws' a k v here e))
        ((fresh, h), refl, replace_head w ws a k v here free)
  | inr off ↦
      let (later, el, same) = replace_skip w ws ws' a k v off e in
      let (h', size, updates) = replace_lem ws later a k v h el in
      subst (λ xs. Replaced (w ∷ ws) xs a k v) (sym same)
        (
          (not_here w ws later a k v off fresh updates, h'),
          omega (arith, size),
          Updates-cons w ws later a k v updates,
        )
]

push_lem : (ws : List Write) (a k v : Bytes) → Updates ws (push_write ws a k v) a k v
unfolding push_write find_write is_at
push_lem [] a k v b j = refl
push_lem (w ∷ ws) a k v b j = ground (arith, push_lem ws a k v b j)

misses :
    (w : Write) (ws : List Write) (a k : Bytes)
    → find_write (w ∷ ws) a k ≡ none
    → (is_at w a k ≡ false) × (find_write ws a k ≡ none)
unfolding find_write
misses w ws a k e = (ground arith, ground arith)

not_pushed :
    (w : Write) (ws : List Write) (a k v : Bytes)
    → find_write ws w.address w.key ≡ none
    → is_at w a k ≡ false
    → find_write (push_write ws a k v) w.address w.key ≡ none
unfolding is_at
not_pushed w ws a k v fresh off =
    ground (arith, push_lem ws a k v w.address w.key, same_slot_sym a k w.address w.key)

push-Distinct :
    (ws : List Write) (a k v : Bytes)
    → Distinct ws
    → find_write ws a k ≡ none
    → Distinct (push_write ws a k v)
unfolding push_write
push-Distinct [] a k v h e = (unfold find_write in refl, tt)
push-Distinct (w ∷ ws) a k v (fresh, h) e =
    let (off, free) = misses w ws a k e in
    (not_pushed w ws a k v fresh off, push-Distinct ws a k v h free)

length-push : (ws : List Write) (a k v : Bytes) → length (push_write ws a k v) ≡ suc (length ws)
unfolding push_write
length-push ws a k v =
    omega (arith, length-append ws (record { address = a; key = k; value = v } ∷ []))

-- What a write of `v` to a slot returns, and what a lookup sees after it.
abbrev After : Writes → Bytes → Bytes → Bytes → Bytes → Bytes → Bool × Writes → Type 0
After ctx a k v b j r =
    IsOverlay r.1
    × (find_write r.1.list b j
        ≡ (if r.0 && same_slot a k b j then some v else find_write ctx.list b j))

add_lem :
    (alloc : ℕ → Bool) (ctx : Writes) (a k v b j : Bytes)
    → IsOverlay ctx
    → ctx.cap < 2 ^ 62
    → find_write ctx.list a k ≡ none
    → After ctx a k v b j (add_write alloc ctx a k v)
unfolding add_write
add_lem alloc ctx a k v b j h small free =
    let P : Bool × Writes → Type 0 = After ctx a k v b j in
    let d : Distinct (push_write ctx.list a k v) = push-Distinct ctx.list a k v h.distinct free in
    let size : length (push_write ctx.list a k v) ≡ suc (length ctx.list) =
      length-push ctx.list a k v in
    if_lem P (length ctx.list == ctx.cap) _ _
      (λ full.
        if_lem P (alloc _) _ _
          (λ room. (
            record { distinct = d; fits = ground (arith, size, h.fits) },
            push_lem ctx.list a k v b j,
          ))
          (λ none_left. (h, refl)))
      (λ room.
        (record { distinct = d; fits = ground (arith, size, h.fits) }, push_lem ctx.list a k v b j))

-- A write that succeeds changes what a lookup of its slot returns and no other lookup, and keeps
-- the slots distinct and within the capacity. If there is no memory for it, it fails and changes
-- nothing. The capacity is below 2 ^ 62, far above what fits in memory.
pub set_write_lem :
    (alloc : ℕ → Bool) (ctx : Writes) (a k v b j : Bytes)
    → IsOverlay ctx
    → ctx.cap < 2 ^ 62
    → IsOverlay (set_write alloc ctx a k v).1
      × (get_write (set_write alloc ctx a k v).1 b j ≡ (
          if (set_write alloc ctx a k v).0 && (bytes_eq a b && bytes_eq k j)
          then some v
          else get_write ctx b j))
unfolding get_write set_write
set_write_lem alloc ctx a k v b j h small = elim (Option-cases (replace_write ctx.list a k v)) [
  | inr (ws', e) ↦
      let (d, size, updates) = replace_lem ctx.list ws' a k v h.distinct e in
      rw (e, set_write) (record { distinct = d; fits = omega (arith, size, h.fits) }, updates b j)
  | inl e ↦ rw (e, set_write) (add_lem alloc ctx a k v b j h small (replace_none ctx.list a k v e))
]
