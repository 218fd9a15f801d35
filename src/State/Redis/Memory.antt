-- ===== src/State/Redis/Memory.antt =====
-- A server in memory that does what the documentation says: the newest entry of a key counts.
use evm_db.Prelude.{
  ◌≡◌, refl, ap, List, [], ◌∷◌, Option, none, some, Bool, true, false, if◌then◌else◌, arith,
}
use mathlib.Core.List.{map}
use evm_db.Prelude.Bytes.{Bytes}
use evm_db.Prelude.Text.{bytes_eq, bytes_eq_iff}
use evm_db.State.Redis.{
  Command, hget, hmget, hset, get, set, Reply, string, array, other, Redis, string_of, last_value,
  or_else, Documented,
}

pub data Entry : Type 0 where
  text_entry : Bytes → Entry
  hash_entry : List (Bytes × Bytes) → Entry

abbrev pub Table : Type 0
Table = List (Bytes × Entry)

unfoldable pub find : Bytes → Table → Option Entry
find k [] = none
find k ((j, e) ∷ rest) = let older = find k rest in if bytes_eq j k then some e else older

unfoldable pub is_text_entry : Option Entry → Bool
is_text_entry (some (text_entry v)) = true
is_text_entry _ = false

unfoldable pub text_in : Option Entry → Option Bytes
text_in (some (text_entry v)) = some v
text_in _ = none

unfoldable pub field_in : Option Entry → Bytes → Option Bytes
field_in (some (hash_entry fs)) f = last_value f fs
field_in _ f = none

unfoldable pub reply : Option Bytes → Option Reply
reply none = some other
reply (some v) = some (string v)

unfoldable pub append_fields : List (Bytes × Bytes) → List (Bytes × Bytes) → List (Bytes × Bytes)
append_fields [] new = new
append_fields (p ∷ old) new = p ∷ append_fields old new

unfoldable pub put_fields :
    Bytes → List (Bytes × Bytes) → Table → Option Entry → Option Reply × Table
put_fields k fs t none = (some other, (k, hash_entry fs) ∷ t)
put_fields k fs t (some (hash_entry old)) = (some other, (k, hash_entry (append_fields old fs)) ∷ t)
put_fields k fs t (some (text_entry v)) = (some other, t)

unfoldable pub answer : Command → Table → Option Reply × Table
answer (hget k f) t = (reply (field_in (find k t) f), t)
answer (hmget k fs) t = (
  if is_text_entry (find k t) then some other else some (array (map (field_in (find k t)) fs)),
  t,
)
answer (hset k fs) t = put_fields k fs t (find k t)
answer (get k) t = (reply (text_in (find k t)), t)
answer (set k v) t = (some other, (k, text_entry v) ∷ t)

abbrev pub memory : Redis
memory = record { Store = Table; run = answer }

string_of-reply : (v : Option Bytes) → string_of (reply v) ≡ v
unfolding string_of reply
string_of-reply none = refl
string_of-reply (some v) = refl

last_value-append_fields :
    (f : Bytes) (old new : List (Bytes × Bytes))
    → last_value f (append_fields old new) ≡ or_else (last_value f new) (last_value f old)
unfolding last_value append_fields or_else
last_value-append_fields f [] new = ground arith
last_value-append_fields f ((g, v) ∷ old) new = ground (arith, last_value-append_fields f old new)

find_self : (k j : Bytes) (t : Table) → bytes_eq k j ≡ true → find k t ≡ find j t
find_self k j t e = ap (λ x. find x t) ((bytes_eq_iff k j).0 e)

or_else-none : (o : Option Bytes) → or_else o none ≡ o
unfolding or_else
or_else-none none = refl
or_else-none (some v) = refl

module _ (t : Table) (k : Bytes) (fs : List (Bytes × Bytes)) (j : Bytes) where
  hset_field_at :
      (o : Option Entry) (f : Bytes)
      → find k t ≡ o
      → is_text_entry o ≡ false
      → field_in (find j (put_fields k fs t o).1) f ≡ (
          if bytes_eq k j
          then or_else (last_value f fs) (field_in (find j t) f)
          else field_in (find j t) f)
  unfolding put_fields is_text_entry find field_in
  hset_field_at none f e h = ground (arith, or_else-none (last_value f fs), find_self k j t)
  hset_field_at (some (hash_entry old)) f e h =
      ground (arith, last_value-append_fields f old fs, find_self k j t)
  hset_field_at (some (text_entry v)) f e h = cc

  hset_text_at :
      (o : Option Entry)
      → find k t ≡ o
      → (text_in (find j (put_fields k fs t o).1) ≡ text_in (find j t))
        × (is_text_entry (find j (put_fields k fs t o).1) ≡ is_text_entry (find j t))
  unfolding put_fields is_text_entry find text_in
  hset_text_at none e = (ground (arith, find_self k j t), ground (arith, find_self k j t))
  hset_text_at (some (hash_entry old)) e =
      (ground (arith, find_self k j t), ground (arith, find_self k j t))
  hset_text_at (some (text_entry v)) e = (refl, refl)

set_at :
    (t : Table) (k v j : Bytes)
    → find j ((k, text_entry v) ∷ t) ≡ (if bytes_eq k j then some (text_entry v) else find j t)
unfolding find
set_at t k v j = refl

memory_hmget :
    (s : Table) (k : Bytes) (fs : List Bytes)
    → is_text_entry (find k s) ≡ false
    → (answer (hmget k fs) s).0 ≡ some (array (map (field_in (find k s)) fs))
unfolding answer
memory_hmget s k fs h = rw h

memory_set :
    (s : Table) (k v j : Bytes)
    → (text_in (find j (answer (set k v) s).1)
        ≡ (if bytes_eq k j then some v else text_in (find j s)))
      × ((f : Bytes)
          → field_in (find j (answer (set k v) s).1) f
            ≡ (if bytes_eq k j then none else field_in (find j s) f))
      × (is_text_entry (find j (answer (set k v) s).1)
          ≡ (if bytes_eq k j then true else is_text_entry (find j s)))
unfolding answer text_in field_in is_text_entry
memory_set s k v j = (
  ground (arith, set_at s k v j),
  λ f. ground (arith, set_at s k v j),
  ground (arith, set_at s k v j),
)

memory_hset :
    (s : Table) (k : Bytes) (fs : List (Bytes × Bytes))
    → (answer (hset k fs) s).1 ≡ (put_fields k fs s (find k s)).1
unfolding answer
memory_hset s k fs = refl

memory_reads :
    (s : Table) (k f : Bytes) (fs : List Bytes)
    → (string_of (answer (hget k f) s).0 ≡ field_in (find k s) f)
      × ((answer (hget k f) s).1 ≡ s)
      × ((answer (hmget k fs) s).1 ≡ s)
      × (string_of (answer (get k) s).0 ≡ text_in (find k s))
      × ((answer (get k) s).1 ≡ s)
unfolding answer
memory_reads s k f fs = (
  string_of-reply (field_in (find k s) f),
  refl,
  refl,
  string_of-reply (text_in (find k s)),
  refl,
)

-- Such a server exists.
pub memory-Documented : Documented memory
unfolding answer put_fields
memory-Documented = record {
  is_text = λ s k. is_text_entry (find k s);
  text = λ s k. text_in (find k s);
  field = λ s k f. field_in (find k s) f;
  hget_answer = λ s k f. (memory_reads s k f []).0;
  hget_store = λ s k f. (memory_reads s k f []).1;
  hmget_answer = λ s k fs h. memory_hmget s k fs h;
  hmget_store = λ s k fs. (memory_reads s k [] fs).2;
  get_answer = λ s k. (memory_reads s k [] []).3;
  get_store = λ s k. (memory_reads s k [] []).4;
  hset_field = λ s k fs j f h. hset_field_at s k fs j (find k s) f refl h;
  hset_text = λ s k fs j. (hset_text_at s k fs j (find k s) refl).0;
  hset_is_text = λ s k fs j. (hset_text_at s k fs j (find k s) refl).1;
  set_text = λ s k v j. (memory_set s k v j).0;
  set_field = λ s k v j f. (memory_set s k v j).1 f;
  set_is_text = λ s k v j. (memory_set s k v j).2;
}

-- The empty table has no text.
pub memory_empty : (k : Bytes) → memory-Documented.is_text [] k ≡ false
unfolding memory-Documented find is_text_entry
memory_empty k = refl
