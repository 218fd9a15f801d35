-- ===== src/State/Redis.antt =====
-- Redis as src/state/redis_state.c uses it through hiredis: a service, so a parameter of the model.
-- A command is a value, each with its arguments as hiredis sends them; an answer may be missing.
pub mod Memory
use evm_db.Prelude.{◌≡◌, List, [], ◌∷◌, Option, none, some, Bool, true, false, if◌then◌else◌}
use mathlib.Core.List.{map}
use evm_db.Prelude.Bytes.{Bytes}
use evm_db.Prelude.Text.{bytes_eq}

pub data Command : Type 0 where
  -- HGET key field, HMGET key field …, HSET key field value …
  hget : Bytes → Bytes → Command
  hmget : Bytes → List Bytes → Command
  hset : Bytes → List (Bytes × Bytes) → Command
  -- GET key, SET key value
  get : Bytes → Command
  set : Bytes → Bytes → Command

-- The types of a `redisReply` that the program tells apart. The elements of an array are strings,
-- or `none` for any other type.
pub data Reply : Type 0 where
  string : Bytes → Reply
  array : List (Option Bytes) → Reply
  other : Reply

-- `run` answers a command (`none` is the NULL of a broken connection) and leaves a new store.
pub record Redis : Type 1 where
  pub Store : Type 0
  pub run : Command → Store → Option Reply × Store

-- The test `r && r->type == REDIS_REPLY_STRING`.
unfoldable pub string_of : Option Reply → Option Bytes
string_of none = none
string_of (some (string bytes)) = some bytes
string_of (some (array elements)) = none
string_of (some other) = none

-- The last value that an HSET gives to a field.
unfoldable pub last_value : Bytes → List (Bytes × Bytes) → Option Bytes
last_value f [] = none
last_value f ((g, v) ∷ rest) = elim (last_value f rest) [
  | some w ↦ some w
  | none ↦ if bytes_eq g f then some v else none
]

unfoldable pub or_else : Option Bytes → Option Bytes → Option Bytes
or_else (some v) old = some v
or_else none old = old

-- What the Redis documentation says of a server that answers: a key holds a string or a hash or
-- nothing; a command for the one on the other is an error and changes nothing.
pub record Documented (redis : Redis) : Type 0 where
  pub is_text : redis.Store → Bytes → Bool
  pub text : redis.Store → Bytes → Option Bytes
  pub field : redis.Store → Bytes → Bytes → Option Bytes
  pub hget_answer :
      (s : redis.Store) (k f : Bytes) → string_of (redis.run (hget k f) s).0 ≡ field s k f
  pub hget_store : (s : redis.Store) (k f : Bytes) → (redis.run (hget k f) s).1 ≡ s
  pub hmget_answer :
      (s : redis.Store) (k : Bytes) (fs : List Bytes)
      → is_text s k ≡ false
      → (redis.run (hmget k fs) s).0 ≡ some (array (map (field s k) fs))
  pub hmget_store :
      (s : redis.Store) (k : Bytes) (fs : List Bytes) → (redis.run (hmget k fs) s).1 ≡ s
  pub get_answer : (s : redis.Store) (k : Bytes) → string_of (redis.run (get k) s).0 ≡ text s k
  pub get_store : (s : redis.Store) (k : Bytes) → (redis.run (get k) s).1 ≡ s
  pub hset_field :
      (s : redis.Store) (k : Bytes) (fs : List (Bytes × Bytes)) (j f : Bytes)
      → is_text s k ≡ false
      → field (redis.run (hset k fs) s).1 j f
        ≡ (if bytes_eq k j then or_else (last_value f fs) (field s j f) else field s j f)
  pub hset_text :
      (s : redis.Store) (k : Bytes) (fs : List (Bytes × Bytes)) (j : Bytes)
      → text (redis.run (hset k fs) s).1 j ≡ text s j
  pub hset_is_text :
      (s : redis.Store) (k : Bytes) (fs : List (Bytes × Bytes)) (j : Bytes)
      → is_text (redis.run (hset k fs) s).1 j ≡ is_text s j
  pub set_text :
      (s : redis.Store) (k v j : Bytes)
      → text (redis.run (set k v) s).1 j ≡ (if bytes_eq k j then some v else text s j)
  pub set_field :
      (s : redis.Store) (k v j f : Bytes)
      → field (redis.run (set k v) s).1 j f ≡ (if bytes_eq k j then none else field s j f)
  pub set_is_text :
      (s : redis.Store) (k v j : Bytes)
      → is_text (redis.run (set k v) s).1 j ≡ (if bytes_eq k j then true else is_text s j)
