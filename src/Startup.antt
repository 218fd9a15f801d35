-- ===== src/Startup.antt =====
-- The start and the end of the program: src/main.c, with evmdb_state_init and evmdb_state_close of
-- src/state/redis_state.c, evmdb_evm_create and evmdb_evm_destroy of src/evm/executor.c, and
-- evmdb_rpc_create, evmdb_rpc_listen and evmdb_rpc_destroy of src/rpc/server.c. What they take and give
-- back is a list of events.
pub mod Release
use evm_db.Prelude.{
  ℕ, ◌+◌, ◌^◌, List, [], ◌∷◌, ◌++◌, Option, none, some, Bool, true, false, ltb, if◌then◌else◌,
}
use evm_db.Prelude.Bytes.{Bytes}
use evm_db.Core.Config.{config_defaults, config_load}

pub data Resource : Type 0 where
  redis_context lock evm_memory machine rpc_memory server_socket : Resource

-- A resource is taken or given back, or a command is sent to Redis.
pub data Event : Type 0 where
  acquire release : Resource → Event
  auth : Bytes → Event
  select : ℕ → Event

-- What redisConnectWithTimeout returns: NULL, a context with an error, or a context.
pub data Connection : Type 0 where
  no_context broken connected : Connection

-- How evmdb_rpc_listen ends: a call fails, or evmdb_rpc_stop was called. The program itself never calls
-- evmdb_rpc_stop: where listen succeeds it goes on until it is killed.
pub data Listening : Type 0 where
  no_socket no_bind no_listen stopped : Listening

-- What the libraries answer. `auth_accepted` is that AUTH is answered, and by no error.
pub record Answers : Type 0 where
  pub connection : Connection
  pub auth_accepted : Bytes → Bool
  pub evm_allocated : Bool
  pub machine_created : Bool
  pub rpc_allocated : Bool
  pub listening : Listening

-- An optional AUTH, from the characters of the password on: whether the start goes on.
unfoldable pub authenticate : (Bytes → Bool) → Option Bytes → Bool × List Event
authenticate accepted none = (true, [])
authenticate accepted (some []) = (true, [])
authenticate accepted (some (c ∷ cs)) = (accepted (c ∷ cs), auth (c ∷ cs) ∷ [])

-- The database is an int, as a number modulo 2 ^ 32. Nobody looks at the answer to SELECT.
unfoldable pub select_db : ℕ → List Event
select_db db = if ltb 0 db then (if ltb db (2 ^ 31) then select db ∷ [] else []) else []

unfoldable pub after_auth : ℕ → Bool × List Event → Bool × List Event
after_auth db (false, events) = (false, events)
after_auth db (true, events) = (true, events ++ (select_db db ++ acquire lock ∷ []))

-- What follows a connection is done only with a context that has no error.
unfoldable pub with_connection : Connection → Bool × List Event → Bool × List Event
with_connection no_context rest = (false, [])
with_connection broken rest = (false, acquire redis_context ∷ [])
with_connection connected rest = (rest.0, acquire redis_context ∷ rest.1)

unfoldable pub state_init : Answers → Option Bytes → ℕ → Bool × List Event
state_init answers password db =
    with_connection answers.connection (after_auth db (authenticate answers.auth_accepted password))

-- After `state_init` the context is there.
abbrev pub state_close : List Event
state_close = release redis_context ∷ release lock ∷ []

unfoldable pub evm_create : Bool → Bool → Bool × List Event
evm_create false created = (false, [])
evm_create true false = (false, acquire evm_memory ∷ release evm_memory ∷ [])
evm_create true true = (true, acquire evm_memory ∷ acquire machine ∷ [])

abbrev pub evm_destroy : List Event
evm_destroy = release machine ∷ release evm_memory ∷ []

-- Whether `server_fd` is a descriptor afterwards; a socket that is closed stays in it.
unfoldable pub rpc_listen : Listening → Bool × List Event
rpc_listen no_socket = (false, [])
rpc_listen no_bind = (true, acquire server_socket ∷ release server_socket ∷ [])
rpc_listen no_listen = (true, acquire server_socket ∷ release server_socket ∷ [])
rpc_listen stopped = (true, acquire server_socket ∷ [])

unfoldable pub rpc_destroy : Bool → List Event
rpc_destroy true = release server_socket ∷ release rpc_memory ∷ []
rpc_destroy false = release rpc_memory ∷ []

unfoldable pub serve_rpc : Bool → Listening → ℕ × List Event
serve_rpc false listening = (1, evm_destroy ++ state_close)
serve_rpc true listening =
    let (open_socket, events) = rpc_listen listening in
    (0, acquire rpc_memory ∷ events ++ (rpc_destroy open_socket ++ (evm_destroy ++ state_close)))

unfoldable pub with_evm : Answers → Bool × List Event → ℕ × List Event
with_evm answers (false, events) = (1, events ++ state_close)
with_evm answers (true, events) =
    let (code, served) = serve_rpc answers.rpc_allocated answers.listening in
    (code, events ++ served)

unfoldable pub with_state : Answers → Bool × List Event → ℕ × List Event
with_state answers (false, events) = (1, events)
with_state answers (true, events) =
    let (code, ran) = with_evm answers (evm_create answers.evm_allocated answers.machine_created) in
    (code, events ++ ran)

-- `run`: the exit code of the program, and what was done.
unfoldable pub run : Answers → Option Bytes → ℕ → ℕ × List Event
run answers password db = with_state answers (state_init answers password db)

-- `main`, with the contents of the configuration file, or none where it cannot be read: the program goes
-- on with the defaults then. What it does after that depends on the configuration.
unfoldable pub main : Answers → (ℕ → Bool) → Option Bytes → ℕ × List Event
main answers alloc file =
    let (loaded, cfg) = config_load alloc file config_defaults in
    run answers cfg.redis_password cfg.redis_db
