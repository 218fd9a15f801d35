-- ===== src/Startup/Release.antt =====
-- What the program takes it gives back, and where it does not.
use mathlib.Core.Path.{subst}
use evm_db.Prelude.{
  ℕ, ◌+◌, ◌≡◌, refl, ap, ◌∙◌, List, [], ◌∷◌, ◌++◌, Option, none, some, Bool, true, false, ◌&&◌,
  ◌==◌, if◌then◌else◌, arith,
}
use evm_db.Prelude.Bytes.{Bytes}
use evm_db.Startup.{
  Resource, redis_context, lock, evm_memory, machine, rpc_memory, server_socket, Event, acquire,
  release, auth, select, Connection, no_context, broken, connected, Listening, no_socket, no_bind,
  no_listen, stopped, Answers, authenticate, select_db, after_auth, with_connection, state_init,
  evm_create, rpc_listen, rpc_destroy, serve_rpc, with_evm, with_state, run,
}

abbrev number : Resource → ℕ
number redis_context = 0
number lock = 1
number evm_memory = 2
number machine = 3
number rpc_memory = 4
number server_socket = 5

-- How often a resource is taken, and how often it is given back.
unfoldable pub acquired : Resource → List Event → ℕ
acquired r [] = 0
acquired r (acquire q ∷ events) = (if number q == number r then 1 else 0) + acquired r events
acquired r (release q ∷ events) = acquired r events
acquired r (auth password ∷ events) = acquired r events
acquired r (select db ∷ events) = acquired r events

unfoldable pub released : Resource → List Event → ℕ
released r [] = 0
released r (acquire q ∷ events) = released r events
released r (release q ∷ events) = (if number q == number r then 1 else 0) + released r events
released r (auth password ∷ events) = released r events
released r (select db ∷ events) = released r events

acquired-append :
    (r : Resource) (xs ys : List Event) → acquired r (xs ++ ys) ≡ acquired r xs + acquired r ys
unfolding acquired
acquired-append r [] ys = omega arith
acquired-append r (acquire q ∷ xs) ys = omega (arith, acquired-append r xs ys)
acquired-append r (release q ∷ xs) ys = acquired-append r xs ys
acquired-append r (auth password ∷ xs) ys = acquired-append r xs ys
acquired-append r (select db ∷ xs) ys = acquired-append r xs ys

released-append :
    (r : Resource) (xs ys : List Event) → released r (xs ++ ys) ≡ released r xs + released r ys
unfolding released
released-append r [] ys = omega arith
released-append r (acquire q ∷ xs) ys = released-append r xs ys
released-append r (release q ∷ xs) ys = omega (arith, released-append r xs ys)
released-append r (auth password ∷ xs) ys = released-append r xs ys
released-append r (select db ∷ xs) ys = released-append r xs ys

select-Quiet :
    (r : Resource) (db : ℕ) → (acquired r (select_db db) ≡ 0) × (released r (select_db db) ≡ 0)
unfolding select_db acquired released
select-Quiet r db = (ground arith, ground arith)

-- A start that fails behind a connection keeps the context.
unfoldable pub lost : Connection → Bool → Resource → ℕ
lost no_context accepted r = 0
lost broken accepted r = if number redis_context == number r then 1 else 0
lost connected accepted r =
    if accepted then 0 else (if number redis_context == number r then 1 else 0)

-- A socket that could not listen is closed again at the end of the program.
unfoldable pub closed_again : Bool → Listening → Resource → ℕ
closed_again true no_bind r = if number server_socket == number r then 1 else 0
closed_again true no_listen r = if number server_socket == number r then 1 else 0
closed_again served listening r = 0

-- Whether Redis lets the program in, and whether the program comes to listen.
unfoldable pub accepts : (Bytes → Bool) → Option Bytes → Bool
accepts accepted none = true
accepts accepted (some []) = true
accepts accepted (some (c ∷ cs)) = accepted (c ∷ cs)

unfoldable pub starts : Connection → Bool → Bool
starts no_context accepted = false
starts broken accepted = false
starts connected accepted = accepted

abbrev pub serves : Answers → Bool
serves answers = answers.evm_allocated && (answers.machine_created && answers.rpc_allocated)

-- What is taken so far; nothing is given back.
abbrev Taken : Resource → ℕ → List Event → Type 0
Taken r n events = (acquired r events ≡ n) × (released r events ≡ 0)

auth-Taken :
    (r : Resource) (accepted : Bytes → Bool) (password : Option Bytes)
    → ((authenticate accepted password).0 ≡ accepts accepted password)
      × Taken r 0 (authenticate accepted password).1
unfolding authenticate accepts acquired released
auth-Taken r accepted none = (refl, (refl, refl))
auth-Taken r accepted (some []) = (refl, (refl, refl))
auth-Taken r accepted (some (c ∷ cs)) = (refl, (refl, refl))

after_auth-Taken :
    (r : Resource) (db : ℕ) (result : Bool × List Event)
    → Taken r 0 result.1
    → ((after_auth db result).0 ≡ result.0)
      × Taken r (if result.0 then acquired r (acquire lock ∷ []) else 0) (after_auth db result).1
unfolding after_auth
after_auth-Taken r db (false, events) taken = (refl, taken)
after_auth-Taken r db (true, events) (a, b) = (
  refl,
  (
    omega (
      arith,
      acquired-append r events (select_db db ++ acquire lock ∷ []),
      acquired-append r (select_db db) (acquire lock ∷ []),
      select-Quiet r db,
      a,
    ),
    unfold released in
        omega (
          arith,
          released-append r events (select_db db ++ acquire lock ∷ []),
          released-append r (select_db db) (acquire lock ∷ []),
          select-Quiet r db,
          b,
        ),
  ),
)

-- The context and the lock.
abbrev both : Resource → ℕ
both r = acquired r (acquire redis_context ∷ acquire lock ∷ [])

with_connection-Taken :
    (r : Resource) (connection : Connection) (rest : Bool × List Event)
    → Taken r (if rest.0 then acquired r (acquire lock ∷ []) else 0) rest.1
    → ((with_connection connection rest).0 ≡ starts connection rest.0)
      × Taken r
          (if starts connection rest.0 then both r else lost connection rest.0 r)
          (with_connection connection rest).1
unfolding with_connection starts lost acquired released
with_connection-Taken r no_context rest taken = (refl, (refl, refl))
with_connection-Taken r broken rest taken = (refl, (omega arith, refl))
with_connection-Taken r connected (true, events) (a, b) = (refl, (omega (arith, a), b))
with_connection-Taken r connected (false, events) (a, b) = (refl, (omega (arith, a), b))

-- What follows the start gives back the context, the lock, and all that it takes; a socket that could not
-- listen once more.
abbrev Settled : Resource → ℕ → List Event → Type 0
Settled r more events = released r events ≡ acquired r events + both r + more

serve_rpc-Settled :
    (r : Resource) (allocated : Bool) (listening : Listening)
    → released r (serve_rpc allocated listening).1
      ≡ acquired r (serve_rpc allocated listening).1
        + acquired r
            (acquire evm_memory ∷ acquire machine ∷ acquire redis_context ∷ acquire lock ∷ [])
        + closed_again allocated listening r
unfolding serve_rpc rpc_listen rpc_destroy closed_again acquired released
serve_rpc-Settled r false listening = ground arith
serve_rpc-Settled r true no_socket = ground arith
serve_rpc-Settled r true no_bind = ground arith
serve_rpc-Settled r true no_listen = ground arith
serve_rpc-Settled r true stopped = ground arith

with_evm-Settled :
    (r : Resource) (answers : Answers) (allocated created : Bool)
    → Settled r
        (closed_again (allocated && (created && answers.rpc_allocated)) answers.listening r)
        (with_evm answers (evm_create allocated created)).1
unfolding with_evm evm_create closed_again acquired released
with_evm-Settled r answers false created = ground arith
with_evm-Settled r answers true false = ground arith
with_evm-Settled r answers true true =
    ground (arith, serve_rpc-Settled r answers.rpc_allocated answers.listening)

with_state-accounts :
    (r : Resource) (answers : Answers) (started : Bool) (kept : ℕ) (result : Bool × List Event)
    → result.0 ≡ started
    → Taken r (if started then both r else kept) result.1
    → acquired r (with_state answers result).1
        + closed_again (started && serves answers) answers.listening r
      ≡ released r (with_state answers result).1 + (if started then 0 else kept)
unfolding with_state closed_again
with_state-accounts r answers true kept (false, events) e taken = cc
with_state-accounts r answers false kept (true, events) e taken = cc
with_state-accounts r answers false kept (false, events) e (a, b) = omega (arith, a, b)
with_state-accounts r answers true kept (true, events) e (a, b) =
    let rest : List Event =
      (with_evm answers (evm_create answers.evm_allocated answers.machine_created)).1 in
    let settled = with_evm-Settled r answers answers.evm_allocated answers.machine_created in
    omega (arith, a, b, acquired-append r events rest, released-append r events rest, settled)

lost-kept :
    (connection : Connection) (accepted : Bool) (r : Resource)
    → (if starts connection accepted then 0 else lost connection accepted r)
      ≡ lost connection accepted r
unfolding starts lost
lost-kept no_context accepted r = refl
lost-kept broken accepted r = refl
lost-kept connected true r = refl
lost-kept connected false r = refl

-- Whatever the libraries answer, on each path on which `run` ends, and for the Redis context, its lock, the
-- memory of the EVM, the machine, the memory of the server and its socket: the program gives each of them
-- back as often as it takes it, with two exceptions. Where Redis answers the connection with an error or
-- refuses the password, the context is not given back; where bind or listen fails, the socket is closed
-- twice.
pub run-accounts :
    (r : Resource) (answers : Answers) (password : Option Bytes) (db : ℕ)
    → let accepted : Bool = accepts answers.auth_accepted password in
      acquired r (run answers password db).1
        + closed_again (starts answers.connection accepted && serves answers) answers.listening r
      ≡ released r (run answers password db).1 + lost answers.connection accepted r
unfolding run state_init
run-accounts r answers password db =
    let accepted : Bool = accepts answers.auth_accepted password in
    let attempt : Bool × List Event = authenticate answers.auth_accepted password in
    let (same, quiet) = auth-Taken r answers.auth_accepted password in
    let (on, taken) = after_auth-Taken r db attempt quiet in
    let (started, kept) =
      with_connection-Taken r answers.connection (after_auth db attempt) (rw on taken) in
    let all_same : (after_auth db attempt).0 ≡ accepted = on ∙ same in
    with_state-accounts r answers (starts answers.connection accepted)
      (lost answers.connection accepted r)
      (with_connection answers.connection (after_auth db attempt))
      (started ∙ ap (starts answers.connection) all_same)
      (subst
        (λ x.
          Taken r (if starts answers.connection x then both r else lost answers.connection x r)
            (with_connection answers.connection (after_auth db attempt)).1)
        all_same kept)
    ∙ ap (λ n. released r (run answers password db).1 + n) (lost-kept answers.connection accepted r)
