-- ===== src/Examples/Startup.antt =====
-- A run of the program that cannot bind its socket.
use evm_db.Prelude.{◌+◌, ◌≡◌, some, true, ◌&&◌}
use evm_db.Prelude.Text.{ascii}
use evm_db.Startup.{Answers, connected, no_bind, run, server_socket}
use evm_db.Startup.Release.{
  acquired, released, lost, closed_again, starts, serves, accepts, run-accounts,
}

abbrev answers : Answers
answers = record {
  connection = connected;
  auth_accepted = λ password. true;
  evm_allocated = true;
  machine_created = true;
  rpc_allocated = true;
  listening = no_bind;
}

run-accounts_example :
    acquired server_socket (run answers (some (ascii "secret")) 3).1
      + closed_again (starts connected true && serves answers) no_bind server_socket
    ≡ released server_socket (run answers (some (ascii "secret")) 3).1
      + lost connected true server_socket
unfolding accepts
run-accounts_example = run-accounts server_socket answers (some (ascii "secret")) 3
