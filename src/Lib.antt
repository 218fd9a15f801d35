-- ===== src/Lib.antt =====
-- evm-db: an Ethereum JSON-RPC node that keeps its state in Redis and runs contracts with evmone.
--
-- The parts, and the files that model them:
-- * Hexadecimal text (src/core/hex.c): Core/Hex. `encode`, `decode`, `from_uint64` and `to_uint64` are
--   the functions evmdb_hex_*. A C string is the list of its characters; a buffer of the caller is an
--   argument and a result.
-- * Keccak-256 (src/core/keccak.c): Core/Keccak, word by word and executable. The fuel of
--   `absorb_blocks` is the length of the data, and each block takes 136 bytes of it.
-- * Decimal text (`%llu` and strtoull of the C library, for the store): Core/Decimal. Twenty digits are
--   enough for 64 bits.
-- * Balances (src/state/accounts.c): State/Balance.
-- * The store (src/state/redis_state.c): State/Store, one function for each getter and setter, over the
--   parameter State/Redis: a server with a store of its own that answers commands. `Documented` states
--   what Redis documents of these commands, and State/Redis/Memory is a server that keeps to it.
-- * Gas (src/evm/gas.c): Evm/Gas.
-- * The executor (src/evm/executor.c): Evm/Overlay has the writes of one execution
--   (exec_context_*), Evm/Host the host functions (host_*), Evm/Executor the functions execute_contract,
--   evmdb_evm_compute_create_address, evmdb_evm_execute_tx (its checks in `check_tx`, and what follows them
--   in `continue_tx`) and evmdb_evm_call. Evm/Executor/Checks says what the checks let pass. evmone is a parameter:
--   an execution of it is a well-founded tree of calls of the host, so that it ends, as gas makes it.
-- * Transactions (src/block/tx.c): Block/Rlp/Reader and Block/Rlp/Buffer are the RLP reader and writer,
--   Block/Tx/Decode is evmdb_tx_decode, Block/Tx/Sign is evmdb_tx_signing_hash and
--   evmdb_tx_recover_sender, with libsecp256k1 as a parameter. Block/Rlp/Code and Block/Tx/Encoding
--   define RLP and the encodings of transactions with no reader, no buffer and none of their functions.
-- * The configuration (src/core/config.c): Core/Config. `config_load` works on the contents of the file, and
--   Core/Config/Meaning says what such a file means; atoi and atoll are Core/Decimal, as the C library defines them on 64 bits.
-- * C strings as src/rpc and config.c scan them: Core/Scan (strstr, and loops over a pointer). Core/Radix
--   is strtoull with the base 0.
-- * JSON (src/rpc/json.c): Rpc/Json, and Rpc/Json/Params for evmdb_json_parse_params.
-- * The methods (src/rpc/handlers.c): Rpc/Node has what struct evmdb_rpc points to and the texts of
--   answers, Rpc/Request the strings and numbers of a request (extract_*, decode_hex_bytes,
--   parse_hex_uint64_or), Rpc/Reads the methods that read the state, Rpc/Call eth_call and
--   eth_estimateGas, Rpc/Send eth_sendRawTransaction, Rpc/Dispatch dispatch_single, and Rpc/Batch
--   evmdb_rpc_handle_request. The functions are named as in the source; a function of the source that
--   goes on behind a check is cut there, as in handle_get_balance and `balance_at`.
-- * The server (src/rpc/server.c): Rpc/Client is handle_client, with what the socket gives as a parameter.
--   Rpc/Threads has two connections that send a transaction each. A thread takes one turn for the checks
--   of evmdb_evm_execute_tx and one for what follows them: these are some of the orders in which two
--   threads can run, which only lock single commands. The steps stand for the threads that
--   evmdb_rpc_listen starts; the loop that starts them is not modelled.
-- * The program (src/main.c): Startup, with the parts of the other files that take and give back resources:
--   evmdb_state_init and evmdb_state_close, evmdb_evm_create and evmdb_evm_destroy, evmdb_rpc_listen and
--   evmdb_rpc_destroy. What the libraries answer is a parameter. The strings that the configuration copies
--   and what a connection allocates are not counted.
--
-- How they interact: `handle_client` reads a request and passes its body to `handle_request`, which cuts a
-- batch into its objects and dispatches each of them. eth_sendRawTransaction decodes hexadecimal text,
-- `tx_decode` reads the transaction and `recover_sender` its sender, and `execute_tx` checks it against
-- the store, runs it over the overlay, and commits the overlay and the nonce to the store, which writes
-- numbers and arrays as text to Redis. Then the block number goes up and the receipt is stored. The other
-- methods read the store through its getters.
--
-- Conventions: numbers are natural numbers with the wrap-around of their C type written out. A read
-- behind the end of memory is the result `fault`, and a loop that does not end is `diverge`
-- (Block/Rlp/Result); 64 doublings are fuel enough for the growth of a buffer. The
-- scanners have the length of the text as fuel: each round takes a character, or is the last one. malloc
-- and realloc are a parameter `alloc` that says for each size whether they succeed: two calls of one size
-- have the same outcome. Memory that was allocated and not written counts as behind the end: where raw of
-- handle_send_raw_transaction is a byte longer than what was decoded, reading that byte is a `fault`. What a
-- read behind NULL gives in the host functions is the parameter `junk`: any bytes, although the machine would
-- stop the program there.
--
-- Not modelled: the log (src/core/log.c), the options of sockets (src/net/tcp.c), the loop that accepts
-- connections, signals, and functions that only free memory. src/block/producer.c uses types that no header
-- declares and is not part of the program.
pub mod Prelude
pub mod Core
pub mod State
pub mod Evm
pub mod Block
pub mod Rpc
pub mod Startup
pub mod Examples
