-- ===== src/Rpc/Client.antt =====
-- `evmdb_rpc_create` and `handle_client` of src/rpc/server.c: one connection. What the socket gives is
-- a parameter, and what is sent is the result.
use evm_db.Prelude.{
  ℕ, zero, suc, ◌+◌, ◌-◌, ◌*◌, List, [], ◌∷◌, ◌++◌, Option, none, some, ◌&&◌, ltb, if◌then◌else◌,
  length, take, drop,
}
use evm_db.Prelude.Bytes.{Bytes}
use evm_db.Prelude.Text.{ascii}
use evm_db.Core.Decimal
use evm_db.Core.Scan.{c_string}
use evm_db.Block.Rlp.Result.{Result, ok, err, fault, diverge}
use evm_db.Core.Scan.{strip_prefix, find_behind}
use evm_db.Rpc.Node.{Node, Answer}
use evm_db.Rpc.Batch.{handle_request}

abbrev pub max_request_size : ℕ
max_request_size = 1024 * 1024

unfoldable pub first_of : Option Bytes → Option Bytes → Option Bytes
first_of none other = other
first_of (some text) other = some text

-- The text behind the header; both spellings of it have 15 characters.
unfoldable pub content_length_at : Bytes → Option Bytes
content_length_at text =
    first_of (find_behind (ascii "Content-Length:") text)
      (find_behind (ascii "content-length:") text)

-- `(size_t)atol(cl_header + 15)`, and 0 without a header.
unfoldable pub content_length : Bytes → ℕ
content_length text = elim (content_length_at text) [ none ↦ 0 | some digits ↦ Decimal.atol digits ]

-- The number of characters in front of the body.
unfoldable pub body_offset : Bytes → ℕ
body_offset text = elim (find_behind (ascii "\r\n\r\n") text) [
  | none ↦ 0
  | some body ↦ length text - length body
]

abbrev pub cors_response : Bytes
cors_response =
    ascii
      "HTTP/1.1 204 No Content\r\nAccess-Control-Allow-Origin: *\r\nAccess-Control-Allow-Methods: POST, GET, OPTIONS\r\nAccess-Control-Allow-Headers: Content-Type, Authorization\r\nAccess-Control-Max-Age: 86400\r\nContent-Length: 0\r\n\r\n"

-- The header has less than 512 characters.
unfoldable pub http_header : ℕ → Bytes
http_header resp_len =
    ascii "HTTP/1.1 200 OK\r\nContent-Type: application/json\r\nContent-Length: "
    ++ (Decimal.print resp_len
        ++ ascii
            "\r\nAccess-Control-Allow-Origin: *\r\nAccess-Control-Allow-Methods: POST, GET, OPTIONS\r\nAccess-Control-Allow-Headers: Content-Type, Authorization\r\nConnection: close\r\n\r\n")

-- How many more characters are asked for behind the `received` ones.
unfoldable pub remaining : ℕ → ℕ → ℕ
remaining content_len body_received =
    if ltb body_received content_len && ltb content_len max_request_size
    then content_len - body_received
    else 0

-- The second read, where characters are missing: `read_more count` is what read(fd, .., count) gives. A
-- `fault` if it, or the NUL behind it, is written behind the end of the buffer.
unfoldable pub received : (ℕ → Bytes) → Bytes → ℕ → Result Bytes
received read_more buf zero = ok buf
received read_more buf (suc count) =
    let extra = take (suc count) (read_more (suc count)) in
    if ltb max_request_size (length buf + length extra + 1) then fault else ok (buf ++ extra)

-- What is written to the socket for a response. `err` is a response of NULL.
unfoldable pub http_answer : Answer → Result (List Bytes)
http_answer (ok none) = ok []
http_answer (ok (some resp)) = ok (http_header (length resp) ∷ resp ∷ [])
http_answer err = ok []
http_answer fault = fault
http_answer diverge = diverge

module _ (node : Node) where
  open node use {redis, alloc}
  open redis use {Store}

  unfoldable pub serve : Result Bytes → ℕ → Store → Result (List Bytes) × Store
  serve (ok buf) offset s =
      let (answer, s') = handle_request node (c_string (drop offset buf)) s in
      (http_answer answer, s')
  serve err offset s = (err, s)
  serve fault offset s = (fault, s)
  serve diverge offset s = (diverge, s)

  -- `buf` is what the first read gave, at most `max_request_size - 1` characters.
  unfoldable pub handle_received : (ℕ → Bytes) → Bytes → Store → Result (List Bytes) × Store
  handle_received read_more buf s =
      let text = c_string buf in
      let offset = body_offset text in
      let count = remaining (content_length text) (length buf - offset) in
      serve (received read_more buf count) offset s

  unfoldable pub answer_first : (ℕ → Bytes) → Bytes → Store → Result (List Bytes) × Store
  answer_first read_more [] s = (ok [], s)
  answer_first read_more (c ∷ cs) s = elim (strip_prefix (ascii "OPTIONS") (c ∷ cs)) [
    | some rest ↦ (ok (cors_response ∷ []), s)
    | none ↦ handle_received read_more (c ∷ cs) s
  ]

  -- `read_first count` is what the first read gives, nothing for an error or the end.
  unfoldable pub handle_client : (ℕ → Bytes) → (ℕ → Bytes) → Store → Result (List Bytes) × Store
  handle_client read_first read_more s =
      if alloc max_request_size
      then answer_first read_more (take (max_request_size - 1) (read_first (max_request_size - 1)))
          s
      else (ok [], s)
