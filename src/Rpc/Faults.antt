-- ===== src/Rpc/Faults.antt =====
-- Where src/rpc reads or writes behind the end of its memory, and where it does not.
use evm_db.Prelude.{
  ℕ, zero, suc, ◌+◌, ◌-◌, ◌%◌, ◌^◌, ◌≤◌, ◌<◌, ◌≡◌, refl, sym, ap, ◌∙◌, [], ◌∷◌, ◌++◌, some, true,
  false, ◌==◌, length, length-take, take, All, Option-cases, inl, inr, append-nil, arith,
}
use evm_db.Prelude.Bytes.{Bytes, IsArray}
use evm_db.Prelude.Text.{ascii, bytes_eq_refl}
use evm_db.Core.Scan.{c_string, find_behind}
use evm_db.State.Redis.{Documented}
use evm_db.State.Store.{Blob, get_receipt, set_receipt}
use evm_db.State.Store.Blobs.{get_receipt-set_receipt}
use evm_db.Block.Rlp.Result.{Result, ok, fault}
use evm_db.Rpc.Node.{Node}
use evm_db.Rpc.Reads.{string_in, receipt_answer, receipt_at}
use evm_db.Rpc.Client.{
  max_request_size, content_length, body_offset, remaining, received, serve, handle_received,
}

string_in-fault :
    (bytes : Bytes) → All (λ (c : ℕ). (c == 0) ≡ false) bytes → string_in bytes ≡ fault
unfolding string_in
string_in-fault [] h = refl
string_in-fault (c ∷ cs) (hc, h) = rw (hc, string_in) (rw (string_in-fault cs h) refl)

receipt_answer-fault :
    (node : Node) (id text : Bytes)
    → 1 ≤ length text
    → All (λ (c : ℕ). (c == 0) ≡ false) text
    → receipt_answer node id (record { content = some text; len = length text }) ≡ fault
unfolding receipt_answer
receipt_answer-fault node id [] some_text h = absurd (omega arith)
receipt_answer-fault node id (c ∷ cs) some_text h = rw (string_in-fault (c ∷ cs) h) (ground arith)

receipt_at-answer :
    (node : Node) (id hash : Bytes) (blob : Blob) (s : node.redis.Store)
    → (get_receipt node.redis node.alloc hash s).0 ≡ blob
    → (receipt_at node id (some hash) s).0 ≡ receipt_answer node id blob
unfolding receipt_at
receipt_at-answer node id hash blob s e = ap (receipt_answer node id) e

-- On a Redis that keeps to its documentation, where every allocation succeeds: eth_getTransactionReceipt
-- reads behind the end of its memory for every receipt that was stored, as long as the receipt is
-- a text, that is not empty and has no NUL: the copy in memory has no NUL behind it either.
pub receipt_at-fault :
    (node : Node) (docs : Documented node.redis) (id hash text : Bytes) (s : node.redis.Store)
    → ((n : ℕ) → node.alloc n ≡ true)
    → IsArray 32 hash
    → 1 ≤ length text
    → All (λ (c : ℕ). (c == 0) ≡ false) text
    → (receipt_at node id (some hash) (set_receipt node.redis hash text s)).0 ≡ fault
receipt_at-fault node docs id hash text s good h some_text no_nul =
    let (stored, kept) = get_receipt-set_receipt node.redis docs node.alloc hash hash text s h h in
    let copied : (get_receipt node.redis node.alloc hash (set_receipt node.redis hash text s)).0
        ≡ record { content = some text; len = length text } =
      ground (arith, stored, bytes_eq_refl hash, good ((length text + 0) % 2 ^ 64)) in
    receipt_at-answer node id hash _ _ copied ∙ receipt_answer-fault node id text some_text no_nul

length-c_string : (bytes : Bytes) → length (c_string bytes) ≤ length bytes
unfolding c_string
length-c_string [] = omega arith
length-c_string (c ∷ cs) = ground (arith, length-c_string cs)

body_offset-le : (text : Bytes) → body_offset text ≤ length text
unfolding body_offset
body_offset-le text = elim (Option-cases (find_behind (ascii "\r\n\r\n") text)) [
  | inl e ↦ rw (e, body_offset) (omega arith)
  | inr (body, e) ↦ rw (e, body_offset) (omega arith)
]

remaining-fits :
    (len offset content_len : ℕ)
    → offset ≤ len
    → len < max_request_size
    → offset + content_len < max_request_size
    → len + remaining content_len (len - offset) < max_request_size
unfolding remaining
remaining-fits len offset content_len inside first h = ground arith

remaining-exceeds :
    (len offset content_len : ℕ)
    → offset ≤ len
    → len < max_request_size
    → content_len < max_request_size
    → max_request_size ≤ offset + content_len
    → (1 ≤ remaining content_len (len - offset))
      × (max_request_size ≤ len + remaining content_len (len - offset))
unfolding remaining
remaining-exceeds len offset content_len inside first announced h = (ground arith, ground arith)

offset-inside : (buf : Bytes) → body_offset (c_string buf) ≤ length buf
offset-inside buf = omega (arith, body_offset-le (c_string buf), length-c_string buf)

received-ok :
    (read_more : ℕ → Bytes) (buf : Bytes) (count : ℕ)
    → length buf + count < max_request_size
    → (extra : Bytes) × (received read_more buf count ≡ ok (buf ++ extra))
unfolding received
received-ok read_more buf zero h = ([], ap (λ (t : Bytes). ok t) (sym (append-nil buf)))
received-ok read_more buf (suc count) h = (
  take (suc count) (read_more (suc count)),
  ground (arith, length-take (suc count) (read_more (suc count))),
)

received-fault :
    (read_more : ℕ → Bytes) (buf : Bytes) (count : ℕ)
    → 1 ≤ count
    → max_request_size ≤ length buf + count
    → count ≤ length (read_more count)
    → received read_more buf count ≡ fault
unfolding received
received-fault read_more buf zero some_more h sends = absurd (omega arith)
received-fault read_more buf (suc count) some_more h sends =
    ground (arith, length-take (suc count) (read_more (suc count)))

serve_fault :
    (node : Node) (r : Result Bytes) (offset : ℕ) (s : node.redis.Store)
    → r ≡ fault
    → (serve node r offset s).0 ≡ fault
unfolding serve
serve_fault node r offset s e = rw (e, serve) refl

-- Where the first read stayed within the buffer: if what stands in front of the body and the length that the
-- client announces are shorter than the buffer together, nothing is written behind its end, whatever the
-- client sends: the request is served with what was read.
pub handle_received-fits :
    (node : Node) (read_more : ℕ → Bytes) (buf : Bytes) (s : node.redis.Store)
    → length buf < max_request_size
    → body_offset (c_string buf) + content_length (c_string buf) < max_request_size
    → (extra : Bytes) × (handle_received node read_more buf s
        ≡ serve node (ok (buf ++ extra)) (body_offset (c_string buf)) s)
unfolding handle_received
handle_received-fits node read_more buf s first fits =
    let text : Bytes = c_string buf in
    let count : ℕ = remaining (content_length text) (length buf - body_offset text) in
    let (extra, e) =
      received-ok read_more buf count (remaining-fits _ _ _ (offset-inside buf) first fits) in
    (extra, ap (λ r. serve node r (body_offset text) s) e)

-- Where the first read stayed within the buffer: if the client announces less than the size of the buffer, but
-- the buffer does not hold that behind what stands in front of the body, and the client sends all of
-- it, then the second read writes behind the end of the buffer.
pub handle_received-fault :
    (node : Node) (read_more : ℕ → Bytes) (buf : Bytes) (s : node.redis.Store)
    → length buf < max_request_size
    → content_length (c_string buf) < max_request_size
    → max_request_size ≤ body_offset (c_string buf) + content_length (c_string buf)
    → ((n : ℕ) → n ≤ length (read_more n))
    → (handle_received node read_more buf s).0 ≡ fault
unfolding handle_received
handle_received-fault node read_more buf s first announced too_long sends =
    let text : Bytes = c_string buf in
    let count : ℕ = remaining (content_length text) (length buf - body_offset text) in
    let (some_more, more) = remaining-exceeds _ _ _ (offset-inside buf) first announced too_long in
    serve_fault node _ (body_offset text) s
      (received-fault read_more buf count some_more more (sends count))
