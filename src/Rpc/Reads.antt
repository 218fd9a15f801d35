-- ===== src/Rpc/Reads.antt =====
-- The methods of src/rpc/handlers.c that read the state.
use evm_db.Prelude.{
  ℕ, ◌+◌, ◌*◌, ◌%◌, ◌^◌, List, [], ◌∷◌, ◌++◌, Option, none, some, ◌==◌, if◌then◌else◌, take, drop,
  replicate,
}
use evm_db.Prelude.Bytes.{Bytes}
use evm_db.Prelude.Text.{ascii}
use evm_db.Core.Hex
use evm_db.Core.Decimal
use evm_db.State.Store.{
  Blob, get_block_number, get_balance, get_nonce, get_code, get_storage, get_receipt, hex_text,
}
use evm_db.Block.Rlp.Result.{Result, ok, fault, ◌>>=◌}
use evm_db.Evm.Host.{BlockContext}
use evm_db.Rpc.Node.{
  Node, Answer, printed, make_response, make_error, quoted, number_text, number_response,
  make_block_context,
}

-- `evmdb_hex_decode(param, out, n) != n` is `none`.
unfoldable pub array_param : Bytes → ℕ → Bytes → Option Bytes
array_param junk n param =
    let (written, out) = Hex.decode (some param) (take n junk) in
    elim written [ none ↦ none | some m ↦ if m == n then some out else none ]

-- `while (*p == '0' && *(p + 1) != '\0') p++;`
unfoldable pub trim_zeros : Bytes → Bytes
trim_zeros (a ∷ b ∷ cs) = let rest = trim_zeros (b ∷ cs) in if a == b'0' then rest else a ∷ b ∷ cs
trim_zeros cs = cs

abbrev pub zero_hash : Bytes
zero_hash = ascii "\"0x" ++ (replicate 64 b'0' ++ ascii "\"")

abbrev pub zero_bloom : Bytes
zero_bloom = ascii "\"0x" ++ (replicate 512 b'0' ++ ascii "\"")

unfoldable pub block_text : BlockContext → Bytes
block_text ctx =
    ascii "{\"number\":\""
    ++ (number_text ctx.number 32
        ++ (ascii "\",\"hash\":"
            ++ (zero_hash
                ++ (ascii ",\"parentHash\":"
                    ++ (zero_hash
                        ++ (ascii
                              ",\"nonce\":\"0x0000000000000000\",\"sha3Uncles\":\"0x1dcc4de8dec75d7aab85b567b6ccd41ad312451b948a7413f0a142fd40d49347\",\"logsBloom\":"
                            ++ (zero_bloom
                                ++ (ascii
                                      ",\"transactionsRoot\":\"0x56e81f171bcc55a6ff8345e692c0f86e5b48e01b996cadc001622fb5e363b421\",\"stateRoot\":"
                                    ++ (zero_hash
                                        ++ (ascii
                                              ",\"receiptsRoot\":\"0x56e81f171bcc55a6ff8345e692c0f86e5b48e01b996cadc001622fb5e363b421\",\"miner\":\"0x0000000000000000000000000000000000000000\",\"difficulty\":\"0x0\",\"totalDifficulty\":\"0x0\",\"extraData\":\"0x\",\"size\":\"0x0\",\"gasLimit\":\""
                                            ++ (number_text ctx.gas_limit 32
                                                ++ (ascii "\",\"gasUsed\":\"0x0\",\"timestamp\":\""
                                                    ++ (number_text ctx.timestamp 32
                                                        ++ (ascii
                                                            "\",\"transactions\":[],\"uncles\":[],\"baseFeePerGas\":\""
                                                            ++ (number_text ctx.base_fee 32
                                                            ++ ascii "\"}")))))))))))))))

unfoldable pub fee_text : ℕ → ℕ → Bytes
fee_text number base_fee =
    let fee = number_text base_fee 32 in
    ascii "{\"oldestBlock\":\""
    ++ (number_text number 32
        ++ (ascii "\",\"baseFeePerGas\":[\""
            ++ (fee
                ++ (ascii "\",\""
                    ++ (fee
                        ++ (ascii "\"],\"gasUsedRatio\":[0.0],\"reward\":[[\""
                            ++ (fee ++ ascii "\"]]}")))))))

-- The NUL-terminated string at the front of a block of memory; a `fault` if the block has no NUL.
unfoldable pub string_in : Bytes → Result Bytes
string_in [] = fault
string_in (c ∷ cs) =
    let rest = string_in cs >>= λ text. ok (c ∷ text) in if c == 0 then ok [] else rest

module _ (node : Node) where
  open node use {redis, alloc, junk}
  open redis use {Store}

  -- An answer that leaves the store as `s`.
  abbrev pub respond : Bytes → Bytes → Store → Answer × Store
  respond id result s = (ok (make_response alloc id result), s)

  abbrev pub refuse : Bytes → ℕ → Bytes → Store → Answer × Store
  refuse id code message s = (ok (make_error alloc id code message), s)

  unfoldable pub handle_chain_id : Bytes → Store → Answer × Store
  handle_chain_id id s = (ok (number_response alloc id node.chain_id), s)

  unfoldable pub handle_block_number : Bytes → Store → Answer × Store
  handle_block_number id s =
      let (num, s') = get_block_number redis s in (ok (number_response alloc id num), s')

  unfoldable pub handle_gas_price : Bytes → Store → Answer × Store
  handle_gas_price id s = (ok (number_response alloc id node.base_fee), s)

  unfoldable pub balance_response : Bytes → Bytes → Option Bytes
  balance_response id balance =
      let p = trim_zeros (drop 2 (hex_text balance 67)) in
      let trimmed = printed 67 (b'0' ∷ b'x' ∷ p) in make_response alloc id (quoted 128 trimmed)

  unfoldable pub balance_at : Bytes → Option Bytes → Store → Answer × Store
  balance_at id none s = refuse id 32602 (ascii "invalid address") s
  balance_at id (some addr) s =
      let (balance, s') = get_balance redis addr junk s in (ok (balance_response id balance), s')

  unfoldable pub handle_get_balance : Bytes → List Bytes → Store → Answer × Store
  handle_get_balance id [] s = refuse id 32602 (ascii "missing address parameter") s
  handle_get_balance id (param ∷ params) s = balance_at id (array_param junk 20 param) s

  unfoldable pub nonce_at : Bytes → Option Bytes → Store → Answer × Store
  nonce_at id none s = refuse id 32602 (ascii "invalid address") s
  nonce_at id (some addr) s =
      let (nonce, s') = get_nonce redis addr s in (ok (number_response alloc id nonce), s')

  unfoldable pub handle_get_transaction_count : Bytes → List Bytes → Store → Answer × Store
  handle_get_transaction_count id [] s = refuse id 32602 (ascii "missing address parameter") s
  handle_get_transaction_count id (param ∷ params) s = nonce_at id (array_param junk 20 param) s

  unfoldable pub handle_get_block_by_number : Bytes → Store → Answer × Store
  handle_get_block_by_number id s =
      let (ctx, s') = make_block_context node s in
      if alloc 2048
      then respond id (printed 2048 (block_text ctx)) s'
      else refuse id 32603 (ascii "internal error") s'

  unfoldable pub handle_fee_history : Bytes → Store → Answer × Store
  handle_fee_history id s =
      let (block_num, s') = get_block_number redis s in
      if alloc 512
      then respond id (printed 512 (fee_text block_num node.base_fee)) s'
      else refuse id 32603 (ascii "internal error") s'

  -- The hexadecimal text of code or output in quotes. `size` is the length of the text with its NUL.
  -- Where the second block cannot be had, snprintf writes to NULL.
  unfoldable pub code_response : Bytes → Option Bytes → ℕ → Answer
  code_response id none size = fault
  code_response id (some code) size =
      if alloc ((size + 4) % 2 ^ 64)
      then ok (make_response alloc id (quoted (size + 4) (hex_text code size)))
      else fault

  unfoldable pub code_answer : Bytes → Blob → Answer
  code_answer id code =
      let hex_len = (code.len * 2 + 3) % 2 ^ 64 in
      if code.len == 0
      then ok (make_response alloc id (ascii "\"0x\""))
      else if alloc hex_len
      then code_response id code.content hex_len
      else ok (make_error alloc id 32603 (ascii "internal error"))

  unfoldable pub code_at : Bytes → Option Bytes → Store → Answer × Store
  code_at id none s = refuse id 32602 (ascii "invalid address") s
  code_at id (some addr) s =
      let (code, s') = get_code redis alloc addr s in (code_answer id code, s')

  unfoldable pub handle_get_code : Bytes → List Bytes → Store → Answer × Store
  handle_get_code id [] s = refuse id 32602 (ascii "missing address parameter") s
  handle_get_code id (param ∷ params) s = code_at id (array_param junk 20 param) s

  unfoldable pub storage_at : Bytes → Option Bytes → Option Bytes → Store → Answer × Store
  storage_at id none key s = refuse id 32602 (ascii "invalid address") s
  storage_at id (some addr) none s = refuse id 32602 (ascii "invalid storage key") s
  storage_at id (some addr) (some key) s =
      let (value, s') = get_storage redis addr key junk s in
      respond id (quoted 80 (hex_text value 67)) s'

  unfoldable pub handle_get_storage_at : Bytes → List Bytes → Store → Answer × Store
  handle_get_storage_at id (addr ∷ key ∷ params) s =
      storage_at id (array_param junk 20 addr) (array_param junk 32 key) s
  handle_get_storage_at id params s = refuse id 32602 (ascii "missing parameters") s

  -- The receipt is used as a C string, but what get_receipt copied has no NUL of its own.
  unfoldable pub receipt_answer : Bytes → Blob → Answer
  receipt_answer id receipt = elim receipt.content [
    | none ↦ ok (make_response alloc id (ascii "null"))
    | some bytes ↦
        if receipt.len == 0
        then ok (make_response alloc id (ascii "null"))
        else (string_in bytes >>= λ text. ok (make_response alloc id text))
  ]

  unfoldable pub receipt_at : Bytes → Option Bytes → Store → Answer × Store
  receipt_at id none s = refuse id 32602 (ascii "invalid transaction hash") s
  receipt_at id (some tx_hash) s =
      let (receipt, s') = get_receipt redis alloc tx_hash s in (receipt_answer id receipt, s')

  unfoldable pub handle_get_transaction_receipt : Bytes → List Bytes → Store → Answer × Store
  handle_get_transaction_receipt id [] s =
      refuse id 32602 (ascii "missing transaction hash parameter") s
  handle_get_transaction_receipt id (param ∷ params) s = receipt_at id (array_param junk 32 param) s

  unfoldable pub handle_net_version : Bytes → Store → Answer × Store
  handle_net_version id s = respond id (quoted 32 (Decimal.print node.chain_id)) s

  unfoldable pub handle_web3_client_version : Bytes → Store → Answer × Store
  handle_web3_client_version id s = respond id (ascii "\"evmdb/0.2.0\"") s
