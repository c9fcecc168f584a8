-- ===== src/Rpc/Wire/R34.antt =====
-- `R34Codec`, the android-12 wire (rsbinder/src/rpc/wire.rs).
use rsbinder.Prelude.{
  ℕ, ◌+◌, not, Bool, true, false, List, [], ◌∷◌, ◌++◌, ltb, ◌==◌, if◌then◌else◌, length, drop,
  replicate,
}
use rsbinder.Prelude.Int.{ℤ, to_u32, as_i32}
use rsbinder.Prelude.Bytes.{le_bytes, from_le}
use rsbinder.Rpc.Result.{Result, ok, err, protocol, ◌>>=◌, ◌>>◌, refuse_if}
use rsbinder.Rpc.Address.{RpcAddress, rpc_addr_len}
use rsbinder.Rpc.Wire.Readers.{
  WireTransaction, WireReply, WireMessage, transact, reply, dec_strong, rd_u32, rd_i32, rd_u64,
  rd_addr, header, split_frame, cmd_transact, cmd_reply, cmd_dec_strong,
}

abbrev pub wire_txn_fixed_len : ℕ
wire_txn_fixed_len = rpc_addr_len + 4 + 4 + 8 + 16

abbrev pub is_empty {ℓ} : {A : Type ℓ} → List A → Bool
is_empty [] = true
is_empty (x ∷ xs) = false

unfoldable pub encode_transact : WireTransaction → Result (List ℕ)
encode_transact txn = do
  refuse_if (not (is_empty txn.object_positions))
      (protocol "r34 wire has no object table (object_positions must be empty)")
  let body_len = wire_txn_fixed_len + length txn.payload
  head ← header cmd_transact body_len
  ok (
      head
      ++ (txn.address.bytes
          ++ (le_bytes 4 txn.code
              ++ (le_bytes 4 txn.flags
                  ++ (le_bytes 8 txn.async_number ++ (replicate 16 0 ++ txn.payload))))))

unfoldable pub encode_reply : WireReply → Result (List ℕ)
encode_reply r = do
  refuse_if (not (is_empty r.object_positions))
      (protocol "r34 wire has no object table (object_positions must be empty)")
  let body_len = 4 + length r.payload
  head ← header cmd_reply body_len
  ok (head ++ (le_bytes 4 (to_u32 r.status) ++ r.payload))

-- The header's `expect` holds by `header-ok`: a failure would show as an `err` here.
unfoldable pub encode_dec_strong : RpcAddress → Result (List ℕ)
encode_dec_strong addr = do head ← header cmd_dec_strong rpc_addr_len; ok (head ++ addr.bytes)

pub decode_transact : List ℕ → Result WireMessage
decode_transact body = do
  refuse_if (ltb (length body) wire_txn_fixed_len) (protocol "RpcWireTransaction truncated")
  address ← rd_addr body 0
  code ← rd_u32 body rpc_addr_len
  flags ← rd_u32 body (rpc_addr_len + 4)
  async_number ← rd_u64 body (rpc_addr_len + 8)
  ok (
      transact (record {
        address = address;
        code = code;
        flags = flags;
        async_number = async_number;
        payload = drop wire_txn_fixed_len body;
        object_positions = [];
      }))

pub decode_reply : List ℕ → Result WireMessage
decode_reply body = do
  refuse_if (ltb (length body) 4) (protocol "RpcWireReply truncated")
  status ← rd_i32 body 0
  ok (reply (record { status = status; payload = drop 4 body; object_positions = [] }))

pub decode_dec_strong : List ℕ → Result WireMessage
decode_dec_strong body = do
  refuse_if (not (length body == rpc_addr_len)) (protocol "DEC_STRONG body != 32 bytes")
  address ← rd_addr body 0
  ok (dec_strong address 1)

-- `match command`.
unfoldable pub decode_body : ℕ → List ℕ → Result WireMessage
unfolding decode_transact decode_reply decode_dec_strong
decode_body command body =
    if command == cmd_transact
    then decode_transact body
    else if command == cmd_reply
    then decode_reply body
    else if command == cmd_dec_strong
    then decode_dec_strong body
    else err (protocol "unknown RpcWireHeader.command")

unfoldable pub decode_message : List ℕ → Result WireMessage
decode_message frame = do (command, body) ← split_frame frame; decode_body command body

unfoldable pub encode_session_preamble : ℤ → List ℕ
encode_session_preamble session_id = le_bytes 4 (to_u32 session_id)

unfoldable pub decode_session_preamble : List ℕ → Result ℤ
decode_session_preamble buf = do
  refuse_if (not (length buf == 4)) (protocol "session preamble must be exactly 4 bytes")
  ok (as_i32 (from_le buf))
