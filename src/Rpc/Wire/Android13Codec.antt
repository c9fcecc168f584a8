-- ===== src/Rpc/Wire/Android13Codec.antt =====
-- The `WireCodec` methods of `Android13PlusCodec`, the versioned wire of android-13 and later
-- (rsbinder/src/rpc/wire_android13.rs).
use rsbinder.Prelude.{
  ℕ, ◌+◌, ◌%◌, ◌^◌, not, List, [], ◌++◌, ltb, ◌==◌, if◌then◌else◌, length, drop, replicate,
}
use rsbinder.Prelude.Int.{to_u32, as_i32}
use rsbinder.Prelude.Bytes.{le_bytes}
use rsbinder.Rpc.Result.{Result, ok, err, protocol, ◌>>=◌, ◌>>◌, refuse_if}
use rsbinder.Rpc.Address.{RpcAddress}
use rsbinder.Rpc.Wire.Readers.{
  WireTransaction, WireReply, WireMessage, transact, reply, dec_strong, rd_u32, rd_u64, header,
  split_frame, cmd_transact, cmd_reply, cmd_dec_strong,
}
use rsbinder.Rpc.Wire.Android13.{
  addr_len, txn_fixed_len, dec_strong_len, reply_fixed_len, has_object_table, encode_addr,
  decode_addr, encode_data_and_table, split_data_and_table, table_len,
}

unfoldable pub encode_transact : ℕ → WireTransaction → Result (List ℕ)
encode_transact version txn = do
  let body_len = txn_fixed_len + length txn.payload + table_len version txn.object_positions
  head ← header cmd_transact body_len
  let parcel_size = if version == 0 then 0 else length txn.payload % 2 ^ 32
  tail ← encode_data_and_table version txn.payload txn.object_positions
  ok (
      head
      ++ (encode_addr txn.address
          ++ (le_bytes 4 txn.code
              ++ (le_bytes 4 txn.flags
                  ++ (le_bytes 8 txn.async_number
                      ++ (le_bytes 4 parcel_size ++ (replicate 12 0 ++ tail)))))))

unfoldable pub encode_reply : ℕ → WireReply → Result (List ℕ)
encode_reply version r = do
  let body_len = reply_fixed_len version + length r.payload + table_len version r.object_positions
  head ← header cmd_reply body_len
  let sized =
      if not (version == 0) then le_bytes 4 (length r.payload % 2 ^ 32) ++ replicate 12 0 else []
  tail ← encode_data_and_table version r.payload r.object_positions
  ok (head ++ (le_bytes 4 (to_u32 r.status) ++ (sized ++ tail)))

unfoldable pub encode_dec_strong : RpcAddress → Result (List ℕ)
encode_dec_strong addr = do
  head ← header cmd_dec_strong dec_strong_len
  ok (head ++ (encode_addr addr ++ (le_bytes 4 1 ++ le_bytes 4 0)))

unfoldable pub decode_transact : ℕ → List ℕ → Result WireMessage
decode_transact version body = do
  refuse_if (ltb (length body) txn_fixed_len) (protocol "RpcWireTransaction truncated")
  address ← decode_addr body 0
  code ← rd_u32 body addr_len
  flags ← rd_u32 body (addr_len + 4)
  async_number ← rd_u64 body (addr_len + 8)
  parcel_data_size ← rd_u32 body (addr_len + 16)
  (payload, positions) ← split_data_and_table version (drop txn_fixed_len body) parcel_data_size
  ok (
      transact (record {
        address = address;
        code = code;
        flags = flags;
        async_number = async_number;
        payload = payload;
        object_positions = positions;
      }))

unfoldable pub decode_reply : ℕ → List ℕ → Result WireMessage
decode_reply version body = do
  let fixed = reply_fixed_len version
  refuse_if (ltb (length body) fixed) (protocol "RpcWireReply truncated")
  status ← rd_u32 body 0
  parcel_data_size ← if has_object_table version then rd_u32 body 4 else ok 0
  (payload, positions) ← split_data_and_table version (drop fixed body) parcel_data_size
  ok (reply (record { status = as_i32 status; payload = payload; object_positions = positions }))

unfoldable pub decode_dec_strong : List ℕ → Result WireMessage
decode_dec_strong body = do
  refuse_if (not (length body == dec_strong_len)) (protocol "RpcDecStrong body != 16 bytes")
  address ← decode_addr body 0
  amount ← rd_u32 body addr_len
  ok (dec_strong address amount)

unfoldable pub decode_body : ℕ → ℕ → List ℕ → Result WireMessage
decode_body version command body =
    if command == cmd_transact
    then decode_transact version body
    else if command == cmd_reply
    then decode_reply version body
    else if command == cmd_dec_strong
    then decode_dec_strong body
    else err (protocol "unknown RpcWireHeader.command")

unfoldable pub decode_message : ℕ → List ℕ → Result WireMessage
decode_message version frame = do
  (command, body) ← split_frame frame
  decode_body version command body
