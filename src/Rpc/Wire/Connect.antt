-- ===== src/Rpc/Wire/Connect.antt =====
-- The connection handshake of both sides on raw streams (rsbinder/src/rpc/wire_android13.rs).
pub mod Handshakes
pub mod Agreement
mod Tests
use rsbinder.Prelude.{
  ℕ, ◌*◌, ◌+◌, ◌/◌, ◌%◌, min, not, Bool, ◌&&◌, List, [], ltb, leb, ◌==◌, if◌then◌else◌, take, drop,
}
use rsbinder.Prelude.Bytes.{from_le}
use rsbinder.Rpc.Result.{protocol}
use rsbinder.Rpc.Wire.R34.{is_empty}
use rsbinder.Rpc.Wire.Android13.{
  byte_at, conn_header_len, new_session_resp_len, conn_init_len, with_version,
}
use rsbinder.Rpc.Wire.Handshake.{
  encode_connection_header, encode_new_session_response, decode_new_session_response,
  encode_connection_init, decode_connection_init,
}
use rsbinder.Rpc.Wire.Stream.{
  M, pure, fail, lift, refuse_if, write_all_raw, read_exact_raw, ◌>>=◌, ◌>>◌,
}

-- A codec is its version.
unfoldable pub client_connect_with_id : ℕ → Bool → ℕ → List ℕ → M ℕ
client_connect_with_id max_version incoming fd_mode session_id = do
  hdr_codec ← lift (with_version max_version)
  header ← lift (encode_connection_header hdr_codec incoming fd_mode session_id)
  write_all_raw header
  let requesting_new_session = is_empty session_id
  if incoming
      then (do init ← read_exact_raw conn_init_len; lift (decode_connection_init init))
      else write_all_raw encode_connection_init
  if requesting_new_session
      then (do
        resp ← read_exact_raw new_session_resp_len
        negotiated ← lift (decode_new_session_response resp)
        refuse_if (ltb max_version negotiated)
            (protocol "server upgraded the protocol version past the client cap")
        if negotiated == hdr_codec then pure hdr_codec else lift (with_version negotiated))
      else pure hdr_codec

unfoldable pub client_connect : ℕ → Bool → ℕ → M ℕ
client_connect max_version incoming fd_mode = client_connect_with_id max_version incoming fd_mode []

-- The codec's version, the file descriptor mode, the session id and whether the connection is incoming.
-- `options & 1` is that the byte is odd.
unfoldable pub server_accept : ℕ → M (ℕ × ℕ × List ℕ × Bool)
server_accept server_max_version = do
  head ← read_exact_raw conn_header_len
  let client_version = from_le (take 4 head)
  let incoming = not (byte_at head 4 % 2 == 0)
  let id_size = from_le (take 2 (drop 14 head))
  session_id ← if ltb 0 id_size then read_exact_raw id_size else pure []
  let fd_mode = if client_version == 0 then 0 else byte_at head 5
  refuse_if (not (leb fd_mode 2))
      (protocol "unknown RpcConnectionHeader.fileDescriptorTransportMode")
  let negotiated = min client_version server_max_version
  codec ← lift (with_version negotiated)
  let requesting_new_session = is_empty session_id
  if requesting_new_session then write_all_raw (encode_new_session_response negotiated) else pure tt
  refuse_if (requesting_new_session && incoming)
      (protocol "new-session request set RPC_CONNECTION_OPTION_INCOMING")
  if incoming
      then write_all_raw encode_connection_init
      else (do init ← read_exact_raw conn_init_len; lift (decode_connection_init init))
  pure (codec, fd_mode, session_id, incoming)
