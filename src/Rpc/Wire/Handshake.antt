-- ===== src/Rpc/Wire/Handshake.antt =====
-- The connection handshake of `Android13PlusCodec` (rsbinder/src/rpc/wire_android13.rs).
use rsbinder.Prelude.{
  ℕ, ◌+◌, ◌^◌, ◌≤◌, ◌<◌, ◌≡◌, refl, sym, ap, ◌∙◌, not, Bool, List, [], ◌∷◌, ◌++◌, ltb, leb, ◌==◌,
  if◌then◌else◌, length, take, replicate, some, arith, inl, inr, Bool-cases, length-append,
  take-append_left,
}
use mathlib.Core.List.{append-nil}
use rsbinder.Prelude.Bytes.{le_bytes, from_le, length-le_bytes, beq_bytes}
use rsbinder.Rpc.Result.{Result, ok, err, protocol, ◌>>=◌, ◌>>◌, refuse_if}
use rsbinder.Rpc.Wire.Readers.{rd_u32, checked_add, get_range, ok_or}
use rsbinder.Rpc.Wire.ReaderLaws.{rd_u32-here}
use rsbinder.Rpc.Wire.Android13.{
  byte_at, conn_header_len, new_session_resp_len, conn_init_len, is_supported_protocol_version,
}

abbrev pub conn_option_incoming : ℕ
conn_option_incoming = 1

-- `*b"cci\0"`.
abbrev pub conn_init_okay : List ℕ
conn_init_okay = 99 ∷ 99 ∷ 105 ∷ 0 ∷ []

-- The five bytes behind the options: version 0 has nine reserved bytes there.
abbrev pub mode_bytes : ℕ → ℕ → List ℕ
mode_bytes version fd_mode = if version == 0 then replicate 9 0 else fd_mode ∷ replicate 8 0

unfoldable pub encode_connection_header : ℕ → Bool → ℕ → List ℕ → Result (List ℕ)
encode_connection_header version incoming fd_mode session_id = do
  refuse_if (leb (2 ^ 16) (length session_id)) (protocol "session_id length exceeds u16")
  ok (
      le_bytes 4 version
      ++ ((if incoming then conn_option_incoming else 0)
          ∷ (mode_bytes version fd_mode ++ (le_bytes 2 (length session_id) ++ session_id))))

-- The version, the options, the file descriptor mode and the session id.
unfoldable pub decode_connection_header : List ℕ → Result (ℕ × (ℕ × (ℕ × List ℕ)))
decode_connection_header buf = do
  refuse_if (ltb (length buf) conn_header_len) (protocol "RpcConnectionHeader truncated")
  version ← rd_u32 buf 0
  let fd_mode = if version == 0 then 0 else byte_at buf 5
  refuse_if (ltb 2 fd_mode) (protocol "unknown RpcConnectionHeader.fileDescriptorTransportMode")
  let id_size = from_le (byte_at buf 14 ∷ byte_at buf 15 ∷ [])
  end ← ok_or (checked_add conn_header_len id_size) "sessionIdSize overflow"
  session_id ← ok_or (get_range buf conn_header_len end) "session id truncated"
  refuse_if (not (length buf == end)) (protocol "RpcConnectionHeader length mismatch")
  ok (version, (byte_at buf 4, (fd_mode, session_id)))

unfoldable pub encode_new_session_response : ℕ → List ℕ
encode_new_session_response version = le_bytes 4 version ++ replicate 4 0

unfoldable pub decode_new_session_response : List ℕ → Result ℕ
decode_new_session_response buf = do
  refuse_if (ltb (length buf) new_session_resp_len) (protocol "RpcNewSessionResponse truncated")
  version ← rd_u32 buf 0
  refuse_if (not (is_supported_protocol_version version))
      (protocol "unsupported RPC wire protocol version")
  ok version

unfoldable pub encode_connection_init : List ℕ
encode_connection_init = conn_init_okay ++ replicate 4 0

unfoldable pub decode_connection_init : List ℕ → Result (Unit {0})
decode_connection_init buf = do
  refuse_if (ltb (length buf) conn_init_len) (protocol "RpcOutgoingConnectionInit truncated")
  refuse_if (not (beq_bytes (take 4 buf) conn_init_okay))
      (protocol "bad RpcOutgoingConnectionInit msg")
  ok tt

-- A header as the bytes that the decoder tells apart.
conn : ℕ → ℕ → ℕ → List ℕ → List ℕ → List ℕ
conn version options m session_id extra =
    le_bytes 4 version
    ++ (options
        ∷ ((m ∷ replicate 8 0) ++ (le_bytes 2 (length session_id) ++ (session_id ++ extra))))

length-conn :
    (v o m : ℕ) (sid extra : List ℕ)
    → length (conn v o m sid extra) ≡ 16 + (length sid + length extra)
unfolding conn le_bytes
length-conn v o m sid extra = omega (arith, length-append sid extra)

id_size-conn :
    (v o m : ℕ) (sid extra : List ℕ)
    → length sid < 2 ^ 16
    → from_le (byte_at (conn v o m sid extra) 14 ∷ byte_at (conn v o m sid extra) 15 ∷ [])
      ≡ length sid
unfolding conn le_bytes from_le
id_size-conn v o m sid extra small = omega arith

fifth-conn :
    (v o m : ℕ) (sid extra : List ℕ)
    → (byte_at (conn v o m sid extra) 4 ≡ o) × (byte_at (conn v o m sid extra) 5 ≡ m)
unfolding conn le_bytes
fifth-conn v o m sid extra = (refl, refl)

range-conn :
    (v o m : ℕ) (sid extra : List ℕ)
    → get_range (conn v o m sid extra) 16 (16 + length sid) ≡ some sid
unfolding get_range conn le_bytes
range-conn v o m sid extra =
    ground (arith, length-append sid extra, take-append_left sid extra {n = length sid} refl)

decode-conn :
    (v o m : ℕ) (sid extra : List ℕ)
    → v < 2 ^ 32
    → m ≤ 2
    → (v ≡ 0 → m ≡ 0)
    → length sid < 2 ^ 16
    → decode_connection_header (conn v o m sid extra) ≡ (
        if length extra == 0
        then ok (v, (o, (m, sid)))
        else err (protocol "RpcConnectionHeader length mismatch"))
unfolding decode_connection_header checked_add
decode-conn v o m sid extra wide known zero_mode small =
    let version : rd_u32 (conn v o m sid extra) 0 ≡ ok v = unfold conn in rd_u32-here v _ wide in
    let at = fifth-conn v o m sid extra in
    let size = id_size-conn v o m sid extra small in
    rw (version, at.0, at.1, size, length-conn v o m sid extra) ground
      (arith, range-conn v o m sid extra)

-- What the encoder makes of a session id that is short enough.
made : ℕ → Bool → ℕ → List ℕ → List ℕ
made v incoming fd_mode sid =
    le_bytes 4 v
    ++ ((if incoming then conn_option_incoming else 0)
        ∷ (mode_bytes v fd_mode ++ (le_bytes 2 (length sid) ++ sid)))

made-conn :
    (v : ℕ) (incoming : Bool) (fd_mode : ℕ) (sid extra : List ℕ)
    → made v incoming fd_mode sid ++ extra
      ≡ conn v
          (if incoming then conn_option_incoming else 0)
          (if v == 0 then 0 else fd_mode)
          sid
          extra
unfolding made conn le_bytes
made-conn v incoming fd_mode sid extra = elim (Bool-cases (v == 0)) [
  | inl e ↦ rw e refl
  | inr e ↦ rw e refl
]

-- A connection header whose session id is below 64 KiB and whose descriptor mode is known is made and
-- comes back: the version, the option bit, the mode, which version 0 does not carry, and the session
-- id. With any byte behind it, it is refused. A longer session id is refused by the encoder.
pub decode-encode_connection_header :
    (version : ℕ) (incoming : Bool) (fd_mode : ℕ) (session_id : List ℕ)
    → version < 2 ^ 32
    → fd_mode ≤ 2
    → (length session_id < 2 ^ 16
        → (f : List ℕ) × (encode_connection_header version incoming fd_mode session_id ≡ ok f)
          × (decode_connection_header f
              ≡ ok (
                version,
                (
                  if incoming then conn_option_incoming else 0,
                  (if version == 0 then 0 else fd_mode, session_id),
                ),
              ))
          × ((x : ℕ) (extra : List ℕ)
              → decode_connection_header (f ++ x ∷ extra)
                ≡ err (protocol "RpcConnectionHeader length mismatch")))
      × (2 ^ 16 ≤ length session_id
          → encode_connection_header version incoming fd_mode session_id
            ≡ err (protocol "session_id length exceeds u16"))
unfolding encode_connection_header made
decode-encode_connection_header version incoming fd_mode session_id wide known =
    let o = if incoming then conn_option_incoming else 0 in
    let m = if version == 0 then 0 else fd_mode in
    let f = made version incoming fd_mode session_id in
    let mode_known : m ≤ 2 = ground arith in
    let mode_zero : version ≡ 0 → m ≡ 0 = ground arith in
    let decoded = λ (extra : List ℕ) (small : length session_id < 2 ^ 16).
      ap decode_connection_header (made-conn version incoming fd_mode session_id extra)
      ∙ decode-conn version o m session_id extra wide mode_known mode_zero small in
    (
      λ small. (
        f,
        ground arith,
        ap decode_connection_header (sym (append-nil f)) ∙ decoded [] small,
        λ x extra. decoded (x ∷ extra) small ∙ ground arith,
      ),
      λ long. ground arith,
    )

-- The response to a new session brings its version back exactly when that version is supported.
pub decode-encode_new_session_response :
    (version : ℕ)
    → version < 2 ^ 32
    → decode_new_session_response (encode_new_session_response version) ≡ (
        if is_supported_protocol_version version
        then ok version
        else err (protocol "unsupported RPC wire protocol version"))
unfolding decode_new_session_response encode_new_session_response
decode-encode_new_session_response version wide =
    rw (rd_u32-here version (replicate 4 0) wide) ground
      (arith, length-append (le_bytes 4 version) (replicate 4 0), length-le_bytes 4 version)
