-- ===== src/Rpc/Wire/Connect/Agreement.antt =====
-- What the two sides of the handshake agree on.
use rsbinder.Prelude.{
  ℕ, ◌^◌, ◌%◌, ◌≤◌, ◌<◌, ◌≡◌, refl, ◌∙◌, min, not, Bool, ◌&&◌, List, [], ◌∷◌, ◌++◌, ltb, leb, ◌==◌,
  if◌then◌else◌, true, false, inl, inr, Bool-cases, length, take, drop, replicate, arith,
}
use mathlib.Core.List.{append_assoc}
use rsbinder.Prelude.Bytes.{le_bytes, from_le, from_le-le_bytes}
use rsbinder.Rpc.Result.{ok, protocol}
use rsbinder.Rpc.Framing.{Answer, content}
use rsbinder.Rpc.Wire.R34.{is_empty}
use rsbinder.Rpc.Wire.Android13.{byte_at, is_supported_protocol_version, with_version}
use rsbinder.Rpc.Wire.Handshake.{
  encode_connection_header, encode_new_session_response, decode_new_session_response,
  encode_connection_init, decode_connection_init, conn_option_incoming,
  decode-encode_new_session_response,
}
use rsbinder.Rpc.Wire.Stream.{M, pure, lift, refuse_if, write_all_raw, read_exact_raw, ◌>>=◌, ◌>>◌}
use rsbinder.Rpc.Wire.Stream.Whole.{IsSolid, read_exact_raw-front}
use rsbinder.Rpc.Wire.Stream.Messages.{quiet, Leaves}
use rsbinder.Rpc.Wire.Connect.{server_accept}

-- The 16 bytes in front of the session id.
unfoldable pub head : ℕ → Bool → ℕ → ℕ → List ℕ
head version incoming mode size =
    le_bytes 4 version
    ++ ((if incoming then conn_option_incoming else 0)
        ∷ ((mode ∷ replicate 8 0) ++ le_bytes 2 size))

abbrev pub carried : ℕ → ℕ → ℕ
carried version fd_mode = if version == 0 then 0 else fd_mode

pub encode_connection_header-head :
    (version : ℕ) (incoming : Bool) (fd_mode : ℕ) (sid : List ℕ)
    → length sid < 2 ^ 16
    → encode_connection_header version incoming fd_mode sid
      ≡ ok (head version incoming (carried version fd_mode) (length sid) ++ sid)
unfolding encode_connection_header head le_bytes
encode_connection_header-head version incoming fd_mode sid small =
    let short : leb (2 ^ 16) (length sid) ≡ false = ground arith in
    elim (Bool-cases (version == 0)) [ inl e ↦ rw (short, e) refl | inr e ↦ rw (short, e) refl ]

head_fields :
    (version : ℕ) (incoming : Bool) (mode size : ℕ)
    → version < 2 ^ 32
    → size < 2 ^ 16
    → (length (head version incoming mode size) ≡ 16)
      × (from_le (take 4 (head version incoming mode size)) ≡ version)
      × (not (byte_at (head version incoming mode size) 4 % 2 == 0) ≡ incoming)
      × (byte_at (head version incoming mode size) 5 ≡ mode)
      × (from_le (take 2 (drop 14 (head version incoming mode size))) ≡ size)
unfolding head le_bytes
head_fields version true mode size wide small =
    (refl, from_le-le_bytes 4 version wide, refl, refl, from_le-le_bytes 2 size small)
head_fields version false mode size wide small =
    (refl, from_le-le_bytes 4 version wide, refl, refl, from_le-le_bytes 2 size small)

abbrev pub IsSupported : ℕ → Type 0
IsSupported version = is_supported_protocol_version version ≡ true

pub with_version-ok : (version : ℕ) → IsSupported version → with_version version ≡ ok version
unfolding with_version
with_version-ok version known = rw known refl

pub IsSupported-lt : (version : ℕ) → IsSupported version → version < 2 ^ 32
unfolding is_supported_protocol_version
IsSupported-lt version known = ground (arith, known)

pub IsSupported-min : (a b : ℕ) → IsSupported a → IsSupported b → IsSupported (min a b)
unfolding is_supported_protocol_version
IsSupported-min a b known_a known_b = ground (arith, known_a, known_b)

-- The session id, which is not read when its size is 0.
session_id_read :
    (sid rest : List ℕ) (es : List Answer)
    → IsSolid es
    → content es ≡ sid ++ rest
    → Leaves ((if ltb 0 (length sid) then read_exact_raw (length sid) else pure []) es) sid rest
session_id_read [] rest es solid brought = (es, refl, brought, solid)
session_id_read (b ∷ bs) rest es solid brought =
    let some_bytes : ltb 0 (length (b ∷ bs)) ≡ true = ground arith in
    rw some_bytes (read_exact_raw-front (b ∷ bs) rest es refl solid brought)

pub init_read :
    (rest : List ℕ) (es : List Answer)
    → IsSolid es
    → content es ≡ encode_connection_init ++ rest
    → Leaves ((do init ← read_exact_raw 8; lift (decode_connection_init init)) es) tt rest
unfolding encode_connection_init decode_connection_init
init_read rest es solid brought =
    let (es', got, left, tidy) =
      read_exact_raw-front encode_connection_init rest es refl solid brought in
    (es', rw got refl, left, tidy)

pub response_read :
    (version : ℕ) (rest : List ℕ) (es : List Answer)
    → IsSupported version
    → IsSolid es
    → content es ≡ encode_new_session_response version ++ rest
    → (es' : List Answer) × (read_exact_raw 8 es ≡ quiet (encode_new_session_response version) es')
      × (decode_new_session_response (encode_new_session_response version) ≡ ok version)
      × (content es' ≡ rest)
      × IsSolid es'
response_read version rest es known solid brought =
    let (es', got, left, tidy) =
      read_exact_raw-front (encode_new_session_response version) rest es {n = 8}
        (unfold encode_new_session_response in unfold le_bytes in refl) solid brought in
    (
      es',
      got,
      decode-encode_new_session_response version (IsSupported-lt version known) ∙ rw known refl,
      left,
      tidy,
    )

-- The handshake behind the connection header, for a session id, a mode and a direction.
unfoldable pub answer_part : ℕ → ℕ → List ℕ → Bool → M (ℕ × ℕ × List ℕ × Bool)
answer_part negotiated fd_mode session_id incoming = do
  if is_empty session_id then write_all_raw (encode_new_session_response negotiated) else pure tt
  refuse_if (is_empty session_id && incoming)
      (protocol "new-session request set RPC_CONNECTION_OPTION_INCOMING")
  if incoming
      then write_all_raw encode_connection_init
      else (do init ← read_exact_raw 8; lift (decode_connection_init init))
  pure (negotiated, fd_mode, session_id, incoming)

pub server_accept-head :
    (client_max server_max : ℕ) (incoming : Bool) (mode : ℕ) (sid rest : List ℕ) (es : List Answer)
    → IsSupported client_max
    → IsSupported server_max
    → mode ≤ 2
    → (client_max ≡ 0 → mode ≡ 0)
    → length sid < 2 ^ 16
    → IsSolid es
    → content es ≡ (head client_max incoming mode (length sid) ++ sid) ++ rest
    → (es' : List Answer) × (server_accept server_max es
        ≡ answer_part (min client_max server_max) mode sid incoming es')
      × (content es' ≡ rest)
      × IsSolid es'
unfolding server_accept answer_part
server_accept-head client_max server_max incoming mode sid rest es known_c known_s known zero_mode
      small solid brought =
    let h = head client_max incoming mode (length sid) in
    let (sized, version, option, fifth, size) =
      head_fields client_max incoming mode (length sid) (IsSupported-lt client_max known_c) small in
    let (es1, got1, left1, tidy1) =
      read_exact_raw-front h (sid ++ rest) es sized solid (brought ∙ append_assoc h sid rest) in
    let (es2, got2, left2, tidy2) = session_id_read sid rest es1 tidy1 left1 in
    let mode_read : (if client_max == 0 then 0 else mode) ≡ mode = ground (arith, zero_mode) in
    let in_enum : leb mode 2 ≡ true = ground arith in
    let negotiated =
      with_version-ok (min client_max server_max)
        (IsSupported-min client_max server_max known_c known_s) in
    (
      es2,
      rw (got1, version, option, fifth, size, got2, mode_read, in_enum, negotiated) refl,
      left2,
      tidy2,
    )
