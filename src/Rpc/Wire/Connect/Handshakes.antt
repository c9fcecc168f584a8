-- ===== src/Rpc/Wire/Connect/Handshakes.antt =====
-- The handshakes between `client_connect_with_id` and `server_accept`.
use rsbinder.Prelude.{
  ℕ, ◌%◌, ◌^◌, ◌≤◌, ◌<◌, ◌≡◌, refl, ap, ◌∙◌, min, Bool, ◌&&◌, List, [], ◌∷◌, ◌++◌, ltb, ◌==◌,
  if◌then◌else◌, true, false, inl, inr, Bool-cases, length, arith,
}
use rsbinder.Prelude.Bytes.{le_bytes}
use rsbinder.Rpc.Wire.Android13.{is_supported_protocol_version}
use mathlib.Core.List.{append_assoc, append-nil}
use rsbinder.Rpc.Result.{ok, err, protocol}
use rsbinder.Rpc.Framing.{Answer, content}
use rsbinder.Rpc.Wire.R34.{is_empty}
use rsbinder.Rpc.Wire.Handshake.{
  encode_new_session_response, encode_connection_init, decode_connection_init,
}
use rsbinder.Rpc.Wire.Stream.{Outcome, write_all_raw}
use rsbinder.Rpc.Wire.Stream.Whole.{IsSolid}
use rsbinder.Rpc.Wire.Connect.{client_connect, client_connect_with_id, server_accept}
use rsbinder.Rpc.Wire.Connect.Agreement.{
  head, carried, IsSupported, encode_connection_header-head, with_version-ok, IsSupported-min,
  init_read, response_read, answer_part, server_accept-head,
}

-- What a client sends, and what a server answers, in the cell of a handshake.
abbrev pub request : ℕ → Bool → ℕ → List ℕ → List ℕ
request max_version incoming fd_mode sid =
    (head max_version incoming (carried max_version fd_mode) (length sid) ++ sid)
    ++ (if incoming then [] else encode_connection_init)

abbrev pub answer : ℕ → Bool → List ℕ → List ℕ
answer negotiated incoming sid =
    (if is_empty sid then encode_new_session_response negotiated else [])
    ++ (if incoming then encode_connection_init else [])

-- The call sends these bytes, returns the value, and leaves what stands behind.
abbrev pub Exchanges : {A : Type 0} → Outcome A → List ℕ → A → List ℕ → Type 0
Exchanges got sent a behind =
    (es : List Answer) × (got ≡ record { sent = sent; result = ok (a, es) })
    × (content es ≡ behind)
    × IsSolid es

answer_part-new :
    (negotiated mode : ℕ) (rest : List ℕ) (es : List Answer)
    → IsSolid es
    → content es ≡ encode_connection_init ++ rest
    → Exchanges
        (answer_part negotiated mode [] false es)
        (answer negotiated false [])
        (negotiated, mode, [], false)
        rest
unfolding answer_part write_all_raw
answer_part-new negotiated mode rest es solid brought =
    let (es', got, left, tidy) = init_read rest es solid brought in (es', rw got refl, left, tidy)

answer_part-attach :
    (negotiated mode b : ℕ) (bs : List ℕ) (incoming : Bool) (rest : List ℕ) (es : List Answer)
    → IsSolid es
    → content es ≡ (if incoming then [] else encode_connection_init) ++ rest
    → Exchanges
        (answer_part negotiated mode (b ∷ bs) incoming es)
        (answer negotiated incoming (b ∷ bs))
        (negotiated, mode, b ∷ bs, incoming)
        rest
unfolding answer_part write_all_raw
answer_part-attach negotiated mode b bs true rest es solid brought = (
  es,
  ap (λ (sent : List ℕ). record { sent = sent; result = ok ((negotiated, mode, b ∷ bs, true), es) })
      (append-nil encode_connection_init),
  brought,
  solid,
)
answer_part-attach negotiated mode b bs false rest es solid brought =
    let (es', got, left, tidy) = init_read rest es solid brought in (es', rw got refl, left, tidy)

connect-new :
    (client_max negotiated fd_mode : ℕ) (rest : List ℕ) (es : List Answer)
    → IsSupported client_max
    → IsSupported negotiated
    → negotiated ≤ client_max
    → IsSolid es
    → content es ≡ encode_new_session_response negotiated ++ rest
    → Exchanges
        (client_connect_with_id client_max false fd_mode [] es)
        (request client_max false fd_mode [])
        negotiated
        rest
unfolding client_connect_with_id write_all_raw encode_connection_init
connect-new client_max negotiated fd_mode rest es known_c known_n capped solid brought =
    let (es', got, decoded, left, tidy) = response_read negotiated rest es known_n solid brought in
    let codec = with_version-ok client_max known_c in
    let lower = with_version-ok negotiated known_n in
    let made = encode_connection_header-head client_max false fd_mode [] (omega arith) in
    let no_upgrade : ltb client_max negotiated ≡ false = ground arith in
    elim (Bool-cases (negotiated == client_max)) [
      | inl same ↦
          let kept : client_max ≡ negotiated = ground (arith, same) in
          (
            es',
            rw (codec, made, got, decoded, no_upgrade, same)
                (ap
                  (λ v. record { sent = request client_max false fd_mode []; result = ok (v, es') })
                  kept),
            left,
            tidy,
          )
      | inr differs ↦
          (es', rw (codec, made, got, decoded, no_upgrade, differs, lower) refl, left, tidy)
    ]

connect-attach :
    (client_max fd_mode b : ℕ) (bs : List ℕ) (incoming : Bool) (rest : List ℕ) (es : List Answer)
    → IsSupported client_max
    → length (b ∷ bs) < 2 ^ 16
    → IsSolid es
    → content es ≡ (if incoming then encode_connection_init else []) ++ rest
    → Exchanges
        (client_connect_with_id client_max incoming fd_mode (b ∷ bs) es)
        (request client_max incoming fd_mode (b ∷ bs))
        client_max
        rest
unfolding client_connect_with_id write_all_raw encode_connection_init
connect-attach client_max fd_mode b bs true rest es known_c small solid brought =
    let (es', got, left, tidy) = init_read rest es solid brought in
    let codec = with_version-ok client_max known_c in
    let made = encode_connection_header-head client_max true fd_mode (b ∷ bs) small in
    (es', rw (codec, made, got) refl, left, tidy)
connect-attach client_max fd_mode b bs false rest es known_c small solid brought =
    let codec = with_version-ok client_max known_c in
    let made = encode_connection_header-head client_max false fd_mode (b ∷ bs) small in
    (es, rw (codec, made) refl, brought, solid)

response_no_init :
    (version : ℕ)
    → IsSupported version
    → decode_connection_init (encode_new_session_response version)
      ≡ err (protocol "bad RpcOutgoingConnectionInit msg")
unfolding decode_connection_init encode_new_session_response le_bytes is_supported_protocol_version
response_no_init version known =
    let other : (version % 256 == 99) ≡ false = ground (arith, known) in rw other refl

Exchanges-server :
    (negotiated mode : ℕ) (sid : List ℕ) (incoming : Bool) (rest : List ℕ) (es : List Answer)
    → is_empty sid && incoming ≡ false
    → IsSolid es
    → content es ≡ (if incoming then [] else encode_connection_init) ++ rest
    → Exchanges
        (answer_part negotiated mode sid incoming es)
        (answer negotiated incoming sid)
        (negotiated, mode, sid, incoming)
        rest
Exchanges-server negotiated mode [] true rest es cell solid brought = ground (arith, cell)
Exchanges-server negotiated mode [] false rest es cell solid brought =
    answer_part-new negotiated mode rest es solid brought
Exchanges-server negotiated mode (b ∷ bs) incoming rest es cell solid brought =
    answer_part-attach negotiated mode b bs incoming rest es solid brought

Exchanges-client :
    (client_max negotiated fd_mode : ℕ) (sid : List ℕ) (incoming : Bool) (rest : List ℕ)
    (es : List Answer)
    → is_empty sid && incoming ≡ false
    → IsSupported client_max
    → IsSupported negotiated
    → negotiated ≤ client_max
    → length sid < 2 ^ 16
    → IsSolid es
    → content es ≡ answer negotiated incoming sid ++ rest
    → Exchanges
        (client_connect_with_id client_max incoming fd_mode sid es)
        (request client_max incoming fd_mode sid)
        (if is_empty sid then negotiated else client_max)
        rest
Exchanges-client client_max negotiated fd_mode [] true rest es cell known_c known_n capped small
      solid brought =
    ground (arith, cell)
Exchanges-client client_max negotiated fd_mode [] false rest es cell known_c known_n capped small
      solid brought =
    connect-new client_max negotiated fd_mode rest es known_c known_n capped solid
      (brought ∙ append_assoc (encode_new_session_response negotiated) [] rest)
Exchanges-client client_max negotiated fd_mode (b ∷ bs) incoming rest es cell known_c known_n capped
      small solid brought =
    connect-attach client_max fd_mode b bs incoming rest es known_c small solid brought

-- The versions of both sides are supported, the descriptor mode is known, the session id is below
-- 64 KiB, and not both is the session new and the connection incoming. When the server's stream brings
-- the client's request and the client's stream the server's answer, each in pieces of any size, both
-- calls return, have sent just these bytes, and leave what stands behind. The server gets the smaller
-- version, the mode that the client's version can carry, the session id and the direction; the client
-- gets the smaller version for a new session, and its own for an attach.
pub client_connect-server_accept :
    (client_max server_max fd_mode : ℕ) (incoming : Bool) (sid : List ℕ) (up down : List Answer)
    (behind_up behind_down : List ℕ)
    → IsSupported client_max
    → IsSupported server_max
    → fd_mode ≤ 2
    → length sid < 2 ^ 16
    → is_empty sid && incoming ≡ false
    → IsSolid up
    → content up ≡ request client_max incoming fd_mode sid ++ behind_up
    → IsSolid down
    → content down ≡ answer (min client_max server_max) incoming sid ++ behind_down
    → Exchanges
        (server_accept server_max up)
        (answer (min client_max server_max) incoming sid)
        (min client_max server_max, carried client_max fd_mode, sid, incoming)
        behind_up
      × Exchanges
          (client_connect_with_id client_max incoming fd_mode sid down)
          (request client_max incoming fd_mode sid)
          (if is_empty sid then min client_max server_max else client_max)
          behind_down
client_connect-server_accept client_max server_max fd_mode incoming sid up down behind_up
      behind_down known_c known_s known small cell solid_up brought_up solid_down brought_down =
    let (es, parsed, left, tidy) =
      server_accept-head client_max server_max incoming (carried client_max fd_mode) sid
        ((if incoming then [] else encode_connection_init) ++ behind_up) up known_c known_s
        (ground arith) (λ zero. ground (arith, zero)) small solid_up
        (brought_up
          ∙ append_assoc (head client_max incoming (carried client_max fd_mode) (length sid) ++ sid)
              (if incoming then [] else encode_connection_init) behind_up) in
    (
      rw parsed (
          Exchanges-server (min client_max server_max) (carried client_max fd_mode) sid incoming
            behind_up es cell tidy left),
      Exchanges-client client_max (min client_max server_max) fd_mode sid incoming behind_down down
          cell known_c (IsSupported-min client_max server_max known_c known_s) (omega arith) small
          solid_down brought_down,
    )

-- A client that asks for a new session on an incoming connection fails, and so does the server, with
-- versions that are supported and a known mode: the server has sent the response to the new session,
-- and the client, which waits for the init of an incoming connection, refuses that response.
pub client_connect-server_accept_leak :
    (client_max server_max fd_mode : ℕ) (up down : List Answer) (behind_up behind_down : List ℕ)
    → IsSupported client_max
    → IsSupported server_max
    → fd_mode ≤ 2
    → IsSolid up
    → content up ≡ request client_max true fd_mode [] ++ behind_up
    → IsSolid down
    → content down ≡ encode_new_session_response (min client_max server_max) ++ behind_down
    → (server_accept server_max up ≡ record {
      sent = encode_new_session_response (min client_max server_max);
      result = err (protocol "new-session request set RPC_CONNECTION_OPTION_INCOMING");
    })
      × (client_connect client_max true fd_mode down ≡ record {
        sent = request client_max true fd_mode [];
        result = err (protocol "bad RpcOutgoingConnectionInit msg");
      })
unfolding answer_part write_all_raw client_connect client_connect_with_id decode_connection_init
    encode_new_session_response le_bytes
client_connect-server_accept_leak client_max server_max fd_mode up down behind_up behind_down
      known_c known_s known solid_up brought_up solid_down brought_down =
    let (es, parsed, left, tidy) =
      server_accept-head client_max server_max true (carried client_max fd_mode) [] behind_up up
        known_c known_s (ground arith) (λ zero. ground (arith, zero)) (omega arith) solid_up
        (brought_up
          ∙ append_assoc (head client_max true (carried client_max fd_mode) 0 ++ []) []
              behind_up) in
    let known_n = IsSupported-min client_max server_max known_c known_s in
    let (es', got, decoded, left', tidy') =
      response_read (min client_max server_max) behind_down down known_n solid_down brought_down in
    let codec = with_version-ok client_max known_c in
    let made = encode_connection_header-head client_max true fd_mode [] (omega arith) in
    (
      rw parsed refl,
      rw (codec, made, got, response_no_init (min client_max server_max) known_n) refl,
    )
