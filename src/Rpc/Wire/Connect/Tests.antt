-- ===== src/Rpc/Wire/Connect/Tests.antt =====
-- Handshakes at concrete streams.
use rsbinder.Prelude.{ℕ, ◌≡◌, refl, true, false, List, [], ◌∷◌, ◌++◌, min, arith, if◌then◌else◌}
use rsbinder.Prelude.Bytes.{le_bytes}
use rsbinder.Rpc.Result.{err, protocol}
use rsbinder.Rpc.Framing.{Answer, bytes, content}
use rsbinder.Rpc.Wire.R34.{is_empty}
use rsbinder.Rpc.Wire.Android13.{is_supported_protocol_version}
use rsbinder.Rpc.Wire.Handshake.{encode_new_session_response, encode_connection_init}
use rsbinder.Rpc.Wire.Connect.{client_connect, client_connect_with_id, server_accept}
use rsbinder.Rpc.Wire.Connect.Agreement.{head, carried}
use rsbinder.Rpc.Wire.Connect.Handshakes.{
  request, answer, Exchanges, client_connect-server_accept, client_connect-server_accept_leak,
}

-- A client of version 2 asks a server of version 1 for a new session.
abbrev up : List Answer
up =
    bytes (2 ∷ 0 ∷ 0 ∷ 0 ∷ 0 ∷ 1 ∷ 0 ∷ 0 ∷ 0 ∷ [])
    ∷ bytes (0 ∷ 0 ∷ 0 ∷ 0 ∷ 0 ∷ 0 ∷ 0 ∷ 99 ∷ 99 ∷ 105 ∷ 0 ∷ 0 ∷ 0 ∷ 0 ∷ 0 ∷ [])
    ∷ []

abbrev down : List Answer
down = bytes (1 ∷ 0 ∷ 0 ∷ 0 ∷ 0 ∷ []) ∷ bytes (0 ∷ 0 ∷ 0 ∷ []) ∷ []

supported : (is_supported_protocol_version 2 ≡ true) × (is_supported_protocol_version 1 ≡ true)
unfolding is_supported_protocol_version
supported = (refl, refl)

up-content : content up ≡ request 2 false 1 [] ++ []
unfolding head le_bytes encode_connection_init
up-content = refl

down-content : content down ≡ answer (min 2 1) false [] ++ []
unfolding encode_new_session_response le_bytes
down-content = refl

client_connect-server_accept_example :
    Exchanges (server_accept 1 up) (answer (min 2 1) false []) (min 2 1, carried 2 1, [], false) []
    × Exchanges
        (client_connect_with_id 2 false 1 [] down)
        (request 2 false 1 [])
        (if is_empty {A = ℕ} [] then min 2 1 else 2)
        []
client_connect-server_accept_example =
    client_connect-server_accept 2 1 1 false [] up down [] [] supported.0 supported.1 (omega arith)
      (omega arith) refl ((λ e. cc), ((λ e. cc), tt)) up-content ((λ e. cc), ((λ e. cc), tt))
      down-content

-- The same client asks for it on an incoming connection.
abbrev leaking : List Answer
leaking = bytes (2 ∷ 0 ∷ 0 ∷ 0 ∷ 1 ∷ 1 ∷ 0 ∷ 0 ∷ 0 ∷ 0 ∷ 0 ∷ 0 ∷ 0 ∷ 0 ∷ 0 ∷ 0 ∷ []) ∷ []

leaking-content : content leaking ≡ request 2 true 1 [] ++ []
unfolding head le_bytes
leaking-content = refl

refused-content : content down ≡ encode_new_session_response (min 2 1) ++ []
unfolding encode_new_session_response le_bytes
refused-content = refl

client_connect-server_accept_leak_example :
    (server_accept 1 leaking ≡ record {
      sent = encode_new_session_response (min 2 1);
      result = err (protocol "new-session request set RPC_CONNECTION_OPTION_INCOMING");
    })
    × (client_connect 2 true 1 down ≡ record {
      sent = request 2 true 1 [];
      result = err (protocol "bad RpcOutgoingConnectionInit msg");
    })
client_connect-server_accept_leak_example =
    client_connect-server_accept_leak 2 1 1 leaking down [] [] supported.0 supported.1 (omega arith)
      ((λ e. cc), tt) leaking-content ((λ e. cc), ((λ e. cc), tt)) refused-content
