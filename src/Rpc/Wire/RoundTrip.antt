-- ===== src/Rpc/Wire/RoundTrip.antt =====
-- What `R34Codec` decodes of what it encoded.
use mathlib.Core.List.{append-nil}
use rsbinder.Prelude.{
  ℕ, ◌≢◌, ◌+◌, ◌^◌, ◌≤◌, ◌<◌, ◌≡◌, sym, ap, ◌∙◌, List, [], ◌++◌, arith, length, drop, ltb,
  ltb-false_of_le, false, length-append, length-zero, drop-append_left,
}
use rsbinder.Prelude.Int.{ℤ, IsI32, to_u32, to_u32-lt, as_i32-to_u32}
use rsbinder.Prelude.Bytes.{le_bytes, length-le_bytes, from_le-le_bytes}
use rsbinder.Rpc.Result.{Result, ok, err, protocol, frame_too_large}
use rsbinder.Rpc.Address.{RpcAddress, IsAddress}
use rsbinder.Rpc.Wire.Readers.{
  WireReply, WireMessage, transact, reply, dec_strong, max_frame_len, rd_addr,
}
use rsbinder.Rpc.Wire.ReaderLaws.{
  header-ok, header-err, frame_of, split_frame-frame_of, rd_i32-here, rd_addr-here,
}
use rsbinder.Rpc.Wire.Transaction.{IsTransaction, txn_body, length-txn_body, decode_txn_body}
use rsbinder.Rpc.Wire.R34.{
  encode_transact, encode_reply, encode_dec_strong, decode_message, decode_body,
  decode_session_preamble, encode_session_preamble,
}

abbrev pub reply_body : WireReply → List ℕ
reply_body r = le_bytes 4 (to_u32 r.status) ++ r.payload

pub record IsReply (r : WireReply) : Type 0 where
  pub status : IsI32 r.status
  pub no_table : r.object_positions ≡ []

pub length-reply_body : (r : WireReply) → length (reply_body r) ≡ 4 + length r.payload
length-reply_body r = omega (
  arith,
  length-append (le_bytes 4 (to_u32 r.status)) r.payload,
  length-le_bytes 4 (to_u32 r.status),
)

decode_reply_body : (r : WireReply) → IsReply r → decode_body 1 (reply_body r) ≡ ok (reply r)
unfolding decode_body
decode_reply_body r v =
    rw (long_enough, rd_i32-here r.status r.payload v.status, payload_behind)
      (λ i. ok (reply (record r { object_positions = sym v.no_table i })))
  where
    long_enough : ltb (length (reply_body r)) 4 ≡ false
    long_enough = ltb-false_of_le _ _ (omega (arith, length-reply_body r))

    payload_behind : drop 4 (reply_body r) ≡ r.payload
    payload_behind = drop-append_left (le_bytes 4 (to_u32 r.status)) r.payload (length-le_bytes 4 _)

decode_dec_strong_body :
    (a : RpcAddress) → IsAddress a → decode_body 2 a.bytes ≡ ok (dec_strong a 1)
unfolding decode_body
decode_dec_strong_body a v = ground (arith, v.sized, whole, append-nil a.bytes)
  where
    whole : rd_addr (a.bytes ++ []) 0 ≡ ok a
    whole = rd_addr-here a [] v

-- The values that the Rust types and the r34 wire allow. A `DEC_STRONG` always means one decrement.
abbrev pub IsMessage : WireMessage → Type 0
IsMessage (transact t) = IsTransaction t
IsMessage (reply r) = IsReply r
IsMessage (dec_strong a amount) = IsAddress a × (amount ≡ 1)

abbrev pub encode_message : WireMessage → Result (List ℕ)
encode_message (transact t) = encode_transact t
encode_message (reply r) = encode_reply r
encode_message (dec_strong a amount) = encode_dec_strong a

-- The command and the body of a message's frame.
abbrev pub command_of : WireMessage → ℕ
command_of (transact t) = 0
command_of (reply r) = 1
command_of (dec_strong a amount) = 2

abbrev pub body_of : WireMessage → List ℕ
body_of (transact t) = txn_body t
body_of (reply r) = reply_body r
body_of (dec_strong a amount) = a.bytes

encode_message-ok :
    (m : WireMessage)
    → IsMessage m
    → length (body_of m) ≤ max_frame_len
    → encode_message m ≡ ok (frame_of (command_of m) (body_of m))
unfolding encode_transact encode_reply encode_dec_strong
encode_message-ok (transact t) v fits =
    let size = length-txn_body t v in
    ground (arith, v.no_table, header-ok 0 (64 + length t.payload) (omega (arith, size)), size)
encode_message-ok (reply r) v fits =
    let size = length-reply_body r in
    ground (arith, v.no_table, header-ok 1 (4 + length r.payload) (omega (arith, size)), size)
encode_message-ok (dec_strong a amount) (v, one) fits =
    ground (arith, v.sized, header-ok 2 32 (omega arith))

encode_message-err :
    (m : WireMessage)
    → IsMessage m
    → max_frame_len < length (body_of m)
    → encode_message m ≡ err (frame_too_large (length (body_of m)) max_frame_len)
unfolding encode_transact encode_reply
encode_message-err (transact t) v long =
    let size = length-txn_body t v in
    ground (arith, v.no_table, header-err 0 (64 + length t.payload) (omega (arith, size)), size)
encode_message-err (reply r) v long =
    let size = length-reply_body r in
    ground (arith, v.no_table, header-err 1 (4 + length r.payload) (omega (arith, size)), size)
encode_message-err (dec_strong a amount) (v, one) long = absurd (omega (arith, v.sized))

decode_body-body_of :
    (m : WireMessage) → IsMessage m → decode_body (command_of m) (body_of m) ≡ ok m
decode_body-body_of (transact t) v = decode_txn_body t v
decode_body-body_of (reply r) v = decode_reply_body r v
decode_body-body_of (dec_strong a amount) (v, one) =
    decode_dec_strong_body a v ∙ ap (λ n. ok (dec_strong a n)) (sym one)

pub command_of-lt : (m : WireMessage) → command_of m < 2 ^ 32
command_of-lt (transact t) = omega arith
command_of-lt (reply r) = omega arith
command_of-lt (dec_strong a amount) = omega arith

-- Every message with values in range and without an object table, and every single decrement, is either encoded into a frame that decodes back to it, when
-- its body is within the frame cap, or refused as too large, when it is not.
pub decode-encode :
    (m : WireMessage)
    → IsMessage m
    → (length (body_of m) ≤ max_frame_len
        → (f : List ℕ) × (encode_message m ≡ ok f) × (decode_message f ≡ ok m))
      × (max_frame_len < length (body_of m)
          → encode_message m ≡ err (frame_too_large (length (body_of m)) max_frame_len))
unfolding decode_message
decode-encode m v =
    (λ fits. (frame, encode_message-ok m v fits, decoded fits), encode_message-err m v)
  where
    frame : List ℕ
    frame = frame_of (command_of m) (body_of m)

    decoded : length (body_of m) ≤ max_frame_len → decode_message frame ≡ ok m
    decoded fits =
        rw (split_frame-frame_of (command_of m) (body_of m) (command_of-lt m) fits)
          (decode_body-body_of m v)

-- The bare session id of the preamble survives, and only four bytes are taken for one.
pub decode-encode_session_preamble :
    (id : ℤ) (extra : List ℕ)
    → IsI32 id
    → (decode_session_preamble (encode_session_preamble id) ≡ ok id)
      × (extra ≢ []
          → decode_session_preamble (encode_session_preamble id ++ extra)
            ≡ err (protocol "session preamble must be exactly 4 bytes"))
unfolding decode_session_preamble encode_session_preamble
decode-encode_session_preamble id extra h = ground (
  arith,
  length-le_bytes 4 (to_u32 id),
  from_le-le_bytes 4 (to_u32 id) (to_u32-lt id),
  as_i32-to_u32 id h,
  length-append (le_bytes 4 (to_u32 id)) extra,
  length-zero extra,
)
