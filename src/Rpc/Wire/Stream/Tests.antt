-- ===== src/Rpc/Wire/Stream/Tests.antt =====
-- A message in pieces on a raw stream.
use rsbinder.Prelude.{ℕ, ◌≤◌, ◌≡◌, refl, List, [], ◌∷◌, ◌++◌, length, arith}
use rsbinder.Prelude.Bytes.{le_bytes, from_le}
use rsbinder.Rpc.Address.{initiator, unique, is_zero, tag}
use rsbinder.Rpc.Result.{ok, err, truncated, peer_closed, timed_out, timeout}
use rsbinder.Rpc.Framing.{Answer, bytes, fails, content}
use rsbinder.Rpc.Wire.Readers.{WireMessage, dec_strong, max_frame_len}
use rsbinder.Rpc.Wire.ReaderLaws.{frame_of}
use rsbinder.Rpc.Wire.Android13.{encode_addr}
use rsbinder.Rpc.Wire.Android13Codec.{decode_message}
use rsbinder.Rpc.Wire.RoundTrip.{command_of}
use rsbinder.Rpc.Wire.RoundTrip13.{IsMessage, encode_message, body_of}
use rsbinder.Rpc.Wire.WireAddress.{minted}
use rsbinder.Rpc.Wire.Stream.{
  write_aosp_message, read_aosp_message, read_exact_raw, fill_raw, failure, read_body,
}
use rsbinder.Rpc.Wire.Stream.Messages.{Leaves, read_aosp-write_aosp}

abbrev release : WireMessage
release = dec_strong (unique 0 initiator).1 1

release-IsMessage : IsMessage 0 release
release-IsMessage = (minted 0 initiator (omega arith) refl, refl)

-- The frame in two pieces, the second with the first byte of what follows.
abbrev stream : List Answer
stream =
    bytes (2 ∷ 0 ∷ 0 ∷ 0 ∷ 16 ∷ 0 ∷ [])
    ∷ bytes (
        0 ∷ 0 ∷ 0 ∷ 0 ∷ 0 ∷ 0 ∷ 0 ∷ 0 ∷ 0 ∷ 0 ∷ 1 ∷ 0 ∷ 0 ∷ 0 ∷ 1 ∷ 0 ∷ 0 ∷ 0 ∷ 1 ∷ 0 ∷ 0 ∷ 0 ∷ 0
        ∷ 0 ∷ 0 ∷ 0 ∷ 9 ∷ [])
    ∷ []

abbrev behind : List ℕ
behind = 9 ∷ []

stream-content : content stream ≡ frame_of (command_of release) (body_of 0 release) ++ behind
unfolding encode_addr le_bytes unique is_zero from_le tag
stream-content = refl

short : length (body_of 0 release) ≤ max_frame_len
unfolding encode_addr le_bytes unique is_zero from_le tag
short = omega arith

read_aosp-write_aosp_example :
    (f : List ℕ) × (encode_message 0 release ≡ ok f)
    × (write_aosp_message f stream ≡ record { sent = f; result = ok (tt, stream) })
    × Leaves (read_aosp_message stream) f behind
    × (decode_message 0 f ≡ ok release)
read_aosp-write_aosp_example =
    read_aosp-write_aosp 0 release behind stream release-IsMessage short
      ((λ e. cc), ((λ e. cc), tt)) stream-content

-- A stream that ends behind the header is cut, one that ends before it is closed.
cut :
    (read_aosp_message
      (bytes (2 ∷ 0 ∷ 0 ∷ 0 ∷ 16 ∷ 0 ∷ 0 ∷ 0 ∷ 0 ∷ 0 ∷ 0 ∷ 0 ∷ 0 ∷ 0 ∷ 0 ∷ 0 ∷ []) ∷ [])).result
    ≡ err truncated
unfolding read_aosp_message read_exact_raw fill_raw from_le read_body
cut = refl

closed : (read_aosp_message []).result ≡ err peer_closed
unfolding read_aosp_message read_exact_raw fill_raw
closed = refl

late : (read_aosp_message (fails timed_out ∷ stream)).result ≡ err timeout
unfolding read_aosp_message read_exact_raw fill_raw failure
late = refl
