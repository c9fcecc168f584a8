-- ===== src/Rpc/Wire/Tests.antt =====
-- The codecs at concrete messages.
use rsbinder.Prelude.{
  replicate, ℕ, ◌+◌, ◌-◌, ◌≡◌, ◌≤◌, ◌<◌, refl, List, [], ◌∷◌, ◌++◌, arith, length,
}
use rsbinder.Prelude.Int.{negsuc, as_i32}
use rsbinder.Prelude.Bytes.{from_le}
use rsbinder.Rpc.Address.{
  RpcAddress, initiator, acceptor, unique, unique-IsAddress, unique-injective,
}
use rsbinder.Rpc.Result.{RpcError, ok, err, protocol, frame_too_large}
use rsbinder.Rpc.Wire.Readers.{
  WireMessage, transact, reply, max_frame_len, split_frame, rd, rd_i32, rd_u32,
}
use rsbinder.Rpc.Wire.Handshake.{encode_connection_init, decode_connection_init}
use rsbinder.Rpc.Wire.R34
use rsbinder.Rpc.Wire.Android13Codec
use rsbinder.Rpc.Wire.RoundTrip
use rsbinder.Rpc.Wire.RoundTrip13
use rsbinder.Rpc.Wire.Strict.{decode_message_strict}
use rsbinder.Rpc.Wire.Android13.{encode_addr, decode_addr}
use rsbinder.Rpc.Wire.WireAddress.{IsNarrow, minted, decode-encode_addr}

abbrev first : RpcAddress
first = (unique 0 initiator).1

abbrev call : WireMessage
call = transact record {
  address = first;
  code = 3;
  flags = 1;
  async_number = 0;
  payload = 10 ∷ 20 ∷ 30 ∷ [];
  object_positions = [];
}

call-IsMessage : RoundTrip.IsMessage call
call-IsMessage = record {
  address = unique-IsAddress 0 initiator;
  code = omega arith;
  flags = omega arith;
  async_number = omega arith;
  no_table = refl;
}

decode-encode_example :
    (length (RoundTrip.body_of call) ≤ max_frame_len
      → (f : List ℕ) × (RoundTrip.encode_message call ≡ ok f) × (R34.decode_message f ≡ ok call))
    × (max_frame_len < length (RoundTrip.body_of call)
        → RoundTrip.encode_message call
          ≡ err (frame_too_large (length (RoundTrip.body_of call)) max_frame_len))
decode-encode_example = RoundTrip.decode-encode call call-IsMessage

-- A reply with status -5 and two bytes.
abbrev reply_frame : List ℕ
reply_frame =
    1 ∷ 0 ∷ 0 ∷ 0 ∷ 6 ∷ 0 ∷ 0 ∷ 0 ∷ 0 ∷ 0 ∷ 0 ∷ 0 ∷ 0 ∷ 0 ∷ 0 ∷ 0 ∷ 251 ∷ 255 ∷ 255 ∷ 255 ∷ 8 ∷ 9
    ∷ []

abbrev answer : WireMessage
answer = reply record { status = negsuc 4; payload = 8 ∷ 9 ∷ []; object_positions = [] }

reply_frame_decoded : R34.decode_message reply_frame ≡ ok answer
unfolding R34.decode_message split_frame rd_u32 rd from_le R34.decode_body rd_i32 as_i32
reply_frame_decoded = refl

decode_message_strict_example :
    (rd_u32 reply_frame 4 ≡ ok (length reply_frame - 16))
    × (length reply_frame ≤ 16 + max_frame_len)
    × ((x : ℕ) (extra : List ℕ)
        → R34.decode_message (reply_frame ++ x ∷ extra)
          ≡ err (protocol "frame length != header + bodySize"))
    × ((front : List ℕ) (x : ℕ) (back : List ℕ)
        → reply_frame ≡ front ++ x ∷ back
        → (e : RpcError) × (R34.decode_message front ≡ err e))
decode_message_strict_example = decode_message_strict reply_frame {m = answer} reply_frame_decoded

abbrev tail : List ℕ
tail = 7 ∷ []

unique-injective_example : (◌≡◌ {A = ℕ} 4 4) × (acceptor ≡ acceptor)
unique-injective_example = unique-injective 4 4 acceptor acceptor (omega arith) (omega arith) refl

first-IsNarrow : IsNarrow first
first-IsNarrow = minted 0 initiator (omega arith) refl

decode-encode_addr_example : decode_addr (encode_addr first ++ 1 ∷ []) 0 ≡ ok first
decode-encode_addr_example = decode-encode_addr first (1 ∷ []) first-IsNarrow

-- A call whose payload has objects at two places.
abbrev call13 : WireMessage
call13 = transact record {
  address = first;
  code = 3;
  flags = 1;
  async_number = 0;
  payload = 10 ∷ 20 ∷ 30 ∷ [];
  object_positions = 0 ∷ 2 ∷ [];
}

call13-IsMessage : RoundTrip13.IsMessage 1 call13
call13-IsMessage = record {
  address = first-IsNarrow;
  code = omega arith;
  flags = omega arith;
  async_number = omega arith;
  table = record { words = (omega arith, (omega arith, tt)); carried = λ e. absurd (omega arith) };
}

decode-encode13_example :
    (length (RoundTrip13.body_of 1 call13) ≤ max_frame_len
      → (f : List ℕ) × (RoundTrip13.encode_message 1 call13 ≡ ok f)
        × (Android13Codec.decode_message 1 f ≡ ok call13))
    × (max_frame_len < length (RoundTrip13.body_of 1 call13)
        → RoundTrip13.encode_message 1 call13
          ≡ err (frame_too_large (length (RoundTrip13.body_of 1 call13)) max_frame_len))
decode-encode13_example = RoundTrip13.decode-encode13 1 call13 call13-IsMessage

-- A header of version 2 with a 32-byte session id.
abbrev session : List ℕ
session = replicate 32 7

init_accepted : decode_connection_init encode_connection_init ≡ ok tt
unfolding decode_connection_init encode_connection_init
init_accepted = refl
