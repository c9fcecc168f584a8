-- ===== src/Rpc/Wire/RoundTrip13.antt =====
-- What `Android13PlusCodec` decodes of what it encoded, at every protocol version.
use rsbinder.Prelude.{ℕ, ◌+◌, ◌≤◌, ◌<◌, ◌≡◌, sym, ap, ◌∙◌, List, ◌++◌, arith, length, length-append}
use rsbinder.Prelude.Bytes.{le_bytes, length-le_bytes}
use rsbinder.Rpc.Result.{Result, ok, err, frame_too_large}
use rsbinder.Rpc.Wire.Readers.{WireMessage, transact, reply, dec_strong, max_frame_len}
use rsbinder.Rpc.Wire.ReaderLaws.{header-ok, header-err, frame_of, split_frame-frame_of}
use rsbinder.Rpc.Wire.Android13.{encode_addr, reply_fixed_len, table_len}
use rsbinder.Rpc.Wire.Android13Codec.{
  encode_transact, encode_reply, encode_dec_strong, decode_message, decode_body,
}
use rsbinder.Rpc.Wire.Tables.{encode_data_and_table-ok, length-tail_of}
use rsbinder.Rpc.Wire.WireAddress.{IsNarrow, length-encode_addr}
use rsbinder.Rpc.Wire.RoundTrip.{command_of, command_of-lt}
use rsbinder.Rpc.Wire.Transaction13.{IsTransaction, txn_body, length-txn_body, decode_txn_body}
use rsbinder.Rpc.Wire.Reply13.{
  reply_body, IsReply, length-reply_body, decode_reply_body, decode_dec_strong_body,
}

-- The values that the Rust types and a version of the wire allow.
abbrev pub IsMessage : ℕ → WireMessage → Type 0
IsMessage version (transact t) = IsTransaction version t
IsMessage version (reply r) = IsReply version r
IsMessage version (dec_strong a amount) = IsNarrow a × (amount ≡ 1)

abbrev pub encode_message : ℕ → WireMessage → Result (List ℕ)
encode_message version (transact t) = encode_transact version t
encode_message version (reply r) = encode_reply version r
encode_message version (dec_strong a amount) = encode_dec_strong a

abbrev pub body_of : ℕ → WireMessage → List ℕ
body_of version (transact t) = txn_body version t
body_of version (reply r) = reply_body version r
body_of version (dec_strong a amount) = encode_addr a ++ (le_bytes 4 1 ++ le_bytes 4 0)

-- The size that the encoder puts into the header is the body's.
abbrev size_of : ℕ → WireMessage → ℕ
size_of version (transact t) = 40 + length t.payload + table_len version t.object_positions
size_of version (reply r) =
    reply_fixed_len version + length r.payload + table_len version r.object_positions
size_of version (dec_strong a amount) = 16

length-body_of :
    (version : ℕ) (m : WireMessage)
    → IsMessage version m
    → length (body_of version m) ≡ size_of version m
length-body_of version (transact t) v =
    omega (arith, length-txn_body version t, length-tail_of version t.payload t.object_positions)
length-body_of version (reply r) v =
    omega (arith, length-reply_body version r, length-tail_of version r.payload r.object_positions)
length-body_of version (dec_strong a amount) v = omega (
  arith,
  length-append (encode_addr a) (le_bytes 4 1 ++ le_bytes 4 0),
  length-append (le_bytes 4 1) (le_bytes 4 0),
  length-encode_addr a,
  length-le_bytes 4 1,
  length-le_bytes 4 0,
)

encode_message-ok :
    (version : ℕ) (m : WireMessage)
    → IsMessage version m
    → size_of version m ≤ max_frame_len
    → size_of version m ≡ length (body_of version m)
    → encode_message version m ≡ ok (frame_of (command_of m) (body_of version m))
unfolding encode_transact encode_reply encode_dec_strong txn_body reply_body
encode_message-ok version (transact t) v fits size = rw (
  header-ok 0 (size_of version (transact t)) fits,
  encode_data_and_table-ok version t.payload t.object_positions v.table,
  size,
)
encode_message-ok version (reply r) v fits size = rw (
  header-ok 1 (size_of version (reply r)) fits,
  encode_data_and_table-ok version r.payload r.object_positions v.table,
  size,
)
encode_message-ok version (dec_strong a amount) v fits size = rw (header-ok 2 16 fits, size)

encode_message-err :
    (version : ℕ) (m : WireMessage)
    → max_frame_len < size_of version m
    → encode_message version m ≡ err (frame_too_large (size_of version m) max_frame_len)
unfolding encode_transact encode_reply
encode_message-err version (transact t) long = rw (header-err 0 (size_of version (transact t)) long)
encode_message-err version (reply r) long = rw (header-err 1 (size_of version (reply r)) long)
encode_message-err version (dec_strong a amount) long = absurd (omega arith)

decode_body-body_of :
    (version : ℕ) (m : WireMessage)
    → IsMessage version m
    → size_of version m ≤ max_frame_len
    → decode_body version (command_of m) (body_of version m) ≡ ok m
unfolding decode_body
decode_body-body_of version (transact t) v fits = decode_txn_body version t v (omega arith)
decode_body-body_of version (reply r) v fits = decode_reply_body version r v (omega arith)
decode_body-body_of version (dec_strong a amount) (v, one) fits =
    decode_dec_strong_body a v ∙ ap (λ n. ok (dec_strong a n)) (sym one)

pub encode_message-frame_of :
    (version : ℕ) (m : WireMessage)
    → IsMessage version m
    → length (body_of version m) ≤ max_frame_len
    → (encode_message version m ≡ ok (frame_of (command_of m) (body_of version m)))
      × (decode_message version (frame_of (command_of m) (body_of version m)) ≡ ok m)
unfolding decode_message
encode_message-frame_of version m v fits =
    let size = length-body_of version m v in
    (
      encode_message-ok version m v (rw size at fits) (sym size),
      rw (split_frame-frame_of (command_of m) (body_of version m) (command_of-lt m) fits)
          (decode_body-body_of version m v (rw size at fits)),
    )

-- At every protocol version, a message with values in range that the version can carry (an address
-- minted below 2^32 or reserved, objects from version 1 on, one decrement) is either encoded into a frame
-- that decodes back to it, object table included, when its body is within the frame cap, or refused
-- as too large, when it is not.
pub decode-encode13 :
    (version : ℕ) (m : WireMessage)
    → IsMessage version m
    → (length (body_of version m) ≤ max_frame_len
        → (f : List ℕ) × (encode_message version m ≡ ok f) × (decode_message version f ≡ ok m))
      × (max_frame_len < length (body_of version m)
          → encode_message version m
            ≡ err (frame_too_large (length (body_of version m)) max_frame_len))
decode-encode13 version m v = (
  λ fits.
      let (made, back) = encode_message-frame_of version m v fits in
      (frame_of (command_of m) (body_of version m), made, back),
  λ long. rw size (encode_message-err version m (rw size at long)),
)
  where
    size : length (body_of version m) ≡ size_of version m
    size = length-body_of version m v
