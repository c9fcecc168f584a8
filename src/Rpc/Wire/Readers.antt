-- ===== src/Rpc/Wire/Readers.antt =====
-- Messages, bounds-checked readers and the frame header that the wire codecs share
-- (rsbinder/src/rpc/wire.rs, rsbinder/src/rpc/wire_android13.rs).
use rsbinder.Prelude.{
  ℕ, ◌+◌, ◌-◌, ◌*◌, ◌%◌, ◌^◌, String, not, ◌&&◌, List, ◌++◌, Option, none, some, ltb, leb, ◌==◌,
  if◌then◌else◌, length, take, drop, replicate,
}
use rsbinder.Prelude.Int.{ℤ, as_i32}
use rsbinder.Prelude.Bytes.{le_bytes, from_le}
use rsbinder.Rpc.Result.{Result, ok, err, protocol, frame_too_large, ◌>>=◌, ◌>>◌, refuse_if}
use rsbinder.Rpc.Address.{RpcAddress, rpc_addr_len}

pub record WireTransaction : Type 0 where
  pub address : RpcAddress
  pub code : ℕ
  pub flags : ℕ
  pub async_number : ℕ
  pub payload : List ℕ
  pub object_positions : List ℕ

pub record WireReply : Type 0 where
  pub status : ℤ
  pub payload : List ℕ
  pub object_positions : List ℕ

pub data WireMessage : Type 0 where
  transact : WireTransaction → WireMessage
  reply : WireReply → WireMessage
  dec_strong : RpcAddress → ℕ → WireMessage

abbrev pub max_frame_len : ℕ
max_frame_len = 64 * 1024 * 1024

abbrev pub wire_header_len : ℕ
wire_header_len = 16

abbrev pub cmd_transact : ℕ
cmd_transact = 0

abbrev pub cmd_reply : ℕ
cmd_reply = 1

abbrev pub cmd_dec_strong : ℕ
cmd_dec_strong = 2

-- `usize::checked_add` on a 64-bit host.
unfoldable pub checked_add : ℕ → ℕ → Option ℕ
checked_add a b = if ltb (a + b) (2 ^ 64) then some (a + b) else none

-- `buf.get(start..end)`.
unfoldable pub get_range : List ℕ → ℕ → ℕ → Option (List ℕ)
get_range buf start end =
    if leb start end && leb end (length buf)
    then some (take (end - start) (drop start buf))
    else none

abbrev pub ok_or {ℓ} : {A : Type ℓ} → Option A → String → Result A
ok_or none why = err (protocol why)
ok_or (some a) why = ok a

-- The `n` bytes at `off`.
unfoldable pub rd : ℕ → String → List ℕ → ℕ → Result (List ℕ)
unfolding checked_add get_range
rd n why buf off = do
  end ← ok_or (checked_add off n) "offset overflow"
  ok_or (get_range buf off end) why

unfoldable pub rd_u32 : List ℕ → ℕ → Result ℕ
rd_u32 buf off = do bytes ← rd 4 "truncated u32" buf off; ok (from_le bytes)

unfoldable pub rd_i32 : List ℕ → ℕ → Result ℤ
rd_i32 buf off = do w ← rd_u32 buf off; ok (as_i32 w)

unfoldable pub rd_u64 : List ℕ → ℕ → Result ℕ
rd_u64 buf off = do bytes ← rd 8 "truncated u64" buf off; ok (from_le bytes)

unfoldable pub rd_addr : List ℕ → ℕ → Result RpcAddress
rd_addr buf off = do
  bytes ← rd rpc_addr_len "truncated address" buf off
  ok (record { bytes = bytes })

unfoldable pub header : ℕ → ℕ → Result (List ℕ)
header command body_size = do
  refuse_if (ltb max_frame_len body_size) (frame_too_large body_size max_frame_len)
  ok (le_bytes 4 command ++ (le_bytes 4 (body_size % 2 ^ 32) ++ replicate 8 0))

-- The first part of `decode_message`: the header's checks, then the command and the body.
unfoldable pub split_frame : List ℕ → Result (ℕ × List ℕ)
split_frame frame = do
  refuse_if (ltb (length frame) wire_header_len) (protocol "frame shorter than RpcWireHeader")
  command ← rd_u32 frame 0
  body_size ← rd_u32 frame 4
  refuse_if (ltb max_frame_len body_size) (frame_too_large body_size max_frame_len)
  expected ← ok_or (checked_add wire_header_len body_size) "body size overflow"
  refuse_if (not (length frame == expected)) (protocol "frame length != header + bodySize")
  ok (command, drop wire_header_len frame)
