-- ===== src/Rpc/Wire/FdStream.antt =====
-- Messages with file descriptors on a transport (rsbinder/src/rpc/wire_android13.rs). A transport is what
-- its calls of `recv_raw_with_fds` will answer: bytes that are there, of which a call takes as many as it
-- has room for, with the descriptors that came with them, or an error; at its end a call answers 0
-- bytes. What `send_raw_with_fds` does is the transport's.
pub mod Received
pub mod Plain
mod Tests
use rsbinder.Prelude.{
  ℕ, zero, suc, ◌+◌, ◌-◌, List, [], ◌∷◌, ◌++◌, ltb, leb, ◌==◌, if◌then◌else◌, length, take, drop,
}
use rsbinder.Prelude.Bytes.{from_le}
use rsbinder.Rpc.Result.{
  RpcError, peer_closed, truncated, timeout, protocol, frame_too_large, io, Result, ok, err, ◌>>=◌,
  ◌>>◌, refuse_if,
}
use rsbinder.Rpc.Wire.Readers.{max_frame_len, wire_header_len}

abbrev pub max_fds_per_frame : ℕ
max_fds_per_frame = 64

pub data Recv : Type 0 where
  brings : List ℕ → List ℕ → Recv
  refuses : RpcError → Recv

-- What the closure `fill` shares between the header and the body.
pub record Progress : Type 0 where
  pub fds : List ℕ
  pub total_read : ℕ

abbrev pub Filling : Type 0
Filling = Result (List ℕ × Progress × List Recv)

unfoldable pub write_aosp_message_with_fds :
    (send_raw_with_fds : List ℕ → List ℕ → Result (Unit {0})) → List ℕ → List ℕ → Result (Unit {0})
write_aosp_message_with_fds send_raw_with_fds msg fds = do
  refuse_if (ltb (length msg) wire_header_len) (protocol "message shorter than RpcWireHeader")
  refuse_if (ltb max_frame_len (length msg - wire_header_len))
      (frame_too_large (length msg - wire_header_len) max_frame_len)
  send_raw_with_fds msg fds

-- The errors for 0 bytes and for a failed call.
abbrev pub ended : Progress → RpcError
ended p = if p.total_read == 0 then peer_closed else truncated

abbrev pub recv_failed : Progress → RpcError → RpcError
recv_failed p timeout = if p.total_read == 0 then timeout else truncated
recv_failed p peer_closed = peer_closed
recv_failed p truncated = truncated
recv_failed p (frame_too_large declared bound) = frame_too_large declared bound
recv_failed p (io k) = io k
recv_failed p (protocol why) = protocol why

abbrev pub budget : RpcError
budget = protocol "RPC message exceeded MAX_FDS_PER_FRAME (ancillary fd budget)"

abbrev pub advance : Progress → List ℕ → ℕ → Progress
advance p more n = record { fds = p.fds ++ more; total_read = p.total_read + n }

-- The loop of the closure `fill`, with what this call has read.
unfoldable pub fill : List ℕ → ℕ → Progress → List Recv → Filling
fill buf zero p es = ok (buf, p, es)
fill buf (suc n) p [] = err (ended p)
fill buf (suc n) p (brings [] more ∷ es) =
    if ltb max_fds_per_frame (length (p.fds ++ more)) then err budget else err (ended p)
fill buf (suc n) p (brings (b ∷ bs) more ∷ es) =
    let rest = fill (buf ++ b ∷ bs) (n - length bs) (advance p more (suc (length bs))) es in
    if ltb max_fds_per_frame (length (p.fds ++ more))
    then err budget
    else if leb (length bs) n
    then rest
    else ok (
      buf ++ take (suc n) (b ∷ bs),
      advance p more (suc n),
      brings (drop (suc n) (b ∷ bs)) [] ∷ es,
    )
fill buf (suc n) p (refuses e ∷ es) = err (recv_failed p e)

unfoldable pub read_aosp_message_with_fds : List Recv → Result (List ℕ × List ℕ × List Recv)
read_aosp_message_with_fds es = do
  (header, p, es1) ← fill [] wire_header_len (record { fds = []; total_read = 0 }) es
  let body_size = from_le (take 4 (drop 4 header))
  refuse_if (ltb max_frame_len body_size) (frame_too_large body_size max_frame_len)
  (body, p', es2) ← if ltb 0 body_size then fill [] body_size p es1 else ok ([], p, es1)
  ok (header ++ body, p'.fds, es2)
