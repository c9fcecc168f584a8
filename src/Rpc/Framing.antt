-- ===== src/Rpc/Framing.antt =====
-- Length-prefixed frames on a byte stream (rsbinder/src/rpc/transport/mod.rs). A stream is what its
-- calls of `read` will answer: bytes that are there, of which a call takes as many as it has room for,
-- or an error; at its end, and at an empty piece, a call answers 0 bytes.
pub mod Chunks
mod Tests
use rsbinder.Prelude.{
  ℕ, zero, suc, ◌+◌, ◌-◌, ◌%◌, ◌^◌, ◌≤◌, ◌<◌, ◌≡◌, ◌≢◌, refl, sym, ap, ◌∙◌, Bool, true, false, List,
  [], ◌∷◌, ◌++◌, ltb, leb, if◌then◌else◌, length, take, drop, arith, inl, inr, Bool-cases,
  length-append, take-append_left, drop-append_left,
}
use mathlib.Core.List.{append_assoc}
use rsbinder.Prelude.Bytes.{le_bytes, from_le, length-le_bytes, from_le-le_bytes}
use rsbinder.Rpc.Result.{
  ErrorKind, unexpected_eof, broken_pipe, connection_reset, connection_aborted, interrupted,
  would_block, timed_out, other, RpcError, peer_closed, truncated, timeout, frame_too_large, Result,
  ok, err, ◌>>=◌, ◌>>◌, refuse_if, from_io,
}
use rsbinder.Rpc.Wire.Readers.{max_frame_len}
use rsbinder.Rpc.Wire.R34.{is_empty}

pub data Answer : Type 0 where
  bytes : List ℕ → Answer
  fails : ErrorKind → Answer

unfoldable pub write_frame : List ℕ → Result (List ℕ)
write_frame buf = do
  refuse_if (ltb max_frame_len (length buf)) (frame_too_large (length buf) max_frame_len)
  ok (le_bytes 4 (length buf % 2 ^ 32) ++ buf)

-- What an error other than `Interrupted` ends a read with, given the result for a deadline.
unfoldable pub failure : ErrorKind → RpcError → RpcError
failure would_block late = late
failure timed_out late = late
failure unexpected_eof late = from_io unexpected_eof
failure broken_pipe late = from_io broken_pipe
failure connection_reset late = from_io connection_reset
failure connection_aborted late = from_io connection_aborted
failure interrupted late = late
failure other late = from_io other

-- The loop that `read_header` and `read_body` share: `eof` and `late` give the errors for 0 bytes and
-- for a deadline, by what was filled before.
unfoldable pub fill :
    (eof late : List ℕ → RpcError) → List ℕ → ℕ → List Answer → Result (List ℕ × List Answer)
fill eof late filled zero es = ok (filled, es)
fill eof late filled (suc n) [] = err (eof filled)
fill eof late filled (suc n) (bytes [] ∷ es) = err (eof filled)
fill eof late filled (suc n) (bytes (b ∷ bs) ∷ es) =
    let rest = fill eof late (filled ++ b ∷ bs) (n - length bs) es in
    if leb (length bs) n
    then rest
    else ok (filled ++ take (suc n) (b ∷ bs), bytes (drop (suc n) (b ∷ bs)) ∷ es)
fill eof late filled (suc n) (fails interrupted ∷ es) = fill eof late filled (suc n) es
fill eof late filled (suc n) (fails k ∷ es) = err (failure k (late filled))

unfoldable pub read_header : ℕ → List Answer → Result (List ℕ × List Answer)
read_header n es =
    fill (λ filled. if is_empty filled then peer_closed else truncated)
      (λ filled. if is_empty filled then timeout else truncated) [] n es

unfoldable pub read_body : ℕ → List Answer → Result (List ℕ × List Answer)
read_body n es = fill (λ filled. truncated) (λ filled. truncated) [] n es

-- The frame, and the stream behind it.
unfoldable pub read_frame : List Answer → Result (List ℕ × List Answer)
read_frame es = do
  (len_buf, es') ← read_header 4 es
  refuse_if (ltb max_frame_len (from_le len_buf)) (frame_too_large (from_le len_buf) max_frame_len)
  read_body (from_le len_buf) es'

-- A stream that brings its bytes in pieces, with interruptions between them.
abbrev pub IsClean : List Answer → Type 0
IsClean [] = Unit
IsClean (bytes bs ∷ es) = (bs ≢ []) × IsClean es
IsClean (fails interrupted ∷ es) = IsClean es
IsClean (fails k ∷ es) = ⊥

abbrev pub content : List Answer → List ℕ
content [] = []
content (bytes bs ∷ es) = bs ++ content es
content (fails k ∷ es) = content es
