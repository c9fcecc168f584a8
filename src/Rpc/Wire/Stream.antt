-- ===== src/Rpc/Wire/Stream.antt =====
-- Messages and handshake structs on a raw byte stream (rsbinder/src/rpc/wire_android13.rs). A call gets
-- what its reads will be answered, and returns the bytes it has sent, also when it fails.
pub mod Whole
pub mod Messages
mod Tests
use rsbinder.Prelude.{
  ℕ, zero, suc, ◌+◌, ◌-◌, Bool, true, false, List, [], ◌∷◌, ◌++◌, ltb, leb, ◌==◌, if◌then◌else◌,
  length, take, drop,
}
use rsbinder.Prelude.Bytes.{from_le}
use rsbinder.Rpc.Result.{
  ErrorKind, timed_out, RpcError, peer_closed, truncated, timeout, protocol, frame_too_large, io,
  Result, ok, err, from_io,
}
use rsbinder.Rpc.Framing.{Answer, bytes, fails}
use rsbinder.Rpc.Wire.Readers.{max_frame_len, wire_header_len}
use rsbinder.Rpc.Wire.R34.{is_empty}

-- What a call has sent, and its result with the stream that is left.
pub record Outcome (A : Type 0) : Type 0 where
  pub sent : List ℕ
  pub result : Result (A × List Answer)

abbrev pub M : Type 0 → Type 0
M A = List Answer → Outcome A

abbrev pub pure : {A : Type 0} → A → M A
pure a es = record { sent = []; result = ok (a, es) }

abbrev pub fail : {A : Type 0} → RpcError → M A
fail e es = record { sent = []; result = err e }

abbrev pub and_then : {A B : Type 0} → List ℕ → Result (A × List Answer) → (A → M B) → Outcome B
and_then sent (err e) f = record { sent = sent; result = err e }
and_then sent (ok (a, es)) f =
    let next = f a es in record { sent = sent ++ next.sent; result = next.result }

infixl 5 ◌>>=◌ ◌>>◌
abbrev pub ◌>>=◌ : {A B : Type 0} → M A → (A → M B) → M B
◌>>=◌ m f es = let first = m es in and_then first.sent first.result f

abbrev pub ◌>>◌ : {B : Type 0} → M (Unit {0}) → M B → M B
m >> next = m >>= λ _. next

-- A `Result` of the codec, with `?`.
abbrev pub lift : {A : Type 0} → Result A → M A
lift (ok a) = pure a
lift (err e) = fail e

abbrev pub refuse_if : Bool → RpcError → M (Unit {0})
refuse_if true e = fail e
refuse_if false e = pure tt

-- `write_all_raw`; the write itself does not fail.
unfoldable pub write_all_raw : List ℕ → M (Unit {0})
write_all_raw buf es = record { sent = buf; result = ok (tt, es) }

-- The error of a read that ends early: a clean one before any byte.
abbrev pub early : List ℕ → RpcError → RpcError
early filled clean = if is_empty filled then clean else truncated

unfoldable pub failure : ErrorKind → List ℕ → RpcError
failure timed_out filled = early filled timeout
failure ErrorKind.unexpected_eof filled = from_io ErrorKind.unexpected_eof
failure ErrorKind.broken_pipe filled = from_io ErrorKind.broken_pipe
failure ErrorKind.connection_reset filled = from_io ErrorKind.connection_reset
failure ErrorKind.connection_aborted filled = from_io ErrorKind.connection_aborted
failure ErrorKind.interrupted filled = from_io ErrorKind.interrupted
failure ErrorKind.would_block filled = from_io ErrorKind.would_block
failure ErrorKind.other filled = from_io ErrorKind.other

-- The loop of `read_exact_raw`, with what it has read.
unfoldable pub fill_raw : List ℕ → ℕ → List Answer → Result (List ℕ × List Answer)
fill_raw filled zero es = ok (filled, es)
fill_raw filled (suc n) [] = err (early filled peer_closed)
fill_raw filled (suc n) (bytes [] ∷ es) = err (early filled peer_closed)
fill_raw filled (suc n) (bytes (b ∷ bs) ∷ es) =
    let rest = fill_raw (filled ++ b ∷ bs) (n - length bs) es in
    if leb (length bs) n
    then rest
    else ok (filled ++ take (suc n) (b ∷ bs), bytes (drop (suc n) (b ∷ bs)) ∷ es)
fill_raw filled (suc n) (fails k ∷ es) = err (failure k filled)

unfoldable pub read_exact_raw : ℕ → M (List ℕ)
read_exact_raw n es = record { sent = []; result = fill_raw [] n es }

unfoldable pub write_aosp_message : List ℕ → M (Unit {0})
write_aosp_message msg = do
  refuse_if (ltb (length msg) wire_header_len) (protocol "message shorter than RpcWireHeader")
  refuse_if (ltb max_frame_len (length msg - wire_header_len))
      (frame_too_large (length msg - wire_header_len) max_frame_len)
  write_all_raw msg

-- The header is consumed: a clean end before the body is none.
abbrev pub mid_message : Result (List ℕ × List Answer) → Result (List ℕ × List Answer)
mid_message (ok r) = ok r
mid_message (err timeout) = err truncated
mid_message (err peer_closed) = err truncated
mid_message (err truncated) = err truncated
mid_message (err (frame_too_large declared bound)) = err (frame_too_large declared bound)
mid_message (err (io k)) = err (io k)
mid_message (err (protocol why)) = err (protocol why)

unfoldable pub read_body : ℕ → M (List ℕ)
read_body n es = record { sent = []; result = mid_message (read_exact_raw n es).result }

unfoldable pub read_aosp_message : M (List ℕ)
read_aosp_message = do
  header ← read_exact_raw wire_header_len
  let body_size = from_le (take 4 (drop 4 header))
  refuse_if (ltb max_frame_len body_size) (frame_too_large body_size max_frame_len)
  body ← if ltb 0 body_size then read_body body_size else pure []
  pure (header ++ body)
