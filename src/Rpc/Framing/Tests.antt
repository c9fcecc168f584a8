-- ===== src/Rpc/Framing/Tests.antt =====
-- Streams at concrete cuts.
use rsbinder.Prelude.{ℕ, ◌≤◌, ◌<◌, ◌≡◌, refl, List, [], ◌∷◌, ◌++◌, length}
use rsbinder.Rpc.Result.{
  interrupted, would_block, truncated, timeout, peer_closed, ok, err, frame_too_large,
}
use rsbinder.Rpc.Wire.Readers.{max_frame_len}
use rsbinder.Rpc.Framing.{
  Answer, bytes, fails, write_frame, fill, failure, read_header, read_frame, IsClean, content,
}
use rsbinder.Rpc.Framing.Chunks.{read_frame-write_frame}

abbrev message : List ℕ
message = 8 ∷ 9 ∷ []

abbrev behind : List ℕ
behind = 1 ∷ []

-- The frame of two bytes in three pieces, with an interruption, and the next frame's first byte.
abbrev stream : List Answer
stream = bytes (2 ∷ 0 ∷ []) ∷ fails interrupted ∷ bytes (0 ∷ 0 ∷ 8 ∷ []) ∷ bytes (9 ∷ 1 ∷ []) ∷ []

stream-IsClean : IsClean stream
stream-IsClean = ((λ e. cc), ((λ e. cc), ((λ e. cc), tt)))

read_frame-write_frame_example :
    (length message ≤ max_frame_len
      → (frame : List ℕ) × (write_frame message ≡ ok frame)
        × (content stream ≡ frame ++ behind
            → (es' : List Answer) × (read_frame stream ≡ ok (message, es'))
              × (content es' ≡ behind)
              × IsClean es'))
    × (max_frame_len < length message
        → write_frame message ≡ err (frame_too_large (length message) max_frame_len))
read_frame-write_frame_example = read_frame-write_frame message behind stream stream-IsClean

-- A deadline inside the header loses the stream; before it, it does not.
late_header : read_frame (bytes (2 ∷ []) ∷ fails would_block ∷ []) ≡ err truncated
unfolding read_frame read_header fill failure
late_header = refl

late_start : read_frame (fails would_block ∷ stream) ≡ err timeout
unfolding read_frame read_header fill failure
late_start = refl

closed : read_frame [] ≡ err peer_closed
unfolding read_frame read_header fill
closed = refl
