-- ===== src/Rpc/Framing/Chunks.antt =====
-- A frame is read whole however the stream cuts it.
use rsbinder.Prelude.{
  take-append_more, drop-append_more, take-append_less, drop-append_less, ℕ, zero, suc, ◌-◌, ◌%◌,
  ◌^◌, ◌≤◌, ◌<◌, ◌≡◌, refl, sym, ap, ◌∙◌, List, [], ◌∷◌, ◌++◌, leb, length, take, drop, arith, inl,
  inr, Bool-cases, length-append, take-append_left, drop-append_left,
}
use mathlib.Core.List.{append_assoc, append-nil}
use rsbinder.Prelude.Bytes.{le_bytes, from_le, length-le_bytes, from_le-le_bytes}
use rsbinder.Rpc.Result.{
  unexpected_eof, broken_pipe, connection_reset, connection_aborted, interrupted, would_block,
  timed_out, other, RpcError, frame_too_large, Result, ok, err,
}
use rsbinder.Rpc.Wire.Readers.{max_frame_len}
use rsbinder.Rpc.Framing.{
  Answer, bytes, fails, write_frame, fill, read_header, read_body, read_frame, IsClean, content,
}

-- What a clean stream of at least `n` bytes fills, and what it leaves.
Filled : List ℕ → ℕ → List Answer → Result (List ℕ × List Answer) → Type 0
Filled filled n es r =
    (es' : List Answer) × (r ≡ ok (filled ++ take n (content es), es'))
    × (content es' ≡ drop n (content es))
    × IsClean es'

fill-Filled :
    (eof late : List ℕ → RpcError) (filled : List ℕ) (n : ℕ) (es : List Answer)
    → IsClean es
    → n ≤ length (content es)
    → Filled filled n es (fill eof late filled n es)
unfolding Filled fill
fill-Filled eof late filled zero es clean enough =
    (es, ap (λ (l : List ℕ). ok (l, es)) (sym (append-nil filled)), refl, clean)
fill-Filled eof late filled (suc n) [] clean enough = absurd (omega arith)
fill-Filled eof late filled (suc n) (bytes [] ∷ es) clean enough = absurd (clean.0 refl)
fill-Filled eof late filled (suc n) (bytes (b ∷ bs) ∷ es) clean enough =
    elim (Bool-cases (leb (length bs) n)) [
      | inl whole ↦
          let fits : length bs ≤ n = ground (arith, whole) in
          let (es', got, left, tidy) =
            fill-Filled eof late (filled ++ b ∷ bs) (n - length bs) es clean.1
              (ground (arith, whole, length-append bs (content es))) in
          (
            es',
            rw whole (
                got
                ∙ ap (λ (l : List ℕ). ok (l, es'))
                    (append_assoc filled (b ∷ bs) (take (n - length bs) (content es))
                      ∙ ap (λ (l : List ℕ). filled ++ b ∷ l)
                          (sym (take-append_more bs (content es) n fits)))),
            left ∙ sym (drop-append_more bs (content es) n fits),
            tidy,
          )
      | inr part ↦
          let cut : n < length bs = ground (arith, part) in
          let behind = drop-append_less bs (content es) n cut in
          (
            bytes (drop n bs) ∷ es,
            rw part (
                ap (λ (l : List ℕ). ok (filled ++ b ∷ l, bytes (drop n bs) ∷ es))
                  (sym (take-append_less bs (content es) n cut))),
            sym behind.0,
            (behind.1, clean.1),
          )
    ]
fill-Filled eof late filled (suc n) (fails interrupted ∷ es) clean enough =
    fill-Filled eof late filled (suc n) es clean enough
fill-Filled eof late filled (suc n) (fails unexpected_eof ∷ es) clean enough = absurd clean
fill-Filled eof late filled (suc n) (fails broken_pipe ∷ es) clean enough = absurd clean
fill-Filled eof late filled (suc n) (fails connection_reset ∷ es) clean enough = absurd clean
fill-Filled eof late filled (suc n) (fails connection_aborted ∷ es) clean enough = absurd clean
fill-Filled eof late filled (suc n) (fails would_block ∷ es) clean enough = absurd clean
fill-Filled eof late filled (suc n) (fails timed_out ∷ es) clean enough = absurd clean
fill-Filled eof late filled (suc n) (fails other ∷ es) clean enough = absurd clean

header-Filled :
    (n : ℕ) (es : List Answer)
    → IsClean es
    → n ≤ length (content es)
    → (es' : List Answer) × (read_header n es ≡ ok (take n (content es), es'))
      × (content es' ≡ drop n (content es))
      × IsClean es'
unfolding read_header Filled
header-Filled n es clean enough = fill-Filled _ _ [] n es clean enough

body-Filled :
    (n : ℕ) (es : List Answer)
    → IsClean es
    → n ≤ length (content es)
    → (es' : List Answer) × (read_body n es ≡ ok (take n (content es), es'))
      × (content es' ≡ drop n (content es))
      × IsClean es'
unfolding read_body Filled
body-Filled n es clean enough = fill-Filled _ _ [] n es clean enough

-- A frame that stands in front is read.
read_frame-front :
    (message behind : List ℕ) (es : List Answer)
    → IsClean es
    → length message ≤ max_frame_len
    → content es ≡ le_bytes 4 (length message % 2 ^ 32) ++ (message ++ behind)
    → (es' : List Answer) × (read_frame es ≡ ok (message, es'))
      × (content es' ≡ behind)
      × IsClean es'
unfolding read_frame
read_frame-front message behind es clean fits whole =
    let size = le_bytes 4 (length message % 2 ^ 32) in
    let sized : length size ≡ 4 = length-le_bytes 4 (length message % 2 ^ 32) in
    let (es1, got1, left1, clean1) =
      header-Filled 4 es clean
        (ground (arith, ap length whole, sized, length-append size (message ++ behind))) in
    let rest : content es1 ≡ message ++ behind =
      left1 ∙ ap (drop 4) whole ∙ drop-append_left size (message ++ behind) sized in
    let header : read_header 4 es ≡ ok (size, es1) =
      got1
      ∙ ap (λ (l : List ℕ). ok (l, es1))
          (ap (take 4) whole ∙ take-append_left size (message ++ behind) sized) in
    let count : from_le size ≡ length message =
      from_le-le_bytes 4 (length message % 2 ^ 32) (omega arith) ∙ omega arith in
    let (es2, got2, left2, clean2) =
      body-Filled (length message) es1 clean1
        (ground (arith, ap length rest, length-append message behind)) in
    let body : read_body (length message) es1 ≡ ok (message, es2) =
      got2
      ∙ ap (λ (l : List ℕ). ok (l, es2))
          (ap (take (length message)) rest ∙ take-append_left message behind refl) in
    (
      es2,
      rw (header, count) ground (arith, body),
      left2 ∙ ap (drop (length message)) rest ∙ drop-append_left message behind refl,
      clean2,
    )

-- A message within the frame cap is written as a frame, and from any stream that brings this frame
-- and then more bytes, in pieces of any size and with interruptions between them, it is read back,
-- with what stood behind it left in the stream. A longer message is refused by the writer.
pub read_frame-write_frame :
    (message behind : List ℕ) (es : List Answer)
    → IsClean es
    → (length message ≤ max_frame_len
        → (frame : List ℕ) × (write_frame message ≡ ok frame)
          × (content es ≡ frame ++ behind
              → (es' : List Answer) × (read_frame es ≡ ok (message, es'))
                × (content es' ≡ behind)
                × IsClean es'))
      × (max_frame_len < length message
          → write_frame message ≡ err (frame_too_large (length message) max_frame_len))
unfolding write_frame
read_frame-write_frame message behind es clean =
    let size = le_bytes 4 (length message % 2 ^ 32) in
    (
      λ fits. (
        size ++ message,
        ground arith,
        λ brought.
            read_frame-front message behind es clean fits
              (brought ∙ append_assoc size message behind),
      ),
      λ long. ground arith,
    )
