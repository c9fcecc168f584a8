-- ===== src/Rpc/Wire/Stream/Messages.antt =====
-- An android-13 message written to a stream and read back from it.
use rsbinder.Prelude.{
  ℕ, ◌+◌, ◌-◌, ◌≤◌, ◌≡◌, refl, sym, ap, ◌∙◌, List, [], ◌++◌, ltb, false, inl, inr, Bool-cases,
  length, take, drop, replicate, arith, length-append, length-zero,
}
use mathlib.Core.List.{append_assoc}
use rsbinder.Prelude.Bytes.{le_bytes, from_le, from_le-le_bytes}
use rsbinder.Rpc.Result.{ok}
use rsbinder.Rpc.Framing.{Answer, content}
use rsbinder.Rpc.Wire.Readers.{WireMessage, max_frame_len}
use rsbinder.Rpc.Wire.ReaderLaws.{frame_of}
use rsbinder.Rpc.Wire.Android13Codec.{decode_message}
use rsbinder.Rpc.Wire.RoundTrip.{command_of}
use rsbinder.Rpc.Wire.RoundTrip13.{IsMessage, encode_message, body_of, encode_message-frame_of}
use rsbinder.Rpc.Wire.Stream.{
  Outcome, write_aosp_message, read_aosp_message, read_body, write_all_raw,
}
use rsbinder.Rpc.Wire.Stream.Whole.{IsSolid, read_exact_raw-front}

abbrev pub quiet : {A : Type 0} → A → List Answer → Outcome A
quiet a es = record { sent = []; result = ok (a, es) }

-- The call returns the value without a byte sent, and leaves what stands behind.
abbrev pub Leaves : {A : Type 0} → Outcome A → A → List ℕ → Type 0
Leaves got a behind = (es : List Answer) × (got ≡ quiet a es) × (content es ≡ behind) × IsSolid es

head_of : ℕ → List ℕ → List ℕ
head_of command body = le_bytes 4 command ++ (le_bytes 4 (length body) ++ replicate 8 0)

length-head_of : (command : ℕ) (body : List ℕ) → length (head_of command body) ≡ 16
unfolding head_of le_bytes
length-head_of command body = refl

declared :
    (command : ℕ) (body : List ℕ)
    → length body ≤ max_frame_len
    → from_le (take 4 (drop 4 (head_of command body))) ≡ length body
unfolding head_of le_bytes
declared command body fits = unfold le_bytes in from_le-le_bytes 4 (length body) (omega arith)

read_body-front :
    (body behind : List ℕ) (es : List Answer)
    → IsSolid es
    → content es ≡ body ++ behind
    → Leaves (read_body (length body) es) body behind
unfolding read_body
read_body-front body behind es solid brought =
    let (es', got, left, tidy) = read_exact_raw-front body behind es refl solid brought in
    (es', rw got refl, left, tidy)

no_body : (body : List ℕ) → ltb 0 (length body) ≡ false → body ≡ []
no_body body h = length-zero body (ground (arith, h))

length-frame_of : (command : ℕ) (body : List ℕ) → length (frame_of command body) ≡ 16 + length body
unfolding head_of
length-frame_of command body =
    length-append (head_of command body) body
    ∙ ap (λ n. n + length body) (length-head_of command body)

write_aosp_message-frame_of :
    (command : ℕ) (body : List ℕ) (es : List Answer)
    → length body ≤ max_frame_len
    → write_aosp_message (frame_of command body) es
      ≡ record { sent = frame_of command body; result = ok (tt, es) }
unfolding write_aosp_message write_all_raw
write_aosp_message-frame_of command body es fits =
    let whole = length-frame_of command body in
    let long : ltb (length (frame_of command body)) 16 ≡ false = ground (arith, whole) in
    let small : ltb max_frame_len (length (frame_of command body) - 16) ≡ false =
      ground (arith, whole) in
    rw (long, small) refl

pub read_aosp_message-front :
    (command : ℕ) (body behind : List ℕ) (es : List Answer)
    → length body ≤ max_frame_len
    → IsSolid es
    → content es ≡ frame_of command body ++ behind
    → Leaves (read_aosp_message es) (frame_of command body) behind
unfolding read_aosp_message head_of
read_aosp_message-front command body behind es fits solid brought =
    let (after, got, left, tidy) =
      read_exact_raw-front (head_of command body) (body ++ behind) es (length-head_of command body)
        solid (brought ∙ append_assoc (head_of command body) body behind) in
    let size = declared command body fits in
    let small : ltb max_frame_len (length body) ≡ false = ground arith in
    elim (Bool-cases (ltb 0 (length body))) [
      | inl some_bytes ↦
          let (es', got', left', tidy') = read_body-front body behind after tidy left in
          (es', rw (got, size, small, some_bytes, got') refl, left', tidy')
      | inr no_bytes ↦
          let empty = no_body body no_bytes in
          (
            after,
            rw (got, size, small, no_bytes)
                (ap (λ (xs : List ℕ). quiet (head_of command body ++ xs) after) (sym empty)),
            left ∙ ap (λ (xs : List ℕ). xs ++ behind) empty,
            tidy,
          )
    ]

-- A message with values in range that the version can carry, when its body is within the frame cap,
-- is encoded into a frame that `write_aosp_message` sends as it is. From any stream that brings this
-- frame, in pieces of any size and whatever stands behind it, `read_aosp_message` reads exactly the
-- frame, sends nothing, and leaves what stands behind it, and the frame decodes to the message.
pub read_aosp-write_aosp :
    (version : ℕ) (m : WireMessage) (behind : List ℕ) (es : List Answer)
    → IsMessage version m
    → length (body_of version m) ≤ max_frame_len
    → IsSolid es
    → content es ≡ frame_of (command_of m) (body_of version m) ++ behind
    → (f : List ℕ) × (encode_message version m ≡ ok f)
      × (write_aosp_message f es ≡ record { sent = f; result = ok (tt, es) })
      × Leaves (read_aosp_message es) f behind
      × (decode_message version f ≡ ok m)
read_aosp-write_aosp version m behind es v fits solid brought =
    let (made, back) = encode_message-frame_of version m v fits in
    (
      frame_of (command_of m) (body_of version m),
      made,
      write_aosp_message-frame_of (command_of m) (body_of version m) es fits,
      read_aosp_message-front (command_of m) (body_of version m) behind es fits solid brought,
      back,
    )
