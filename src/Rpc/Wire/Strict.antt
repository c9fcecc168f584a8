-- ===== src/Rpc/Wire/Strict.antt =====
-- What the decoder accepts: the frame's length is what its header declares, so a frame that decodes
-- neither extends nor cuts down to another that does.
use rsbinder.Prelude.{
  ℕ, ◌+◌, ◌-◌, ◌≤◌, ◌≡◌, ap, ◌∙◌, String, List, ◌∷◌, ◌++◌, inl, inr, arith, length, drop,
  length-append, length-drop, drop-append_le, take-append_le,
}
use rsbinder.Rpc.Result.{ok, err, RpcError, protocol, Result-cases}
use rsbinder.Rpc.Wire.Readers.{WireMessage, max_frame_len, rd, rd_u32, split_frame, checked_add}
use rsbinder.Rpc.Wire.R34.{decode_message}

-- Bytes behind the buffer do not change what was read inside it.
pub rd-append :
    (n : ℕ) (why : String) (buf extra : List ℕ) (off : ℕ) {bytes : List ℕ}
    → rd n why buf off ≡ ok bytes
    → rd n why (buf ++ extra) off ≡ ok bytes
unfolding rd
rd-append n why buf extra off {bytes} h = ground (
  arith,
  length-append buf extra,
  length-drop off buf,
  drop-append_le off buf extra,
  take-append_le (off + n - off) (drop off buf) extra,
)

pub rd_u32-append :
    (buf extra : List ℕ) (off : ℕ) {w : ℕ}
    → rd_u32 buf off ≡ ok w
    → rd_u32 (buf ++ extra) off ≡ ok w
unfolding rd_u32
rd_u32-append buf extra off {w} h = elim (Result-cases (rd 4 "truncated u32" buf off)) [
  | inl (bytes, e) ↦ rw (rd-append 4 "truncated u32" buf extra off e) (rw e at h)
  | inr (x, e) ↦ cc (rw e at h)
]

-- What a successful `split_frame` has checked.
pub record Framed (frame : List ℕ) (command : ℕ) (body : List ℕ) : Type 0 where
  pub command_read : rd_u32 frame 0 ≡ ok command
  pub size_read : rd_u32 frame 4 ≡ ok (length body)
  pub whole : length frame ≡ 16 + length body
  pub bounded : length body ≤ max_frame_len
  pub behind : body ≡ drop 16 frame

pub split_frame-Framed :
    (frame : List ℕ) {command : ℕ} {body : List ℕ}
    → split_frame frame ≡ ok (command, body)
    → Framed frame command body
unfolding split_frame checked_add
split_frame-Framed frame {command} {body} h = elim (Result-cases (rd_u32 frame 0)) [
  | inl (c, e) ↦ elim (Result-cases (rd_u32 frame 4)) [
    | inl (s, e') ↦ ground (arith, e, e', length-drop 16 frame)
    | inr (x, e') ↦ ground (arith, e, e')
  ]
  | inr (x, e) ↦ ground (arith, e)
]

decode_message-Framed :
    (frame : List ℕ) {m : WireMessage}
    → decode_message frame ≡ ok m
    → (command : ℕ) × (body : List ℕ) × (split_frame frame ≡ ok (command, body))
unfolding decode_message
decode_message-Framed frame {m} h = elim (Result-cases (split_frame frame)) [
  | inl ((command, body), e) ↦ (command, body, e)
  | inr (x, e) ↦ cc (rw e at h)
]

-- A frame that carries on behind the declared body is refused.
split_frame-long :
    (frame : List ℕ) (x : ℕ) (extra : List ℕ) {command : ℕ} {body : List ℕ}
    → Framed frame command body
    → split_frame (frame ++ x ∷ extra) ≡ err (protocol "frame length != header + bodySize")
unfolding split_frame checked_add
split_frame-long frame x extra {command} {body} v = ground (
  arith,
  rd_u32-append frame (x ∷ extra) 0 v.command_read,
  rd_u32-append frame (x ∷ extra) 4 v.size_read,
  v.whole,
  v.bounded,
  length-append frame (x ∷ extra),
)

-- A frame that decodes is as long as its header declares and within the cap; with anything behind it,
-- it is refused for its length; and none of its proper prefixes decodes.
pub decode_message_strict :
    (frame : List ℕ) {m : WireMessage}
    → decode_message frame ≡ ok m
    → (rd_u32 frame 4 ≡ ok (length frame - 16))
      × (length frame ≤ 16 + max_frame_len)
      × ((x : ℕ) (extra : List ℕ)
          → decode_message (frame ++ x ∷ extra)
            ≡ err (protocol "frame length != header + bodySize"))
      × ((front : List ℕ) (x : ℕ) (back : List ℕ)
          → frame ≡ front ++ x ∷ back
          → (e : RpcError) × (decode_message front ≡ err e))
unfolding decode_message
decode_message_strict frame {m} h =
    let (command, body, e) = decode_message-Framed frame h in
    let v : Framed frame command body = split_frame-Framed frame e in
    (
      v.size_read ∙ ap ok (omega (arith, v.whole)),
      omega (arith, v.whole, v.bounded),
      λ x extra. rw (split_frame-long frame x extra v),
      λ front x back cut. elim (Result-cases (decode_message front)) [
        | inr (e', refused) ↦ (e', refused)
        | inl (m', took) ↦
            let (c', b', e') = decode_message-Framed front took in
            absurd (cc (split_frame-long front x back (split_frame-Framed front e'), rw cut at e))
      ],
    )
