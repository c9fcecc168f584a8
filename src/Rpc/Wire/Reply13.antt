-- ===== src/Rpc/Wire/Reply13.antt =====
-- Replies and decrements of `Android13PlusCodec`: what is decoded of what was encoded.
use rsbinder.Prelude.{
  ℕ, zero, suc, ◌≢◌, ◌+◌, ◌%◌, ◌^◌, ◌≤◌, ◌≡◌, refl, ap, ◌∙◌, not, true, false, List, [], ◌++◌,
  arith, length, drop, replicate, ltb, ltb-false_of_le, ◌==◌, ==_iff, ==_ne, le→leb, if◌then◌else◌,
  length-append, drop-append_left, drop-append_skip,
}
use mathlib.Core.List.{append_assoc}
use rsbinder.Prelude.Int.{IsI32, to_u32, to_u32-lt, as_i32-to_u32}
use rsbinder.Prelude.Bytes.{le_bytes, length-le_bytes}
use rsbinder.Rpc.Result.{ok}
use rsbinder.Rpc.Address.{RpcAddress}
use rsbinder.Rpc.Wire.Readers.{WireReply, reply, dec_strong, max_frame_len, rd_u32}
use rsbinder.Rpc.Wire.ReaderLaws.{rd_u32-here, rd_u32-skip}
use rsbinder.Rpc.Wire.Android13.{encode_addr, reply_fixed_len, has_object_table}
use rsbinder.Rpc.Wire.Android13Codec.{decode_reply, decode_dec_strong}
use rsbinder.Rpc.Wire.Tables.{IsTable, tail_of, split-encode}
use rsbinder.Rpc.Wire.WireAddress.{IsNarrow, decode-encode_addr, length-encode_addr}

abbrev pub sized_part : ℕ → WireReply → List ℕ
sized_part version r =
    if not (version == 0) then le_bytes 4 (length r.payload % 2 ^ 32) ++ replicate 12 0 else []

abbrev pub reply_tail : ℕ → WireReply → List ℕ
reply_tail version r = tail_of version r.payload r.object_positions

unfoldable pub reply_body : ℕ → WireReply → List ℕ
reply_body version r =
    le_bytes 4 (to_u32 r.status) ++ (sized_part version r ++ reply_tail version r)

-- From version 1 on: the size word and three reserved words stand before the data.
sized_part-suc :
    (version : ℕ) (r : WireReply)
    → sized_part (suc version) r ≡ le_bytes 4 (length r.payload % 2 ^ 32) ++ replicate 12 0
sized_part-suc version r = rw (==_ne (suc version) 0 (omega arith))

reply_fixed_len-suc : (version : ℕ) → reply_fixed_len (suc version) ≡ 20
unfolding reply_fixed_len
reply_fixed_len-suc version = rw (==_ne (suc version) 0 (omega arith))

length-sized_part :
    (version : ℕ) (r : WireReply) → 4 + length (sized_part version r) ≡ reply_fixed_len version
unfolding reply_fixed_len
length-sized_part zero r = refl
length-sized_part (suc version) r =
    let size : ℕ = length r.payload % 2 ^ 32 in
    rw (sized_part-suc version r, ==_ne (suc version) 0 (omega arith))
      (omega (arith, length-append (le_bytes 4 size) (replicate 12 0), length-le_bytes 4 size))

pub length-reply_body :
    (version : ℕ) (r : WireReply)
    → length (reply_body version r) ≡ reply_fixed_len version + length (reply_tail version r)
unfolding reply_body
length-reply_body version r = omega (
  arith,
  length-append (le_bytes 4 (to_u32 r.status)) (sized_part version r ++ reply_tail version r),
  length-append (sized_part version r) (reply_tail version r),
  length-sized_part version r,
  length-le_bytes 4 (to_u32 r.status),
)

reply_tail_behind :
    (version : ℕ) (r : WireReply)
    → drop (reply_fixed_len version) (reply_body version r) ≡ reply_tail version r
unfolding reply_body
reply_tail_behind version r =
    drop-append_skip (le_bytes 4 (to_u32 r.status)) (sized_part version r ++ reply_tail version r)
      (length (sized_part version r)) {n = reply_fixed_len version}
      (omega (arith, length-sized_part version r, length-le_bytes 4 (to_u32 r.status)))
    ∙ drop-append_left (sized_part version r) (reply_tail version r) refl

abbrev size_word : ℕ → WireReply → ℕ
size_word version r = if version == 0 then 0 else length r.payload % 2 ^ 32

read_size_word :
    (version : ℕ) (r : WireReply)
    → (if has_object_table version then rd_u32 (reply_body version r) 4 else ok 0)
      ≡ ok (size_word version r)
unfolding has_object_table reply_body
read_size_word zero r = refl
read_size_word (suc version) r =
    let size : ℕ = length r.payload % 2 ^ 32 in
    rw (le→leb 1 (suc version) (omega arith), ==_ne (suc version) 0 (omega arith), append_assoc)
      (rd_u32-skip (le_bytes 4 (to_u32 r.status)) _ 0
          (omega (arith, length-le_bytes 4 (to_u32 r.status))) (omega arith)
        ∙ rd_u32-here size _ (omega arith))

pub record IsReply (version : ℕ) (r : WireReply) : Type 0 where
  pub status : IsI32 r.status
  pub table : IsTable version r.object_positions

pub decode_reply_body :
    (version : ℕ) (r : WireReply)
    → IsReply version r
    → length r.payload ≤ max_frame_len
    → decode_reply version (reply_body version r) ≡ ok (reply r)
unfolding decode_reply
decode_reply_body version r v short =
    rw
      (
        long_enough,
        read_status,
        read_size_word version r,
        reply_tail_behind version r,
        split-encode version (size_word version r) r.payload r.object_positions v.table sized,
      )
      (ap (λ s. ok (reply (record r { status = s }))) (as_i32-to_u32 r.status v.status))
  where
    long_enough : ltb (length (reply_body version r)) (reply_fixed_len version) ≡ false
    long_enough = ltb-false_of_le _ _ (omega (arith, length-reply_body version r))

    read_status : rd_u32 (reply_body version r) 0 ≡ ok (to_u32 r.status)
    read_status = unfold reply_body in rd_u32-here (to_u32 r.status) _ (to_u32-lt r.status)

    sized : version ≢ 0 → size_word version r ≡ length r.payload
    sized h = ground arith

pub decode_dec_strong_body :
    (a : RpcAddress)
    → IsNarrow a
    → decode_dec_strong (encode_addr a ++ (le_bytes 4 1 ++ le_bytes 4 0)) ≡ ok (dec_strong a 1)
unfolding decode_dec_strong
decode_dec_strong_body a v = rw (exact, decode-encode_addr a _ v, amount)
  where
    body : List ℕ
    body = encode_addr a ++ (le_bytes 4 1 ++ le_bytes 4 0)

    exact : (length body == 16) ≡ true
    exact = (==_iff _ _).1 (
        omega (
          arith,
          length-append (encode_addr a) (le_bytes 4 1 ++ le_bytes 4 0),
          length-append (le_bytes 4 1) (le_bytes 4 0),
          length-encode_addr a,
          length-le_bytes 4 1,
          length-le_bytes 4 0,
        ))

    amount : rd_u32 body 8 ≡ ok 1
    amount =
        rd_u32-skip (encode_addr a) _ 0 (omega (arith, length-encode_addr a)) (omega arith)
        ∙ rd_u32-here 1 (le_bytes 4 0) (omega arith)
