-- ===== src/Rpc/Wire/ReaderLaws.antt =====
-- The laws of the readers: reading back what an encoder wrote, at the front of an append and behind
-- its first part.
use rsbinder.Prelude.{
  ℕ, ◌+◌, ◌-◌, ◌%◌, ◌^◌, ◌≤◌, ◌<◌, ◌≡◌, ap, ◌∙◌, String, List, ◌++◌, arith, length, drop, replicate,
  length-append, length-take, length-drop, take-append_left, drop-append_left, drop-append_skip,
}
use rsbinder.Prelude.Int.{ℤ, IsI32, to_u32, to_u32-lt, as_i32-to_u32}
use rsbinder.Prelude.Bytes.{le_bytes, length-le_bytes, from_le-le_bytes}
use mathlib.Core.List.{append_assoc}
use rsbinder.Rpc.Result.{ok, err, frame_too_large}
use rsbinder.Rpc.Address.{RpcAddress, IsAddress}
use rsbinder.Rpc.Wire.Readers.{
  max_frame_len, rd, rd_u32, rd_i32, rd_u64, rd_addr, header, split_frame, checked_add,
}

-- Reading at the front of an append, and behind its first part.
pub rd-here :
    (xs ys : List ℕ) {n : ℕ} (why : String)
    → length xs ≡ n
    → n < 2 ^ 64
    → rd n why (xs ++ ys) 0 ≡ ok xs
unfolding rd
rd-here xs ys {n} why h lt = ground (arith, length-append xs ys, take-append_left xs ys h)

pub rd-skip :
    (xs ys : List ℕ) (k n : ℕ) {off : ℕ} (why : String)
    → length xs + k ≡ off
    → off + n < 2 ^ 64
    → rd n why (xs ++ ys) off ≡ rd n why ys k
unfolding rd
rd-skip xs ys k n {off} why h lt = ground (arith, length-append xs ys, drop-append_skip xs ys k h)

pub rd-length :
    (n : ℕ) (why : String) (buf : List ℕ) (off : ℕ) {bytes : List ℕ}
    → rd n why buf off ≡ ok bytes
    → (length bytes ≡ n) × (off + n ≤ length buf)
unfolding rd
rd-length n why buf off {bytes} h =
    ground (arith, length-take (off + n - off) (drop off buf), length-drop off buf)

-- The same for words.
pub rd_u32-here : (v : ℕ) (ys : List ℕ) → v < 2 ^ 32 → rd_u32 (le_bytes 4 v ++ ys) 0 ≡ ok v
unfolding rd_u32
rd_u32-here v ys h =
    rw (rd-here (le_bytes 4 v) ys "truncated u32" (length-le_bytes 4 v) (omega arith))
      (ap ok (from_le-le_bytes 4 v h))

pub rd_u64-here : (v : ℕ) (ys : List ℕ) → v < 2 ^ 64 → rd_u64 (le_bytes 8 v ++ ys) 0 ≡ ok v
unfolding rd_u64
rd_u64-here v ys h =
    rw (rd-here (le_bytes 8 v) ys "truncated u64" (length-le_bytes 8 v) (omega arith))
      (ap ok (from_le-le_bytes 8 v h))

pub rd_i32-here : (i : ℤ) (ys : List ℕ) → IsI32 i → rd_i32 (le_bytes 4 (to_u32 i) ++ ys) 0 ≡ ok i
unfolding rd_i32
rd_i32-here i ys h = rw (rd_u32-here (to_u32 i) ys (to_u32-lt i)) (ap ok (as_i32-to_u32 i h))

pub rd_addr-here : (a : RpcAddress) (ys : List ℕ) → IsAddress a → rd_addr (a.bytes ++ ys) 0 ≡ ok a
unfolding rd_addr
rd_addr-here a ys h = rw (rd-here a.bytes ys "truncated address" h.sized (omega arith))

pub rd_u32-skip :
    (xs ys : List ℕ) (k : ℕ) {off : ℕ}
    → length xs + k ≡ off
    → off < 2 ^ 32
    → rd_u32 (xs ++ ys) off ≡ rd_u32 ys k
unfolding rd_u32
rd_u32-skip xs ys k h lt = rw (rd-skip xs ys k 4 "truncated u32" h (omega arith))

pub rd_u64-skip :
    (xs ys : List ℕ) (k : ℕ) {off : ℕ}
    → length xs + k ≡ off
    → off < 2 ^ 32
    → rd_u64 (xs ++ ys) off ≡ rd_u64 ys k
unfolding rd_u64
rd_u64-skip xs ys k h lt = rw (rd-skip xs ys k 8 "truncated u64" h (omega arith))

-- A header exists exactly up to the frame cap, and frames its body.
pub header-ok :
    (command size : ℕ)
    → size ≤ max_frame_len
    → header command size ≡ ok (le_bytes 4 command ++ (le_bytes 4 size ++ replicate 8 0))
unfolding header
header-ok command size h = ground (arith, small)
  where
    small : size % 2 ^ 32 ≡ size
    small = omega arith

pub header-err :
    (command size : ℕ)
    → max_frame_len < size
    → header command size ≡ err (frame_too_large size max_frame_len)
unfolding header
header-err command size h = ground arith

abbrev pub frame_of : ℕ → List ℕ → List ℕ
frame_of command body = (le_bytes 4 command ++ (le_bytes 4 (length body) ++ replicate 8 0)) ++ body

pub split_frame-frame_of :
    (command : ℕ) (body : List ℕ)
    → command < 2 ^ 32
    → length body ≤ max_frame_len
    → split_frame (frame_of command body) ≡ ok (command, body)
unfolding split_frame checked_add
split_frame-frame_of command body hc hb = ground (arith, total, first, second, tail)
  where
    head : List ℕ
    head = le_bytes 4 command ++ (le_bytes 4 (length body) ++ replicate 8 0)

    head_len : length head ≡ 16
    head_len = omega (
      arith,
      length-append (le_bytes 4 command) (le_bytes 4 (length body) ++ replicate 8 0),
      length-append (le_bytes 4 (length body)) (replicate 8 0),
      length-le_bytes 4 command,
      length-le_bytes 4 (length body),
    )

    total : length (frame_of command body) ≡ 16 + length body
    total = omega (arith, length-append head body, head_len)

    first : rd_u32 (frame_of command body) 0 ≡ ok command
    first = rw append_assoc (rd_u32-here command _ hc)

    second : rd_u32 (frame_of command body) 4 ≡ ok (length body)
    second = rw append_assoc (
        rd_u32-skip (le_bytes 4 command) _ 0 (omega (arith, length-le_bytes 4 command))
          (omega arith)
        ∙ rw append_assoc (rd_u32-here (length body) _ (omega arith)))

    tail : drop 16 (frame_of command body) ≡ body
    tail = drop-append_left head body head_len
