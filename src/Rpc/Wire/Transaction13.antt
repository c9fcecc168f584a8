-- ===== src/Rpc/Wire/Transaction13.antt =====
-- The body of an android-13 `TRANSACT`, field by field: reading back what was written.
use rsbinder.Prelude.{
  ℕ, ◌≢◌, ◌+◌, ◌%◌, ◌^◌, ◌≤◌, ◌<◌, ◌≡◌, refl, ◌∙◌, false, List, ◌++◌, arith, length, drop,
  replicate, ltb, ltb-false_of_le, ◌==◌, if◌then◌else◌, length-append, drop-append_skip,
}
use rsbinder.Prelude.Bytes.{le_bytes, length-le_bytes}
use rsbinder.Rpc.Result.{ok}
use rsbinder.Rpc.Wire.Readers.{WireTransaction, transact, max_frame_len, rd_u32, rd_u64}
use rsbinder.Rpc.Wire.ReaderLaws.{rd_u32-here, rd_u64-here, rd_u32-skip, rd_u64-skip}
use rsbinder.Rpc.Wire.Android13.{encode_addr, decode_addr, txn_fixed_len}
use rsbinder.Rpc.Wire.Android13Codec.{decode_transact}
use rsbinder.Rpc.Wire.Tables.{IsTable, tail_of, split-encode}
use rsbinder.Rpc.Wire.WireAddress.{IsNarrow, decode-encode_addr, length-encode_addr}

-- The values that the Rust types and a version of the wire allow.
pub record IsTransaction (version : ℕ) (t : WireTransaction) : Type 0 where
  pub address : IsNarrow t.address
  pub code : t.code < 2 ^ 32
  pub flags : t.flags < 2 ^ 32
  pub async_number : t.async_number < 2 ^ 64
  pub table : IsTable version t.object_positions

module _ (version : ℕ) (t : WireTransaction) where
  unfoldable pub size_field : ℕ
  size_field = if version == 0 then 0 else length t.payload % 2 ^ 32

  after_size : List ℕ
  after_size = replicate 12 0 ++ tail_of version t.payload t.object_positions

  after_async : List ℕ
  unfolding after_size size_field
  after_async = le_bytes 4 size_field ++ after_size

  after_flags : List ℕ
  unfolding after_async
  after_flags = le_bytes 8 t.async_number ++ after_async

  after_code : List ℕ
  unfolding after_flags
  after_code = le_bytes 4 t.flags ++ after_flags

  after_address : List ℕ
  unfolding after_code
  after_address = le_bytes 4 t.code ++ after_code

  unfoldable pub txn_body : List ℕ
  unfolding after_address
  txn_body = encode_addr t.address ++ after_address

  pub length-txn_body : length txn_body ≡ 40 + length (tail_of version t.payload t.object_positions)
  unfolding txn_body
  length-txn_body = omega (
    arith,
    length-append (encode_addr t.address) after_address,
    length-encode_addr t.address,
    length-append (le_bytes 4 t.code) after_code,
    length-append (le_bytes 4 t.flags) after_flags,
    length-append (le_bytes 8 t.async_number) after_async,
    length-append (le_bytes 4 size_field) after_size,
    length-append (replicate 12 0) (tail_of version t.payload t.object_positions),
    length-le_bytes 4 t.code,
    length-le_bytes 4 t.flags,
    length-le_bytes 8 t.async_number,
    length-le_bytes 4 size_field,
  )

module _ (version : ℕ) (t : WireTransaction) (v : IsTransaction version t)
    (short : length t.payload ≤ max_frame_len) where
  read_address : decode_addr (txn_body version t) 0 ≡ ok t.address
  unfolding txn_body
  read_address = decode-encode_addr t.address (after_address version t) v.address

  -- The words behind the address, at `k` behind its eight bytes.
  read_code : rd_u32 (txn_body version t) 8 ≡ ok t.code
  unfolding txn_body
  read_code =
      rd_u32-skip (encode_addr t.address) _ 0 (omega (arith, length-encode_addr t.address))
        (omega arith)
      ∙ rd_u32-here t.code (after_code version t) v.code

  read_flags : rd_u32 (txn_body version t) 12 ≡ ok t.flags
  unfolding txn_body
  read_flags =
      rd_u32-skip (encode_addr t.address) _ 4 (omega (arith, length-encode_addr t.address))
        (omega arith)
      ∙ rd_u32-skip (le_bytes 4 t.code) _ 0 (omega (arith, length-le_bytes 4 t.code)) (omega arith)
      ∙ rd_u32-here t.flags (after_flags version t) v.flags

  read_async : rd_u64 (txn_body version t) 16 ≡ ok t.async_number
  unfolding txn_body
  read_async =
      rd_u64-skip (encode_addr t.address) _ 8 (omega (arith, length-encode_addr t.address))
        (omega arith)
      ∙ rd_u64-skip (le_bytes 4 t.code) _ 4 (omega (arith, length-le_bytes 4 t.code)) (omega arith)
      ∙ rd_u64-skip (le_bytes 4 t.flags) _ 0 (omega (arith, length-le_bytes 4 t.flags))
          (omega arith)
      ∙ rd_u64-here t.async_number (after_async version t) v.async_number

  size_field-lt : (size_field version t) < 2 ^ 32
  unfolding size_field
  size_field-lt = ground arith

  read_size : rd_u32 (txn_body version t) 24 ≡ ok (size_field version t)
  unfolding txn_body
  read_size =
      rd_u32-skip (encode_addr t.address) _ 16 (omega (arith, length-encode_addr t.address))
        (omega arith)
      ∙ rd_u32-skip (le_bytes 4 t.code) _ 12 (omega (arith, length-le_bytes 4 t.code)) (omega arith)
      ∙ rd_u32-skip (le_bytes 4 t.flags) _ 8 (omega (arith, length-le_bytes 4 t.flags))
          (omega arith)
      ∙ rd_u32-skip (le_bytes 8 t.async_number) _ 0
          (omega (arith, length-le_bytes 8 t.async_number)) (omega arith)
      ∙ rd_u32-here (size_field version t) (after_size version t) size_field-lt

  tail_behind : drop 40 (txn_body version t) ≡ tail_of version t.payload t.object_positions
  unfolding txn_body
  tail_behind =
      drop-append_skip (encode_addr t.address) (after_address version t) 32 {n = 40}
        (omega (arith, length-encode_addr t.address))
      ∙ drop-append_skip (le_bytes 4 t.code) (after_code version t) 28 {n = 32}
          (omega (arith, length-le_bytes 4 t.code))
      ∙ drop-append_skip (le_bytes 4 t.flags) (after_flags version t) 24 {n = 28}
          (omega (arith, length-le_bytes 4 t.flags))
      ∙ drop-append_skip (le_bytes 8 t.async_number) (after_async version t) 16 {n = 24}
          (omega (arith, length-le_bytes 8 t.async_number))
      ∙ drop-append_skip (le_bytes 4 (size_field version t)) (after_size version t) 12 {n = 16}
          (omega (arith, length-le_bytes 4 (size_field version t)))

  sized : version ≢ 0 → (size_field version t) ≡ length t.payload
  unfolding size_field
  sized h = ground arith

  pub decode_txn_body : decode_transact version (txn_body version t) ≡ ok (transact t)
  unfolding decode_transact
  decode_txn_body =
      rw
        (
          long_enough,
          read_address,
          read_code,
          read_flags,
          read_async,
          read_size,
          tail_behind,
          split-encode version (size_field version t) t.payload t.object_positions v.table sized,
        )
        refl
    where
      long_enough : ltb (length (txn_body version t)) txn_fixed_len ≡ false
      long_enough = ltb-false_of_le _ _ (omega (arith, length-txn_body version t))
