-- ===== src/Rpc/Wire/Transaction.antt =====
-- The body of an r34 `TRANSACT`, field by field: reading back what was written.
use rsbinder.Prelude.{
  ℕ, ◌+◌, ◌^◌, ◌<◌, ◌≡◌, sym, ◌∙◌, List, [], ◌++◌, arith, length, drop, replicate, ltb,
  ltb-false_of_le, false, length-append, drop-append_skip,
}
use rsbinder.Prelude.Bytes.{le_bytes, length-le_bytes}
use rsbinder.Rpc.Result.{ok}
use rsbinder.Rpc.Address.{IsAddress}
use rsbinder.Rpc.Wire.Readers.{WireTransaction, transact, rd_u32, rd_u64, rd_addr}
use rsbinder.Rpc.Wire.ReaderLaws.{rd_u32-here, rd_u64-here, rd_addr-here, rd_u32-skip, rd_u64-skip}
use rsbinder.Rpc.Wire.R34.{decode_body, wire_txn_fixed_len}

-- The Rust types' ranges, and what the r34 wire can carry.
pub record IsTransaction (t : WireTransaction) : Type 0 where
  pub address : IsAddress t.address
  pub code : t.code < 2 ^ 32
  pub flags : t.flags < 2 ^ 32
  pub async_number : t.async_number < 2 ^ 64
  pub no_table : t.object_positions ≡ []

abbrev pub txn_body : WireTransaction → List ℕ
txn_body t =
    t.address.bytes
    ++ (le_bytes 4 t.code
        ++ (le_bytes 4 t.flags ++ (le_bytes 8 t.async_number ++ (replicate 16 0 ++ t.payload))))

-- The body's parts, last first: each is the field in front of the one above it.
module _ (t : WireTransaction) (v : IsTransaction t) where
  after_async : List ℕ
  after_async = replicate 16 0 ++ t.payload

  after_flags : List ℕ
  unfolding after_async
  after_flags = le_bytes 8 t.async_number ++ after_async

  after_code : List ℕ
  unfolding after_flags
  after_code = le_bytes 4 t.flags ++ after_flags

  after_address : List ℕ
  unfolding after_code
  after_address = le_bytes 4 t.code ++ after_code

  length-after_address : length after_address ≡ 32 + length t.payload
  unfolding after_address
  length-after_address = omega (
    arith,
    length-append (le_bytes 4 t.code) after_code,
    length-append (le_bytes 4 t.flags) after_flags,
    length-append (le_bytes 8 t.async_number) after_async,
    length-append (replicate 16 0) t.payload,
    length-le_bytes 4 t.code,
    length-le_bytes 4 t.flags,
    length-le_bytes 8 t.async_number,
  )

  pub length-txn_body : length (txn_body t) ≡ 64 + length t.payload
  unfolding after_address
  length-txn_body =
      omega
        (arith, length-append t.address.bytes after_address, length-after_address, v.address.sized)

  read_address : rd_addr (txn_body t) 0 ≡ ok t.address
  read_address = rd_addr-here t.address _ v.address

  read_code : rd_u32 (txn_body t) 32 ≡ ok t.code
  read_code =
      rd_u32-skip t.address.bytes _ 0 (omega (arith, v.address.sized)) (omega arith)
      ∙ rd_u32-here t.code _ v.code

  read_flags : rd_u32 (txn_body t) 36 ≡ ok t.flags
  read_flags =
      rd_u32-skip t.address.bytes _ 4 (omega (arith, v.address.sized)) (omega arith)
      ∙ rd_u32-skip (le_bytes 4 t.code) _ 0 (omega (arith, length-le_bytes 4 t.code)) (omega arith)
      ∙ rd_u32-here t.flags _ v.flags

  read_async : rd_u64 (txn_body t) 40 ≡ ok t.async_number
  read_async =
      rd_u64-skip t.address.bytes _ 8 (omega (arith, v.address.sized)) (omega arith)
      ∙ rd_u64-skip (le_bytes 4 t.code) _ 4 (omega (arith, length-le_bytes 4 t.code)) (omega arith)
      ∙ rd_u64-skip (le_bytes 4 t.flags) _ 0 (omega (arith, length-le_bytes 4 t.flags))
          (omega arith)
      ∙ rd_u64-here t.async_number _ v.async_number

  payload_behind : drop 64 (txn_body t) ≡ t.payload
  unfolding after_address
  payload_behind =
      drop-append_skip t.address.bytes after_address 32 {n = 64} (omega (arith, v.address.sized))
      ∙ drop-append_skip (le_bytes 4 t.code) after_code 28 {n = 32}
          (omega (arith, length-le_bytes 4 t.code))
      ∙ drop-append_skip (le_bytes 4 t.flags) after_flags 24 {n = 28}
          (omega (arith, length-le_bytes 4 t.flags))
      ∙ drop-append_skip (le_bytes 8 t.async_number) after_async 16 {n = 24}
          (omega (arith, length-le_bytes 8 t.async_number))

  long_enough : ltb (length (txn_body t)) wire_txn_fixed_len ≡ false
  long_enough = ltb-false_of_le _ _ (omega (arith, length-txn_body))

  pub decode_txn_body : decode_body 0 (txn_body t) ≡ ok (transact t)
  unfolding decode_body
  decode_txn_body =
      rw (long_enough, read_address, read_code, read_flags, read_async, payload_behind)
        (λ i. ok (transact (record t { object_positions = sym v.no_table i })))
