-- ===== src/Rpc/Wire/Android13.antt =====
-- `Android13PlusCodec`, the versioned wire of android-13 and later
-- (rsbinder/src/rpc/wire_android13.rs).
use rsbinder.Prelude.{
  ℕ, ◌+◌, ◌*◌, ◌%◌, ◌/◌, not, Bool, ◌&&◌, ◌||◌, List, [], ◌∷◌, ◌++◌, ltb, leb, ◌==◌, if◌then◌else◌,
  length, take, drop, replicate, none, some, get_elem?,
}
use rsbinder.Prelude.Bytes.{le_bytes, from_le}
use rsbinder.Rpc.Result.{Result, ok, protocol, ◌>>=◌, ◌>>◌, refuse_if}
use rsbinder.Rpc.Address.{RpcAddress, zero_addr, is_zero}
use rsbinder.Rpc.Wire.Readers.{rd_u32}
use rsbinder.Rpc.Wire.R34.{is_empty}

abbrev pub addr_len : ℕ
addr_len = 8

abbrev pub txn_fixed_len : ℕ
txn_fixed_len = addr_len + 4 + 4 + 8 + 16

abbrev pub dec_strong_len : ℕ
dec_strong_len = addr_len + 4 + 4

abbrev pub conn_header_len : ℕ
conn_header_len = 16

abbrev pub new_session_resp_len : ℕ
new_session_resp_len = 8

abbrev pub conn_init_len : ℕ
conn_init_len = 8

abbrev pub supported_max_version : ℕ
supported_max_version = 2

abbrev pub version_experimental : ℕ
version_experimental = 0xf000_0000

unfoldable pub is_supported_protocol_version : ℕ → Bool
is_supported_protocol_version version =
    leb version supported_max_version || version == version_experimental

unfoldable pub reply_fixed_len : ℕ → ℕ
reply_fixed_len version = if version == 0 then 4 else 20

unfoldable pub has_object_table : ℕ → Bool
has_object_table version = leb 1 version

unfoldable pub with_version : ℕ → Result ℕ
with_version version = do
  refuse_if (not (is_supported_protocol_version version))
      (protocol "unsupported RPC wire protocol version")
  ok version

-- The byte at an index that the fixed length of the array covers.
abbrev pub byte_at : List ℕ → ℕ → ℕ
byte_at bs i = elim (get_elem? bs i) [ none ↦ 0 | some b ↦ b ]

-- `CREATED | (FOR_SERVER if raw[8] == 2)`: the bits 1 and 2.
unfoldable pub encode_addr : RpcAddress → List ℕ
encode_addr a =
    if is_zero a
    then replicate addr_len 0
    else let address = from_le (take 4 a.bytes) in
      let options = if byte_at a.bytes 8 == 2 then 3 else 1 in
      le_bytes 4 options ++ le_bytes 4 address

-- `options & CREATED == 0` is that `options` is even, `options & FOR_SERVER != 0` that bit 1 is set.
unfoldable pub decode_addr : List ℕ → ℕ → Result RpcAddress
decode_addr buf off = do
  options ← rd_u32 buf off
  address ← rd_u32 buf (off + 4)
  let role : ℕ = if (options / 2) % 2 == 1 then 2 else 1
  if (options % 2 == 0) && (address == 0)
      then ok zero_addr
      else ok (record { bytes = le_bytes 4 address ++ (replicate 4 0 ++ (role ∷ replicate 23 0)) })

-- `for pos in object_positions { out.extend(pos.to_le_bytes()) }`.
unfoldable pub table_bytes : List ℕ → List ℕ
table_bytes [] = []
table_bytes (p ∷ ps) = le_bytes 4 p ++ table_bytes ps

unfoldable pub encode_data_and_table : ℕ → List ℕ → List ℕ → Result (List ℕ)
encode_data_and_table version payload object_positions =
    if not (has_object_table version)
    then (refuse_if (not (is_empty object_positions))
          (protocol "v0 wire has no object table (objects need protocol version >= 1)")
        >> ok payload)
    else ok (payload ++ table_bytes object_positions)

-- `chunks_exact(4)`, each read as a word: a rest shorter than a chunk is left out.
unfoldable pub chunks : List ℕ → List ℕ
chunks (a ∷ b ∷ c ∷ d ∷ rest) = from_le (a ∷ b ∷ c ∷ d ∷ []) ∷ chunks rest
chunks _ = []

unfoldable pub split_data_and_table : ℕ → List ℕ → ℕ → Result (List ℕ × List ℕ)
split_data_and_table version rest parcel_data_size =
    if not (has_object_table version) then ok (rest, []) else do
      refuse_if (ltb (length rest) parcel_data_size)
          (protocol "parcelDataSize larger than available bytes")
      let table = drop parcel_data_size rest
      refuse_if (not (length table % 4 == 0))
          (protocol "object table byte size not a multiple of 4")
      ok (take parcel_data_size rest, chunks table)

abbrev pub table_len : ℕ → List ℕ → ℕ
table_len version positions = if has_object_table version then 4 * length positions else 0
