-- ===== src/Parcel/Array.antt =====
-- Arrays of fixed-size elements in a parcel (rsbinder/src/parcel.rs). An element is the bytes it has in
-- memory.
pub mod Elements
use rsbinder.Prelude.{
  ℕ, zero, suc, ◌+◌, ◌-◌, ◌*◌, ◌/◌, ◌^◌, Bool, true, false, List, [], ◌∷◌, ◌++◌, Option, none, some,
  ltb, leb, if◌then◌else◌, length, take, drop, replicate,
}
use rsbinder.Prelude.Int.{ℤ, pos, negsuc}
use rsbinder.Status.{StatusCode, bad_value, not_enough_data, unexpected_null}
use rsbinder.Parcel.{
  Result, Parcel, Step, M, pure, fail, refuse_if, pad_size, i32_max, set_data_position, data_avail,
  overwrite, read_i32, write_i32, ◌>>=◌, ◌>>◌,
}

-- `elems`, one behind the other in memory.
abbrev pub flat : List (List ℕ) → List ℕ
flat [] = []
flat (e ∷ es) = e ++ flat es

unfoldable pub write_elements : List ℕ → M (Unit {0})
write_elements bytes p =
    let size = length bytes in
    let padded = pad_size size in
    let end = p.cursor + padded in
    if leb end i32_max
    then record {
      parcel = set_data_position end (record p {
        data_bytes = overwrite p.cursor (bytes ++ replicate (padded - size) 0) p.data_bytes;
      });
      result = Result.ok tt;
    }
    else record { parcel = p; result = Result.err bad_value }

unfoldable pub write_array : List (List ℕ) → M (Unit {0})
write_array elems = do
  refuse_if (leb (2 ^ 31) (length elems)) bad_value
  write_i32 (pos (length elems))
  if leb (length elems) 0 then pure tt else write_elements (flat elems)

-- The size and the padded size, where both are below 2^64.
unfoldable pub checked_array_layout : ℕ → ℕ → M (ℕ × ℕ)
checked_array_layout len elem_size = do
  let size = len * elem_size
  refuse_if (leb (2 ^ 64) size) bad_value
  refuse_if (leb (2 ^ 64) (size + 3)) bad_value
  pure (size, (size + 3) / 4 * 4)

abbrev pub elements : ℕ → ℕ → List ℕ → List (List ℕ)
elements zero elem_size bytes = []
elements (suc n) elem_size bytes =
    take elem_size bytes ∷ elements n elem_size (drop elem_size bytes)

-- The branch of a length that is at least 1.
unfoldable pub read_elements : ℕ → ℕ → M (Option (List (List ℕ)))
read_elements elem_size len = do
  (size, padded) ← checked_array_layout len elem_size
  (λ p. refuse_if (ltb (data_avail p) padded) not_enough_data p)
  (λ p. record {
    parcel = set_data_position (p.cursor + padded) p;
    result = Result.ok (some (elements len elem_size (take size (drop p.cursor p.data_bytes))));
  })

abbrev pub by_length : ℕ → ℤ → M (Option (List (List ℕ)))
by_length elem_size (negsuc zero) = pure none
by_length elem_size (negsuc (suc n)) = fail unexpected_null
by_length elem_size (pos zero) = pure (some [])
by_length elem_size (pos (suc n)) = read_elements elem_size (suc n)

unfoldable pub read_array : ℕ → M (Option (List (List ℕ)))
read_array elem_size = do len ← read_i32; by_length elem_size len
