-- ===== src/Parcel/Tests.antt =====
-- Parcels at concrete bytes.
use rsbinder.Prelude.{
  ℕ, ◌+◌, ◌-◌, ◌≤◌, ◌<◌, ◌≡◌, refl, List, [], ◌∷◌, ◌++◌, none, some, take, drop, replicate, length,
  arith, leb, inl, inr, Bool-cases,
}
use rsbinder.Prelude.Int.{pos, to_u32, as_i32}
use rsbinder.Prelude.Bytes.{le_bytes, from_le}
use rsbinder.Status.{StatusCode, bad_value}
use rsbinder.Parcel.{
  Parcel, M, ok, err, i32_max, pure, pad_size, set_data_position, overwrite, data_avail, data_size,
  enter_block, read_aligned_data, write_aligned_data, read_i32, write_i32, sized_read, sized_write,
  ◌>>=◌,
}
use rsbinder.Parcel.Array.{flat, write_array, read_array}
use rsbinder.Parcel.Array.Elements.{read_array-write_array}
use rsbinder.Parcel.Buffer.{read-write_aligned_data}
use rsbinder.Parcel.Nested.{nest, nest_too_deep, IsReader, sized_read-IsReader}
use rsbinder.Parcel.Sized.{word-Appends, sized_read-sized_write}

abbrev empty : Parcel
empty = record { data_bytes = []; cursor = 0; read_boundary = none; nested_read_depth = 0 }

-- A cursor past the end of the data.
abbrev gap : Parcel
gap = record empty { data_bytes = 7 ∷ 7 ∷ []; cursor = 4 }

abbrev three : List ℕ
three = 1 ∷ 2 ∷ 3 ∷ []

gap_filled : (write_aligned_data three gap).parcel.data_bytes ≡ 7 ∷ 7 ∷ 0 ∷ 0 ∷ 1 ∷ 2 ∷ 3 ∷ 0 ∷ []
unfolding write_aligned_data pad_size overwrite
gap_filled = refl

read-write_aligned_data_example :
    let end = gap.cursor + pad_size (length three) in
    let q = (write_aligned_data three gap).parcel in
    (end ≤ i32_max
      → ((write_aligned_data three gap).result ≡ ok tt)
        × (q.cursor ≡ end)
        × (read_aligned_data (length three) (set_data_position gap.cursor q)
            ≡ record { parcel = q; result = ok three })
        × (take gap.cursor q.data_bytes
            ≡ take gap.cursor (gap.data_bytes ++ replicate (gap.cursor - length gap.data_bytes) 0))
        × (drop end q.data_bytes ≡ drop end gap.data_bytes))
    × (i32_max < end
        → write_aligned_data three gap ≡ record { parcel = gap; result = err bad_value })
read-write_aligned_data_example = read-write_aligned_data three gap

-- A reader that takes one word of a block, whatever else is there.
abbrev one_word : M (Unit {0})
one_word = read_i32 >>= λ v. pure tt

abbrev writer : M (Unit {0})
writer = write_i32 (pos 5)

abbrev word : List ℕ
word = le_bytes 4 (to_u32 (pos 5))

fits : 0 + (4 + length word) ≤ i32_max
unfolding le_bytes
fits = omega arith

sized_read-sized_write_example :
    let q = (sized_write writer empty).parcel in
    let inner =
      one_word (record q { cursor = 4; read_boundary = some q.cursor; nested_read_depth = 1 }) in
    let outer = sized_read one_word (set_data_position 0 q) in
    ((sized_write writer empty).result ≡ ok tt)
    × (q.data_bytes ≡ [] ++ (le_bytes 4 (4 + length word) ++ word))
    × (outer.result ≡ inner.result)
    × (outer.result ≡ ok tt → outer.parcel.cursor ≡ q.cursor)
    × (outer.parcel.data_bytes ≡ inner.parcel.data_bytes)
    × (outer.parcel.read_boundary ≡ none)
sized_read-sized_write_example =
    sized_read-sized_write writer one_word word empty (word-Appends (pos 5)) refl fits (omega arith)

-- A block of 12 bytes, of which the reader takes 4.
abbrev longer : Parcel
longer = record empty {
  data_bytes = 12 ∷ 0 ∷ 0 ∷ 0 ∷ 1 ∷ 0 ∷ 0 ∷ 0 ∷ 2 ∷ 0 ∷ 0 ∷ 0 ∷ 9 ∷ 9 ∷ 9 ∷ 9 ∷ [];
}

skipped : (sized_read one_word longer).parcel.cursor ≡ 12
unfolding sized_read read_i32 read_aligned_data pad_size from_le as_i32 data_size enter_block
    set_data_position
skipped = refl

one_word-IsReader : IsReader one_word
unfolding read_i32 read_aligned_data
one_word-IsReader p = elim (Bool-cases (leb (pad_size 4) (data_avail p))) [
  | inl room ↦ rw room (refl, refl, refl)
  | inr short ↦ rw short (refl, refl, refl)
]

sized_read-IsReader_example :
    let s = sized_read one_word longer in
    (s.parcel.data_bytes ≡ longer.data_bytes)
    × (s.parcel.read_boundary ≡ none)
    × (s.parcel.nested_read_depth ≡ 0)
    × (s.result ≡ ok tt → (0 + 4 ≤ s.parcel.cursor) × (s.parcel.cursor ≤ length longer.data_bytes))
sized_read-IsReader_example = sized_read-IsReader one_word longer one_word-IsReader

-- At depth 999, the second of two blocks is refused.
abbrev deep : Parcel
deep = record empty { data_bytes = 8 ∷ 0 ∷ 0 ∷ 0 ∷ 4 ∷ 0 ∷ 0 ∷ 0 ∷ []; nested_read_depth = 999 }

nest_too_deep_example :
    (q : Parcel) × (e : StatusCode) × ((f : M (Unit {0}))
      → nest 2 f deep ≡ record { parcel = q; result = err e })
nest_too_deep_example = nest_too_deep 1 deep (omega arith)

-- Two elements of three bytes, with two bytes of padding.
abbrev next_three : List ℕ
next_three = 4 ∷ 5 ∷ 6 ∷ []

pair_fits : 0 + 4 + pad_size (length (flat (three ∷ next_three ∷ []))) ≤ i32_max
unfolding pad_size
pair_fits = omega arith

read_array-write_array_example :
    let q = (write_array (three ∷ next_three ∷ []) empty).parcel in
    ((write_array (three ∷ next_three ∷ []) empty).result ≡ ok tt)
    × (q.cursor ≡ length q.data_bytes)
    × (read_array 3 (set_data_position 0 q)
        ≡ record { parcel = q; result = ok (some (three ∷ next_three ∷ [])) })
read_array-write_array_example =
    read_array-write_array 3 three (next_three ∷ []) empty (refl, (refl, tt)) refl (omega arith)
      pair_fits
