-- ===== src/Parcel/Sized.antt =====
-- A block with its size in front, written and read.
use rsbinder.Prelude.{
  ℕ, ◌+◌, ◌-◌, ◌^◌, ◌%◌, ◌≤◌, ◌<◌, ◌≡◌, refl, sym, ap, ◌∙◌, true, false, List, ◌++◌, some, ltb, leb,
  length, take, drop, arith, length-append, take-append_left, drop-append_left,
}
use mathlib.Core.List.{append_assoc}
use rsbinder.Prelude.Int.{ℤ, pos, to_u32, as_i32, to_u32-as_i32}
use rsbinder.Prelude.Bytes.{le_bytes, from_le, length-le_bytes, from_le-le_bytes}
use rsbinder.Parcel.{
  Parcel, Step, M, ok, i32_max, max_nested_read_depth, set_data_position, data_size, data_avail,
  overwrite, read_aligned_data, write_aligned_data, read_i32, write_i32, pad_size, sized_read,
  sized_write, enter_block,
}
use rsbinder.Parcel.Buffer.{write_aligned_data-written, overwrite-append, overwrite-inside}
use rsbinder.Parcel.Nested.{leave_block-kept}

-- At the end of a parcel, and within the limit, the writer succeeds and adds these bytes behind it.
abbrev pub Appends : M (Unit {0}) → List ℕ → Type 0
Appends f xs =
    (p : Parcel)
    → p.cursor ≡ length p.data_bytes
    → p.cursor + length xs ≤ i32_max
    → f p ≡ record {
      parcel = record p { data_bytes = p.data_bytes ++ xs; cursor = p.cursor + length xs };
      result = ok tt;
    }

written_word :
    (w : ℕ) (p : Parcel)
    → p.cursor + 4 ≤ i32_max
    → write_aligned_data (le_bytes 4 w) p ≡ record {
      parcel = record p {
        data_bytes = overwrite p.cursor (le_bytes 4 w) p.data_bytes;
        cursor = p.cursor + 4;
      };
      result = ok tt;
    }
unfolding le_bytes pad_size
written_word w p fits = unfold le_bytes pad_size in write_aligned_data-written (le_bytes 4 w) p fits

-- The parcel with other bytes and its cursor elsewhere.
abbrev pub moved : Parcel → List ℕ → ℕ → Step (Unit {0})
moved p bytes at = record { parcel = record p { data_bytes = bytes; cursor = at }; result = ok tt }

pub word-Appends : (v : ℤ) → Appends (write_i32 v) (le_bytes 4 (to_u32 v))
unfolding write_i32 le_bytes
word-Appends v p at_end fits =
    written_word (to_u32 v) p fits
    ∙ ap (λ (bytes : List ℕ). moved p bytes (p.cursor + 4))
        (unfold le_bytes in
          (ap (λ at. overwrite at (le_bytes 4 (to_u32 v)) p.data_bytes) at_end
            ∙ overwrite-append (le_bytes 4 (to_u32 v)) p.data_bytes))

-- A word written over the one that stands at the cursor.
word_over :
    (w : ℕ) (front old behind : List ℕ) (p : Parcel)
    → p.data_bytes ≡ front ++ (old ++ behind)
    → p.cursor ≡ length front
    → length old ≡ 4
    → w < 2 ^ 32
    → p.cursor + 4 ≤ i32_max
    → write_i32 (as_i32 w) p ≡ moved p (front ++ (le_bytes 4 w ++ behind)) (p.cursor + 4)
unfolding write_i32
word_over w front old behind p bytes at four small fits =
    ap (λ v. write_aligned_data (le_bytes 4 v) p) (to_u32-as_i32 w small)
    ∙ written_word w p fits
    ∙ ap (λ (xs : List ℕ). moved p xs (p.cursor + 4))
        (ap (λ n. overwrite n (le_bytes 4 w) p.data_bytes) at
          ∙ ap (overwrite (length front) (le_bytes 4 w)) bytes
          ∙ overwrite-inside front old (le_bytes 4 w) behind (four ∙ sym (length-le_bytes 4 w)))

-- What a block holds whose writer adds `xs`.
abbrev pub block_of : List ℕ → List ℕ
block_of xs = le_bytes 4 (4 + length xs) ++ xs

length-block_of : (xs : List ℕ) → length (block_of xs) ≡ 4 + length xs
length-block_of xs =
    omega (arith, length-append (le_bytes 4 (4 + length xs)) xs, length-le_bytes 4 (4 + length xs))

-- A block of a writer that adds some bytes adds its size, four bytes more than these, and the bytes: it
-- is again such a writer, so blocks nest.
pub sized_write-Appends :
    (f : M (Unit {0})) (xs : List ℕ) → Appends f xs → Appends (sized_write f) (block_of xs)
unfolding sized_write set_data_position
sized_write-Appends f xs appends p at_end fits =
    let n = length xs in
    let sized = length-block_of xs in
    let hole = to_u32 (pos 0) in
    let four = length-le_bytes 4 hole in
    let p1 : Parcel = record p {
      data_bytes = p.data_bytes ++ le_bytes 4 hole;
      cursor = p.cursor + 4;
    } in
    let p2 : Parcel = record p {
      data_bytes = (p.data_bytes ++ le_bytes 4 hole) ++ xs;
      cursor = p.cursor + 4 + n;
    } in
    let p3 : Parcel = record p2 { cursor = p.cursor } in
    let first : write_i32 (pos 0) p ≡ record { parcel = p1; result = ok tt } =
      rw four at (word-Appends (pos 0) p at_end (omega (arith, four, sized))) in
    let second : f p1 ≡ record { parcel = p2; result = ok tt } =
      appends p1 (omega (arith, length-append p.data_bytes (le_bytes 4 hole), four))
        (omega (arith, sized)) in
    let size : (p2.cursor - p.cursor) % 2 ^ 32 ≡ 4 + n = omega (arith, sized) in
    let third =
      word_over (4 + n) p.data_bytes (le_bytes 4 hole) xs p3
        (append_assoc p.data_bytes (le_bytes 4 hole) xs) at_end four (omega (arith, sized))
        (omega (arith, sized)) in
    rw (first, second, size, third)
      (ap (moved p (p.data_bytes ++ block_of xs)) (omega (arith, sized)))

-- The word at the cursor, read.
pub word_read :
    (w : ℕ) (front behind : List ℕ) (p : Parcel)
    → p.data_bytes ≡ front ++ (le_bytes 4 w ++ behind)
    → p.cursor ≡ length front
    → w < 2 ^ 32
    → read_i32 p ≡ record { parcel = record p { cursor = p.cursor + 4 }; result = ok (as_i32 w) }
unfolding read_i32 read_aligned_data data_avail pad_size
word_read w front behind p bytes at small =
    let four = length-le_bytes 4 w in
    let size : length p.data_bytes ≡ length front + (4 + length behind) =
      ap length bytes
      ∙ omega (
        arith,
        length-append front (le_bytes 4 w ++ behind),
        length-append (le_bytes 4 w) behind,
        four,
      ) in
    let room : leb 4 (length p.data_bytes - p.cursor) ≡ true = ground (arith, size, at) in
    let rest : drop p.cursor p.data_bytes ≡ le_bytes 4 w ++ behind =
      ap (λ n. drop n p.data_bytes) at
      ∙ ap (drop (length front)) bytes
      ∙ drop-append_left front (le_bytes 4 w ++ behind) refl in
    let word : from_le (take 4 (drop p.cursor p.data_bytes)) ≡ w =
      ap (λ (xs : List ℕ). from_le (take 4 xs)) rest
      ∙ ap from_le (take-append_left (le_bytes 4 w) behind four)
      ∙ from_le-le_bytes 4 w small in
    rw (room, word) refl

sized_read-block :
    (g : M (Unit {0})) (front xs : List ℕ) (p : Parcel)
    → p.data_bytes ≡ front ++ block_of xs
    → p.cursor ≡ length front
    → p.nested_read_depth < max_nested_read_depth
    → p.cursor + (4 + length xs) ≤ i32_max
    → sized_read g p
      ≡ enter_block g (p.cursor + (4 + length xs)) (record p { cursor = p.cursor + 4 })
unfolding sized_read as_i32 data_size
sized_read-block g front xs p bytes at shallow fits =
    let n = length xs in
    let word = word_read (4 + n) front xs p bytes at (omega arith) in
    let positive : ltb (4 + n) (2 ^ 31) ≡ true = ground (arith, fits) in
    let four : ltb (4 + n) 4 ≡ false = ground arith in
    let size : length p.data_bytes ≡ p.cursor + (4 + n) =
      ap length bytes ∙ omega (arith, length-append front (block_of xs), length-block_of xs, at) in
    let within : ltb (data_size (record p { cursor = p.cursor + 4 })) (p.cursor + (4 + n)) ≡ false =
      ground (arith, size) in
    let depth : leb max_nested_read_depth p.nested_read_depth ≡ false = ground (arith, shallow) in
    rw (word, positive, four, within, depth) refl

-- A block is written at the end of a parcel, by a writer that adds `xs`, within the limit, and read from
-- where it begins, at a depth below 1000, by any reader: the reader runs on the bytes behind the size,
-- with the block's end as its boundary, and the read gives its result. If that is a success, the cursor
-- stands at the end of the block, no matter how much the reader took or skipped, and the boundary of the
-- block around is back; the bytes are those that the reader left.
pub sized_read-sized_write :
    (f g : M (Unit {0})) (xs : List ℕ) (p : Parcel)
    → Appends f xs
    → p.cursor ≡ length p.data_bytes
    → p.cursor + (4 + length xs) ≤ i32_max
    → p.nested_read_depth < max_nested_read_depth
    → let q = (sized_write f p).parcel in
      let inner = g (record q {
        cursor = p.cursor + 4;
        read_boundary = some q.cursor;
        nested_read_depth = p.nested_read_depth + 1;
      }) in
      let outer = sized_read g (set_data_position p.cursor q) in
      ((sized_write f p).result ≡ ok tt)
      × (q.data_bytes ≡ p.data_bytes ++ (le_bytes 4 (4 + length xs) ++ xs))
      × (outer.result ≡ inner.result)
      × (outer.result ≡ ok tt → outer.parcel.cursor ≡ q.cursor)
      × (outer.parcel.data_bytes ≡ inner.parcel.data_bytes)
      × (outer.parcel.read_boundary ≡ p.read_boundary)
unfolding enter_block set_data_position
sized_read-sized_write f g xs p appends at_end fits shallow =
    let sized = length-block_of xs in
    let end : p.cursor + length (block_of xs) ≡ p.cursor + (4 + length xs) = omega (arith, sized) in
    let wrote = sized_write-Appends f xs appends p at_end (omega (arith, sized, fits)) in
    let q : Parcel = record p {
      data_bytes = p.data_bytes ++ block_of xs;
      cursor = p.cursor + (4 + length xs);
    } in
    let made : sized_write f p ≡ record { parcel = q; result = ok tt } =
      wrote ∙ ap (moved p (p.data_bytes ++ block_of xs)) end in
    let back =
      sized_read-block g p.data_bytes xs (record q { cursor = p.cursor }) refl at_end shallow
        fits in
    let inner = g (record q {
      cursor = p.cursor + 4;
      read_boundary = some q.cursor;
      nested_read_depth = p.nested_read_depth + 1;
    }) in
    let (bytes, boundary, depth, stands, same) =
      leave_block-kept p.read_boundary q.cursor inner.parcel inner.result in
    rw (made, back) (refl, refl, same, stands, bytes, boundary)
