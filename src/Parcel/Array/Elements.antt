-- ===== src/Parcel/Array/Elements.antt =====
-- An array written and read.
use rsbinder.Prelude.{
  ℕ, suc, ◌+◌, ◌-◌, ◌*◌, ◌^◌, ◌≤◌, ◌<◌, ◌≡◌, refl, sym, ap, ◌∙◌, true, false, List, [], ◌∷◌, ◌++◌,
  some, ltb, leb, length, take, drop, All, arith, length-append, take-append_left, drop-append_left,
}
use native.Mathlib.Nat.{suc-mul}
use mathlib.Core.List.{append_assoc}
use rsbinder.Prelude.Int.{pos, to_u32, as_i32, as_i32-to_u32, to_u32-lt}
use rsbinder.Prelude.Bytes.{le_bytes, length-le_bytes}
use rsbinder.Parcel.{
  Result, Parcel, i32_max, set_data_position, data_avail, overwrite, pad_size, write_i32,
}
use rsbinder.Parcel.Buffer.{padded, length-padded, overwrite-append, pad_size-least}
use rsbinder.Parcel.Sized.{word-Appends, word_read, moved}
use rsbinder.Parcel.Array.{
  flat, write_elements, write_array, checked_array_layout, elements, read_elements, read_array,
}

abbrev pub HasSize : ℕ → List ℕ → Type 0
HasSize elem_size e = length e ≡ elem_size

length-flat :
    (elem_size : ℕ) (es : List (List ℕ))
    → All (HasSize elem_size) es
    → length (flat es) ≡ length es * elem_size
length-flat elem_size [] sized = omega arith
length-flat elem_size (e ∷ es) (here, sized) =
    let more : suc (length es) * elem_size ≡ elem_size + length es * elem_size =
      suc-mul (length es) elem_size ∙ omega arith in
    omega (arith, length-append e (flat es), here, length-flat elem_size es sized, more)

elements-flat :
    (elem_size : ℕ) (es : List (List ℕ))
    → All (HasSize elem_size) es
    → elements (length es) elem_size (flat es) ≡ es
elements-flat elem_size [] sized = refl
elements-flat elem_size (e ∷ es) (here, sized) =
    rw (take-append_left e (flat es) here, drop-append_left e (flat es) here)
      (ap (◌∷◌ e) (elements-flat elem_size es sized))

abbrev array_of : List (List ℕ) → List ℕ
array_of es = le_bytes 4 (to_u32 (pos (length es))) ++ padded (flat es)

write_elements-end :
    (bytes : List ℕ) (p : Parcel)
    → p.cursor ≡ length p.data_bytes
    → p.cursor + pad_size (length bytes) ≤ i32_max
    → write_elements bytes p
      ≡ moved p (p.data_bytes ++ padded bytes) (p.cursor + pad_size (length bytes))
unfolding write_elements set_data_position
write_elements-end bytes p at_end fits =
    let room : leb (p.cursor + pad_size (length bytes)) i32_max ≡ true = ground arith in
    rw room (
      ap (λ (xs : List ℕ). moved p xs (p.cursor + pad_size (length bytes)))
        (ap (λ n. overwrite n (padded bytes) p.data_bytes) at_end
          ∙ overwrite-append (padded bytes) p.data_bytes))

write_array-end :
    (e : List ℕ) (es : List (List ℕ)) (p : Parcel)
    → p.cursor ≡ length p.data_bytes
    → length (e ∷ es) < 2 ^ 31
    → p.cursor + 4 + pad_size (length (flat (e ∷ es))) ≤ i32_max
    → write_array (e ∷ es) p
      ≡ moved p
          (p.data_bytes ++ array_of (e ∷ es))
          (p.cursor + 4 + pad_size (length (flat (e ∷ es))))
unfolding write_array
write_array-end e es p at_end few fits =
    let n = suc (length es) in
    let word = le_bytes 4 (to_u32 (pos n)) in
    let four = length-le_bytes 4 (to_u32 (pos n)) in
    let countable : leb (2 ^ 31) n ≡ false = ground (arith, few) in
    let nonempty : leb n 0 ≡ false = ground arith in
    let p1 : Parcel = record p { data_bytes = p.data_bytes ++ word; cursor = p.cursor + 4 } in
    let first : write_i32 (pos n) p ≡ record { parcel = p1; result = Result.ok tt } =
      rw four at (word-Appends (pos n) p at_end (omega (arith, four, fits))) in
    rw (countable, first, nonempty)
      (write_elements-end (flat (e ∷ es)) p1
          (omega (arith, length-append p.data_bytes word, four, at_end)) fits
        ∙ ap (λ (xs : List ℕ). moved p xs (p.cursor + 4 + pad_size (length (flat (e ∷ es)))))
            (append_assoc p.data_bytes word (padded (flat (e ∷ es)))))

read_elements-at :
    (elem_size : ℕ) (e : List ℕ) (es : List (List ℕ)) (front : List ℕ) (p : Parcel)
    → All (HasSize elem_size) (e ∷ es)
    → p.data_bytes ≡ front ++ padded (flat (e ∷ es))
    → p.cursor ≡ length front
    → pad_size (length (flat (e ∷ es))) ≤ i32_max
    → read_elements elem_size (length (e ∷ es)) p ≡ record {
      parcel = record p { cursor = p.cursor + pad_size (length (flat (e ∷ es))) };
      result = Result.ok (some (e ∷ es));
    }
unfolding read_elements checked_array_layout set_data_position data_avail pad_size
read_elements-at elem_size e es front p sized bytes at fits =
    let n = length (e ∷ es) in
    let body = flat (e ∷ es) in
    let size : n * elem_size ≡ length body = sym (length-flat elem_size (e ∷ es) sized) in
    let least = pad_size-least (length body) in
    let small : leb (2 ^ 64) (length body) ≡ false = ground (arith, fits, least.0) in
    let small' : leb (2 ^ 64) (length body + 3) ≡ false = ground (arith, fits, least.0) in
    let total : length p.data_bytes ≡ p.cursor + pad_size (length body) =
      ap length bytes ∙ omega (arith, length-append front (padded body), length-padded body, at) in
    let avail : ltb (length p.data_bytes - p.cursor) (pad_size (length body)) ≡ false =
      ground (arith, total) in
    let rest : drop p.cursor p.data_bytes ≡ padded body =
      ap (λ k. drop k p.data_bytes) at
      ∙ ap (drop (length front)) bytes
      ∙ drop-append_left front (padded body) refl in
    let whole : take (length body) (drop p.cursor p.data_bytes) ≡ body =
      ap (take (length body)) rest ∙ take-append_left body _ refl in
    rw (size, small, small', avail, whole)
      (ap
        (λ (xs : List (List ℕ)). record {
          parcel = record p { cursor = p.cursor + pad_size (length body) };
          result = Result.ok (some xs);
        })
        (elements-flat elem_size (e ∷ es) sized))

-- An array that has an element, whose elements have one size, with fewer than 2^31 of them, is written at
-- the end of a parcel, within the limit: the parcel grows by the count and by the padded bytes. Read from
-- where it begins, with that element size, it is the array again, and the cursor stands where the write
-- stopped.
pub read_array-write_array :
    (elem_size : ℕ) (e : List ℕ) (es : List (List ℕ)) (p : Parcel)
    → All (HasSize elem_size) (e ∷ es)
    → p.cursor ≡ length p.data_bytes
    → length (e ∷ es) < 2 ^ 31
    → p.cursor + 4 + pad_size (length (flat (e ∷ es))) ≤ i32_max
    → let q = (write_array (e ∷ es) p).parcel in
      ((write_array (e ∷ es) p).result ≡ Result.ok tt)
      × (q.cursor ≡ length q.data_bytes)
      × (read_array elem_size (set_data_position p.cursor q)
          ≡ record { parcel = q; result = Result.ok (some (e ∷ es)) })
unfolding read_array set_data_position
read_array-write_array elem_size e es p sized at_end few fits =
    let n = length (e ∷ es) in
    let body = flat (e ∷ es) in
    let w = to_u32 (pos n) in
    let four = length-le_bytes 4 w in
    let end = p.cursor + 4 + pad_size (length body) in
    let q : Parcel = record p { data_bytes = p.data_bytes ++ array_of (e ∷ es); cursor = end } in
    let start : Parcel = record q { cursor = p.cursor } in
    let word = word_read w p.data_bytes (padded body) start refl at_end (to_u32-lt (pos n)) in
    let value : as_i32 w ≡ pos n = as_i32-to_u32 (pos n) few in
    let size : end ≡ length q.data_bytes = omega (
      arith,
      length-append p.data_bytes (array_of (e ∷ es)),
      length-append (le_bytes 4 w) (padded body),
      four,
      length-padded body,
      at_end,
    ) in
    let rest =
      read_elements-at elem_size e es (p.data_bytes ++ le_bytes 4 w)
        (record start { cursor = p.cursor + 4 }) sized
        (sym (append_assoc p.data_bytes (le_bytes 4 w) (padded body)))
        (omega (arith, length-append p.data_bytes (le_bytes 4 w), four, at_end))
        (omega (arith, fits)) in
    rw (write_array-end e es p at_end few fits) (refl, size, rw (word, value) rest)
