-- ===== src/Parcel/Buffer.antt =====
-- Bytes written into a parcel and read from it.
use rsbinder.Prelude.{
  ℕ, ◌+◌, ◌-◌, ◌%◌, ◌≤◌, ◌<◌, ◌≡◌, refl, sym, ap, ◌∙◌, true, false, List, [], ◌++◌, leb, length,
  take, drop, replicate, arith, length-append, length-take, length-drop, length-replicate,
  take-append_left, drop-append_left, drop-drop, drop-append_skip, length-zero,
}
use mathlib.Core.List.{append_assoc, append-nil}
use rsbinder.Status.{bad_value}
use rsbinder.Parcel.{
  Parcel, ok, err, pad_size, i32_max, set_data_position, data_avail, overwrite, read_aligned_data,
  write_aligned_data,
}

pub pad_size-least :
    (len : ℕ) → (len ≤ pad_size len) × (pad_size len < len + 4) × (pad_size len % 4 ≡ 0)
unfolding pad_size
pad_size-least len = (omega arith, omega arith, omega arith)

abbrev zero_byte : ℕ
zero_byte = 0

-- The front that an overwrite keeps.
kept : ℕ → List ℕ → List ℕ
kept at buffer = take at (buffer ++ replicate (at - length buffer) 0)

length-kept : (at : ℕ) (buffer : List ℕ) → length (kept at buffer) ≡ at
unfolding kept
length-kept at buffer = omega (
  arith,
  length-take at (buffer ++ replicate (at - length buffer) 0),
  length-append buffer (replicate (at - length buffer) 0),
  length-replicate (at - length buffer) zero_byte,
)

abbrev pub padded : List ℕ → List ℕ
padded bs = bs ++ replicate (pad_size (length bs) - length bs) 0

pub length-padded : (bs : List ℕ) → length (padded bs) ≡ pad_size (length bs)
length-padded bs = omega (
  arith,
  length-append bs (replicate (pad_size (length bs) - length bs) 0),
  length-replicate (pad_size (length bs) - length bs) zero_byte,
  (pad_size-least (length bs)).0,
)

-- What a write leaves, with its end within the limit.
abbrev pub written : List ℕ → Parcel → Parcel
written bs p = record p {
  data_bytes = overwrite p.cursor (padded bs) p.data_bytes;
  cursor = p.cursor + pad_size (length bs);
}

pub write_aligned_data-written :
    (bs : List ℕ) (p : Parcel)
    → p.cursor + pad_size (length bs) ≤ i32_max
    → write_aligned_data bs p ≡ record { parcel = written bs p; result = ok tt }
unfolding write_aligned_data
write_aligned_data-written bs p fits =
    let room : leb (p.cursor + pad_size (length bs)) i32_max ≡ true = ground arith in rw room refl

drop-overwrite :
    (at : ℕ) (bytes buffer : List ℕ)
    → drop at (overwrite at bytes buffer) ≡ bytes ++ drop (at + length bytes) buffer
unfolding overwrite kept
drop-overwrite at bytes buffer =
    unfold kept in drop-append_left (kept at buffer) _ (length-kept at buffer)

length-overwrite :
    (at : ℕ) (bytes buffer : List ℕ)
    → length (overwrite at bytes buffer)
      ≡ at + (length bytes + (length buffer - (at + length bytes)))
unfolding overwrite kept
length-overwrite at bytes buffer =
    unfold kept in
    omega (
      arith,
      length-append (kept at buffer) (bytes ++ drop (at + length bytes) buffer),
      length-kept at buffer,
      length-append bytes (drop (at + length bytes) buffer),
      length-drop (at + length bytes) buffer,
    )

pub read_aligned_data-written :
    (bs : List ℕ) (p : Parcel)
    → read_aligned_data (length bs) (set_data_position p.cursor (written bs p))
      ≡ record { parcel = written bs p; result = ok bs }
unfolding read_aligned_data set_data_position data_avail
read_aligned_data-written bs p =
    let room : leb (pad_size (length bs))
          (length (overwrite p.cursor (padded bs) p.data_bytes) - p.cursor)
        ≡ true =
      ground (arith, length-overwrite p.cursor (padded bs) p.data_bytes, length-padded bs) in
    let front : take (length bs) (drop p.cursor (overwrite p.cursor (padded bs) p.data_bytes))
        ≡ bs =
      ap (take (length bs)) (
        drop-overwrite p.cursor (padded bs) p.data_bytes
        ∙ append_assoc bs (replicate (pad_size (length bs) - length bs) 0) _)
      ∙ take-append_left bs _ refl in
    rw room (ap (λ (xs : List ℕ). record { parcel = written bs p; result = ok xs }) front)

take-overwrite :
    (at : ℕ) (bytes buffer : List ℕ)
    → take at (overwrite at bytes buffer) ≡ take at (buffer ++ replicate (at - length buffer) 0)
unfolding overwrite kept
take-overwrite at bytes buffer =
    unfold kept in take-append_left (kept at buffer) _ (length-kept at buffer)

behind-overwrite :
    (at : ℕ) (bytes buffer : List ℕ) {end : ℕ}
    → at + length bytes ≡ end
    → drop end (overwrite at bytes buffer) ≡ drop end buffer
behind-overwrite at bytes buffer {end} sum =
    ap (λ n. drop n (overwrite at bytes buffer)) (sym sum)
    ∙ sym (drop-drop at (length bytes) (overwrite at bytes buffer))
    ∙ ap (drop (length bytes)) (drop-overwrite at bytes buffer)
    ∙ drop-append_left bytes (drop (at + length bytes) buffer) refl
    ∙ ap (λ n. drop n buffer) sum

-- A write at any cursor whose end, padded to a multiple of four, is within the limit succeeds and moves
-- the cursor to that end. A read of as many bytes from the old cursor gives the bytes and stops where the
-- write stopped. The bytes in front of the cursor are those that were there, with zeros for a gap in
-- front of a cursor past the end, and the bytes behind the end are those that were there. A write over
-- the limit is refused and leaves the parcel as it is.
pub read-write_aligned_data :
    (bs : List ℕ) (p : Parcel)
    → let end = p.cursor + pad_size (length bs) in
      let q = (write_aligned_data bs p).parcel in
      (end ≤ i32_max
        → ((write_aligned_data bs p).result ≡ ok tt)
          × (q.cursor ≡ end)
          × (read_aligned_data (length bs) (set_data_position p.cursor q)
              ≡ record { parcel = q; result = ok bs })
          × (take p.cursor q.data_bytes
              ≡ take p.cursor (p.data_bytes ++ replicate (p.cursor - length p.data_bytes) 0))
          × (drop end q.data_bytes ≡ drop end p.data_bytes))
      × (i32_max < end → write_aligned_data bs p ≡ record { parcel = p; result = err bad_value })
unfolding write_aligned_data
read-write_aligned_data bs p = (
  λ fits.
      let done = write_aligned_data-written bs p fits in
      rw done (
        refl,
        refl,
        read_aligned_data-written bs p,
        take-overwrite p.cursor (padded bs) p.data_bytes,
        behind-overwrite p.cursor (padded bs) p.data_bytes
            (ap (λ n. p.cursor + n) (length-padded bs)),
      ),
  λ over.
      let no_room : leb (p.cursor + pad_size (length bs)) i32_max ≡ false = ground arith in
      rw no_room refl,
)

-- A write behind the end, and one over bytes that are there.
pub overwrite-append :
    (bytes buffer : List ℕ) → overwrite (length buffer) bytes buffer ≡ buffer ++ bytes
unfolding overwrite
overwrite-append bytes buffer =
    let n = length buffer in
    let front : take n (buffer ++ replicate (n - n) 0) ≡ buffer = take-append_left buffer _ refl in
    let none_behind : drop (n + length bytes) buffer ≡ [] =
      length-zero (drop (n + length bytes) buffer)
        (omega (arith, length-drop (n + length bytes) buffer)) in
    rw (front, none_behind) (ap (◌++◌ buffer) (append-nil bytes))

pub overwrite-inside :
    (front old bytes behind : List ℕ)
    → length old ≡ length bytes
    → overwrite (length front) bytes (front ++ (old ++ behind)) ≡ front ++ (bytes ++ behind)
unfolding overwrite
overwrite-inside front old bytes behind same =
    let all : List ℕ = front ++ (old ++ behind) in
    let zeros : List ℕ = replicate (length front - length all) 0 in
    let head : take (length front) (all ++ zeros) ≡ front =
      ap (take (length front)) (append_assoc front (old ++ behind) zeros)
      ∙ take-append_left front ((old ++ behind) ++ zeros) refl in
    let rest : drop (length front + length bytes) all ≡ behind =
      drop-append_skip front (old ++ behind) (length bytes) refl
      ∙ drop-append_left old behind same in
    rw (head, rest) refl
