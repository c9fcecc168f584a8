-- ===== src/Parcel/Nested.antt =====
-- Blocks with a size in front, one inside another.
use rsbinder.Prelude.{
  ℕ, zero, suc, ◌+◌, ◌-◌, ◌≤◌, ◌<◌, ◌≡◌, ◌⊎◌, refl, ap, ◌∙◌, false, Option, some, ltb, leb, length,
  take, drop, arith, inl, inr, Bool-cases,
}
use rsbinder.Prelude.Int.{ℤ, pos, negsuc, as_i32}
use rsbinder.Prelude.Bytes.{from_le}
use rsbinder.Status.{StatusCode, bad_value, not_enough_data}
use rsbinder.Parcel.{
  Result, Parcel, M, ok, err, max_nested_read_depth, set_data_position, data_size, data_avail,
  read_aligned_data, read_i32, pad_size, below_four, to_usize, leave_block, enter_block, sized_read,
}

-- What comes of a block before its closure: it is refused, whatever the closure is, or the closure runs
-- between the size and the end.
record Entered (p : Parcel) : Type 0 where
  inside : Parcel
  end : ℕ
  entered : (f : M (Unit {0})) → sized_read f p ≡ enter_block f end inside
  data_kept : inside.data_bytes ≡ p.data_bytes
  boundary_kept : inside.read_boundary ≡ p.read_boundary
  depth_kept : inside.nested_read_depth ≡ p.nested_read_depth
  cursor : inside.cursor ≡ p.cursor + 4
  within : (inside.cursor ≤ end) × (end ≤ length p.data_bytes)
  shallow : p.nested_read_depth < max_nested_read_depth

Refused : Parcel → Type 0
Refused p =
    (q : Parcel) × (e : StatusCode) × ((f : M (Unit {0}))
      → sized_read f p ≡ record { parcel = q; result = err e })
    × (q.data_bytes ≡ p.data_bytes)
    × (q.read_boundary ≡ p.read_boundary)
    × (q.nested_read_depth ≡ p.nested_read_depth)

at_least_four : (v : ℤ) → below_four v ≡ false → 4 ≤ to_usize v
at_least_four (pos n) fine = ground (arith, fine)
at_least_four (negsuc n) fine = ground (arith, fine)

end_inside :
    (p : Parcel) (end : ℕ)
    → p.cursor + 4 ≤ length p.data_bytes
    → ltb (data_size (record p { cursor = p.cursor + 4 })) end ≡ false
    → end ≤ length p.data_bytes
unfolding data_size
end_inside p end room within = ground (arith, within)

block : (p : Parcel) → Refused p ⊎ Entered p
unfolding sized_read read_i32 read_aligned_data data_avail data_size pad_size Refused
block p =
    let v = as_i32 (from_le (take 4 (drop p.cursor p.data_bytes))) in
    let q : Parcel = record p { cursor = p.cursor + 4 } in
    let end = p.cursor + to_usize v in
    elim (Bool-cases (leb 4 (length p.data_bytes - p.cursor))) [
      | inr short ↦ inl (p, not_enough_data, (λ f. rw short refl), refl, refl, refl)
      | inl room ↦ elim (Bool-cases (below_four v)) [
        | inl small ↦ inl (q, bad_value, (λ f. rw (room, small) refl), refl, refl, refl)
        | inr fine ↦ elim (Bool-cases (ltb (data_size q) end)) [
          | inl over ↦ inl (q, not_enough_data, (λ f. rw (room, fine, over) refl), refl, refl, refl)
          | inr within ↦ elim (Bool-cases (leb max_nested_read_depth p.nested_read_depth)) [
            | inl deep ↦
                inl (q, bad_value, (λ f. rw (room, fine, within, deep) refl), refl, refl, refl)
            | inr shallow ↦ inr (record {
              inside = q;
              end = end;
              entered = λ f. rw (room, fine, within, shallow) refl;
              data_kept = refl;
              boundary_kept = refl;
              depth_kept = refl;
              cursor = refl;
              within = (
                omega (arith, at_least_four v fine),
                end_inside p end (ground (arith, room)) within,
              );
              shallow = ground (arith, shallow);
            })
          ]
        ]
      ]
    ]

-- A closure inside `n` blocks.
abbrev pub nest : ℕ → M (Unit {0}) → M (Unit {0})
nest zero f = f
nest (suc n) f = sized_read (nest n f)

-- At a depth `d`, inside at least one block more than the 1000 - `d` that are left, a closure never
-- runs: whatever the bytes are, and whatever the closure would do, the read of these blocks ends with
-- one and the same error.
pub nest_too_deep :
    (n : ℕ) (p : Parcel)
    → max_nested_read_depth ≤ p.nested_read_depth + n
    → (q : Parcel) × (e : StatusCode) × ((f : M (Unit {0}))
        → nest (suc n) f p ≡ record { parcel = q; result = err e })
unfolding enter_block Refused
nest_too_deep zero p deep = elim (block p) [
  | inl (q, e, refused, bytes, boundary, depth) ↦ (q, e, refused)
  | inr b ↦ absurd (omega (arith, b.shallow))
]
nest_too_deep (suc n) p deep = elim (block p) [
  | inl (q, e, refused, bytes, boundary, depth) ↦ (q, e, (λ f. refused (nest (suc n) f)))
  | inr b ↦
      let p' : Parcel = record b.inside {
        read_boundary = some b.end;
        nested_read_depth = b.inside.nested_read_depth + 1;
      } in
      let (q, e, refused) = nest_too_deep n p' (omega (arith, b.depth_kept)) in
      (
        record q {
          read_boundary = b.inside.read_boundary;
          nested_read_depth = q.nested_read_depth - 1;
        },
        e,
        (λ f.
            b.entered (nest (suc n) f) ∙ ap (leave_block b.inside.read_boundary b.end) (refused f)),
      )
]

pub leave_block-kept :
    (boundary : Option ℕ) (end : ℕ) (q : Parcel) (r : Result (Unit {0}))
    → let s = leave_block boundary end (record { parcel = q; result = r }) in
      (s.parcel.data_bytes ≡ q.data_bytes)
      × (s.parcel.read_boundary ≡ boundary)
      × (s.parcel.nested_read_depth ≡ q.nested_read_depth - 1)
      × (s.result ≡ ok tt → s.parcel.cursor ≡ end)
      × (s.result ≡ r)
unfolding set_data_position
leave_block-kept boundary end q (ok tt) = (refl, refl, refl, (λ h. refl), refl)
leave_block-kept boundary end q (err e) = (refl, refl, refl, (λ h. absurd (cc h)), refl)

-- A reader that may read any way it likes, and leaves the bytes, the boundary and the depth as they are.
abbrev pub IsReader : M (Unit {0}) → Type 0
IsReader f =
    (p : Parcel)
    → ((f p).parcel.data_bytes ≡ p.data_bytes)
      × ((f p).parcel.read_boundary ≡ p.read_boundary)
      × ((f p).parcel.nested_read_depth ≡ p.nested_read_depth)

-- With a reader in it, a block is such a reader too, whatever the bytes are and however the reader fails;
-- and when the block is read, it had at least the four bytes of its size, its end is inside the data, and
-- the cursor stands at that end, no matter where the reader stopped.
pub sized_read-IsReader :
    (f : M (Unit {0})) (p : Parcel)
    → IsReader f
    → let s = sized_read f p in
      (s.parcel.data_bytes ≡ p.data_bytes)
      × (s.parcel.read_boundary ≡ p.read_boundary)
      × (s.parcel.nested_read_depth ≡ p.nested_read_depth)
      × (s.result ≡ ok tt
          → (p.cursor + 4 ≤ s.parcel.cursor) × (s.parcel.cursor ≤ length p.data_bytes))
unfolding enter_block set_data_position Refused
sized_read-IsReader f p reads = elim (block p) [
  | inl (q, e, refused, bytes, boundary, depth) ↦
      rw (refused f) (bytes, boundary, depth, λ h. absurd (cc h))
  | inr b ↦
      let p' : Parcel = record b.inside {
        read_boundary = some b.end;
        nested_read_depth = b.inside.nested_read_depth + 1;
      } in
      let (bytes, boundary, depth) = reads p' in
      let (bytes', boundary', depth', at_end, same) =
        leave_block-kept b.inside.read_boundary b.end (f p').parcel (f p').result in
      rw (b.entered f) (
        bytes' ∙ bytes ∙ b.data_kept,
        boundary' ∙ b.boundary_kept,
        omega (arith, depth', depth, b.depth_kept),
        (λ h. (omega (arith, at_end h, b.cursor, b.within.0), omega (arith, at_end h, b.within.1))),
      )
]
