-- ===== src/Parcel.antt =====
-- The byte buffer of a parcel and its cursor (rsbinder/src/parcel.rs), on a little-endian host with 64-bit
-- `usize`. The kernel's object table, the RPC fields and the capacity are left out. A panic of an
-- assertion is none of the results.
pub mod Buffer
pub mod Nested
pub mod Sized
pub mod Array
mod Tests
use rsbinder.Prelude.{
  ℕ, zero, suc, ◌+◌, ◌-◌, ◌*◌, ◌/◌, ◌%◌, ◌^◌, not, Bool, true, false, ◌&&◌, List, [], ◌∷◌, ◌++◌,
  Option, none, some, ltb, leb, ◌==◌, if◌then◌else◌, length, take, drop, replicate,
}
use rsbinder.Prelude.Int.{ℤ, pos, negsuc, to_u32, as_i32}
use rsbinder.Status.{StatusCode, bad_value, not_enough_data}
use rsbinder.Prelude.Bytes.{le_bytes, from_le}

pub data Result (A : Type 0) : Type 0 where
  ok : A → Result A
  err : StatusCode → Result A

pub record Parcel : Type 0 where
  pub data_bytes : List ℕ
  pub cursor : ℕ
  pub read_boundary : Option ℕ
  pub nested_read_depth : ℕ

-- What a call leaves and returns.
pub record Step (A : Type 0) : Type 0 where
  pub parcel : Parcel
  pub result : Result A

abbrev pub M : Type 0 → Type 0
M A = Parcel → Step A

abbrev pub pure : {A : Type 0} → A → M A
pure a p = record { parcel = p; result = ok a }

abbrev pub fail : {A : Type 0} → StatusCode → M A
fail e p = record { parcel = p; result = err e }

abbrev pub and_then : {A B : Type 0} → Parcel → Result A → (A → M B) → Step B
and_then p (err e) f = record { parcel = p; result = err e }
and_then p (ok a) f = f a p

infixl 5 ◌>>=◌ ◌>>◌
abbrev pub ◌>>=◌ : {A B : Type 0} → M A → (A → M B) → M B
◌>>=◌ m f p = let first = m p in and_then first.parcel first.result f

abbrev pub ◌>>◌ : {B : Type 0} → M (Unit {0}) → M B → M B
m >> next = m >>= λ _. next

abbrev pub refuse_if : Bool → StatusCode → M (Unit {0})
refuse_if true e = fail e
refuse_if false e = pure tt

-- `(len + 3) & !3`.
unfoldable pub pad_size : ℕ → ℕ
pad_size len = (len + 3) / 4 * 4

abbrev pub i32_max : ℕ
i32_max = 2 ^ 31 - 1

abbrev pub max_nested_read_depth : ℕ
max_nested_read_depth = 1000

unfoldable pub set_data_position : ℕ → Parcel → Parcel
set_data_position at p = record p { cursor = at }

unfoldable pub data_size : Parcel → ℕ
data_size p = if ltb p.cursor (length p.data_bytes) then length p.data_bytes else p.cursor

unfoldable pub data_avail : Parcel → ℕ
data_avail p = length p.data_bytes - p.cursor

unfoldable pub has_more_data : Parcel → Bool
unfolding data_size
has_more_data p = elim p.read_boundary [
  | none ↦ ltb p.cursor (data_size p)
  | some end ↦ ltb p.cursor end
]

unfoldable pub read_aligned_data : ℕ → M (List ℕ)
unfolding pad_size data_avail
read_aligned_data len p =
    if leb (pad_size len) (data_avail p)
    then record {
      parcel = record p { cursor = p.cursor + pad_size len };
      result = ok (take len (drop p.cursor p.data_bytes));
    }
    else record { parcel = p; result = err not_enough_data }

-- The buffer with these bytes at `at`: a gap in front of them is filled with 0, and what they
-- do not cover is kept.
unfoldable pub overwrite : ℕ → List ℕ → List ℕ → List ℕ
overwrite at bytes buffer =
    take at (buffer ++ replicate (at - length buffer) 0)
    ++ (bytes ++ drop (at + length bytes) buffer)

unfoldable pub write_aligned_data : List ℕ → M (Unit {0})
unfolding pad_size overwrite
write_aligned_data val_bytes p =
    let aligned = pad_size (length val_bytes) in
    let end = p.cursor + aligned in
    if leb end i32_max
    then record {
      parcel = record p {
        data_bytes =
            overwrite p.cursor (val_bytes ++ replicate (aligned - length val_bytes) 0) p.data_bytes;
        cursor = end;
      };
      result = ok tt;
    }
    else record { parcel = p; result = err bad_value }

unfoldable pub write_i32 : ℤ → M (Unit {0})
write_i32 v = write_aligned_data (le_bytes 4 (to_u32 v))

unfoldable pub read_i32 : M ℤ
read_i32 = do bytes ← read_aligned_data 4; pure (as_i32 (from_le bytes))

abbrev pub below_four : ℤ → Bool
below_four (pos n) = ltb n 4
below_four (negsuc n) = true

-- A number that the test above has let through.
abbrev pub to_usize : ℤ → ℕ
to_usize (pos n) = n
to_usize (negsuc n) = 0

-- The end of the call of the closure, whatever it returned.
abbrev pub leave_block : Option ℕ → ℕ → Step (Unit {0}) → Step (Unit {0})
leave_block boundary end step =
    let p = record step.parcel {
      read_boundary = boundary;
      nested_read_depth = step.parcel.nested_read_depth - 1;
    } in
    and_then p step.result (λ _ p. record { parcel = set_data_position end p; result = ok tt })

unfoldable pub enter_block : M (Unit {0}) → ℕ → M (Unit {0})
enter_block f end p =
    leave_block p.read_boundary end
      (f (record p { read_boundary = some end; nested_read_depth = p.nested_read_depth + 1 }))

unfoldable pub sized_read : M (Unit {0}) → M (Unit {0})
sized_read f p =
    (do
      parcelable_size ← read_i32
      refuse_if (below_four parcelable_size) bad_value
      let end = p.cursor + to_usize parcelable_size
      (λ q. refuse_if (ltb (data_size q) end) not_enough_data q)
      (λ q. refuse_if (leb max_nested_read_depth q.nested_read_depth) bad_value q)
      enter_block f end)
      p

unfoldable pub sized_write : M (Unit {0}) → M (Unit {0})
sized_write f p =
    (do
      write_i32 (pos 0)
      f
      (λ q.
          let rewound = set_data_position p.cursor q in
          let written = write_i32 (as_i32 ((q.cursor - p.cursor) % 2 ^ 32)) rewound in
          and_then written.parcel written.result
            (λ _ r. record { parcel = set_data_position q.cursor r; result = ok tt })))
      p
