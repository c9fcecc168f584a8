-- ===== src/Rpc/Wire/WireAddress.antt =====
-- The 8-byte address of the android-13 wire against the session's 32-byte address.
use rsbinder.Prelude.{
  ℕ, zero, suc, ◌+◌, ◌%◌, ◌/◌, ◌^◌, ◌<◌, ◌≡◌, refl, sym, ap, ◌∙◌, inl, inr, List, [], ◌∷◌, ◌++◌,
  arith, Bool-cases, length, ◌==◌, if◌then◌else◌, take, replicate, length-append, take-append_left,
}
use mathlib.Core.List.{append_assoc}
use mathlib.Core.Path.{ap₂}
use rsbinder.Prelude.Bytes.{le_bytes, from_le, length-le_bytes, from_le-le_bytes}
use rsbinder.Rpc.Result.{ok}
use rsbinder.Rpc.Address.{
  RpcAddress, AddressSpace, initiator, acceptor, tag, unique, zero_addr, is_zero, unique-ne-zero,
}
use rsbinder.Rpc.Wire.Readers.{rd_u32}
use rsbinder.Rpc.Wire.ReaderLaws.{rd_u32-here, rd_u32-skip}
use rsbinder.Rpc.Wire.Android13.{encode_addr, decode_addr, byte_at}

le_bytes-narrow : (v : ℕ) → v < 2 ^ 32 → le_bytes 8 v ≡ le_bytes 4 v ++ replicate 4 0
unfolding le_bytes
le_bytes-narrow v h = ground arith

-- The addresses that the android-13 wire carries whole: the reserved one, and those that `unique`
-- mints from a counter that stays in 32 bits.
pub data IsNarrow (a : RpcAddress) : Type 0 where
  reserved : a ≡ zero_addr → IsNarrow a
  minted : (c : ℕ) (s : AddressSpace) → c + 1 < 2 ^ 32 → a ≡ (unique c s).1 → IsNarrow a

abbrev options_of : AddressSpace → ℕ
options_of initiator = 1
options_of acceptor = 3

unique-bytes :
    (c : ℕ) (s : AddressSpace)
    → c + 1 < 2 ^ 32
    → (unique c s).1.bytes ≡ le_bytes 4 (c + 1) ++ (replicate 4 0 ++ (tag s ∷ replicate 23 0))
unfolding unique
unique-bytes c s h =
    ap (λ n. le_bytes 8 n ++ (tag s ∷ replicate 23 0)) counter
    ∙ ap (λ bs. bs ++ (tag s ∷ replicate 23 0)) (le_bytes-narrow (c + 1) h)
    ∙ append_assoc (le_bytes 4 (c + 1)) (replicate 4 0) (tag s ∷ replicate 23 0)
  where
    counter : (c + 1) % 2 ^ 64 ≡ c + 1
    counter = omega arith

byte_at-skip :
    (xs ys : List ℕ) (k off : ℕ) → length xs + k ≡ off → byte_at (xs ++ ys) off ≡ byte_at ys k
byte_at-skip [] ys k off h = cc (zero_add k)
  where
    zero_add : (n : ℕ) → 0 + n ≡ n
    zero_add n = omega arith
byte_at-skip (x ∷ xs) ys k zero h = absurd (omega arith)
byte_at-skip (x ∷ xs) ys k (suc off) h = byte_at-skip xs ys k off (omega arith)

encode_addr-unique :
    (c : ℕ) (s : AddressSpace)
    → c + 1 < 2 ^ 32
    → encode_addr (unique c s).1 ≡ le_bytes 4 (options_of s) ++ le_bytes 4 (c + 1)
unfolding encode_addr
encode_addr-unique c s h =
    rw (unique-ne-zero c s) (ap₂ (λ o w. le_bytes 4 o ++ le_bytes 4 w) (options s role) address)
  where
    role : byte_at (unique c s).1.bytes 8 ≡ tag s
    role =
        ap (λ bs. byte_at bs 8) (unique-bytes c s h)
        ∙ byte_at-skip (le_bytes 4 (c + 1)) (replicate 4 0 ++ (tag s ∷ replicate 23 0)) 4 8
            (omega (arith, length-le_bytes 4 (c + 1)))

    options :
        (t : AddressSpace)
        → byte_at (unique c s).1.bytes 8 ≡ tag t
        → (if byte_at (unique c s).1.bytes 8 == 2 then 3 else 1) ≡ options_of t
    options initiator e = unfold tag in rw e
    options acceptor e = unfold tag in rw e

    address : from_le (take 4 (unique c s).1.bytes) ≡ c + 1
    address =
        ap (λ bs. from_le (take 4 bs)) (unique-bytes c s h)
        ∙ ap from_le (
            take-append_left (le_bytes 4 (c + 1)) (replicate 4 0 ++ (tag s ∷ replicate 23 0))
              (length-le_bytes 4 (c + 1)))
        ∙ from_le-le_bytes 4 (c + 1) h

-- Any two words in front of a buffer, the first with `CREATED` set.
decode_addr-words :
    (o w : ℕ) (rest : List ℕ)
    → o < 2 ^ 32
    → w < 2 ^ 32
    → o % 2 ≡ 1
    → decode_addr ((le_bytes 4 o ++ le_bytes 4 w) ++ rest) 0
      ≡ ok (record {
        bytes =
            le_bytes 4 w
            ++ (replicate 4 0 ++ ((if (o / 2) % 2 == 1 then 2 else 1) ∷ replicate 23 0));
      })
unfolding decode_addr
decode_addr-words o w rest ho hw odd = rw (append_assoc, first, second) (ground arith)
  where
    first : rd_u32 (le_bytes 4 o ++ (le_bytes 4 w ++ rest)) 0 ≡ ok o
    first = rd_u32-here o _ ho

    second : rd_u32 (le_bytes 4 o ++ (le_bytes 4 w ++ rest)) 4 ≡ ok w
    second =
        rd_u32-skip (le_bytes 4 o) _ 0 (omega (arith, length-le_bytes 4 o)) (omega arith)
        ∙ rd_u32-here w rest hw

decode_addr_zero : (rest : List ℕ) → decode_addr (replicate 8 0 ++ rest) 0 ≡ ok zero_addr
unfolding decode_addr
decode_addr_zero rest = rw (first, second)
  where
    first : rd_u32 (replicate 8 0 ++ rest) 0 ≡ ok 0
    first = unfold le_bytes in rd_u32-here 0 (replicate 4 0 ++ rest) (omega arith)

    second : rd_u32 (replicate 8 0 ++ rest) 4 ≡ ok 0
    second =
        unfold le_bytes in
        (rd_u32-skip (replicate 4 0) (replicate 4 0 ++ rest) 0 (omega arith) (omega arith)
          ∙ rd_u32-here 0 rest (omega arith))

encode_addr_zero : encode_addr zero_addr ≡ replicate 8 0
unfolding encode_addr is_zero zero_addr
encode_addr_zero = refl

from_bytes : (a : RpcAddress) (bs : List ℕ) → a.bytes ≡ bs → ok a ≡ ok (record { bytes = bs })
from_bytes a bs h = λ i. ok (record { bytes = h i })

-- A narrow address comes back from its eight bytes, whatever follows them.
pub decode-encode_addr :
    (a : RpcAddress) (rest : List ℕ) → IsNarrow a → decode_addr (encode_addr a ++ rest) 0 ≡ ok a
decode-encode_addr a rest (reserved e) = rw (e, encode_addr_zero) (decode_addr_zero rest)
decode-encode_addr a rest (minted c initiator h e) =
    rw (e, encode_addr-unique c initiator h)
      (decode_addr-words 1 (c + 1) rest (omega arith) h (omega arith)
        ∙ unfold tag in sym (from_bytes _ _ (unique-bytes c initiator h)))
decode-encode_addr a rest (minted c acceptor h e) =
    rw (e, encode_addr-unique c acceptor h)
      (decode_addr-words 3 (c + 1) rest (omega arith) h (omega arith)
        ∙ unfold tag in sym (from_bytes _ _ (unique-bytes c acceptor h)))

length_words : (o w : ℕ) → length (le_bytes 4 o ++ le_bytes 4 w) ≡ 8
length_words o w =
    omega
      (arith, length-append (le_bytes 4 o) (le_bytes 4 w), length-le_bytes 4 o, length-le_bytes 4 w)

pub length-encode_addr : (a : RpcAddress) → length (encode_addr a) ≡ 8
unfolding encode_addr
length-encode_addr a = elim (Bool-cases (is_zero a)) [
  | inl z ↦ rw z (omega arith)
  | inr nz ↦ rw nz (length_words _ _)
]
