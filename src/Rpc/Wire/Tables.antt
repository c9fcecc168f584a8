-- ===== src/Rpc/Wire/Tables.antt =====
-- The parcel data and the object table behind it: splitting what was joined.
use rsbinder.Prelude.{
  ◌≢◌, ℕ, zero, suc, ◌+◌, ◌*◌, ◌^◌, ◌<◌, ◌≡◌, refl, ap, ◌∙◌, List, [], ◌∷◌, ◌++◌, arith, length,
  All, length-append, take-append_left, drop-append_left, if◌then◌else◌,
}
use rsbinder.Prelude.Bytes.{le_bytes, length-le_bytes, from_le-le_bytes}
use rsbinder.Rpc.Result.{ok}
use rsbinder.Rpc.Wire.Android13.{
  table_bytes, chunks, has_object_table, encode_data_and_table, split_data_and_table, table_len,
}

pub length-table_bytes : (ps : List ℕ) → length (table_bytes ps) ≡ 4 * length ps
unfolding table_bytes
length-table_bytes [] = omega arith
length-table_bytes (p ∷ ps) = omega (
  arith,
  length-append (le_bytes 4 p) (table_bytes ps),
  length-le_bytes 4 p,
  length-table_bytes ps,
)

abbrev pub IsWord : ℕ → Type 0
IsWord p = p < 2 ^ 32

chunks-word : (p : ℕ) (rest : List ℕ) → p < 2 ^ 32 → chunks (le_bytes 4 p ++ rest) ≡ p ∷ chunks rest
unfolding chunks le_bytes
chunks-word p rest h = ap (λ w. w ∷ chunks rest) (from_le-le_bytes 4 p h)

pub chunks-table_bytes : (ps : List ℕ) → All IsWord ps → chunks (table_bytes ps) ≡ ps
unfolding table_bytes
chunks-table_bytes [] h = unfold chunks in refl
chunks-table_bytes (p ∷ ps) h =
    chunks-word p (table_bytes ps) h.0 ∙ ap (◌∷◌ p) (chunks-table_bytes ps h.1)

-- The object table that a version can carry: none before version 1.
pub record IsTable (version : ℕ) (ps : List ℕ) : Type 0 where
  pub words : All IsWord ps
  pub carried : version ≡ 0 → ps ≡ []

abbrev pub tail_of : ℕ → List ℕ → List ℕ → List ℕ
tail_of version payload ps = if has_object_table version then payload ++ table_bytes ps else payload

pub encode_data_and_table-ok :
    (version : ℕ) (payload ps : List ℕ)
    → IsTable version ps
    → encode_data_and_table version payload ps ≡ ok (tail_of version payload ps)
unfolding encode_data_and_table has_object_table
encode_data_and_table-ok version payload ps v = ground (arith, v.carried)

-- The data size is read from version 1 on only; before, any number may stand there.
pub split-encode :
    (version size : ℕ) (payload ps : List ℕ)
    → IsTable version ps
    → (version ≢ 0 → size ≡ length payload)
    → split_data_and_table version (tail_of version payload ps) size ≡ ok (payload, ps)
unfolding split_data_and_table has_object_table
split-encode zero size payload ps v sized = ground (arith, v.carried refl)
split-encode (suc version) size payload ps v sized = ground (
  arith,
  sized (omega arith),
  length-append payload (table_bytes ps),
  length-table_bytes ps,
  chunks-table_bytes ps v.words,
  take-append_left payload (table_bytes ps) {n = length payload} refl,
  drop-append_left payload (table_bytes ps) {n = length payload} refl,
)

pub length-tail_of :
    (version : ℕ) (payload ps : List ℕ)
    → length (tail_of version payload ps) ≡ length payload + table_len version ps
unfolding has_object_table
length-tail_of version payload ps =
    ground (arith, length-append payload (table_bytes ps), length-table_bytes ps)
