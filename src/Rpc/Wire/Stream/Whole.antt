-- ===== src/Rpc/Wire/Stream/Whole.antt =====
-- What is read of a stream that brings its bytes, in pieces of any size.
use rsbinder.Prelude.{
  ℕ, zero, suc, ◌-◌, ◌≤◌, ◌<◌, ◌≡◌, ◌≢◌, refl, sym, ap, ◌∙◌, List, [], ◌∷◌, ◌++◌, leb, length, take,
  drop, arith, inl, inr, Bool-cases, length-append, take-append_left, drop-append_left,
  take-append_more, drop-append_more, take-append_less, drop-append_less,
}
use mathlib.Core.List.{append_assoc, append-nil}
use rsbinder.Rpc.Result.{Result, ok}
use rsbinder.Rpc.Framing.{Answer, bytes, fails, content}
use rsbinder.Rpc.Wire.Stream.{fill_raw, read_exact_raw}

-- No read is answered by an error or by 0 bytes before the stream's end.
abbrev pub IsSolid : List Answer → Type 0
IsSolid [] = Unit
IsSolid (bytes bs ∷ es) = (bs ≢ []) × IsSolid es
IsSolid (fails k ∷ es) = ⊥

abbrev Filled : List ℕ → ℕ → List Answer → Result (List ℕ × List Answer) → Type 0
Filled filled n es r =
    (es' : List Answer) × (r ≡ ok (filled ++ take n (content es), es'))
    × (content es' ≡ drop n (content es))
    × IsSolid es'

fill_raw-Filled :
    (filled : List ℕ) (n : ℕ) (es : List Answer)
    → IsSolid es
    → n ≤ length (content es)
    → Filled filled n es (fill_raw filled n es)
unfolding fill_raw
fill_raw-Filled filled zero es solid enough =
    (es, ap (λ (l : List ℕ). ok (l, es)) (sym (append-nil filled)), refl, solid)
fill_raw-Filled filled (suc n) [] solid enough = absurd (omega arith)
fill_raw-Filled filled (suc n) (bytes [] ∷ es) solid enough = absurd (solid.0 refl)
fill_raw-Filled filled (suc n) (bytes (b ∷ bs) ∷ es) solid enough =
    elim (Bool-cases (leb (length bs) n)) [
      | inl whole ↦
          let fits : length bs ≤ n = ground (arith, whole) in
          let (es', got, left, tidy) =
            fill_raw-Filled (filled ++ b ∷ bs) (n - length bs) es solid.1
              (ground (arith, whole, length-append bs (content es))) in
          let more : take n (bs ++ content es) ≡ bs ++ take (n - length bs) (content es) =
            take-append_more bs (content es) n fits in
          (
            es',
            rw (whole, more)
                (got ∙ ap (λ (l : List ℕ). ok (l, es')) (append_assoc filled (b ∷ bs) _)),
            left ∙ sym (drop-append_more bs (content es) n fits),
            tidy,
          )
      | inr part ↦
          let cut : n < length bs = ground (arith, part) in
          let behind = drop-append_less bs (content es) n cut in
          (
            bytes (drop n bs) ∷ es,
            rw (part, take-append_less bs (content es) n cut) refl,
            sym behind.0,
            (behind.1, solid.1),
          )
    ]
fill_raw-Filled filled (suc n) (fails k ∷ es) solid enough = absurd solid

-- The bytes that stand in front are read whole.
pub read_exact_raw-front :
    (xs behind : List ℕ) (es : List Answer) {n : ℕ}
    → length xs ≡ n
    → IsSolid es
    → content es ≡ xs ++ behind
    → (es' : List Answer) × (read_exact_raw n es ≡ record { sent = []; result = ok (xs, es') })
      × (content es' ≡ behind)
      × IsSolid es'
unfolding read_exact_raw
read_exact_raw-front xs behind es {n} size solid brought =
    let (es', got, left, tidy) =
      fill_raw-Filled [] n es solid
        (ground (arith, ap length brought, length-append xs behind, size)) in
    let front : take n (content es) ≡ xs = ap (take n) brought ∙ take-append_left xs behind size in
    (
      es',
      ap (λ (r : Result (List ℕ × List Answer)). record { sent = []; result = r })
          (got ∙ ap (λ (l : List ℕ). ok (l, es')) front),
      left ∙ ap (drop n) brought ∙ drop-append_left xs behind size,
      tidy,
    )
