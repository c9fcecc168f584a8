-- ===== src/Rpc/Wire/FdStream/Received.antt =====
-- What a message that was read with descriptors holds.
use rsbinder.Prelude.{
  ℕ, zero, suc, ◌+◌, ◌-◌, ◌≤◌, ◌≡◌, refl, sym, ap, ◌∙◌, List, [], ◌∷◌, ◌++◌, ltb, leb, true, inl,
  inr, if◌then◌else◌, Bool-cases, length, take, drop, arith, length-append, length-take,
  length-drop, take-append-drop, take-append_le, drop-append_le,
}
use mathlib.Core.List.{append_assoc, append-nil}
use rsbinder.Prelude.Bytes.{from_le}
use rsbinder.Rpc.Result.{Result, ok, err, Result-cases}
use rsbinder.Rpc.Wire.Readers.{max_frame_len}
use rsbinder.Rpc.Wire.FdStream.{
  max_fds_per_frame, Recv, brings, refuses, Progress, Filling, fill, read_aosp_message_with_fds,
}

-- The bytes and the descriptors that a transport will bring.
abbrev pub bytes_of : List Recv → List ℕ
bytes_of [] = []
bytes_of (brings bs more ∷ es) = bs ++ bytes_of es
bytes_of (refuses e ∷ es) = bytes_of es

abbrev pub fds_of : List Recv → List ℕ
fds_of [] = []
fds_of (brings bs more ∷ es) = more ++ fds_of es
fds_of (refuses e ∷ es) = fds_of es

-- A call of `fill` that returns got `n` bytes, and every descriptor on the way, within the budget.
Got : List ℕ → ℕ → Progress → List Recv → Filling → Type 0
Got buf n p es (err e) = Unit
Got buf n p es (ok (buf', p', es')) =
    (front : List ℕ) × (buf' ≡ buf ++ front)
    × (length front ≡ n)
    × (bytes_of es ≡ front ++ bytes_of es')
    × (p.fds ++ fds_of es ≡ p'.fds ++ fds_of es')
    × (length p'.fds ≤ max_fds_per_frame)

Got-brings :
    (buf xs more : List ℕ) (n k total : ℕ) (p : Progress) (es : List Recv) (r : Filling)
    → length xs + k ≡ n
    → Got (buf ++ xs) k (record { fds = p.fds ++ more; total_read = total }) es r
    → Got buf n p (brings xs more ∷ es) r
unfolding Got
Got-brings buf xs more n k total p es (err e) sum got = tt
Got-brings buf xs more n k total p es (ok (buf', p', es')) sum
      (front, filled, sized, left, kept, small) =
    (
      xs ++ front,
      filled ∙ append_assoc buf xs front,
      omega (arith, length-append xs front),
      ap (λ (ys : List ℕ). xs ++ ys) left ∙ sym (append_assoc xs front (bytes_of es')),
      sym (append_assoc p.fds more (fds_of es)) ∙ kept,
      small,
    )

fill-Got :
    (buf : List ℕ) (n : ℕ) (p : Progress) (es : List Recv)
    → length p.fds ≤ max_fds_per_frame
    → Got buf n p es (fill buf n p es)
unfolding fill Got
fill-Got buf zero p es few = ([], sym (append-nil buf), refl, refl, refl, few)
fill-Got buf (suc n) p [] few = tt
fill-Got buf (suc n) p (brings [] more ∷ es) few =
    elim (Bool-cases (ltb max_fds_per_frame (length (p.fds ++ more)))) [
      | inl over ↦ rw over tt
      | inr within ↦ rw within tt
    ]
fill-Got buf (suc n) p (brings (b ∷ bs) more ∷ es) few =
    elim (Bool-cases (ltb max_fds_per_frame (length (p.fds ++ more)))) [
      | inl over ↦ rw over tt
      | inr within ↦
          let still : length (p.fds ++ more) ≤ max_fds_per_frame = ground (arith, within) in
          elim (Bool-cases (leb (length bs) n)) [
            | inl whole ↦
                rw (within, whole)
                  (Got-brings buf (b ∷ bs) more (suc n) (n - length bs)
                    (p.total_read + suc (length bs)) p es _ (ground (arith, whole))
                    (fill-Got (buf ++ b ∷ bs) (n - length bs) _ es still))
            | inr part ↦
                rw (within, part)
                  (
                    take (suc n) (b ∷ bs),
                    refl,
                    ground (arith, part, length-take n bs),
                    ap (◌∷◌ b) (
                        ap (λ (ys : List ℕ). ys ++ bytes_of es) (sym (take-append-drop n bs))
                        ∙ append_assoc (take n bs) (drop n bs) (bytes_of es)),
                    sym (append_assoc p.fds more (fds_of es)),
                    still,
                  )
          ]
    ]
fill-Got buf (suc n) p (refuses e ∷ es) few = tt

abbrev Message : List Recv → Result (List ℕ × List ℕ × List Recv) → Type 0
Message es (err e) = Unit
Message es (ok (msg, fds, es')) =
    (length msg ≡ 16 + from_le (take 4 (drop 4 msg)))
    × (length msg ≤ 16 + max_frame_len)
    × (length fds ≤ max_fds_per_frame)
    × (bytes_of es ≡ msg ++ bytes_of es')
    × (fds_of es ≡ fds ++ fds_of es')

body_read :
    (size : ℕ) (p : Progress) (es : List Recv)
    → length p.fds ≤ max_fds_per_frame
    → Got [] size p es (if ltb 0 size then fill [] size p es else ok ([], p, es))
unfolding Got
body_read zero p es few = ([], refl, refl, refl, refl, few)
body_read (suc n) p es few =
    let some_bytes : ltb 0 (suc n) ≡ true = ground arith in
    rw some_bytes (fill-Got [] (suc n) p es few)

declared :
    (header body : List ℕ)
    → length header ≡ 16
    → from_le (take 4 (drop 4 (header ++ body))) ≡ from_le (take 4 (drop 4 header))
declared header body sized =
    rw (drop-append_le 4 header body (omega arith))
      (ap from_le (take-append_le 4 (drop 4 header) body (omega (arith, length-drop 4 header))))

read-Message : (es : List Recv) → Message es (read_aosp_message_with_fds es)
unfolding read_aosp_message_with_fds Got
read-Message es =
    let start : Progress = record { fds = []; total_read = 0 } in
    let first = fill-Got [] 16 start es (omega arith) in
    elim (Result-cases (fill [] 16 start es)) [
      | inr (e, failed) ↦ rw failed tt
      | inl ((header, p, es1), came) ↦
          let (front, same, sized, left, kept, few) = rw came at first in
          let size = from_le (take 4 (drop 4 header)) in
          elim (Bool-cases (ltb max_frame_len size)) [
            | inl over ↦ rw (came, over) tt
            | inr within ↦
                elim (Result-cases (if ltb 0 size then fill [] size p es1 else ok ([], p, es1))) [
                  | inr (e, failed) ↦ rw (came, within, failed) tt
                  | inl ((body, p', es2), came') ↦
                      let (front', same', sized', left', kept', few') =
                        rw came' at (body_read size p es1 few) in
                      let long : length header ≡ 16 = ap length same ∙ sized in
                      let body_long : length body ≡ size = ap length same' ∙ sized' in
                      rw (came, within, came')
                        (
                          length-append header body
                              ∙ omega (arith, long, body_long, declared header body long),
                          ground (arith, within, length-append header body, long, body_long),
                          few',
                          left
                              ∙ ap (◌++◌ front) left'
                              ∙ sym (append_assoc front front' (bytes_of es2))
                              ∙ ap (λ (xs : List ℕ). xs ++ front' ++ bytes_of es2) (sym same)
                              ∙ ap (λ (xs : List ℕ). header ++ xs ++ bytes_of es2) (sym same'),
                          kept ∙ kept',
                        )
                ]
          ]
    ]

-- When a message is read, it is the 16 bytes of its header and as many as the header declares, within
-- the frame cap; it comes with at most 64 descriptors; and the bytes and the descriptors that the
-- transport had to bring are those of the message followed by those still to come: none is lost, doubled
-- or passed on to another message.
pub read_aosp_message_with_fds_lem :
    (es : List Recv) {msg fds : List ℕ} {es' : List Recv}
    → read_aosp_message_with_fds es ≡ ok (msg, fds, es')
    → (length msg ≡ 16 + from_le (take 4 (drop 4 msg)))
      × (length msg ≤ 16 + max_frame_len)
      × (length fds ≤ max_fds_per_frame)
      × (bytes_of es ≡ msg ++ bytes_of es')
      × (fds_of es ≡ fds ++ fds_of es')
read_aosp_message_with_fds_lem es h = rw h at (read-Message es)
