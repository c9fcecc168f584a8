-- ===== src/Rpc/Wire/FdStream/Plain.antt =====
-- Reading without descriptors, on the transport and on the raw stream.
use rsbinder.Prelude.{
  ℕ, zero, suc, ◌+◌, ◌-◌, ◌≡◌, refl, ap, Bool, not, ◌&&◌, List, [], ◌∷◌, ◌++◌, ltb, leb, ◌==◌, true,
  false, inl, inr, if◌then◌else◌, Bool-cases, length, take, drop, arith,
}
use rsbinder.Prelude.Bytes.{from_le}
use rsbinder.Rpc.Result.{timed_out, timeout, peer_closed, Result, ok, err, Result-cases}
use rsbinder.Rpc.Framing.{Answer, bytes, fails}
use rsbinder.Rpc.Wire.Readers.{max_frame_len}
use rsbinder.Rpc.Wire.R34.{is_empty}
use rsbinder.Rpc.Wire.Stream.{
  failure, fill_raw, read_exact_raw, mid_message, read_body, early, read_aosp_message,
}
use rsbinder.Rpc.Wire.FdStream.{
  Recv, brings, refuses, Progress, Filling, fill, ended, recv_failed, read_aosp_message_with_fds,
}

-- No read fails but by its deadline.
abbrev pub OnlyDeadlines : List Answer → Type 0
OnlyDeadlines [] = Unit
OnlyDeadlines (bytes bs ∷ es) = OnlyDeadlines es
OnlyDeadlines (fails k ∷ es) = (k ≡ timed_out) × OnlyDeadlines es

-- The same stream as a transport that brings no descriptor.
abbrev pub plain : List Answer → List Recv
plain [] = []
plain (bytes bs ∷ es) = brings bs [] ∷ plain es
plain (fails k ∷ es) = refuses timeout ∷ plain es

abbrev pub with_no_fds : Result (List ℕ × List Answer) → Result (List ℕ × List ℕ × List Recv)
with_no_fds (ok (msg, es)) = ok (msg, [], plain es)
with_no_fds (err e) = err e

abbrev at : ℕ → Progress
at total = record { fds = []; total_read = total }

abbrev carried : ℕ → Result (List ℕ × List Answer) → Filling
carried total (ok (xs, es)) = ok (xs, at total, plain es)
carried total (err e) = err e

-- In the body, an early end is not a clean one.
abbrev seen : Bool → Result (List ℕ × List Answer) → Result (List ℕ × List Answer)
seen started r = if started then mid_message r else r

is_empty-append : (xs : List ℕ) (b : ℕ) (bs : List ℕ) → is_empty (xs ++ b ∷ bs) ≡ false
is_empty-append [] b bs = refl
is_empty-append (x ∷ xs) b bs = refl

closed-plain :
    (started : Bool) (buf : List ℕ) (total all : ℕ)
    → (total == 0) ≡ (not started && is_empty buf)
    → err (ended (at total)) ≡ carried all (seen started (err (early buf peer_closed)))
closed-plain true [] total all clean = rw clean refl
closed-plain true (b ∷ bs) total all clean = rw clean refl
closed-plain false [] total all clean = rw clean refl
closed-plain false (b ∷ bs) total all clean = rw clean refl

deadline-plain :
    (started : Bool) (buf : List ℕ) (total all : ℕ)
    → (total == 0) ≡ (not started && is_empty buf)
    → err (recv_failed (at total) timeout) ≡ carried all (seen started (err (early buf timeout)))
deadline-plain true [] total all clean = rw clean refl
deadline-plain true (b ∷ bs) total all clean = rw clean refl
deadline-plain false [] total all clean = rw clean refl
deadline-plain false (b ∷ bs) total all clean = rw clean refl

cut-plain :
    (started : Bool) (xs : List ℕ) (all : ℕ) (es : List Answer)
    → ok (xs, at all, plain es) ≡ carried all (seen started (ok (xs, es)))
cut-plain true xs all es = refl
cut-plain false xs all es = refl

fill-plain :
    (started : Bool) (buf : List ℕ) (n total : ℕ) (es : List Answer)
    → OnlyDeadlines es
    → (total == 0) ≡ (not started && is_empty buf)
    → fill buf n (at total) (plain es) ≡ carried (total + n) (seen started (fill_raw buf n es))
unfolding fill fill_raw failure
fill-plain true buf zero total es late clean = ap (λ t. ok (buf, at t, plain es)) (omega arith)
fill-plain false buf zero total es late clean = ap (λ t. ok (buf, at t, plain es)) (omega arith)
fill-plain started buf (suc n) total [] late clean =
    closed-plain started buf total (total + suc n) clean
fill-plain started buf (suc n) total (bytes [] ∷ es) late clean =
    closed-plain started buf total (total + suc n) clean
fill-plain started buf (suc n) total (bytes (b ∷ bs) ∷ es) late clean =
    elim (Bool-cases (leb (length bs) n)) [
      | inl whole ↦
          let more : (total + suc (length bs) == 0) ≡ (not started && is_empty (buf ++ b ∷ bs)) =
            ground (arith, is_empty-append buf b bs) in
          let all : total + suc (length bs) + (n - length bs) ≡ total + suc n =
            ground (arith, whole) in
          rw whole (
            rw all at (
              fill-plain started (buf ++ b ∷ bs) (n - length bs) (total + suc (length bs)) es late
                more))
      | inr part ↦
          rw part
            (cut-plain started (buf ++ b ∷ take n bs) (total + suc n) (bytes (drop n bs) ∷ es))
    ]
fill-plain started buf (suc n) total (fails k ∷ es) (deadline, late) clean =
    rw deadline (deadline-plain started buf total (total + suc n) clean)

Late : Result (List ℕ × List Answer) → Type 0
Late (ok (xs, es)) = OnlyDeadlines es
Late (err e) = Unit

fill_raw-Late :
    (buf : List ℕ) (n : ℕ) (es : List Answer) → OnlyDeadlines es → Late (fill_raw buf n es)
unfolding fill_raw Late
fill_raw-Late buf zero es late = late
fill_raw-Late buf (suc n) [] late = tt
fill_raw-Late buf (suc n) (bytes [] ∷ es) late = tt
fill_raw-Late buf (suc n) (bytes (b ∷ bs) ∷ es) late = elim (Bool-cases (leb (length bs) n)) [
  | inl whole ↦ rw whole (fill_raw-Late (buf ++ b ∷ bs) (n - length bs) es late)
  | inr part ↦ rw part late
]
fill_raw-Late buf (suc n) (fails k ∷ es) late = tt

-- On a stream whose reads fail by their deadline at most, the read with descriptors from a transport
-- that brings none, and the read of the same raw stream, agree on every outcome: the message with what
-- is left, an end or a deadline before the first byte, one in the middle, and a declared size over the
-- frame cap.
pub read_aosp_message_with_fds-plain :
    (es : List Answer)
    → OnlyDeadlines es
    → read_aosp_message_with_fds (plain es) ≡ with_no_fds (read_aosp_message es).result
unfolding read_aosp_message_with_fds read_aosp_message read_exact_raw read_body Late
read_aosp_message_with_fds-plain es late = elim (Result-cases (fill_raw [] 16 es)) [
  | inr (e, failed) ↦ rw (fill-plain false [] 16 0 es late refl, failed) refl
  | inl ((header, es1), came) ↦
      let size = from_le (take 4 (drop 4 header)) in
      elim (Bool-cases (ltb max_frame_len size)) [
        | inl over ↦ rw (fill-plain false [] 16 0 es late refl, came, over) refl
        | inr within ↦
            let late' = rw came at (fill_raw-Late [] 16 es late) in
            elim (Bool-cases (ltb 0 size)) [
              | inr no_body ↦ rw (fill-plain false [] 16 0 es late refl, came, within, no_body) refl
              | inl body ↦ elim (Result-cases (mid_message (fill_raw [] size es1))) [
                | inl (read, came') ↦
                    rw
                      (
                        fill-plain false [] 16 0 es late refl,
                        came,
                        within,
                        body,
                        fill-plain true [] size 16 es1 late' refl,
                        came',
                      )
                      refl
                | inr (e, failed) ↦
                    rw
                      (
                        fill-plain false [] 16 0 es late refl,
                        came,
                        within,
                        body,
                        fill-plain true [] size 16 es1 late' refl,
                        failed,
                      )
                      refl
              ]
            ]
      ]
]
