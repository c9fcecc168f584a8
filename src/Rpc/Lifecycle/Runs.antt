-- ===== src/Rpc/Lifecycle/Runs.antt =====
-- Interleaved turns of the loops, by any number of threads.
use rsbinder.Prelude.{
  ℕ, ◌+◌, ◌*◌, ◌^◌, ◌≤◌, ◌<◌, ◌≡◌, ◌⊎◌, inl, inr, refl, true, false, List, [], ◌∷◌, none, some,
  if◌then◌else◌, get_elem?, length, arith, Option-cases,
}
use rsbinder.Rpc.Lifecycle.{
  new, is_torn_down, live_count, encode_dying, encode_dead, Turn, done, again, try_bump_live,
  drop_connection, mark_dead,
}

-- The word, every value that it had (which a thread may still hold from an earlier load), and what has
-- come of the calls: bumps and drops that went through, and drops that saw the last connection.
pub record Run : Type 0 where
  pub word : ℕ
  pub past : List ℕ
  pub bumps : ℕ
  pub drops : ℕ
  pub lasts : ℕ

unfoldable pub start : Run
unfolding new
start = record { word = new; past = new ∷ []; bumps = 0; drops = 0; lasts = 0 }

-- A turn by a thread that holds the `i`-th value of the past, or the obituaries' end.
pub data Act : Type 0 where
  bumps drops : ℕ → Act
  marks : Act

abbrev pub moved : ℕ → Run → Run
moved w r = record r { word = w; past = w ∷ r.past }

abbrev pub bumped : Turn → Run → Run
bumped (done true w) r = moved w (record r { bumps = r.bumps + 1 })
bumped (done false w) r = moved w r
bumped (again w) r = r

-- A refused drop leaves the word; the others are told apart by the last connection.
abbrev pub dropped : ℕ → Turn → Run → Run
dropped v (done true w) r = moved w (record r { drops = r.drops + 1; lasts = r.lasts + 1 })
dropped v (done false w) r =
    if is_torn_down v then r else moved w (record r { drops = r.drops + 1 })
dropped v (again w) r = r

unfoldable pub step : Act → Run → Run
step (bumps i) r = elim (get_elem? r.past i) [
  | none ↦ r
  | some v ↦ bumped (try_bump_live v r.word) r
]
step (drops i) r = elim (get_elem? r.past i) [
  | none ↦ r
  | some v ↦ dropped v (drop_connection v r.word) r
]
step marks r = moved (mark_dead r.word) r

unfoldable pub run : List Act → Run → Run
run [] r = r
run (a ∷ acts) r = run acts (step a r)

-- While it is live, the word counts the founding connection and the bumps less the drops; afterwards
-- all of them are gone, and one drop has seen the last.
abbrev pub IsLive : Run → Type 0
IsLive r = (1 ≤ r.word) × (r.word + r.drops ≡ 1 + r.bumps) × (r.word < 2 ^ 56) × (r.lasts ≡ 0)

abbrev pub IsGone : Run → Type 0
IsGone r = ((r.word ≡ 2 ^ 56) ⊎ (r.word ≡ 2 * 2 ^ 56)) × (r.drops ≡ 1 + r.bumps) × (r.lasts ≡ 1)

abbrev pub IsSession : Run → Type 0
IsSession r = IsLive r ⊎ IsGone r

bump-IsSession :
    (v : ℕ) (r : Run)
    → IsSession r
    → r.bumps + 2 < 2 ^ 56
    → IsSession (bumped (try_bump_live v r.word) r)
unfolding try_bump_live is_torn_down
bump-IsSession v r s room = ground arith

drop-IsSession :
    (v : ℕ) (r : Run) → IsSession r → IsSession (dropped v (drop_connection v r.word) r)
unfolding drop_connection is_torn_down encode_dying
drop-IsSession v r s = ground arith

mark-IsSession : (r : Run) → IsSession r → IsSession (moved (mark_dead r.word) r)
unfolding mark_dead encode_dying encode_dead
mark-IsSession r s = ground arith

step-IsSession : (a : Act) (r : Run) → IsSession r → r.bumps + 2 < 2 ^ 56 → IsSession (step a r)
unfolding step
step-IsSession (bumps i) r s room = elim (Option-cases (get_elem? r.past i)) [
  | inl missing ↦ rw (missing, step) s
  | inr (v, found) ↦ rw (found, step) (bump-IsSession v r s room)
]
step-IsSession (drops i) r s room = elim (Option-cases (get_elem? r.past i)) [
  | inl missing ↦ rw (missing, step) s
  | inr (v, found) ↦ rw (found, step) (drop-IsSession v r s)
]
step-IsSession marks r s room = mark-IsSession r s

step-bumps : (a : Act) (r : Run) → (step a r).bumps ≤ r.bumps + 1
unfolding step try_bump_live drop_connection
step-bumps (bumps i) r = elim (Option-cases (get_elem? r.past i)) [
  | inl missing ↦ rw (missing, step) (omega arith)
  | inr (v, found) ↦ rw (found, step) (ground arith)
]
step-bumps (drops i) r = elim (Option-cases (get_elem? r.past i)) [
  | inl missing ↦ rw (missing, step) (omega arith)
  | inr (v, found) ↦ rw (found, step) (ground arith)
]
step-bumps marks r = omega arith

run-IsSession :
    (acts : List Act) (r : Run)
    → IsSession r
    → r.bumps + length acts + 2 < 2 ^ 56
    → IsSession (run acts r)
unfolding run
run-IsSession [] r s room = s
run-IsSession (a ∷ acts) r s room =
    run-IsSession acts (step a r) (step-IsSession a r s (omega arith))
      (omega (arith, step-bumps a r))

-- What a step does once the session is gone: nothing is attached and nothing is dropped.
step-IsGone :
    (a : Act) (r : Run)
    → IsGone r
    → IsGone (step a r) × ((step a r).bumps ≡ r.bumps) × ((step a r).drops ≡ r.drops)
unfolding step try_bump_live drop_connection is_torn_down mark_dead encode_dying encode_dead
step-IsGone (bumps i) r g = elim (Option-cases (get_elem? r.past i)) [
  | inl missing ↦ rw (missing, step) (g, refl, refl)
  | inr (v, found) ↦ rw (found, step) (ground arith)
]
step-IsGone (drops i) r g = elim (Option-cases (get_elem? r.past i)) [
  | inl missing ↦ rw (missing, step) (g, refl, refl)
  | inr (v, found) ↦ rw (found, step) (ground arith)
]
step-IsGone marks r g = ground arith

run-IsGone :
    (acts : List Act) (r : Run)
    → IsGone r
    → IsGone (run acts r) × ((run acts r).bumps ≡ r.bumps) × ((run acts r).drops ≡ r.drops)
unfolding run
run-IsGone [] r g = (g, refl, refl)
run-IsGone (a ∷ acts) r g =
    let one = step-IsGone a r g in
    let rest = run-IsGone acts (step a r) one.0 in
    (rest.0, omega (arith, rest.1, one.1), omega (arith, rest.2, one.2))

-- However threads interleave the turns of their loops, with whatever earlier values they hold, and as
-- long as there are fewer than 2^56 - 2 turns: a session that is not torn down has at least one live
-- connection, and as many as the founding one and the bumps that went through less the drops, and no
-- drop has reported the last; a session that is torn down has none, has dropped all it had, and one
-- drop, exactly, has reported the last.
pub run-lifecycle :
    (acts : List Act)
    → length acts + 2 < 2 ^ 56
    → let r = run acts start in
      (is_torn_down r.word ≡ false
        → (1 ≤ live_count r.word) × (live_count r.word + r.drops ≡ 1 + r.bumps) × (r.lasts ≡ 0))
      × (is_torn_down r.word ≡ true
          → (live_count r.word ≡ 0) × (r.drops ≡ 1 + r.bumps) × (r.lasts ≡ 1))
unfolding is_torn_down live_count start
run-lifecycle acts room =
    let fresh : IsSession start = unfold new in ground arith in
    let s = run-IsSession acts start fresh (omega arith) in ground arith

-- A torn-down session stays so: after any history that leaves it torn down, no further turn of any
-- thread attaches a connection or drops one, and every call of `try_bump_live` is refused.
pub run-torn_down :
    (acts more : List Act)
    → length acts + 2 < 2 ^ 56
    → is_torn_down (run acts start).word ≡ true
    → let r = run acts start in
      (is_torn_down (run more r).word ≡ true)
      × ((run more r).bumps ≡ r.bumps)
      × ((run more r).drops ≡ r.drops)
      × (try_bump_live (run more r).word (run more r).word ≡ done false (run more r).word)
unfolding is_torn_down try_bump_live start
run-torn_down acts more room torn =
    let fresh : IsSession start = unfold new in ground arith in
    let s = run-IsSession acts start fresh (omega arith) in
    let gone : IsGone (run acts start) = ground arith in
    let rest = run-IsGone more (run acts start) gone in ground arith
