-- ===== src/RefCounter/Strong.antt =====
-- A counter that only strong operations use.
use rsbinder.Prelude.{◌+◌, ◌^◌, ◌≤◌, ◌<◌, ◌≡◌, ◌⊎◌, List, [], ◌∷◌, arith, length, All}
use rsbinder.RefCounter.{
  State, Act, incs, unbiases, attempts, revives, undoes, decs, closes, default,
  initial_strong_value, fetch_add, fetch_sub, taken, inc, unbias, attempt_inc, undo_revive, dec,
  close, step, run,
}

-- The steps of `inc`, `attempt_inc` and `dec` of a strong counter.
abbrev pub IsStrong : Act → Type 0
IsStrong incs = Unit
IsStrong unbiases = Unit
IsStrong attempts = Unit
IsStrong revives = ⊥
IsStrong undoes = Unit
IsStrong decs = Unit
IsStrong closes = Unit

-- Unused; with a reference whose taker has not removed the initial value yet; or in use, where a
-- counter that has reached 0 has a thread that will look at it.
abbrev pub IsUnused : State → Type 0
IsUnused s =
    (s.count ≡ initial_strong_value) × (s.held ≡ 0) × (s.unbiasing ≡ 0) × (s.firsts ≡ s.lasts)

abbrev pub IsBiased : State → Type 0
IsBiased s =
    (s.count ≡ initial_strong_value + 1 + s.held) × (s.unbiasing ≡ 1) × (s.firsts ≡ s.lasts)

abbrev pub IsUsed : State → Type 0
IsUsed s =
    (s.count ≡ s.held) × (s.unbiasing ≡ 0) × (s.firsts ≡ s.lasts + 1) × (1 ≤ s.held + s.closing)

abbrev pub IsCounter : State → Type 0
IsCounter s = (s.undoing ≡ 0) × ((IsUnused s ⊎ IsBiased s) ⊎ IsUsed s)

taken-IsCounter :
    (s : State) → IsCounter s → s.held + 2 < initial_strong_value → IsCounter (taken s)
unfolding taken fetch_add
taken-IsCounter s v room = ground arith

unbias-IsCounter :
    (s : State) → IsCounter s → s.held + 2 < initial_strong_value → IsCounter (unbias s)
unfolding unbias fetch_sub
unbias-IsCounter s v room = ground arith

dec-IsCounter : (s : State) → IsCounter s → s.held + 2 < initial_strong_value → IsCounter (dec s)
unfolding dec fetch_sub
dec-IsCounter s v room = ground arith

close-IsCounter : (s : State) → IsCounter s → IsCounter (close s)
unfolding close
close-IsCounter s v = ground arith

held_step : (a : Act) (s : State) → IsStrong a → (step a s).held ≤ s.held + 1
unfolding step inc attempt_inc undo_revive taken unbias dec close
held_step incs s strong = ground arith
held_step unbiases s strong = ground arith
held_step attempts s strong = ground arith
held_step revives s strong = absurd strong
held_step undoes s strong = ground arith
held_step decs s strong = ground arith
held_step closes s strong = ground arith

step-IsCounter :
    (a : Act) (s : State)
    → IsStrong a
    → IsCounter s
    → s.held + 2 < initial_strong_value
    → IsCounter (step a s)
unfolding step inc attempt_inc undo_revive
step-IsCounter incs s strong v room = taken-IsCounter s v room
step-IsCounter unbiases s strong v room = unbias-IsCounter s v room
step-IsCounter attempts s strong v room = ground (arith, taken-IsCounter s v room)
step-IsCounter revives s strong v room = absurd strong
step-IsCounter undoes s strong v room = ground arith
step-IsCounter decs s strong v room = dec-IsCounter s v room
step-IsCounter closes s strong v room = close-IsCounter s v

run-IsCounter :
    (acts : List Act) (s : State)
    → All IsStrong acts
    → IsCounter s
    → s.held + length acts + 2 < initial_strong_value
    → IsCounter (run acts s)
unfolding run
run-IsCounter [] s strong v room = v
run-IsCounter (a ∷ acts) s strong v room =
    run-IsCounter acts (step a s) strong.1 (step-IsCounter a s strong.0 v (omega arith))
      (omega (arith, held_step a s strong.0))

held_run :
    (acts : List Act) (s : State) → All IsStrong acts → (run acts s).held ≤ s.held + length acts
unfolding run
held_run [] s strong = omega arith
held_run (a ∷ acts) s strong =
    omega (arith, held_step a s strong.0, held_run acts (step a s) strong.1)

-- After any interleaving of fewer than 2^28 - 2 steps of `inc`, of the strong `attempt_inc` and of `dec`
-- by threads that hold a reference: the count is never negative; the initial value has been taken off as
-- often as the closure of the last reference has run, or once more; and when no thread is between two
-- of its steps, either nothing is held, the count is the initial value and every first reference has
-- had its last, or the count is the number of references and the last of them is still to come.
pub run-settled :
    (acts : List Act)
    → All IsStrong acts
    → length acts + 2 < initial_strong_value
    → let s = run acts default in
      (s.count < 2 ^ 31)
      × (s.lasts ≤ s.firsts)
      × (s.firsts ≤ s.lasts + 1)
      × (s.unbiasing ≡ 0
          → s.closing ≡ 0
          → ((s.held ≡ 0) × (s.count ≡ initial_strong_value) × (s.firsts ≡ s.lasts))
            ⊎ ((1 ≤ s.held) × (s.count ≡ s.held) × (s.firsts ≡ s.lasts + 1)))
run-settled acts strong room =
    let fresh : IsCounter default = ground arith in
    let v = run-IsCounter acts default strong fresh (omega arith) in
    ground (arith, v, held_run acts default strong)
