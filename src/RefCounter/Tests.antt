-- ===== src/RefCounter/Tests.antt =====
-- Runs of the counter at concrete interleavings.
use rsbinder.Prelude.{◌+◌, ◌^◌, ◌≤◌, ◌<◌, ◌≡◌, ◌⊎◌, refl, List, [], ◌∷◌, arith, All}
use rsbinder.RefCounter.{
  Act, incs, unbiases, attempts, revives, undoes, decs, closes, default, initial_strong_value,
  fetch_add, fetch_sub, taken, inc, unbias, revive, undo_revive, dec, step, run,
}
use rsbinder.RefCounter.Strong.{IsStrong, run-settled}

-- Two threads take references at once, give both back and see the last one.
abbrev race : List Act
race = incs ∷ attempts ∷ unbiases ∷ decs ∷ decs ∷ attempts ∷ closes ∷ decs ∷ closes ∷ []

race-IsStrong : All IsStrong race
race-IsStrong = (tt, (tt, (tt, (tt, (tt, (tt, (tt, (tt, (tt, tt)))))))))

run-settled_example :
    let s = run race default in
    (s.count < 2 ^ 31)
    × (s.lasts ≤ s.firsts)
    × (s.firsts ≤ s.lasts + 1)
    × (s.unbiasing ≡ 0
        → s.closing ≡ 0
        → ((s.held ≡ 0) × (s.count ≡ initial_strong_value) × (s.firsts ≡ s.lasts))
          ⊎ ((1 ≤ s.held) × (s.count ≡ s.held) × (s.firsts ≡ s.lasts + 1)))
run-settled_example = run-settled race race-IsStrong (omega arith)

-- A revive that loses while the last reference is given back: the count ends at 0 and not at the initial
-- value, nobody holds a reference or will look again, and the last closure has not run.
lost_release :
    run (incs ∷ unbiases ∷ revives ∷ decs ∷ undoes ∷ []) default
    ≡ record { count = 0; held = 0; unbiasing = 0; closing = 0; undoing = 0; firsts = 1; lasts = 0 }
unfolding run step inc unbias revive dec undo_revive taken fetch_add fetch_sub
lost_release = refl
