-- ===== src/Rpc/Lifecycle/Tests.antt =====
-- Runs of the lifecycle at concrete interleavings.
use rsbinder.Prelude.{◌+◌, ◌≤◌, ◌≡◌, refl, true, false, List, [], ◌∷◌, arith}
use rsbinder.Rpc.Lifecycle.{
  new, is_torn_down, live_count, encode_live, encode_dying, encode_dead, done, exchange,
  try_bump_live, drop_connection, mark_dead,
}
use rsbinder.Rpc.Lifecycle.Runs.{
  Act, bumps, drops, marks, start, step, run, run-lifecycle, run-torn_down,
}

-- One attaches, a second with an old value turns again, both connections drop, the obituaries end.
abbrev history : List Act
history = bumps 0 ∷ bumps 1 ∷ drops 0 ∷ drops 0 ∷ marks ∷ []

torn : is_torn_down (run history start).word ≡ true
unfolding is_torn_down run step start new encode_live encode_dying encode_dead exchange
    try_bump_live drop_connection mark_dead
torn = refl

run-lifecycle_example :
    let r = run history start in
    (is_torn_down r.word ≡ false
      → (1 ≤ live_count r.word) × (live_count r.word + r.drops ≡ 1 + r.bumps) × (r.lasts ≡ 0))
    × (is_torn_down r.word ≡ true
        → (live_count r.word ≡ 0) × (r.drops ≡ 1 + r.bumps) × (r.lasts ≡ 1))
run-lifecycle_example = run-lifecycle history (omega arith)

run-torn_down_example :
    let r = run history start in
    (is_torn_down (run history r).word ≡ true)
    × ((run history r).bumps ≡ r.bumps)
    × ((run history r).drops ≡ r.drops)
    × (try_bump_live (run history r).word (run history r).word ≡ done false (run history r).word)
run-torn_down_example = run-torn_down history history (omega arith) torn
