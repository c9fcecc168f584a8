-- ===== src/RefCounter.antt =====
-- The strong and weak counter of a native binder (rsbinder/src/ref_counter.rs), as the atomic steps that
-- threads interleave. A word is an i32 in two's complement; `held` counts the references that a caller
-- has and may give back, `firsts` how often the initial value was taken off (`inc` runs its closure
-- there, `attempt_inc` runs none), and `lasts` how often the closure of the last reference ran.
pub mod Strong
mod Tests
use rsbinder.Prelude.{
  ℕ, ◌+◌, ◌-◌, ◌^◌, ◌%◌, Bool, true, false, ◌&&◌, ◌||◌, ltb, ◌==◌, if◌then◌else◌, List, [], ◌∷◌,
}

abbrev pub initial_strong_value : ℕ
initial_strong_value = 2 ^ 28

-- `unbiasing`, `closing` and `undoing` count the threads between two of their steps: before the
-- `fetch_sub(INITIAL_STRONG_VALUE)`, before the `compare_exchange` of `dec`, and before the `fetch_sub(1)`
-- of a lost revive.
pub record State : Type 0 where
  pub count : ℕ
  pub held : ℕ
  pub unbiasing : ℕ
  pub closing : ℕ
  pub undoing : ℕ
  pub firsts : ℕ
  pub lasts : ℕ

abbrev pub default : State
default = record {
  count = initial_strong_value;
  held = 0;
  unbiasing = 0;
  closing = 0;
  undoing = 0;
  firsts = 0;
  lasts = 0;
}

unfoldable pub fetch_add : ℕ → ℕ → ℕ
fetch_add n w = (w + n) % 2 ^ 32

unfoldable pub fetch_sub : ℕ → ℕ → ℕ
fetch_sub n w = (w + 2 ^ 32 - n) % 2 ^ 32

-- `w > 0` on the signed word.
unfoldable pub is_positive : ℕ → Bool
is_positive w = ltb 0 w && ltb w (2 ^ 31)

-- A reference is taken by adding one; who took it from the initial value still has to remove that.
unfoldable pub taken : State → State
unfolding fetch_add
taken s =
    if s.count == initial_strong_value
    then record s { count = fetch_add 1 s.count; unbiasing = s.unbiasing + 1 }
    else record s { count = fetch_add 1 s.count; held = s.held + 1 }

-- The first step of `inc`.
unfoldable pub inc : State → State
inc s = taken s

-- The removal of the bias, in `inc` and `attempt_inc`.
unfoldable pub unbias : State → State
unbias s = if s.unbiasing == 0 then s else record s {
  count = fetch_sub initial_strong_value s.count;
  unbiasing = s.unbiasing - 1;
  held = s.held + 1;
  firsts = s.firsts + 1;
}

-- `attempt_inc` on a strong counter: the exchange that ends its loops, or its return of `false`. An
-- exchange that fails leaves everything as it is and reads the count again.
unfoldable pub attempt_inc : State → State
attempt_inc s = if is_positive s.count then taken s else s

-- `attempt_inc` on a weak counter that it has seen without references: the `fetch_add`.
unfoldable pub revive : State → State
revive s =
    if s.count == 0 || s.count == initial_strong_value
    then taken s
    else record s { count = fetch_add 1 s.count; undoing = s.undoing + 1 }

-- The `fetch_sub` of a revive that lost.
unfoldable pub undo_revive : State → State
undo_revive s =
    if s.undoing == 0 then s else record s { count = fetch_sub 1 s.count; undoing = s.undoing - 1 }

-- The first step of `dec`, by a thread that holds a reference.
unfoldable pub dec : State → State
dec s = if s.held == 0 then s else record s {
  count = fetch_sub 1 s.count;
  held = s.held - 1;
  closing = if s.count == 1 then s.closing + 1 else s.closing;
}

-- The `compare_exchange` of `dec`; the last reference's closure runs when it succeeds.
unfoldable pub close : State → State
close s =
    if s.closing == 0
    then s
    else if s.count == 0
    then record s { count = initial_strong_value; closing = s.closing - 1; lasts = s.lasts + 1 }
    else record s { closing = s.closing - 1 }

pub data Act : Type 0 where
  incs unbiases attempts revives undoes decs closes : Act

unfoldable pub step : Act → State → State
step incs s = inc s
step unbiases s = unbias s
step attempts s = attempt_inc s
step revives s = revive s
step undoes s = undo_revive s
step decs s = dec s
step closes s = close s

unfoldable pub run : List Act → State → State
run [] s = s
run (a ∷ acts) s = run acts (step a s)
