-- ===== src/Rpc/Lifecycle.antt =====
-- The lifecycle of a session (rsbinder/src/rpc/lifecycle.rs): one 64-bit word, changed by loops of
-- load and compare-and-exchange.
pub mod Runs
mod Tests
use rsbinder.Prelude.{
  ℕ, ◌+◌, ◌-◌, ◌*◌, ◌/◌, ◌%◌, ◌^◌, not, Bool, true, false, List, [], ◌∷◌, Option, none, some, ◌==◌,
  if◌then◌else◌, get_elem?,
}

abbrev pub state_shift : ℕ
state_shift = 56

-- `v >> STATE_SHIFT` and `v & COUNT_MASK`.
abbrev pub tag_of : ℕ → ℕ
tag_of v = v / 2 ^ state_shift

abbrev pub count_of : ℕ → ℕ
count_of v = v % 2 ^ state_shift

abbrev pub state_live_tag : ℕ
state_live_tag = 0

abbrev pub state_dying_tag : ℕ
state_dying_tag = 1

abbrev pub state_dead_tag : ℕ
state_dead_tag = 2

unfoldable pub encode_live : ℕ → ℕ
encode_live n = n

unfoldable pub encode_dying : ℕ
encode_dying = state_dying_tag * 2 ^ state_shift

unfoldable pub encode_dead : ℕ
encode_dead = state_dead_tag * 2 ^ state_shift

unfoldable pub new : ℕ
unfolding encode_live
new = encode_live 1

unfoldable pub is_torn_down : ℕ → Bool
is_torn_down v = not (tag_of v == state_live_tag)

unfoldable pub live_count : ℕ → ℕ
live_count v = if tag_of v == state_live_tag then count_of v else 0

-- What one turn of a loop comes to: a result with the word it leaves, or another turn with the word
-- that the exchange found.
pub data Turn : Type 0 where
  done : Bool → ℕ → Turn
  again : ℕ → Turn

-- `compare_exchange` of `v` by `w`, at the word as it is. A weak exchange that fails for no reason is
-- another turn with the same value, and leaves no trace.
unfoldable pub exchange : ℕ → ℕ → Bool → ℕ → Turn
exchange v w result word = if v == word then done result w else again word

-- A turn of `try_bump_live` with the value `v` that was read before.
unfoldable pub try_bump_live : ℕ → ℕ → Turn
unfolding exchange
try_bump_live v word =
    if is_torn_down v then done false word else exchange v ((v + 1) % 2 ^ 64) true word

-- A turn of `drop_connection`.
unfoldable pub drop_connection : ℕ → ℕ → Turn
unfolding exchange
drop_connection v word =
    if is_torn_down v
    then done false word
    else if count_of v == 1
    then exchange v encode_dying true word
    else exchange v (v - 1) false word

unfoldable pub mark_dead : ℕ → ℕ
mark_dead word = if word == encode_dying then encode_dead else word
