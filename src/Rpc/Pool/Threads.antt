-- ===== src/Rpc/Pool/Threads.antt =====
-- The threads over one pool: the guards that they hold (the latest first), those that wait on `slot_cv`
-- (each with the slot that it is pinned to), and the `notify_all` calls that follow a change of the pool
-- outside its lock.
use rsbinder.Prelude.{ℕ, suc, ◌-◌, true, List, [], ◌∷◌, Option, none, some, ◌==◌, if◌then◌else◌}
use rsbinder.Rpc.Pool.{
  Session, ConnGuard, Outcome, owns, dead, waits, find_conn, try_find_conn, find_conn_for_reaper,
  find_conn_pinned, drop_guard, add_slot_inner, add_slot_inner_capped, remove_slot, first_driven,
}

pub record System : Type 0 where
  pub session : Session
  pub guards : List (ℕ × ConnGuard)
  pub waiting : List (ℕ × Option ℕ)
  pub owed : ℕ

-- What the threads do. A thread that waits may wake and scan again at any time. `drops` ends the call
-- that holds the thread's latest guard: guards are locals, dropped in the reverse order. The reaper's
-- thread makes no other calls, so it drives nothing when it looks for a slot.
pub data Act : Type 0 where
  finds tries reaps drops : ℕ → Act
  pins : ℕ → ℕ → Act
  adds : ℕ → Act
  adds_capped : ℕ → ℕ → Act
  removes : ℕ → Act
  tears_down notifies : Act

abbrev pub without : ℕ → List (ℕ × Option ℕ) → List (ℕ × Option ℕ)
without t [] = []
without t ((u, w) ∷ ws) = if u == t then without t ws else (u, w) ∷ without t ws

-- The thread `t`, pinned to `w` if it is, with what its call came to.
abbrev pub joined : ℕ → Option ℕ → Outcome × Session → System → System
joined t w (owns g, s) y = record y {
  session = s;
  guards = (t, g) ∷ y.guards;
  waiting = without t y.waiting;
}
joined t w (dead, s) y = record y { session = s; waiting = without t y.waiting }
joined t w (waits, s) y = record y { session = s; waiting = (t, w) ∷ without t y.waiting }

abbrev pub kept :
    ℕ × ConnGuard
    → Option (ConnGuard × List (ℕ × ConnGuard))
    → Option (ConnGuard × List (ℕ × ConnGuard))
kept g none = none
kept g (some (h, gs)) = some (h, g ∷ gs)

-- The latest guard of a thread, with the others.
abbrev pub latest : ℕ → List (ℕ × ConnGuard) → Option (ConnGuard × List (ℕ × ConnGuard))
latest t [] = none
latest t ((u, g) ∷ gs) = if u == t then some (g, gs) else kept (u, g) (latest t gs)

abbrev pub changed : Session → System → System
changed s y = record y { session = s; owed = suc y.owed }

abbrev pub dropped : ℕ → Option (ConnGuard × List (ℕ × ConnGuard)) → System → System
dropped t none y = y
dropped t (some (g, gs)) y = record y {
  session = drop_guard t g y.session;
  guards = gs;
  owed = if g.reentrant then y.owed else suc y.owed;
}

abbrev pub capped : Option ℕ × Session → System → System
capped (none, s) y = record y { session = s }
capped (some k, s) y = changed s y

unfoldable pub step : Act → System → System
step (finds t) y = joined t none (find_conn t y.session) y
step (tries t) y = joined t none (try_find_conn t y.session) y
step (reaps t) y = elim (first_driven t y.session.driving) [
  | some k ↦ y
  | none ↦ joined t none (find_conn_for_reaper t y.session) y
]
step (drops t) y = dropped t (latest t y.guards) y
step (pins t k) y = joined t (some k) (find_conn_pinned t k y.session) y
step (adds transport) y = changed (add_slot_inner transport y.session).1 y
step (adds_capped transport cap) y = capped (add_slot_inner_capped transport cap y.session) y
step (removes k) y = changed (remove_slot k y.session) y
step tears_down y = record y { session = record y.session { torn_down = true } }
step notifies y = record y { waiting = []; owed = y.owed - 1 }

unfoldable pub run : List Act → System → System
run [] y = y
run (a ∷ acts) y = run acts (step a y)

abbrev pub start : Session → System
start s = record { session = s; guards = []; waiting = []; owed = 0 }
