-- ===== src/Rpc/Pool/Release.antt =====
-- What the end of a call gives to the threads that wait.
use rsbinder.Prelude.{
  ℕ, ◌≡◌, ◌≢◌, refl, Bool, true, false, List, [], ◌∷◌, none, some, arith, nat_eq, inl, inr,
  Bool-cases, Option-cases,
}
use rsbinder.Rpc.Pool.{
  ConnSlot, ConnGuard, Session, owns, first, update, has_id, set_tid, usable_by, is_empty, scan,
  first_driven, drop_guard, find_conn,
}
use rsbinder.Rpc.Pool.Laws.{first_holds, first-update}
use rsbinder.Rpc.Pool.Called.{Marked}
use rsbinder.Rpc.Pool.Threads.{System, drops, latest, step}
use rsbinder.Rpc.Pool.Exclusive.{IsValid}

first-some :
    (p q : ConnSlot → Bool) (c : ConnSlot) (cs : List ConnSlot)
    → first q cs ≡ some c
    → p c ≡ true
    → first p cs ≢ none
first-some p q c [] e h n = cc
first-some p q c (x ∷ xs) e h n = elim (Bool-cases (q x)) [
  | inl r ↦ ground arith
  | inr r ↦ ground (arith, first-some p q c xs)
]

is_empty-first :
    (p : ConnSlot → Bool) (cs : List ConnSlot) → first p cs ≢ none → is_empty cs ≡ false
is_empty-first p [] n = absurd (n refl)
is_empty-first p (c ∷ cs) n = refl

-- A pool with a slot that the thread can use serves it.
scan-owns :
    (u : ℕ) (s : Session)
    → s.torn_down ≡ false
    → first (usable_by u) s.conn.slots ≢ none
    → (h : ConnGuard) × ((scan u s).0 ≡ owns h)
scan-owns u s q n = elim (Option-cases (first (usable_by u) s.conn.slots)) [
  | inl e ↦ absurd (n e)
  | inr (c, e) ↦ (
    record { slot_id = c.id; transport = c.transport; reentrant = false },
    rw (q, is_empty-first (usable_by u) s.conn.slots n, e) refl,
  )
]

pub find_conn-owns :
    (u : ℕ) (s : Session)
    → s.torn_down ≡ false
    → first_driven u s.driving ≡ none
    → first (usable_by u) s.conn.slots ≢ none
    → (h : ConnGuard) × ((find_conn u s).0 ≡ owns h)
unfolding find_conn
find_conn-owns u s q d n = rw (d, find_conn) (scan-owns u s q n)

drop_guard-usable :
    (t u : ℕ) (g : ConnGuard) (c : ConnSlot) (s : Session)
    → Marked s
    → g.reentrant ≡ false
    → first (has_id g.slot_id) s.conn.slots ≡ some c
    → first (usable_by u) (drop_guard t g s).conn.slots ≢ none
unfolding drop_guard
drop_guard-usable t u g c s m r e = rw r (
    first-some (usable_by u) (has_id g.slot_id) (set_tid none c)
      (update (has_id g.slot_id) (set_tid none) s.conn.slots) found refl)
  where
    found :
        first (has_id g.slot_id) (update (has_id g.slot_id) (set_tid none) s.conn.slots)
        ≡ some (set_tid none c)
    found = ground (
      arith,
      first-update (has_id g.slot_id) none g.slot_id c s.conn.slots m.ids e,
      first_holds (has_id g.slot_id) c s.conn.slots e,
    )

drop_guard-torn_down :
    (t : ℕ) (g : ConnGuard) (s : Session) → (drop_guard t g s).torn_down ≡ s.torn_down
unfolding drop_guard
drop_guard-torn_down t g s = elim (Bool-cases g.reentrant) [ inl e ↦ rw e refl | inr e ↦ rw e refl ]

step-drops :
    (t : ℕ) (g : ConnGuard) (rest : List (ℕ × ConnGuard)) (y : System)
    → latest t y.guards ≡ some (g, rest)
    → (step (drops t) y).session ≡ drop_guard t g y.session
unfolding step
step-drops t g rest y l = rw l refl

-- In every state that the threads can reach: when a thread drops the guard by which it claimed a slot
-- that is in the pool still, and the session is not torn down, a thread that then drives no slot of the
-- session gets a guard from `find_conn`; it neither waits nor fails.
pub drops-find_conn :
    (t u : ℕ) (g : ConnGuard) (c : ConnSlot) (rest : List (ℕ × ConnGuard)) (y : System)
    → IsValid y
    → latest t y.guards ≡ some (g, rest)
    → g.reentrant ≡ false
    → first (has_id g.slot_id) y.session.conn.slots ≡ some c
    → y.session.torn_down ≡ false
    → first_driven u (step (drops t) y).session.driving ≡ none
    → (h : ConnGuard) × ((find_conn u (step (drops t) y).session).0 ≡ owns h)
drops-find_conn t u g c rest y v l r e q d =
    find_conn-owns u (step (drops t) y).session
      (rw (step-drops t g rest y l, drop_guard-torn_down t g y.session) q) d
      (rw (step-drops t g rest y l) (drop_guard-usable t u g c y.session v.marked r e))
