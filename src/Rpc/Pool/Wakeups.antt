-- ===== src/Rpc/Pool/Wakeups.antt =====
-- Threads that wait on `slot_cv`, and the wake-ups that they are owed.
use rsbinder.Prelude.{
  ℕ, suc, ◌≡◌, ◌≢◌, refl, Bool, List, [], ◌∷◌, Option, none, some, ◌∙◌, ◌==◌, arith, nat_eq, inl,
  inr, Bool-cases, Option-cases, All, All-get_elem, get_elem?, leb, length,
}
use rsbinder.Rpc.Pool.{
  ConnSlot, ConnGuard, Session, Outcome, first, update, set_tid, usable_by, is_empty, first_driven,
  drop_guard, remove_slot, add_slot_inner, add_slot_inner_capped, new, find_conn, try_find_conn,
  find_conn_pinned, find_conn_for_reaper,
}
use rsbinder.Rpc.Pool.Laws.{HasIds, first-update}
use rsbinder.Rpc.Pool.Called.{
  IsStuck, Called, dies, parks, reenters, claims, find_conn-Called, find_conn_for_reaper-Called,
  try_find_conn-Called, find_conn_pinned-Called,
}
use rsbinder.Rpc.Pool.Threads.{
  System, Act, finds, tries, reaps, drops, pins, adds, adds_capped, removes, tears_down, notifies,
  joined, latest, dropped, without, step, run, start,
}
use rsbinder.Rpc.Pool.Exclusive.{IsValid, step-IsValid, start-IsValid}

-- With no `notify_all` owed, the pool has nothing for the thread.
abbrev IsAsleep : ℕ → List ConnSlot → ℕ × Option ℕ → Type 0
IsAsleep owed cs w = owed ≡ 0 → IsStuck cs w

abbrev AllAsleep : System → Type 0
AllAsleep y = All (IsAsleep y.owed y.session.conn.slots) y.waiting

-- A call of another thread takes a slot away, and gives none.
first-usable_by-update :
    (t u : ℕ) (p : ConnSlot → Bool) (cs : List ConnSlot)
    → u ≢ t
    → first (usable_by u) cs ≡ none
    → first (usable_by u) (update p (set_tid (some t)) cs) ≡ none
first-usable_by-update t u p [] n h = refl
first-usable_by-update t u p (c ∷ cs) n h = ground (arith, first-usable_by-update t u p cs n)

is_empty-update :
    (p : ConnSlot → Bool) (f : ConnSlot → ConnSlot) (cs : List ConnSlot)
    → is_empty (update p f cs) ≡ is_empty cs
is_empty-update p f [] = refl
is_empty-update p f (c ∷ cs) = ground arith

IsStuck-update :
    (t : ℕ) (p : ConnSlot → Bool) (c : ConnSlot) (cs : List ConnSlot) (w : ℕ × Option ℕ)
    → HasIds cs
    → first p cs ≡ some c
    → w.0 ≢ t
    → IsStuck cs w
    → IsStuck (update p (set_tid (some t)) cs) w
IsStuck-update t p c cs (u, none) ids h n s =
    (first-usable_by-update t u p cs n s.0, is_empty-update p (set_tid (some t)) cs ∙ s.1)
IsStuck-update t p c cs (u, some k) ids h n (d, e, f) = elim (Bool-cases (c.id == k)) [
  | inl q ↦ (set_tid (some t) c, ground (arith, first-update p (some t) k c cs ids h), ground arith)
  | inr q ↦ (d, ground (arith, first-update p (some t) k c cs ids h), f)
]

All-owed : (n : ℕ) (cs : List ConnSlot) (ws : List (ℕ × Option ℕ)) → All (IsAsleep (suc n) cs) ws
All-owed n cs [] = tt
All-owed n cs (w ∷ ws) = (λ e. absurd (omega (arith, e)), All-owed n cs ws)

All-without :
    (P : ℕ × Option ℕ → Type 0) (t : ℕ) (ws : List (ℕ × Option ℕ)) → All P ws → All P (without t ws)
All-without P t [] h = tt
All-without P t ((u, w) ∷ ws) h = elim (Bool-cases (u == t)) [
  | inl e ↦ rw e (All-without P t ws h.1)
  | inr e ↦ rw e (h.0, All-without P t ws h.1)
]

All-claim :
    (n t : ℕ) (p : ConnSlot → Bool) (c : ConnSlot) (cs : List ConnSlot) (ws : List (ℕ × Option ℕ))
    → HasIds cs
    → first p cs ≡ some c
    → All (IsAsleep n cs) ws
    → All (IsAsleep n (update p (set_tid (some t)) cs)) (without t ws)
All-claim n t p c cs [] ids h a = tt
All-claim n t p c cs ((u, w) ∷ ws) ids h a = elim (Bool-cases (u == t)) [
  | inl e ↦ rw e (All-claim n t p c cs ws ids h a.1)
  | inr e ↦ rw e (
    λ z. IsStuck-update t p c cs (u, w) ids h (ground arith) (a.0 z),
    All-claim n t p c cs ws ids h a.1,
  )
]

module _ (t : ℕ) (w : Option ℕ) (y : System) (v : IsValid y) (a : AllAsleep y) where
  joined-AllAsleep : (r : Outcome × Session) → Called t w y.session r → AllAsleep (joined t w r y)
  joined-AllAsleep r dies = All-without (IsAsleep y.owed y.session.conn.slots) t y.waiting a
  joined-AllAsleep r (parks s) =
      (λ z. s, All-without (IsAsleep y.owed y.session.conn.slots) t y.waiting a)
  joined-AllAsleep r (reenters g e h) =
      All-without (IsAsleep y.owed y.session.conn.slots) t y.waiting a
  joined-AllAsleep r (claims p c h n) =
      All-claim y.owed t p c y.session.conn.slots y.waiting v.marked.ids h a

dropped-AllAsleep :
    (t : ℕ) (o : Option (ConnGuard × List (ℕ × ConnGuard))) (y : System)
    → AllAsleep y
    → AllAsleep (dropped t o y)
unfolding drop_guard
dropped-AllAsleep t none y a = a
dropped-AllAsleep t (some (g, rest)) y a = elim (Bool-cases g.reentrant) [
  | inl e ↦ rw e a
  | inr e ↦ rw e (All-owed y.owed _ y.waiting)
]

step-AllAsleep : (a : Act) (y : System) → IsValid y → AllAsleep y → AllAsleep (step a y)
unfolding step remove_slot add_slot_inner add_slot_inner_capped
step-AllAsleep (finds t) y v a =
    joined-AllAsleep t none y v a (find_conn t y.session) (find_conn-Called t y.session v.marked)
step-AllAsleep (tries t) y v a =
    joined-AllAsleep t none y v a (try_find_conn t y.session)
      (try_find_conn-Called t y.session v.marked)
step-AllAsleep (reaps t) y v a = elim (Option-cases (first_driven t y.session.driving)) [
  | inl e ↦
      rw (e, step)
        (joined-AllAsleep t none y v a (find_conn_for_reaper t y.session)
          (find_conn_for_reaper-Called t y.session v.marked e))
  | inr (k, e) ↦ rw (e, step) a
]
step-AllAsleep (drops t) y v a = dropped-AllAsleep t (latest t y.guards) y a
step-AllAsleep (pins t k) y v a =
    joined-AllAsleep t (some k) y v a (find_conn_pinned t k y.session)
      (find_conn_pinned-Called t k y.session v.marked)
step-AllAsleep (adds transport) y v a = All-owed y.owed _ y.waiting
step-AllAsleep (adds_capped transport cap) y v a =
    elim (Bool-cases (leb cap (length y.session.conn.slots))) [
      | inl e ↦ rw e a
      | inr e ↦ rw e (All-owed y.owed _ y.waiting)
    ]
step-AllAsleep (removes k) y v a = All-owed y.owed _ y.waiting
step-AllAsleep tears_down y v a = a
step-AllAsleep notifies y v a = tt

run-AllAsleep : (acts : List Act) (y : System) → IsValid y → AllAsleep y → AllAsleep (run acts y)
unfolding run
run-AllAsleep [] y v a = a
run-AllAsleep (b ∷ acts) y v a =
    run-AllAsleep acts (step b y) (step-IsValid b y v) (step-AllAsleep b y v a)

-- No wake-up is lost: whatever the threads of a session have done, a thread that waits for a slot, or
-- for the one slot that it is pinned to, while no `notify_all` is owed, finds that slot taken by
-- another thread still (for any slot: the pool is not empty, and all its slots are taken by others).
pub run-IsStuck :
    (transport : ℕ) (acts : List Act) (i : ℕ) (w : ℕ × Option ℕ)
    → get_elem? (run acts (start (new transport))).waiting i ≡ some w
    → (run acts (start (new transport))).owed ≡ 0
    → IsStuck (run acts (start (new transport))).session.conn.slots w
run-IsStuck transport acts i w e z =
    All-get_elem (IsAsleep y.owed y.session.conn.slots) y.waiting i
      (run-AllAsleep acts (start (new transport)) (start-IsValid transport) tt) e z
  where
    y : System
    y = run acts (start (new transport))
