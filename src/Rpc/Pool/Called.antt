-- ===== src/Rpc/Pool/Called.antt =====
-- What the markers say about the slots, and what a call for a slot can come to.
use rsbinder.Prelude.{
  ℕ, ◌<◌, ◌≡◌, ◌≢◌, refl, Bool, true, false, ◌||◌, List, Option, none, some, arith, nat_eq, inl,
  inr, Bool-cases, Option-cases,
}
use rsbinder.Prelude.Maps.{get, IsUniq}
use rsbinder.Rpc.Pool.{
  ConnSlot, ConnGuard, Session, Outcome, owns, dead, waits, first, has_id, usable_by, is_free,
  is_empty, first_driven, is_driving, claim, scan, reenter, find_conn, try_find_conn,
  find_conn_pinned, find_conn_for_reaper,
}
use rsbinder.Rpc.Pool.Laws.{
  HasIds, first_holds, first-has_id, not-first_driven, not-is_driving, get-first_driven,
  get-is_driving,
}

-- A slot is taken by the thread that has its marker; numbers are used once.
pub record Marked (s : Session) : Type 0 where
  pub ids : HasIds s.conn.slots
  pub fresh :
      (k : ℕ) (c : ConnSlot) → first (has_id k) s.conn.slots ≡ some c → k < s.conn.next_slot_id
  pub driven : (k t : ℕ) → get k s.driving ≡ some t → k < s.conn.next_slot_id
  pub once : IsUniq s.driving
  pub taken :
      (k : ℕ) (c : ConnSlot)
      → first (has_id k) s.conn.slots ≡ some c
      → c.exclusive_tid ≡ get k s.driving

-- Nothing in the pool serves the thread, which is pinned to a slot or not.
abbrev pub IsStuck : List ConnSlot → ℕ × Option ℕ → Type 0
IsStuck cs (t, none) = (first (usable_by t) cs ≡ none) × (is_empty cs ≡ false)
IsStuck cs (t, some k) = (c : ConnSlot) × (first (has_id k) cs ≡ some c) × (usable_by t c ≡ false)

-- The four ends of a call: no slot, a wait, a slot that the thread drives already, or the claim of one
-- that nobody drives.
pub data Called (t : ℕ) (w : Option ℕ) (s : Session) : Outcome × Session → Type 0 where
  dies : Called t w s (dead, s)
  parks : IsStuck s.conn.slots (t, w) → Called t w s (waits, s)
  reenters :
      (g : ConnGuard)
      → g.reentrant ≡ true
      → get g.slot_id s.driving ≡ some t
      → Called t w s (owns g, s)
  claims :
      (p : ConnSlot → Bool) (c : ConnSlot)
      → first p s.conn.slots ≡ some c
      → get c.id s.driving ≡ none
      → Called t w s (claim t p (some c) s)

module _ (t : ℕ) (w : Option ℕ) (s : Session) (m : Marked s) where
  open m use {ids, taken, once}

  undriven :
      (p : ConnSlot → Bool) (c : ConnSlot)
      → first p s.conn.slots ≡ some c
      → usable_by t c ≡ true
      → get c.id s.driving ≢ some t
      → get c.id s.driving ≡ none
  undriven p c h e n = ground (arith, taken c.id c, first-has_id p c s.conn.slots ids h)

  reenter-Called :
      (k : ℕ) (o : Option ConnSlot) → get k s.driving ≡ some t → Called t w s (reenter k o, s)
  reenter-Called k none h = dies
  reenter-Called k (some c) h =
      reenters (record { slot_id = k; transport = c.transport; reentrant = true }) refl h

scan-Called :
    (t : ℕ) (s : Session)
    → Marked s
    → ((k : ℕ) → get k s.driving ≢ some t)
    → Called t none s (scan t s)
scan-Called t s m n = elim (Bool-cases (s.torn_down || is_empty s.conn.slots)) [
  | inl e ↦ rw e dies
  | inr e ↦ rw e (elim (Option-cases (first (usable_by t) s.conn.slots)) [
    | inl q ↦ rw q (parks (q, ground arith))
    | inr (c, q) ↦ rw q (
        claims (usable_by t) c q (
          undriven t none s m (usable_by t) c q (first_holds (usable_by t) c s.conn.slots q)
            (n c.id)))
  ])
]

pub find_conn-Called : (t : ℕ) (s : Session) → Marked s → Called t none s (find_conn t s)
unfolding find_conn
find_conn-Called t s m = elim (Option-cases (first_driven t s.driving)) [
  | inl e ↦ rw (e, find_conn) (scan-Called t s m (λ k. not-first_driven t k s.driving e))
  | inr (k, e) ↦
      rw (e, find_conn)
        (reenter-Called t none s m k (first (has_id k) s.conn.slots)
          (get-first_driven t k s.driving m.once e))
]

pub find_conn_for_reaper-Called :
    (t : ℕ) (s : Session)
    → Marked s
    → first_driven t s.driving ≡ none
    → Called t none s (find_conn_for_reaper t s)
unfolding find_conn_for_reaper
find_conn_for_reaper-Called t s m e = scan-Called t s m (λ k. not-first_driven t k s.driving e)

pub try_find_conn-Called : (t : ℕ) (s : Session) → Marked s → Called t none s (try_find_conn t s)
unfolding try_find_conn
try_find_conn-Called t s m = elim (Option-cases (first_driven t s.driving)) [
  | inl e ↦
      rw (e, try_find_conn)
        (elim (Option-cases (first is_free s.conn.slots)) [
          | inl q ↦ rw q dies
          | inr (c, q) ↦ rw q (
              claims is_free c q (
                ground (
                  arith,
                  m.taken c.id c,
                  first-has_id is_free c s.conn.slots m.ids q,
                  first_holds is_free c s.conn.slots q,
                )))
        ])
  | inr (k, e) ↦
      rw (e, try_find_conn)
        (reenter-Called t none s m k (first (has_id k) s.conn.slots)
          (get-first_driven t k s.driving m.once e))
]

pub find_conn_pinned-Called :
    (t k : ℕ) (s : Session) → Marked s → Called t (some k) s (find_conn_pinned t k s)
unfolding find_conn_pinned
find_conn_pinned-Called t k s m = elim (Bool-cases (is_driving t k s.driving)) [
  | inl e ↦ rw e (
      reenter-Called t (some k) s m k (first (has_id k) s.conn.slots)
        (get-is_driving t k s.driving m.once e))
  | inr e ↦ rw e (elim (Option-cases (first (has_id k) s.conn.slots)) [
    | inl q ↦ rw q dies
    | inr (c, q) ↦ rw q (elim (Bool-cases (usable_by t c)) [
      | inl u ↦ rw u (
          claims (has_id k) c q (
            undriven t (some k) s m (has_id k) c q u (λ d.
              ground
                (arith, first_holds (has_id k) c s.conn.slots q, not-is_driving t k s.driving e))))
      | inr u ↦ rw u (parks (c, q, u))
    ])
  ])
]
