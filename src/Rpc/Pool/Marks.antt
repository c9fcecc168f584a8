-- ===== src/Rpc/Pool/Marks.antt =====
-- Every change of the pool keeps the markers true.
use rsbinder.Prelude.{
  ℕ, ◌≡◌, refl, Bool, true, none, some, arith, nat_eq, inl, inr, Bool-cases, Option-cases,
}
use rsbinder.Prelude.Maps.{get}
use rsbinder.Rpc.Pool.{
  ConnSlot, ConnGuard, Session, first, update, has_id, set_tid, claim, unmark, drop_guard,
  push_slot, remove_slot, new,
}
use rsbinder.Rpc.Pool.Laws.{
  first_holds, first-has_id, first-update, update-none, update-HasIds, first-retain, retain-HasIds,
  first-append, append-HasIds, get-unmark, unmark-IsUniq,
}
use rsbinder.Rpc.Pool.Called.{Marked}

pub claim-Marked :
    (t : ℕ) (p : ConnSlot → Bool) (c : ConnSlot) (s : Session)
    → Marked s
    → first p s.conn.slots ≡ some c
    → get c.id s.driving ≡ none
    → Marked (claim t p (some c) s).1
claim-Marked t p c s m h n = record {
  ids = update-HasIds p (some t) s.conn.slots m.ids;
  fresh = λ k d q.
      ground
        (arith, first-update p (some t) k c s.conn.slots m.ids h, at, m.fresh k d, m.fresh c.id c);
  driven = λ k u q. ground (arith, m.driven k u, m.fresh c.id c, at);
  once = (n, m.once);
  taken = λ k d q. ground (arith, first-update p (some t) k c s.conn.slots m.ids h, m.taken k d);
}
  where
    at : first (has_id c.id) s.conn.slots ≡ some c
    at = first-has_id p c s.conn.slots m.ids h

pub unmark-Marked :
    (t k : ℕ) (s : Session)
    → Marked s
    → get k s.driving ≡ some t
    → Marked (record s {
      conn = record s.conn { slots = update (has_id k) (set_tid none) s.conn.slots };
      driving = unmark t k s.driving;
    })
unmark-Marked t k s m h = elim (Option-cases (first (has_id k) s.conn.slots)) [
  | inl e ↦ record {
    ids = rw (update-none (has_id k) (set_tid none) s.conn.slots e) m.ids;
    fresh =
        λ j d q. ground (arith, update-none (has_id k) (set_tid none) s.conn.slots e, m.fresh j d);
    driven = λ j u q. ground (arith, get-unmark t k j s.driving m.once h, m.driven j u);
    once = unmark-IsUniq t k s.driving m.once h;
    taken = λ j d q. ground (
      arith,
      update-none (has_id k) (set_tid none) s.conn.slots e,
      m.taken j d,
      get-unmark t k j s.driving m.once h,
    );
  }
  | inr (c, e) ↦ record {
    ids = update-HasIds (has_id k) none s.conn.slots m.ids;
    fresh = λ j d q. ground (
      arith,
      first-update (has_id k) none j c s.conn.slots m.ids e,
      first_holds (has_id k) c s.conn.slots e,
      m.fresh j d,
      m.fresh k c,
    );
    driven = λ j u q. ground (arith, get-unmark t k j s.driving m.once h, m.driven j u);
    once = unmark-IsUniq t k s.driving m.once h;
    taken = λ j d q. ground (
      arith,
      first-update (has_id k) none j c s.conn.slots m.ids e,
      first_holds (has_id k) c s.conn.slots e,
      m.taken j d,
      get-unmark t k j s.driving m.once h,
    );
  }
]

pub push_slot-Marked :
    (transport : ℕ) (s : Session)
    → Marked s
    → Marked (record s { conn = push_slot transport s.conn })
push_slot-Marked transport s m = record {
  ids = append-HasIds added s.conn.slots m.ids unused;
  fresh = λ j d q. ground (arith, first-append j added s.conn.slots unused, m.fresh j d);
  driven = λ j u q. ground (arith, m.driven j u);
  once = m.once;
  taken =
      λ j d q. ground (arith, first-append j added s.conn.slots unused, m.taken j d, undriven j);
}
  where
    added : ConnSlot
    added = record { transport = transport; exclusive_tid = none; id = s.conn.next_slot_id }

    unused : first (has_id added.id) s.conn.slots ≡ none
    unused = elim (Option-cases (first (has_id added.id) s.conn.slots)) [
      | inl e ↦ e
      | inr (c, e) ↦ absurd (omega (arith, m.fresh s.conn.next_slot_id c e))
    ]

    undriven : (j : ℕ) → s.conn.next_slot_id ≡ j → get j s.driving ≡ none
    undriven j q = elim (Option-cases (get j s.driving)) [
      | inl e ↦ e
      | inr (u, e) ↦ absurd (omega (arith, q, m.driven j u e))
    ]

pub remove_slot-Marked : (k : ℕ) (s : Session) → Marked s → Marked (remove_slot k s)
unfolding remove_slot
remove_slot-Marked k s m = record {
  ids = retain-HasIds k s.conn.slots m.ids;
  fresh = λ j d q. ground (arith, first-retain k j s.conn.slots, m.fresh j d);
  driven = m.driven;
  once = m.once;
  taken = λ j d q. ground (arith, first-retain k j s.conn.slots, m.taken j d);
}

pub torn_down-Marked : (s : Session) → Marked s → Marked (record s { torn_down = true })
torn_down-Marked s m = record {
  ids = m.ids;
  fresh = m.fresh;
  driven = m.driven;
  once = m.once;
  taken = m.taken;
}

pub drop_guard-Marked :
    (t : ℕ) (g : ConnGuard) (s : Session)
    → Marked s
    → get g.slot_id s.driving ≡ some t
    → Marked (drop_guard t g s)
unfolding drop_guard
drop_guard-Marked t g s m h = elim (Bool-cases g.reentrant) [
  | inl e ↦ rw e m
  | inr e ↦ rw e (unmark-Marked t g.slot_id s m h)
]

pub new-Marked : (transport : ℕ) → Marked (new transport)
unfolding new
new-Marked transport = record {
  ids = (refl, tt);
  fresh = λ k c q. ground arith;
  driven = λ k t q. cc;
  once = tt;
  taken = λ k c q. ground arith;
}
