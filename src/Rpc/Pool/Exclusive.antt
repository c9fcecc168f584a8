-- ===== src/Rpc/Pool/Exclusive.antt =====
-- The guards that threads hold at one time.
use rsbinder.Prelude.{
  ℕ, ◌≡◌, ◌≢◌, subst, ◌∙◌, false, List, [], ◌∷◌, Option, none, some, ◌==◌, arith, nat_eq, inl, inr,
  Bool-cases, Option-cases, All, All-get_elem, get_elem?, leb, length,
}
use rsbinder.Prelude.Maps.{get, IsUniq}
use rsbinder.Rpc.Pool.{
  ConnSlot, ConnGuard, Session, Outcome, first, has_id, first_driven, unmark, drop_guard,
  remove_slot, add_slot_inner, add_slot_inner_capped, new, find_conn, try_find_conn,
  find_conn_pinned, find_conn_for_reaper,
}
use rsbinder.Rpc.Pool.Laws.{get-unmark}
use rsbinder.Rpc.Pool.Called.{
  Marked, Called, dies, parks, reenters, claims, find_conn-Called, find_conn_for_reaper-Called,
  try_find_conn-Called, find_conn_pinned-Called,
}
use rsbinder.Rpc.Pool.Marks.{
  claim-Marked, push_slot-Marked, torn_down-Marked, remove_slot-Marked, drop_guard-Marked,
  new-Marked,
}
use rsbinder.Rpc.Pool.Threads.{
  System, Act, finds, tries, reaps, drops, pins, adds, adds_capped, removes, tears_down, notifies,
  joined, latest, dropped, step, run, start,
}

abbrev pub Guards : Type 0
Guards = List (ℕ × ConnGuard)

-- A guard's thread has the marker of its slot.
abbrev pub IsHeld : List (ℕ × ℕ) → ℕ × ConnGuard → Type 0
IsHeld d (t, g) = get g.slot_id d ≡ some t

abbrev pub IsOff : ℕ → ℕ × ConnGuard → Type 0
IsOff k (t, g) = g.slot_id ≢ k

-- The guard that claimed a slot is older than all others on it.
abbrev pub IsNested : Guards → Type 0
IsNested [] = Unit
IsNested ((t, g) ∷ gs) = (g.reentrant ≡ false → All (IsOff g.slot_id) gs) × IsNested gs

pub record IsValid (y : System) : Type 0 where
  pub marked : Marked y.session
  pub held : All (IsHeld y.session.driving) y.guards
  pub nested : IsNested y.guards

All-IsOff :
    (k : ℕ) (d : List (ℕ × ℕ)) (gs : Guards) → get k d ≡ none → All (IsHeld d) gs → All (IsOff k) gs
All-IsOff k d [] n h = tt
All-IsOff k d ((t, g) ∷ gs) n h = (λ q. ground arith, All-IsOff k d gs n h.1)

All-IsHeld_push :
    (k t : ℕ) (d : List (ℕ × ℕ)) (gs : Guards)
    → get k d ≡ none
    → All (IsHeld d) gs
    → All (IsHeld ((k, t) ∷ d)) gs
All-IsHeld_push k t d [] n h = tt
All-IsHeld_push k t d ((u, g) ∷ gs) n h = (ground arith, All-IsHeld_push k t d gs n h.1)

All-IsHeld_unmark :
    (t k : ℕ) (d : List (ℕ × ℕ)) (gs : Guards)
    → IsUniq d
    → get k d ≡ some t
    → All (IsOff k) gs
    → All (IsHeld d) gs
    → All (IsHeld (unmark t k d)) gs
All-IsHeld_unmark t k d [] u e o h = tt
All-IsHeld_unmark t k d ((v, g) ∷ gs) u e o h =
    (ground (arith, get-unmark t k g.slot_id d u e), All-IsHeld_unmark t k d gs u e o.1 h.1)

-- The latest guard of a thread among others.
pub data Latest (t : ℕ) (g : ConnGuard) : Guards → Guards → Type 0 where
  here : {gs : Guards} → Latest t g ((t, g) ∷ gs) gs
  there :
      {u : ℕ} {x : ConnGuard} {gs rest : Guards}
      → u ≢ t
      → Latest t g gs rest
      → Latest t g ((u, x) ∷ gs) ((u, x) ∷ rest)

Latest-here :
    (t u : ℕ) (g x : ConnGuard) (gs rest : Guards)
    → u ≡ t
    → x ≡ g
    → gs ≡ rest
    → Latest t g ((u, x) ∷ gs) rest
Latest-here t u g x gs rest p q r = rw (p, q, r) here

Latest-there :
    (t u : ℕ) (g x : ConnGuard) (gs others rest : Guards)
    → u ≢ t
    → Latest t g gs others
    → (u, x) ∷ others ≡ rest
    → Latest t g ((u, x) ∷ gs) rest
Latest-there t u g x gs others rest n l e = subst (λ r. Latest t g ((u, x) ∷ gs) r) e (there n l)

pub latest-Latest :
    (t : ℕ) (g : ConnGuard) (gs rest : Guards) → latest t gs ≡ some (g, rest) → Latest t g gs rest
latest-Latest t g [] rest e = cc
latest-Latest t g ((u, x) ∷ gs) rest e = elim (Bool-cases (u == t)) [
  | inl q ↦ Latest-here t u g x gs rest (ground arith) (ground arith) (ground arith)
  | inr q ↦ elim (Option-cases (latest t gs)) [
    | inl n ↦ ground arith
    | inr ((h, others), n) ↦
        Latest-there t u g x gs others rest (ground arith)
          (latest-Latest t g gs others (ground arith)) (ground arith)
  ]
]

module _ {t : ℕ} {g : ConnGuard} where
  pub Latest-All :
      (P : ℕ × ConnGuard → Type 0) {gs rest : Guards}
      → Latest t g gs rest
      → All P gs
      → P (t, g) × All P rest
  Latest-All P here h = h
  Latest-All P (there n l) h = let r = Latest-All P l h.1 in (r.0, (h.0, r.1))

  Latest-IsNested : {gs rest : Guards} → Latest t g gs rest → IsNested gs → IsNested rest
  Latest-IsNested here h = h.1
  Latest-IsNested (there {u} {x} {gs} n l) h =
      (λ q. (Latest-All (IsOff x.slot_id) l (h.0 q)).1, Latest-IsNested l h.1)

  Latest-IsOff :
      (d : List (ℕ × ℕ)) {gs rest : Guards}
      → Latest t g gs rest
      → g.reentrant ≡ false
      → IsNested gs
      → All (IsHeld d) gs
      → All (IsOff g.slot_id) rest
  Latest-IsOff d here q h held = h.0 q
  Latest-IsOff d (there n l) q h held =
      let own = (Latest-All (IsHeld d) l held.1).0 in (λ e. n (cc), Latest-IsOff d l q h.1 held.1)

-- A call keeps the guards and the markers in agreement, whatever it comes to.
module _ (t : ℕ) (w : Option ℕ) (y : System) (v : IsValid y) where
  joined-IsValid : (r : Outcome × Session) → Called t w y.session r → IsValid (joined t w r y)
  joined-IsValid r dies = record { marked = v.marked; held = v.held; nested = v.nested }
  joined-IsValid r (parks s) = record { marked = v.marked; held = v.held; nested = v.nested }
  joined-IsValid r (reenters g e h) = record {
    marked = v.marked;
    held = (h, v.held);
    nested = ((λ q. cc), v.nested);
  }
  joined-IsValid r (claims p c h n) = record {
    marked = claim-Marked t p c y.session v.marked h n;
    held = (ground arith, All-IsHeld_push c.id t y.session.driving y.guards n v.held);
    nested = ((λ q. All-IsOff c.id y.session.driving y.guards n v.held), v.nested);
  }

drop-IsValid :
    (t : ℕ) (g : ConnGuard) (rest : Guards) (y : System)
    → IsValid y
    → Latest t g y.guards rest
    → IsValid (dropped t (some (g, rest)) y)
unfolding drop_guard
drop-IsValid t g rest y v l = elim (Bool-cases g.reentrant) [
  | inl e ↦ rw e (record { marked = v.marked; held = all.1; nested = Latest-IsNested l v.nested })
  | inr e ↦ record {
    marked = drop_guard-Marked t g y.session v.marked all.0;
    held = rw e (
        All-IsHeld_unmark t g.slot_id y.session.driving rest v.marked.once all.0
          (Latest-IsOff y.session.driving l e v.nested v.held) all.1);
    nested = Latest-IsNested l v.nested;
  }
]
  where
    all : IsHeld y.session.driving (t, g) × All (IsHeld y.session.driving) rest
    all = Latest-All (IsHeld y.session.driving) l v.held

dropped-IsValid : (t : ℕ) (y : System) → IsValid y → IsValid (dropped t (latest t y.guards) y)
dropped-IsValid t y v = elim (Option-cases (latest t y.guards)) [
  | inl e ↦ rw e v
  | inr ((g, rest), e) ↦ rw e (drop-IsValid t g rest y v (latest-Latest t g y.guards rest e))
]

pub step-IsValid : (a : Act) (y : System) → IsValid y → IsValid (step a y)
unfolding step remove_slot add_slot_inner add_slot_inner_capped
step-IsValid (finds t) y v =
    joined-IsValid t none y v (find_conn t y.session) (find_conn-Called t y.session v.marked)
step-IsValid (tries t) y v =
    joined-IsValid t none y v (try_find_conn t y.session)
      (try_find_conn-Called t y.session v.marked)
step-IsValid (reaps t) y v = elim (Option-cases (first_driven t y.session.driving)) [
  | inl e ↦
      rw (e, step)
        (joined-IsValid t none y v (find_conn_for_reaper t y.session)
          (find_conn_for_reaper-Called t y.session v.marked e))
  | inr (k, e) ↦ rw (e, step) v
]
step-IsValid (drops t) y v = dropped-IsValid t y v
step-IsValid (pins t k) y v =
    joined-IsValid t (some k) y v (find_conn_pinned t k y.session)
      (find_conn_pinned-Called t k y.session v.marked)
step-IsValid (adds transport) y v = record {
  marked = push_slot-Marked transport y.session v.marked;
  held = v.held;
  nested = v.nested;
}
step-IsValid (adds_capped transport cap) y v =
    elim (Bool-cases (leb cap (length y.session.conn.slots))) [
      | inl e ↦ rw e v
      | inr e ↦ rw e (record {
        marked = push_slot-Marked transport y.session v.marked;
        held = v.held;
        nested = v.nested;
      })
    ]
step-IsValid (removes k) y v = record {
  marked = remove_slot-Marked k y.session v.marked;
  held = v.held;
  nested = v.nested;
}
step-IsValid tears_down y v = record {
  marked = torn_down-Marked y.session v.marked;
  held = v.held;
  nested = v.nested;
}
step-IsValid notifies y v = record { marked = v.marked; held = v.held; nested = v.nested }

run-IsValid : (acts : List Act) (y : System) → IsValid y → IsValid (run acts y)
unfolding run
run-IsValid [] y v = v
run-IsValid (a ∷ acts) y v = run-IsValid acts (step a y) (step-IsValid a y v)

pub start-IsValid : (transport : ℕ) → IsValid (start (new transport))
unfolding new
start-IsValid transport = record { marked = new-Marked transport; held = tt; nested = tt }

pub reached-IsValid : (transport : ℕ) (acts : List Act) → IsValid (run acts (start (new transport)))
reached-IsValid transport acts = run-IsValid acts (start (new transport)) (start-IsValid transport)

module _ {y : System} (v : IsValid y) where
  guards-exclusive :
      (i j t u : ℕ) (g h : ConnGuard)
      → get_elem? y.guards i ≡ some (t, g)
      → get_elem? y.guards j ≡ some (u, h)
      → g.slot_id ≡ h.slot_id
      → t ≡ u
  guards-exclusive i j t u g h p q e =
      let mine : IsHeld y.session.driving (t, g) =
        All-get_elem (IsHeld y.session.driving) y.guards i v.held p in
      let other : IsHeld y.session.driving (u, h) =
        All-get_elem (IsHeld y.session.driving) y.guards j v.held q in
      ground arith

  guard-exclusive_tid :
      (i t : ℕ) (g : ConnGuard) (c : ConnSlot)
      → get_elem? y.guards i ≡ some (t, g)
      → first (has_id g.slot_id) y.session.conn.slots ≡ some c
      → c.exclusive_tid ≡ some t
  guard-exclusive_tid i t g c p q =
      v.marked.taken g.slot_id c q ∙ All-get_elem (IsHeld y.session.driving) y.guards i v.held p

-- Whatever any number of threads do with a session's pool (calls, pinned calls, nested calls, the
-- reaper's, additions, removals, teardown), two guards on the same slot are the same thread's, and
-- while the slot is in the pool its `exclusive_tid` is that thread.
pub run-Exclusive :
    (transport : ℕ) (acts : List Act) (i j t u : ℕ) (g h : ConnGuard)
    → get_elem? (run acts (start (new transport))).guards i ≡ some (t, g)
    → get_elem? (run acts (start (new transport))).guards j ≡ some (u, h)
    → g.slot_id ≡ h.slot_id
    → (t ≡ u)
      × ((c : ConnSlot)
          → first (has_id g.slot_id) (run acts (start (new transport))).session.conn.slots ≡ some c
          → c.exclusive_tid ≡ some t)
run-Exclusive transport acts i j t u g h p q e =
    let v : IsValid (run acts (start (new transport))) = reached-IsValid transport acts in
    (guards-exclusive v i j t u g h p q e, λ c f. guard-exclusive_tid v i t g c p f)
