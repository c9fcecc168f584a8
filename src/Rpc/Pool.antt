-- ===== src/Rpc/Pool.antt =====
-- The connection pool of a session (rsbinder/src/rpc/session.rs): the slots, the threads that drive
-- them, and the choice of a slot for a call. Threads and transports are numbers; `driving` holds the
-- entries of this session in the thread-local `DRIVING` of every thread, the latest first, each with
-- its thread.
mod Laws
mod Marks
pub mod Exclusive
pub mod Wakeups
pub mod Release
mod Tests
mod Called
pub mod Threads
use rsbinder.Prelude.{
  ℕ, suc, ◌+◌, Bool, true, false, ◌&&◌, ◌||◌, leb, ◌==◌, if◌then◌else◌, List, [], ◌∷◌, ◌++◌, Option,
  none, some, length,
}

pub record ConnSlot : Type 0 where
  pub transport : ℕ
  pub exclusive_tid : Option ℕ
  pub id : ℕ

pub record ConnState : Type 0 where
  pub slots : List ConnSlot
  pub next_slot_id : ℕ

pub record ConnGuard : Type 0 where
  pub slot_id : ℕ
  pub transport : ℕ
  pub reentrant : Bool

pub record Session : Type 0 where
  pub conn : ConnState
  pub torn_down : Bool
  pub driving : List (ℕ × ℕ)  -- slot, thread

-- What a call for a slot comes to; `dead` is `DeadObject` or `None`, `waits` the wait on `slot_cv`.
pub data Outcome : Type 0 where
  owns : ConnGuard → Outcome
  dead waits : Outcome

-- `iter().find(p)`, and the write through `iter_mut().find(p)`.
module _ {ℓ} {A : Type ℓ} where
  abbrev pub first : (A → Bool) → List A → Option A
  first p [] = none
  first p (x ∷ xs) = if p x then some x else first p xs

  abbrev pub update : (A → Bool) → (A → A) → List A → List A
  update p f [] = []
  update p f (x ∷ xs) = if p x then f x ∷ xs else x ∷ update p f xs

  abbrev pub retain : (A → Bool) → List A → List A
  retain p [] = []
  retain p (x ∷ xs) = if p x then x ∷ retain p xs else retain p xs

abbrev pub is_free : ConnSlot → Bool
is_free c = elim c.exclusive_tid [ none ↦ true | some o ↦ false ]

-- `s.exclusive_tid == Some(tid) || s.exclusive_tid.is_none()`.
abbrev pub usable_by : ℕ → ConnSlot → Bool
usable_by t c = elim c.exclusive_tid [ none ↦ true | some o ↦ o == t ]

abbrev pub has_id : ℕ → ConnSlot → Bool
has_id k c = c.id == k

abbrev pub set_tid : Option ℕ → ConnSlot → ConnSlot
set_tid o c = record c { exclusive_tid = o }

abbrev pub is_empty : List ConnSlot → Bool
is_empty [] = true
is_empty (c ∷ cs) = false

abbrev pub with_slots : List ConnSlot → Session → Session
with_slots cs s = record s { conn = record s.conn { slots = cs } }

-- The thread's innermost marker, the test for one marker, and the removal of the latest such marker.
abbrev pub first_driven : ℕ → List (ℕ × ℕ) → Option ℕ
first_driven t [] = none
first_driven t ((k, o) ∷ d) = if o == t then some k else first_driven t d

abbrev pub is_driving : ℕ → ℕ → List (ℕ × ℕ) → Bool
is_driving t k [] = false
is_driving t k ((j, o) ∷ d) = (o == t && j == k) || is_driving t k d

abbrev pub unmark : ℕ → ℕ → List (ℕ × ℕ) → List (ℕ × ℕ)
unmark t k [] = []
unmark t k ((j, o) ∷ d) = if o == t && j == k then d else (j, o) ∷ unmark t k d

abbrev pub reenter : ℕ → Option ConnSlot → Outcome
reenter k none = dead
reenter k (some c) = owns (record { slot_id = k; transport = c.transport; reentrant = true })

-- The claim of the slot that the search has found.
abbrev pub claim : ℕ → (ConnSlot → Bool) → Option ConnSlot → Session → Outcome × Session
claim t p none s = (waits, s)
claim t p (some c) s = (
  owns (record { slot_id = c.id; transport = c.transport; reentrant = false }),
  record s {
    conn = record s.conn { slots = update p (set_tid (some t)) s.conn.slots };
    driving = (c.id, t) ∷ s.driving;
  },
)

-- One turn of the loop in `find_conn` and in `find_conn_for_reaper`.
abbrev pub scan : ℕ → Session → Outcome × Session
scan t s =
    if s.torn_down || is_empty s.conn.slots
    then (dead, s)
    else claim t (usable_by t) (first (usable_by t) s.conn.slots) s

unfoldable pub find_conn : ℕ → Session → Outcome × Session
find_conn t s = elim (first_driven t s.driving) [
  | some k ↦ (reenter k (first (has_id k) s.conn.slots), s)
  | none ↦ scan t s
]

abbrev pub claim_free : ℕ → Option ConnSlot → Session → Outcome × Session
claim_free t none s = (dead, s)
claim_free t (some c) s = claim t is_free (some c) s

-- It never waits: a pool with no free slot gives `None`.
unfoldable pub try_find_conn : ℕ → Session → Outcome × Session
try_find_conn t s = elim (first_driven t s.driving) [
  | some k ↦ (reenter k (first (has_id k) s.conn.slots), s)
  | none ↦ claim_free t (first is_free s.conn.slots) s
]

unfoldable pub find_conn_for_reaper : ℕ → Session → Outcome × Session
find_conn_for_reaper t s = scan t s

abbrev pub pin : ℕ → ℕ → Option ConnSlot → Session → Outcome × Session
pin t k none s = (dead, s)
pin t k (some c) s = if usable_by t c then claim t (has_id k) (some c) s else (waits, s)

unfoldable pub find_conn_pinned : ℕ → ℕ → Session → Outcome × Session
find_conn_pinned t k s =
    if is_driving t k s.driving
    then (reenter k (first (has_id k) s.conn.slots), s)
    else pin t k (first (has_id k) s.conn.slots) s

-- `Drop` of the guard that the thread holds.
unfoldable pub drop_guard : ℕ → ConnGuard → Session → Session
drop_guard t g s = if g.reentrant then s else record s {
  conn = record s.conn { slots = update (has_id g.slot_id) (set_tid none) s.conn.slots };
  driving = unmark t g.slot_id s.driving;
}

abbrev pub push_slot : ℕ → ConnState → ConnState
push_slot transport st = record {
  slots =
      st.slots
      ++ (record { transport = transport; exclusive_tid = none; id = st.next_slot_id } ∷ []);
  next_slot_id = st.next_slot_id + 1;
}

unfoldable pub add_slot_inner : ℕ → Session → ℕ × Session
add_slot_inner transport s = (s.conn.next_slot_id, record s { conn = push_slot transport s.conn })

unfoldable pub add_slot_inner_capped : ℕ → ℕ → Session → Option ℕ × Session
add_slot_inner_capped transport cap s =
    if leb cap (length s.conn.slots)
    then (none, s)
    else (some s.conn.next_slot_id, record s { conn = push_slot transport s.conn })

unfoldable pub remove_slot : ℕ → Session → Session
remove_slot k s = with_slots (retain (λ c. if has_id k c then false else true) s.conn.slots) s

-- `RpcSession::with_shared`: one founding slot.
unfoldable pub new : ℕ → Session
new transport = record {
  conn = record {
    slots = record { transport = transport; exclusive_tid = none; id = 1 } ∷ [];
    next_slot_id = 2;
  };
  torn_down = false;
  driving = [];
}
