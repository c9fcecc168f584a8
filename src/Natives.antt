-- ===== src/Natives.antt =====
-- The table of native binders that a process has given to the kernel driver
-- (rsbinder/src/process_state.rs), and the objects of its parcels that count in it
-- (rsbinder/src/binder_object.rs). An `Arc<dyn IBinder>` is a number, equal by `Arc::ptr_eq`. `strong`
-- and `weak` count what the table itself has added to the reference counters of each binder, and
-- `dying` holds the pins of entries that were taken out and not dropped yet.
pub mod Objects
mod Entries
pub mod Held
pub mod Resolved
mod Pins
pub mod Floors
pub mod Derefs
mod Tests
use rsbinder.Prelude.{
  ℕ, suc, ◌+◌, ◌-◌, ◌^◌, ◌%◌, min, Bool, true, false, ◌&&◌, List, [], ◌∷◌, Option, none, some, ◌==◌,
  if◌then◌else◌, nat_eq,
}
use rsbinder.Prelude.Maps.{Map, get, insert, remove}

pub record PublishedNative : Type 0 where
  pub binder_pin : ℕ
  pub publish_count : ℕ
  pub kernel_refs : ℕ
  pub pending_reservations : ℕ

pub record ProcessState : Type 0 where
  pub published_natives : Map ℕ PublishedNative
  pub next_native_id : ℕ
  pub strong : ℕ → ℕ
  pub weak : ℕ → ℕ
  pub dying : List ℕ

pub default : ProcessState
default = record {
  published_natives = [];
  next_native_id = 1;
  strong = λ a. 0;
  weak = λ a. 0;
  dying = [];
}

-- The counts are u32.
abbrev pub u32 : ℕ → ℕ
u32 n = n % 2 ^ 32

abbrev pub saturating_add : ℕ → ℕ → ℕ
saturating_add a b = min (a + b) (2 ^ 32 - 1)

abbrev pub more : ℕ → (ℕ → ℕ) → ℕ → ℕ
more a f b = if a == b then suc (f b) else f b

abbrev pub less : ℕ → (ℕ → ℕ) → ℕ → ℕ
less a f b = if a == b then f b - 1 else f b

-- The search of `publish_native` for an entry of the same `Arc`.
abbrev pub find_pin : ℕ → Map ℕ PublishedNative → Option (ℕ × PublishedNative)
find_pin arc [] = none
find_pin arc ((id, e) ∷ m) = if e.binder_pin == arc then some (id, e) else find_pin arc m

abbrev pub fresh_entry : ℕ → PublishedNative
fresh_entry arc = record {
  binder_pin = arc;
  publish_count = 0;
  kernel_refs = 0;
  pending_reservations = 0;
}

abbrev pub with_entry : ℕ → PublishedNative → ProcessState → ProcessState
with_entry id e s = record s { published_natives = insert id e s.published_natives }

abbrev pub published : ℕ → Option (ℕ × PublishedNative) → ProcessState → ℕ × ProcessState
published arc (some (id, e)) s = (
  id,
  with_entry id (record e { pending_reservations = saturating_add e.pending_reservations 1 }) s,
)
published arc none s = (
  s.next_native_id,
  record s {
    published_natives = insert s.next_native_id (fresh_entry arc) s.published_natives;
    next_native_id = s.next_native_id + 1;
    strong = more arc s.strong;
    weak = more arc s.weak;
  },
)

unfoldable pub publish_native : ℕ → ProcessState → ℕ × ProcessState
publish_native arc s = published arc (find_pin arc s.published_natives) s

abbrev pub increfed : ℕ → Option PublishedNative → ProcessState → Bool × ProcessState
increfed id none s = (false, s)
increfed id (some e) s = (
  true,
  with_entry id
      (record e {
        publish_count = u32 (e.publish_count + 1);
        pending_reservations = e.pending_reservations - 1;
      })
      s,
)

unfoldable pub incref_publish : ℕ → ProcessState → Bool × ProcessState
incref_publish id s = increfed id (get id s.published_natives) s

-- No count is left.
abbrev pub is_unused : PublishedNative → Bool
is_unused e = e.publish_count == 0 && (e.kernel_refs == 0 && e.pending_reservations == 0)

-- A decrement under the lock: what the call returns, and whether the removal follows.
abbrev pub decrefed : ℕ → Option PublishedNative → ProcessState → Bool × Bool × ProcessState
decrefed id none s = (false, false, s)
decrefed id (some e) s =
    let e' = record e { publish_count = e.publish_count - 1 } in
    (true, is_unused e', with_entry id e' s)

unfoldable pub decref_publish : ℕ → ProcessState → Bool × Bool × ProcessState
decref_publish id s = decrefed id (get id s.published_natives) s

abbrev pub refed : ℕ → Option PublishedNative → ProcessState → Option ℕ × ProcessState
refed id none s = (none, s)
refed id (some e) s =
    (some e.binder_pin, with_entry id (record e { kernel_refs = u32 (e.kernel_refs + 1) }) s)

unfoldable pub ref_native_kernel : ℕ → ProcessState → Option ℕ × ProcessState
ref_native_kernel id s = refed id (get id s.published_natives) s

abbrev pub derefed : ℕ → Option PublishedNative → ProcessState → Option ℕ × Bool × ProcessState
derefed id none s = (none, false, s)
derefed id (some e) s =
    let e' = record e { kernel_refs = e.kernel_refs - 1 } in
    (some e.binder_pin, is_unused e', with_entry id e' s)

unfoldable pub deref_native_kernel : ℕ → ProcessState → Option ℕ × Bool × ProcessState
deref_native_kernel id s = derefed id (get id s.published_natives) s

abbrev pub pin_of : Option PublishedNative → Option ℕ
pin_of none = none
pin_of (some e) = some e.binder_pin

unfoldable pub lookup_native : ℕ → ProcessState → Option ℕ
lookup_native id s = pin_of (get id s.published_natives)

-- The part of `remove_entry_if_zero` under its lock, which looks at the counts again.
abbrev pub taken : ℕ → Option PublishedNative → ProcessState → ProcessState
taken id none s = s
taken id (some e) s =
    if is_unused e
    then record s {
      published_natives = remove id s.published_natives;
      dying = e.binder_pin ∷ s.dying;
    }
    else s

unfoldable pub remove_entry_if_zero : ℕ → ProcessState → ProcessState
remove_entry_if_zero id s = taken id (get id s.published_natives) s

-- Its end, after the lock: `dec_weak`, and the drop of the pin.
abbrev pub dropped : List ℕ → ProcessState → ProcessState
dropped [] s = s
dropped (a ∷ rest) s = record s { strong = less a s.strong; weak = less a s.weak; dying = rest }

unfoldable pub drop_pin : ProcessState → ProcessState
drop_pin s = dropped s.dying s
