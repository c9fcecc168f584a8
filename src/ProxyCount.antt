-- ===== src/ProxyCount.antt =====
-- The process-wide count of proxies, its watermarks and their callbacks
-- (rsbinder/src/proxy_count.rs).
pub mod Live
pub mod Creates
pub mod Drops
pub mod Counts
pub mod Watermarks
pub mod Deferral
mod Tests
use rsbinder.Prelude.{
  ℕ, ◌+◌, ◌-◌, ◌^◌, ◌%◌, not, Bool, true, false, ◌&&◌, List, [], ◌∷◌, ◌++◌, map, Option, none, some,
  ltb, leb, ◌==◌, if◌then◌else◌, nat_eq,
}
use rsbinder.Prelude.Maps.{Map, get, insert, remove}

-- `ProxyCountEvent`: the uid and its count.
pub data Event : Type 0 where
  warned : ℕ → ℕ → Event
  limited : ℕ → ℕ → Event

pub record UidEntry : Type 0 where
  pub count : ℕ
  pub warning_fired : Bool
  pub limit_fired : Bool

-- A callback is known by a number, and a call of it by that number and the event.
abbrev pub Fired : Type 0
Fired = ℕ × Event

-- The statics: `PROXY_COUNT`, `COUNT_BY_UID_ENABLED`, `STATE`; and the thread's `CALLBACK_DEFER` and
-- `PENDING_CALLBACKS`.
pub record State : Type 0 where
  pub proxy_count : ℕ
  pub enabled : Bool
  pub high : ℕ
  pub low : ℕ
  pub warning : ℕ
  pub callback : Option ℕ
  pub per_uid : Map ℕ UidEntry
  pub defer : Bool
  pub pending : List Fired

abbrev pub initial : State
initial = record {
  proxy_count = 0;
  enabled = false;
  high = 2500;
  low = 2000;
  warning = 2250;
  callback = none;
  per_uid = [];
  defer = false;
  pending = [];
}

unfoldable pub get_binder_proxy_count : State → ℕ
get_binder_proxy_count s = s.proxy_count

abbrev pub count_or_zero : Option UidEntry → ℕ
count_or_zero none = 0
count_or_zero (some e) = e.count

unfoldable pub get_binder_proxy_count_for_uid : ℕ → State → ℕ
get_binder_proxy_count_for_uid uid s = count_or_zero (get uid s.per_uid)

unfoldable pub get_binder_proxy_counts_by_uid : State → List (ℕ × ℕ)
get_binder_proxy_counts_by_uid s = map (λ p. (p.0, p.1.count)) s.per_uid

unfoldable pub set_binder_proxy_count_watermarks : ℕ → ℕ → ℕ → State → State
set_binder_proxy_count_watermarks high low warning s = record s {
  high = high;
  low = low;
  warning = warning;
}

unfoldable pub set_binder_proxy_count_event_callback : Option ℕ → State → State
set_binder_proxy_count_event_callback callback s = record s { callback = callback }

unfoldable pub enable_count_by_uid : Bool → State → State
enable_count_by_uid enabled s = record s { enabled = enabled }

unfoldable pub clear_count_by_uid : State → State
clear_count_by_uid s = record s { per_uid = [] }

abbrev pub entry_or_default : Option UidEntry → UidEntry
entry_or_default none = record { count = 0; warning_fired = false; limit_fired = false }
entry_or_default (some e) = e

-- The critical section of `on_proxy_create`, on the entry after its count went up.
unfoldable pub cross : State → ℕ → UidEntry → UidEntry × Option Event
cross s uid e =
    if not e.limit_fired && leb s.high e.count
    then (record e { limit_fired = true }, some (limited uid e.count))
    else if not e.warning_fired && leb s.warning e.count && ltb e.count s.high
    then (record e { warning_fired = true }, some (warned uid e.count))
    else (e, none)

-- `state.callback.as_ref().map(…)`.
unfoldable pub with_callback : Option ℕ → Option Event → Option Fired
with_callback none event = none
with_callback (some cb) none = none
with_callback (some cb) (some event) = some (cb, event)

-- Calls the callback, or queues the call while a guard is active.
unfoldable pub notify : Option Fired → State → State × List Fired
notify none s = (s, [])
notify (some call) s =
    if s.defer then (record s { pending = s.pending ++ call ∷ [] }, []) else (s, call ∷ [])

unfoldable pub bumped : UidEntry → UidEntry
bumped e = record e { count = (e.count + 1) % 2 ^ 64 }

-- The tracked half of `on_proxy_create`: the state, `true`, and the callbacks that were called.
unfoldable pub count_for_uid : ℕ → State → State × (Bool × List Fired)
unfolding bumped
count_for_uid uid s =
    let (entry, event) = cross s uid (bumped (entry_or_default (get uid s.per_uid))) in
    let (s', fired) =
      notify (with_callback s.callback event) (record s { per_uid = insert uid entry s.per_uid }) in
    (s', (true, fired))

-- The state, whether the proxy was counted for its uid, and the callbacks that were called.
unfoldable pub on_proxy_create : ℕ → State → State × (Bool × List Fired)
on_proxy_create uid s =
    let counted : State = record s { proxy_count = (s.proxy_count + 1) % 2 ^ 64 } in
    if not s.enabled then (counted, (false, [])) else count_for_uid uid counted

-- One proxy fewer in the entry; both flags fall together at `low`.
unfoldable pub lowered : ℕ → UidEntry → UidEntry
lowered low e =
    if leb (e.count - 1) low
    then record { count = e.count - 1; warning_fired = false; limit_fired = false }
    else record e { count = e.count - 1 }

unfoldable pub on_proxy_drop : ℕ → Bool → State → State
unfolding lowered
on_proxy_drop uid counted_by_uid s =
    let counted : State = record s { proxy_count = (s.proxy_count + 2 ^ 64 - 1) % 2 ^ 64 } in
    if not counted_by_uid then counted else elim (get uid s.per_uid) [
      | none ↦ counted
      | some e ↦ record counted {
        per_uid =
            if (lowered s.low e).count == 0
            then remove uid s.per_uid
            else insert uid (lowered s.low e) s.per_uid;
      }
    ]

-- `CallbackDeferGuard::new`: the second result is the guard's `was_deferring`.
unfoldable pub guard_new : State → State × Bool
guard_new s = (record s { defer = true }, s.defer)

unfoldable pub guard_drop : Bool → State → State × List Fired
guard_drop was_deferring s =
    if was_deferring
    then (record s { defer = true }, [])
    else (record s { defer = false; pending = [] }, s.pending)
