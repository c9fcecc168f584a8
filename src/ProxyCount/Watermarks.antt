-- ===== src/ProxyCount/Watermarks.antt =====
-- How often the watermark events come.
use rsbinder.Prelude.{
  ℕ, ◌+◌, ◌-◌, ◌^◌, ◌%◌, ◌≤◌, ◌<◌, ◌≡◌, refl, ap, Bool, true, false, List, [], ◌∷◌, ◌++◌, Option,
  none, some, inl, inr, arith, ◌==◌, if◌then◌else◌, nat_eq, Bool-cases, Option-cases, subst,
}
use rsbinder.Prelude.Maps.{get, insert, get-insert}
use rsbinder.ProxyCount.{
  State, UidEntry, Event, warned, limited, Fired, cross, notify, with_callback, bumped, lowered,
  entry_or_default, on_proxy_create, on_proxy_drop, get_binder_proxy_count_for_uid, count_for_uid,
  enable_count_by_uid, set_binder_proxy_count_watermarks, set_binder_proxy_count_event_callback,
}
use rsbinder.ProxyCount.Live.{Proxy, Op, creates, drops, enables, watermarks, installs, pick, step}
use rsbinder.ProxyCount.Creates.{create_counted, create_uncounted, count_for_uid-counts}
use rsbinder.ProxyCount.Drops.{drop_entry}

abbrev is_warned : ℕ → Event → ℕ
is_warned u (warned uid n) = if uid == u then 1 else 0
is_warned u (limited uid n) = 0

abbrev is_limited : ℕ → Event → ℕ
is_limited u (warned uid n) = 0
is_limited u (limited uid n) = if uid == u then 1 else 0

-- How many of the calls are about the uid's warning, and about its limit.
abbrev pub warnings : ℕ → List Fired → ℕ
warnings u [] = 0
warnings u (f ∷ fs) = is_warned u f.1 + warnings u fs

abbrev pub limits : ℕ → List Fired → ℕ
limits u [] = 0
limits u (f ∷ fs) = is_limited u f.1 + limits u fs

-- The callbacks that one operation calls, and those of a history.
unfoldable pub fired_by : Op → State → List Fired
fired_by (creates uid) s = (on_proxy_create uid s).1.1
fired_by (drops i) s = []
fired_by (enables b) s = []
fired_by (watermarks high low warning) s = []
fired_by (installs cb) s = []

unfoldable pub log : List Op → State → List Proxy → List Fired
log [] s live = []
log (op ∷ ops) s live = fired_by op s ++ log ops (step op s live).0 (step op s live).1

-- After each operation the uid's count is above the low watermark of that moment.
unfoldable pub StaysAbove : ℕ → List Op → State → List Proxy → Type 0
StaysAbove u [] s live = Unit
StaysAbove u (op ∷ ops) s live =
    let (s', live') = step op s live in
    (s'.low < get_binder_proxy_count_for_uid u s') × StaysAbove u ops s' live'

abbrev pub as_nat : Bool → ℕ
as_nat b = if b then 1 else 0

abbrev pub warned_before : ℕ → State → ℕ
warned_before u s = as_nat (entry_or_default (get u s.per_uid)).warning_fired

abbrev pub limited_before : ℕ → State → ℕ
limited_before u s = as_nat (entry_or_default (get u s.per_uid)).limit_fired

abbrev warning_in : ℕ → Option Event → ℕ
warning_in u none = 0
warning_in u (some e) = is_warned u e

abbrev limit_in : ℕ → Option Event → ℕ
limit_in u none = 0
limit_in u (some e) = is_limited u e

cross-flags :
    (s : State) (uid u : ℕ) (e : UidEntry)
    → (warning_in u (cross s uid e).1 + (if uid == u then as_nat e.warning_fired else 0)
        ≤ (if uid == u then as_nat (cross s uid e).0.warning_fired else 0))
      × (limit_in u (cross s uid e).1 + (if uid == u then as_nat e.limit_fired else 0)
          ≤ (if uid == u then as_nat (cross s uid e).0.limit_fired else 0))
unfolding cross
cross-flags s uid u e = ground arith

notify-fired :
    (u : ℕ) (cb : Option ℕ) (event : Option Event) (s : State)
    → (warnings u (notify (with_callback cb event) s).1 ≤ warning_in u event)
      × (limits u (notify (with_callback cb event) s).1 ≤ limit_in u event)
unfolding notify with_callback
notify-fired u none event s = ground arith
notify-fired u (some cb) none s = ground arith
notify-fired u (some cb) (some event) s = ground arith

-- An operation's calls about the uid and the flags that stood before it fit under the flags after it.
Debounced : ℕ → State → List Fired → State → Type 0
Debounced u s fired s' =
    (warnings u fired + warned_before u s ≤ warned_before u s')
    × (limits u fired + limited_before u s ≤ limited_before u s')

count_for_uid-Debounced :
    (u uid : ℕ) (s : State) → Debounced u s (count_for_uid uid s).1.1 (count_for_uid uid s).0
unfolding Debounced count_for_uid bumped
count_for_uid-Debounced u uid s =
    let old = bumped (entry_or_default (get uid s.per_uid)) in
    let e = (cross s uid old).0 in
    let event = (cross s uid old).1 in
    let called = notify-fired u s.callback event (record s { per_uid = insert uid e s.per_uid }) in
    let flags = cross-flags s uid u old in
    rw (count_for_uid-counts uid s).1 ground (arith, get-insert uid u e s.per_uid, called, flags)

quiet-Debounced : (u : ℕ) (s s' : State) → s.per_uid ≡ s'.per_uid → Debounced u s [] s'
unfolding Debounced
quiet-Debounced u s s' kept = ground (arith, kept)

create-Debounced :
    (u uid : ℕ) (s : State) → Debounced u s (on_proxy_create uid s).1.1 (on_proxy_create uid s).0
unfolding Debounced
create-Debounced u uid s =
    let s' : State = record s { proxy_count = (s.proxy_count + 1) % 2 ^ 64 } in
    elim (Bool-cases s.enabled) [
      | inl on ↦ rw (create_counted uid s on) (count_for_uid-Debounced u uid s')
      | inr off ↦ rw (create_uncounted uid s off) (quiet-Debounced u s s' refl)
    ]

-- A counted drop that leaves the uid above the low watermark leaves its flags.
found-Debounced :
    (u uid : ℕ) (s : State) (e : UidEntry)
    → get uid s.per_uid ≡ some e
    → s.low < get_binder_proxy_count_for_uid u (on_proxy_drop uid true s)
    → Debounced u s [] (on_proxy_drop uid true s)
unfolding Debounced lowered get_binder_proxy_count_for_uid
found-Debounced u uid s e found above = ground (arith, drop_entry uid u s e found)

drop-Debounced :
    (u uid : ℕ) (counted : Bool) (s : State)
    → s.low < get_binder_proxy_count_for_uid u (on_proxy_drop uid counted s)
    → Debounced u s [] (on_proxy_drop uid counted s)
unfolding on_proxy_drop
drop-Debounced u uid false s above = quiet-Debounced u s (on_proxy_drop uid false s) refl
drop-Debounced u uid true s above = elim (Option-cases (get uid s.per_uid)) [
  | inl missing ↦
      rw missing (
        quiet-Debounced u s (record s { proxy_count = (s.proxy_count + 2 ^ 64 - 1) % 2 ^ 64 }) refl)
  | inr (e, found) ↦ found-Debounced u uid s e found above
]

drop-low : (uid : ℕ) (counted : Bool) (s : State) → (on_proxy_drop uid counted s).low ≡ s.low
unfolding on_proxy_drop
drop-low uid false s = refl
drop-low uid true s = elim (Option-cases (get uid s.per_uid)) [
  | inl missing ↦ rw missing refl
  | inr (e, found) ↦ rw found refl
]

step-Debounced :
    (u : ℕ) (op : Op) (s : State) (live : List Proxy)
    → (step op s live).0.low < get_binder_proxy_count_for_uid u (step op s live).0
    → Debounced u s (fired_by op s) (step op s live).0
unfolding step fired_by enable_count_by_uid set_binder_proxy_count_watermarks
    set_binder_proxy_count_event_callback
step-Debounced u (creates uid) s live above = create-Debounced u uid s
step-Debounced u (drops i) s live above = elim (Option-cases (pick i live)) [
  | inl missing ↦ rw missing (quiet-Debounced u s s refl)
  | inr (((uid, counted), rest), taken) ↦
      let after : (step (drops i) s live).0 ≡ on_proxy_drop uid counted s = rw taken refl in
      rw taken (
        drop-Debounced u uid counted s (
          subst (λ t. s.low < get_binder_proxy_count_for_uid u t) after
            (ground (arith, above, ap (λ t. t.low) after, drop-low uid counted s))))
]
step-Debounced u (enables b) s live above = quiet-Debounced u s (record s { enabled = b }) refl
step-Debounced u (watermarks high low warning) s live above =
    quiet-Debounced u s (record s { high = high; low = low; warning = warning }) refl
step-Debounced u (installs cb) s live above = quiet-Debounced u s (record s { callback = cb }) refl

warnings-append :
    (u : ℕ) (fs gs : List Fired) → warnings u (fs ++ gs) ≡ warnings u fs + warnings u gs
warnings-append u [] gs = omega arith
warnings-append u (f ∷ fs) gs = ground (arith, warnings-append u fs gs)

limits-append : (u : ℕ) (fs gs : List Fired) → limits u (fs ++ gs) ≡ limits u fs + limits u gs
limits-append u [] gs = omega arith
limits-append u (f ∷ fs) gs = ground (arith, limits-append u fs gs)

-- Through any history of creations, drops of live proxies and settings of tracking, watermarks and
-- callback after each of which a uid's count is above the low watermark of that moment: the callback
-- is called at most once with the uid's `Limit` event and at most once with its `Warning` event, and
-- not at all with an event whose flag stood when the history began.
pub log-debounced :
    (u : ℕ) (ops : List Op) (s : State) (live : List Proxy)
    → StaysAbove u ops s live
    → (warnings u (log ops s live) + warned_before u s ≤ 1)
      × (limits u (log ops s live) + limited_before u s ≤ 1)
unfolding StaysAbove log Debounced
log-debounced u [] s live above = ground arith
log-debounced u (op ∷ ops) s live above =
    let s' = (step op s live).0 in
    let rest = log-debounced u ops s' (step op s live).1 above.1 in
    let one = step-Debounced u op s live above.0 in
    (
      ground
          (arith, rest.0, one.0, warnings-append u (fired_by op s) (log ops s' (step op s live).1)),
      ground
          (arith, rest.1, one.1, limits-append u (fired_by op s) (log ops s' (step op s live).1)),
    )
