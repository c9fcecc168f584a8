-- ===== src/ProxyCount/Deferral.antt =====
-- A `CallbackDeferGuard` against the same work without it.
use rsbinder.Prelude.{
  ℕ, ◌+◌, ◌^◌, ◌%◌, ◌≡◌, refl, ap, ◌∙◌, Bool, true, false, List, [], ◌∷◌, ◌++◌, Option, none, some,
  inl, inr, arith, Bool-cases, Option-cases, nat_eq,
}
use rsbinder.Prelude.Maps.{get, insert}
use mathlib.Core.List.{append-nil, append_assoc}
use rsbinder.ProxyCount.{
  State, Fired, cross, notify, with_callback, bumped, entry_or_default, on_proxy_create,
  on_proxy_drop, guard_new, guard_drop, count_for_uid, enable_count_by_uid,
  set_binder_proxy_count_watermarks, set_binder_proxy_count_event_callback,
}
use rsbinder.ProxyCount.Live.{
  Proxy, Op, creates, drops, enables, watermarks, installs, pick, step, run,
}
use rsbinder.ProxyCount.Creates.{create_counted, create_uncounted, count_for_uid-counts}
use rsbinder.ProxyCount.Watermarks.{fired_by, log}

-- The state as a guard holds it, with calls waiting.
abbrev held : State → List Fired → State
held s waiting = record s { defer = true; pending = waiting }

notify-held :
    (call : Option Fired) (s : State) (waiting : List Fired)
    → s.defer ≡ false
    → notify call (held s waiting) ≡ (held (notify call s).0 (waiting ++ (notify call s).1), [])
unfolding notify
notify-held none s waiting off = rw (append-nil waiting) refl
notify-held (some call) s waiting off = rw off refl

notify-defer : (call : Option Fired) (s : State) → (notify call s).0.defer ≡ s.defer
unfolding notify
notify-defer none s = refl
notify-defer (some call) s = ground arith

count_for_uid-held :
    (uid : ℕ) (s : State) (waiting : List Fired)
    → s.defer ≡ false
    → count_for_uid uid (held s waiting)
      ≡ (held (count_for_uid uid s).0 (waiting ++ (count_for_uid uid s).1.1), (true, []))
unfolding count_for_uid cross
count_for_uid-held uid s waiting off =
    let (e, event) = cross s uid (bumped (entry_or_default (get uid s.per_uid))) in
    ap (λ (r : State × List Fired). (r.0, (true, r.1)))
      (notify-held (with_callback s.callback event) (record s { per_uid = insert uid e s.per_uid })
        waiting off)

create-held :
    (uid : ℕ) (s : State) (waiting : List Fired)
    → s.defer ≡ false
    → on_proxy_create uid (held s waiting) ≡ (
      held (on_proxy_create uid s).0 (waiting ++ (on_proxy_create uid s).1.1),
      ((on_proxy_create uid s).1.0, []),
    )
create-held uid s waiting off =
    let s' : State = record s { proxy_count = (s.proxy_count + 1) % 2 ^ 64 } in
    elim (Bool-cases s.enabled) [
      | inl on ↦
          rw
            (
              create_counted uid s on,
              create_counted uid (held s waiting) on,
              count_for_uid-held uid s' waiting off,
            )
            (rw (count_for_uid-counts uid s').2 refl)
      | inr idle ↦
          rw
            (
              create_uncounted uid s idle,
              create_uncounted uid (held s waiting) idle,
              append-nil waiting,
            )
            refl
    ]

count_for_uid-defer : (uid : ℕ) (s : State) → (count_for_uid uid s).0.defer ≡ s.defer
unfolding count_for_uid
count_for_uid-defer uid s =
    let (e, event) = cross s uid (bumped (entry_or_default (get uid s.per_uid))) in
    notify-defer (with_callback s.callback event) (record s { per_uid = insert uid e s.per_uid })

create-defer : (uid : ℕ) (s : State) → (on_proxy_create uid s).0.defer ≡ s.defer
unfolding on_proxy_create
create-defer uid s =
    ground
      (arith, count_for_uid-defer uid (record s { proxy_count = (s.proxy_count + 1) % 2 ^ 64 }))

drop-held :
    (uid : ℕ) (counted : Bool) (s : State) (waiting : List Fired)
    → (on_proxy_drop uid counted (held s waiting) ≡ held (on_proxy_drop uid counted s) waiting)
      × ((on_proxy_drop uid counted s).defer ≡ s.defer)
unfolding on_proxy_drop
drop-held uid false s waiting = (refl, refl)
drop-held uid true s waiting = elim (Option-cases (get uid s.per_uid)) [
  | inl missing ↦ rw missing (refl, refl)
  | inr (e, found) ↦ rw found (refl, refl)
]

-- The step of a guarded state, in terms of the step without the guard.
step-held :
    (op : Op) (s : State) (live : List Proxy) (waiting : List Fired)
    → s.defer ≡ false
    → (step op (held s waiting) live
        ≡ (held (step op s live).0 (waiting ++ fired_by op s), (step op s live).1))
      × (fired_by op (held s waiting) ≡ [])
      × ((step op s live).0.defer ≡ false)
unfolding step fired_by enable_count_by_uid set_binder_proxy_count_watermarks
    set_binder_proxy_count_event_callback
step-held (creates uid) s live waiting off =
    let made = create-held uid s waiting off in
    (
      ap (λ (r : State × (Bool × List Fired)). (r.0, (uid, r.1.0) ∷ live)) made,
      ap (λ (r : State × (Bool × List Fired)). r.1.1) made,
      create-defer uid s ∙ off,
    )
step-held (drops i) s live waiting off = elim (Option-cases (pick i live)) [
  | inl missing ↦ rw (missing, append-nil waiting) (refl, refl, off)
  | inr (((uid, counted), rest), taken) ↦
      let kept = drop-held uid counted s waiting in
      rw (taken, append-nil waiting, kept.0) (refl, refl, kept.1 ∙ off)
]
step-held (enables b) s live waiting off = rw (append-nil waiting) (refl, refl, off)
step-held (watermarks high low warning) s live waiting off =
    rw (append-nil waiting) (refl, refl, off)
step-held (installs cb) s live waiting off = rw (append-nil waiting) (refl, refl, off)

run-held :
    (ops : List Op) (s : State) (live : List Proxy) (waiting : List Fired)
    → s.defer ≡ false
    → (run ops (held s waiting) live
        ≡ (held (run ops s live).0 (waiting ++ log ops s live), (run ops s live).1))
      × (log ops (held s waiting) live ≡ [])
      × ((run ops s live).0.defer ≡ false)
unfolding run log
run-held [] s live waiting off = rw (append-nil waiting) (refl, refl, off)
run-held (op ∷ ops) s live waiting off =
    let (s', live') = step op s live in
    let one = step-held op s live waiting off in
    let rest = run-held ops s' live' (waiting ++ fired_by op s) one.2 in
    rw (one.0, one.1)
      (
        rest.0
            ∙ ap (λ (w : List Fired). (held (run ops s' live').0 w, (run ops s' live').1))
                (append_assoc waiting (fired_by op s) (log ops s' live')),
        rest.1,
        rest.2,
      )

-- What a history does under a guard: the guard is taken, the operations run, the guard drops. The
-- callbacks called meanwhile stand before those that the drop calls.
unfoldable pub run_guarded : List Op → State → List Proxy → State × (List Fired × List Fired)
run_guarded ops s live =
    let (taken, was_deferring) = guard_new s in
    let (s', at_drop) = guard_drop was_deferring (run ops taken live).0 in
    (s', (log ops taken live, at_drop))

closed : Bool → State × List Proxy → List Fired → State × (List Fired × List Fired)
unfolding guard_drop
closed was_deferring (s, live) called =
    let (s', at_drop) = guard_drop was_deferring s in (s', (called, at_drop))

-- From a state without a guard and with nothing queued, any history run under a guard calls nothing
-- while the guard stands, and its drop calls exactly the callbacks that the same history calls without a
-- guard, in the same order, and leaves the same state but for an empty queue and no deferral.
pub run_guarded_lem :
    (ops : List Op) (s : State) (live : List Proxy)
    → s.defer ≡ false
    → s.pending ≡ []
    → run_guarded ops s live
      ≡ (record (run ops s live).0 { defer = false; pending = [] }, ([], log ops s live))
unfolding run_guarded guard_new guard_drop closed
run_guarded_lem ops s live off empty =
    let kept = run-held ops s live s.pending off in
    let under = run ops (held s s.pending) live in
    let called = log ops (held s s.pending) live in
    let (done, live') = run ops s live in
    let final : State = record done { defer = false; pending = [] } in
    ap (λ (b : Bool). closed b under called) off
    ∙ ap (λ (r : State × List Proxy). closed false r called) kept.0
    ∙ ap (λ (fs : List Fired). closed false (held done (s.pending ++ log ops s live), live') fs)
        kept.1
    ∙ ap (λ (fs : List Fired). (final, ([], fs ++ log ops s live))) empty
