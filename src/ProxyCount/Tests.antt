-- ===== src/ProxyCount/Tests.antt =====
-- Runs of the proxy count at concrete inputs.
use rsbinder.Prelude.{◌≡◌, ◌+◌, ◌≤◌, refl, true, false, List, [], ◌∷◌, some, arith, nat_eq}
use rsbinder.ProxyCount.{
  State, initial, warned, limited, on_proxy_create, on_proxy_drop, cross, notify, with_callback,
  bumped, lowered, count_for_uid, enable_count_by_uid, get_binder_proxy_count_for_uid,
}
use rsbinder.ProxyCount.Live.{Op, creates, drops, enables, step, run, Agrees}
use rsbinder.ProxyCount.Counts.{run-Agrees}
use rsbinder.ProxyCount.Watermarks.{
  log, fired_by, StaysAbove, warnings, limits, warned_before, limited_before, log-debounced,
}
use rsbinder.ProxyCount.Deferral.{run_guarded, run_guarded_lem}

abbrev tracked : List Op
tracked = enables true ∷ creates 7 ∷ creates 9 ∷ enables false ∷ creates 7 ∷ drops 2 ∷ drops 0 ∷ []

initial-Agrees : Agrees initial []
initial-Agrees = record { total = refl; each = λ u. refl; present = λ u e h. cc }

run-Agrees_example : Agrees (run tracked initial []).0 (run tracked initial []).1
run-Agrees_example = run-Agrees tracked initial [] initial-Agrees (omega arith)

-- A proxy that was counted is still counted when tracking is switched off.
still_counted :
    get_binder_proxy_count_for_uid 7
      (run (enables true ∷ creates 7 ∷ enables false ∷ []) initial []).0
    ≡ 1
unfolding get_binder_proxy_count_for_uid run step on_proxy_create count_for_uid cross notify
    with_callback bumped initial enable_count_by_uid
still_counted = refl

-- One uid with watermarks at 1, 2 and 3, tracked, with a callback.
abbrev watched : State
watched = record initial {
  enabled = true;
  high = 3;
  low = 1;
  warning = 2;
  callback = some 5;
  per_uid = (7, record { count = 1; warning_fired = false; limit_fired = false }) ∷ [];
  proxy_count = 1;
}

abbrev busy : List Op
busy = creates 7 ∷ creates 7 ∷ drops 0 ∷ creates 7 ∷ []

busy_events : log busy watched ((7, true) ∷ []) ≡ (5, warned 7 2) ∷ (5, limited 7 3) ∷ []
unfolding log fired_by step on_proxy_create on_proxy_drop count_for_uid cross notify with_callback
    bumped lowered
busy_events = refl

busy-StaysAbove : StaysAbove 7 busy watched ((7, true) ∷ [])
unfolding StaysAbove step on_proxy_create on_proxy_drop count_for_uid cross notify with_callback
    bumped lowered get_binder_proxy_count_for_uid
busy-StaysAbove = (omega arith, (omega arith, (omega arith, (omega arith, tt))))

log-debounced_example :
    (warnings 7 (log busy watched ((7, true) ∷ [])) + warned_before 7 watched ≤ 1)
    × (limits 7 (log busy watched ((7, true) ∷ [])) + limited_before 7 watched ≤ 1)
log-debounced_example = log-debounced 7 busy watched ((7, true) ∷ []) busy-StaysAbove

run_guarded_lem_example : run_guarded busy watched ((7, true) ∷ []) ≡ (
  record (run busy watched ((7, true) ∷ [])).0 { defer = false; pending = [] },
  ([], log busy watched ((7, true) ∷ [])),
)
run_guarded_lem_example = run_guarded_lem busy watched ((7, true) ∷ []) refl refl
