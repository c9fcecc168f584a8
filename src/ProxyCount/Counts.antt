-- ===== src/ProxyCount/Counts.antt =====
-- The counts against the proxies that are alive, over any history.
use rsbinder.Prelude.{
  ◌+◌, ◌^◌, ◌≤◌, ◌<◌, List, [], ◌∷◌, inl, inr, arith, nat_eq, length, Bool-cases, Option-cases,
}
use rsbinder.ProxyCount.{
  State, set_binder_proxy_count_watermarks, set_binder_proxy_count_event_callback,
  enable_count_by_uid,
}
use rsbinder.ProxyCount.Live.{
  Proxy, Op, creates, drops, enables, watermarks, installs, pick, step, run, Agrees,
}
use rsbinder.ProxyCount.Creates.{counted-Agrees, uncounted-Agrees}
use rsbinder.ProxyCount.Drops.{pick-Taken, dropped-Agrees}

step-Agrees :
    (op : Op) (s : State) (live : List Proxy)
    → Agrees s live
    → length live + 1 < 2 ^ 64
    → Agrees (step op s live).0 (step op s live).1
unfolding step enable_count_by_uid set_binder_proxy_count_watermarks
    set_binder_proxy_count_event_callback
step-Agrees (creates uid) s live h small = elim (Bool-cases s.enabled) [
  | inl on ↦ counted-Agrees uid s live h small on
  | inr off ↦ uncounted-Agrees uid s live h small off
]
step-Agrees (drops i) s live h small = elim (Option-cases (pick i live)) [
  | inl missing ↦ rw missing h
  | inr (((uid, counted), rest), taken) ↦
      let left = pick-Taken i live (uid, counted) rest taken in
      rw taken (dropped-Agrees uid counted s live rest h (ground (arith, small)) left.0 left.1)
]
step-Agrees (enables b) s live h small = record {
  total = h.total;
  each = h.each;
  present = h.present;
}
step-Agrees (watermarks high low warning) s live h small = record {
  total = h.total;
  each = h.each;
  present = h.present;
}
step-Agrees (installs cb) s live h small = record {
  total = h.total;
  each = h.each;
  present = h.present;
}

step-length :
    (op : Op) (s : State) (live : List Proxy) → length (step op s live).1 ≤ length live + 1
unfolding step
step-length (creates uid) s live = ground arith
step-length (drops i) s live = elim (Option-cases (pick i live)) [
  | inl missing ↦ rw missing (ground arith)
  | inr (((uid, counted), rest), taken) ↦
      rw taken (ground (arith, pick-Taken i live (uid, counted) rest taken))
]
step-length (enables b) s live = ground arith
step-length (watermarks high low warning) s live = ground arith
step-length (installs cb) s live = ground arith

-- From a state whose counts agree with the live proxies, after any history of creations, drops of live
-- proxies, switching of the tracking and settings of watermarks and callback, and as long as the live
-- proxies and the operations are together fewer than 2^64: the process-wide count is the number of
-- live proxies, each uid's count is the number of its live proxies that were counted when they were
-- made, also while tracking is switched off, and no uid keeps an entry whose count is 0.
pub run-Agrees :
    (ops : List Op) (s : State) (live : List Proxy)
    → Agrees s live
    → length live + length ops < 2 ^ 64
    → Agrees (run ops s live).0 (run ops s live).1
unfolding run
run-Agrees [] s live h small = h
run-Agrees (op ∷ ops) s live h small =
    run-Agrees ops (step op s live).0 (step op s live).1
      (step-Agrees op s live h (ground (arith, small)))
      (ground (arith, small, step-length op s live))
