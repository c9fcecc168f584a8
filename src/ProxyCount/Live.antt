-- ===== src/ProxyCount/Live.antt =====
-- What a process does to the counts, and the counts that its live proxies ask for.
use rsbinder.Prelude.{
  ℕ, zero, suc, ◌≤◌, ◌≡◌, Bool, ◌&&◌, List, [], ◌∷◌, Option, none, some, ◌==◌, if◌then◌else◌,
  nat_eq, length,
}
use rsbinder.Prelude.Maps.{get}
use rsbinder.ProxyCount.{
  State, UidEntry, count_or_zero, on_proxy_create, on_proxy_drop, set_binder_proxy_count_watermarks,
  set_binder_proxy_count_event_callback, enable_count_by_uid,
}

-- A live proxy: its uid, and whether it was counted when it was made.
abbrev pub Proxy : Type 0
Proxy = ℕ × Bool

abbrev pub live_for : ℕ → List Proxy → ℕ
live_for u [] = 0
live_for u ((uid, counted) ∷ ps) =
    if counted && uid == u then suc (live_for u ps) else live_for u ps

-- What a process does. `drops` names the proxy by its place among the live ones.
pub data Op : Type 0 where
  creates drops : ℕ → Op
  enables : Bool → Op
  watermarks : ℕ → ℕ → ℕ → Op
  installs : Option ℕ → Op

abbrev pub pick : ℕ → List Proxy → Option (Proxy × List Proxy)
pick i [] = none
pick zero (p ∷ ps) = some (p, ps)
pick (suc i) (p ∷ ps) = elim (pick i ps) [ none ↦ none | some (q, rest) ↦ some (q, p ∷ rest) ]

-- A proxy's drop hands back the flag that its creation returned.
abbrev pub dropped : Option (Proxy × List Proxy) → State → List Proxy → State × List Proxy
dropped none s live = (s, live)
dropped (some ((uid, counted), rest)) s live = (on_proxy_drop uid counted s, rest)

unfoldable pub step : Op → State → List Proxy → State × List Proxy
step (creates uid) s live =
    let (s', (counted, fired)) = on_proxy_create uid s in (s', (uid, counted) ∷ live)
step (drops i) s live = dropped (pick i live) s live
step (enables b) s live = (enable_count_by_uid b s, live)
step (watermarks high low warning) s live =
    (set_binder_proxy_count_watermarks high low warning s, live)
step (installs cb) s live = (set_binder_proxy_count_event_callback cb s, live)

unfoldable pub run : List Op → State → List Proxy → State × List Proxy
run [] s live = (s, live)
run (op ∷ ops) s live = let (s', live') = step op s live in run ops s' live'

-- The state agrees with the live proxies.
pub record Agrees (s : State) (live : List Proxy) : Type 0 where
  pub total : s.proxy_count ≡ length live
  pub each : (u : ℕ) → count_or_zero (get u s.per_uid) ≡ live_for u live
  pub present : (u : ℕ) (e : UidEntry) → get u s.per_uid ≡ some e → 1 ≤ e.count
