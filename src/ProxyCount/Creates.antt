-- ===== src/ProxyCount/Creates.antt =====
-- A creation keeps the counts in step with the live proxies.
use rsbinder.Prelude.{
  ℕ, suc, ◌+◌, ◌^◌, ◌%◌, ◌≤◌, ◌<◌, ◌≡◌, refl, ap, ◌∙◌, true, false, List, [], ◌∷◌, Option, none,
  some, inl, inr, arith, nat_eq, length, Bool-cases,
}
use rsbinder.Prelude.Maps.{get, insert, get-insert}
use rsbinder.ProxyCount.{
  count_for_uid, State, UidEntry, Fired, cross, notify, with_callback, bumped, entry_or_default,
  count_or_zero, on_proxy_create,
}
use rsbinder.ProxyCount.Live.{Proxy, live_for, Agrees}

pub cross-count : (s : State) (uid : ℕ) (e : UidEntry) → (cross s uid e).0.count ≡ e.count
unfolding cross
cross-count s uid e = ground arith

pub notify-counts :
    (call : Option Fired) (s : State)
    → ((notify call s).0.proxy_count ≡ s.proxy_count) × ((notify call s).0.per_uid ≡ s.per_uid)
unfolding notify
notify-counts none s = (refl, refl)
notify-counts (some call) s = ground arith

pub live_for-le : (u : ℕ) (live : List Proxy) → live_for u live ≤ length live
live_for-le u [] = omega arith
live_for-le u ((uid, counted) ∷ ps) = ground (arith, live_for-le u ps)

-- Where `on_proxy_create` leaves the counts.
pub count_for_uid-counts :
    (uid : ℕ) (s : State)
    → let e = (cross s uid (bumped (entry_or_default (get uid s.per_uid)))).0 in
      ((count_for_uid uid s).0.proxy_count ≡ s.proxy_count)
      × ((count_for_uid uid s).0.per_uid ≡ insert uid e s.per_uid)
      × ((count_for_uid uid s).1.0 ≡ true)
unfolding count_for_uid
count_for_uid-counts uid s =
    let e = bumped (entry_or_default (get uid s.per_uid)) in
    let kept =
      notify-counts (with_callback s.callback (cross s uid e).1)
        (record s { per_uid = insert uid (cross s uid e).0 s.per_uid }) in
    (kept.0, kept.1, refl)

pub create_counted :
    (uid : ℕ) (s : State)
    → s.enabled ≡ true
    → on_proxy_create uid s
      ≡ count_for_uid uid (record s { proxy_count = (s.proxy_count + 1) % 2 ^ 64 })
unfolding on_proxy_create
create_counted uid s on = rw on refl

pub create_uncounted :
    (uid : ℕ) (s : State)
    → s.enabled ≡ false
    → on_proxy_create uid s ≡ (record s { proxy_count = (s.proxy_count + 1) % 2 ^ 64 }, (false, []))
unfolding on_proxy_create
create_uncounted uid s off = rw off

pub bumped-count : (e : UidEntry) → (bumped e).count ≡ (e.count + 1) % 2 ^ 64
unfolding bumped
bumped-count e = refl

pub entry-count : (o : Option UidEntry) → (entry_or_default o).count ≡ count_or_zero o
entry-count none = refl
entry-count (some e) = refl

pub create_total :
    (uid : ℕ) (s : State) → (on_proxy_create uid s).0.proxy_count ≡ (s.proxy_count + 1) % 2 ^ 64
create_total uid s =
    let s' : State = record s { proxy_count = (s.proxy_count + 1) % 2 ^ 64 } in
    elim (Bool-cases s.enabled) [
      | inl on ↦
          ap (λ r. r.0.proxy_count) (create_counted uid s on) ∙ (count_for_uid-counts uid s').0
      | inr off ↦ ap (λ r. r.0.proxy_count) (create_uncounted uid s off)
    ]

pub counted-Agrees :
    (uid : ℕ) (s : State) (live : List Proxy)
    → Agrees s live
    → length live + 1 < 2 ^ 64
    → s.enabled ≡ true
    → Agrees (on_proxy_create uid s).0 ((uid, (on_proxy_create uid s).1.0) ∷ live)
counted-Agrees uid s live h small on =
    let s' : State = record s { proxy_count = (s.proxy_count + 1) % 2 ^ 64 } in
    let old = bumped (entry_or_default (get uid s.per_uid)) in
    let e = (cross s' uid old).0 in
    let at = count_for_uid-counts uid s' in
    let eq = create_counted uid s on in
    let map_eq : (on_proxy_create uid s).0.per_uid ≡ insert uid e s.per_uid =
      ap (λ r. r.0.per_uid) eq ∙ at.1 in
    let flag : (on_proxy_create uid s).1.0 ≡ true = ap (λ r. r.1.0) eq ∙ at.2 in
    let size : e.count ≡ suc (live_for uid live) = ground (
      arith,
      cross-count s' uid old,
      bumped-count (entry_or_default (get uid s.per_uid)),
      entry-count (get uid s.per_uid),
      h.each uid,
      live_for-le uid live,
    ) in
    record {
      total = ground (arith, create_total uid s, h.total);
      each = λ u. rw (map_eq, flag) ground (arith, get-insert uid u e s.per_uid, h.each u, size);
      present = λ u f. rw map_eq ground (arith, get-insert uid u e s.per_uid, h.present u f, size);
    }

pub uncounted-Agrees :
    (uid : ℕ) (s : State) (live : List Proxy)
    → Agrees s live
    → length live + 1 < 2 ^ 64
    → s.enabled ≡ false
    → Agrees (on_proxy_create uid s).0 ((uid, (on_proxy_create uid s).1.0) ∷ live)
uncounted-Agrees uid s live h small off =
    rw (create_uncounted uid s off)
      record { total = ground (arith, h.total); each = h.each; present = h.present }
