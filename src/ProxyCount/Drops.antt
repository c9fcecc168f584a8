-- ===== src/ProxyCount/Drops.antt =====
-- A drop keeps the counts in step with the live proxies.
use rsbinder.Prelude.{
  ℕ, zero, suc, ◌+◌, ◌-◌, ◌^◌, ◌%◌, ◌<◌, ◌≡◌, refl, ap, ◌∙◌, Bool, true, false, List, [], ◌∷◌, none,
  some, inl, inr, arith, ◌==◌, if◌then◌else◌, nat_eq, length, Option-cases,
}
use rsbinder.Prelude.Maps.{get, insert, remove, get-insert, get-remove}
use rsbinder.ProxyCount.{State, UidEntry, lowered, on_proxy_drop}
use rsbinder.ProxyCount.Live.{Proxy, live_for, pick, Agrees}

pub drop_counts :
    (uid : ℕ) (s : State) (e : UidEntry)
    → get uid s.per_uid ≡ some e
    → let e' = lowered s.low e in
      ((on_proxy_drop uid true s).proxy_count ≡ (s.proxy_count + 2 ^ 64 - 1) % 2 ^ 64)
      × ((on_proxy_drop uid true s).per_uid
          ≡ (if e'.count == 0 then remove uid s.per_uid else insert uid e' s.per_uid))
unfolding on_proxy_drop
drop_counts uid s e found = rw found (refl, refl)

pub lowered-count : (low : ℕ) (e : UidEntry) → (lowered low e).count ≡ e.count - 1
unfolding lowered
lowered-count low e = ground arith

-- What is left when a proxy is taken out.
pub pick-Taken :
    (i : ℕ) (live : List Proxy) (p : Proxy) (rest : List Proxy)
    → pick i live ≡ some (p, rest)
    → (length live ≡ suc (length rest)) × ((u : ℕ) → live_for u live ≡ live_for u (p ∷ rest))
pick-Taken i [] p rest taken = ground (arith, taken)
pick-Taken zero (q ∷ live) p rest taken =
    let was : Proxy × List Proxy = (q, live) in
    let now : Proxy × List Proxy = (p, rest) in
    let same : was ≡ now = ground (arith, taken) in
    (ap (λ r. suc (length r.1)) same, λ u. ap (λ r. live_for u (r.0 ∷ r.1)) same)
pick-Taken (suc i) (q ∷ live) p rest taken = elim (Option-cases (pick i live)) [
  | inl missing ↦ ground (arith, taken, missing)
  | inr ((q', rest'), found) ↦
      let was : Proxy × List Proxy = (q', q ∷ rest') in
      let now : Proxy × List Proxy = (p, rest) in
      let same : was ≡ now = ground (arith, taken, found) in
      let inner = pick-Taken i live q' rest' found in
      (
        ap suc inner.0 ∙ ap (λ r. suc (length r.1)) same,
        λ u. ground (arith, inner.1 u) ∙ ap (λ r. live_for u (r.0 ∷ r.1)) same,
      )
]

pub drop_entry :
    (uid u : ℕ) (s : State) (e : UidEntry)
    → get uid s.per_uid ≡ some e
    → get u (on_proxy_drop uid true s).per_uid ≡ (
        if uid == u
        then (if (lowered s.low e).count == 0 then none else some (lowered s.low e))
        else get u s.per_uid)
drop_entry uid u s e found =
    ap (get u) (drop_counts uid s e found).1
    ∙ ground (arith, get-remove uid u s.per_uid, get-insert uid u (lowered s.low e) s.per_uid)

pub dropped-Agrees :
    (uid : ℕ) (counted : Bool) (s : State) (live rest : List Proxy)
    → Agrees s live
    → length live < 2 ^ 64
    → length live ≡ suc (length rest)
    → ((u : ℕ) → live_for u live ≡ live_for u ((uid, counted) ∷ rest))
    → Agrees (on_proxy_drop uid counted s) rest
unfolding on_proxy_drop
dropped-Agrees uid false s live rest h small len each = record {
  total = ground (arith, h.total);
  each = λ u. h.each u ∙ each u;
  present = h.present;
}
dropped-Agrees uid true s live rest h small len each = elim (Option-cases (get uid s.per_uid)) [
  | inl none_yet ↦ ground (arith, h.each uid, each uid, none_yet)
  | inr (e, found) ↦
      let e' = lowered s.low e in
      let at = drop_counts uid s e found in
      let fewer : e'.count ≡ live_for uid rest =
        ground (arith, lowered-count s.low e, h.each uid, each uid, found) in
      record {
        total = ground (arith, h.total, at.0);
        each = λ u. ground (arith, drop_entry uid u s e found, fewer, each u, h.each u);
        present = λ u f. ground (arith, drop_entry uid u s e found, h.present u f);
      }
]
