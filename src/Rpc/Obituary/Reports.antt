-- ===== src/Rpc/Obituary/Reports.antt =====
-- Every recipient's registrations, counted.
use rsbinder.Prelude.{
  ℕ, zero, suc, ◌+◌, ◌≡◌, refl, ap, Bool, true, false, List, [], ◌∷◌, ◌++◌, some, ◌==◌,
  if◌then◌else◌, arith, nat_eq, inl, inr, Bool-cases, Option-cases,
}
use rsbinder.Rpc.Obituary.{
  link_to_death, position, remove_at, unlinked_at, unlink_to_death, take_recipients, System, Act,
  links, unlinks, sends, reports, unlinked_from, report, step, run, start,
}

abbrev pub count : ℕ → List ℕ → ℕ
count r [] = 0
count r (x ∷ xs) = (if x == r then 1 else 0) + count r xs

count-append : (r : ℕ) (xs ys : List ℕ) → count r (xs ++ ys) ≡ count r xs + count r ys
count-append r [] ys = omega arith
count-append r (x ∷ xs) ys = omega (arith, count-append r xs ys)

count-remove_at :
    (a r i : ℕ) (xs : List ℕ)
    → position r xs ≡ some i
    → count a xs ≡ (if r == a then 1 else 0) + count a (remove_at i xs)
count-remove_at a r i [] e = cc
count-remove_at a r zero (x ∷ xs) e = elim (Bool-cases (x == r)) [
  | inl q ↦ ground arith
  | inr q ↦ elim (Option-cases (position r xs)) [ inl n ↦ ground arith | inr (k, n) ↦ ground arith ]
]
count-remove_at a r (suc i) (x ∷ xs) e = elim (Bool-cases (x == r)) [
  | inl q ↦ ground arith
  | inr q ↦ elim (Option-cases (position r xs)) [
    | inl n ↦ ground arith
    | inr (k, n) ↦ ground (arith, count-remove_at a r i xs)
  ]
]

-- Each registration that succeeded was taken back, waits, or was reported; nothing waits at a dead
-- proxy, and nothing is reported by a live one.
pub record IsAccounted (y : System) : Type 0 where
  pub each :
      (r : ℕ)
      → count r y.linked
        ≡ count r y.unlinked
          + (count r y.proxy.recipients
              + (count r y.reporting + (count r y.called + count r y.gone)))
  pub dead : y.proxy.obituary_sent ≡ true → y.proxy.recipients ≡ []
  pub live : y.proxy.obituary_sent ≡ false → (y.reporting ≡ []) × ((y.called ≡ []) × (y.gone ≡ []))

report-IsAccounted :
    (b : Bool) (rs : List ℕ) (y : System)
    → y.reporting ≡ rs
    → IsAccounted y
    → IsAccounted (report b rs y)
report-IsAccounted b [] y e v = v
report-IsAccounted true (r ∷ rs) y e v = record {
  each = λ a. ground (arith, v.each a, ap (count a) e);
  dead = v.dead;
  live = λ f. ground (arith, v.live f);
}
report-IsAccounted false (r ∷ rs) y e v = record {
  each = λ a. ground (arith, v.each a, ap (count a) e);
  dead = v.dead;
  live = λ f. ground (arith, v.live f);
}

unlinked_at-IsAccounted :
    (r : ℕ) (y : System)
    → y.proxy.obituary_sent ≡ false
    → IsAccounted y
    → let p = record y.proxy { obituary_sent = false } in
      IsAccounted
        (unlinked_from r (unlinked_at (position r y.proxy.recipients) p) (record y { proxy = p }))
unlinked_at-IsAccounted r y q v = elim (Option-cases (position r y.proxy.recipients)) [
  | inl n ↦ rw n (record { each = v.each; dead = λ t. ground arith; live = λ f. v.live q })
  | inr (i, n) ↦ rw n (record {
    each = λ a. ground (arith, v.each a, count-remove_at a r i y.proxy.recipients n);
    dead = λ t. ground arith;
    live = λ f. v.live q;
  })
]

step-IsAccounted : (a : Act) (y : System) → IsAccounted y → IsAccounted (step a y)
unfolding step link_to_death unlink_to_death take_recipients
step-IsAccounted (links r) y v = elim (Bool-cases y.proxy.obituary_sent) [
  | inl q ↦ rw q (record { each = v.each; dead = λ t. v.dead q; live = λ f. ground arith })
  | inr q ↦ rw q (record {
    each = λ a. ground (arith, v.each a, count-append a y.proxy.recipients (r ∷ []));
    dead = λ t. ground arith;
    live = λ f. v.live q;
  })
]
step-IsAccounted (unlinks r) y v = elim (Bool-cases y.proxy.obituary_sent) [
  | inl q ↦ rw q (record { each = v.each; dead = λ t. v.dead q; live = λ f. ground arith })
  | inr q ↦ rw q (unlinked_at-IsAccounted r y q v)
]
step-IsAccounted sends y v = elim (Bool-cases y.proxy.obituary_sent) [
  | inl q ↦ rw q (record {
    each = λ a. omega (arith, v.each a, count-append a y.reporting []);
    dead = λ t. v.dead q;
    live = λ f. ground arith;
  })
  | inr q ↦ rw q (record {
    each = λ a. omega (arith, v.each a, count-append a y.reporting y.proxy.recipients);
    dead = λ t. refl;
    live = λ f. ground arith;
  })
]
step-IsAccounted (reports b) y v = report-IsAccounted b y.reporting y refl v

run_from-IsAccounted : (acts : List Act) (y : System) → IsAccounted y → IsAccounted (run acts y)
unfolding run
run_from-IsAccounted [] y v = v
run_from-IsAccounted (a ∷ acts) y v = run_from-IsAccounted acts (step a y) (step-IsAccounted a y v)

-- From a new proxy, after any calls of `link_to_death`, `unlink_to_death` and `send_obituary` by any
-- threads in any order: the registrations of each recipient that succeeded are as many as its
-- registrations that were taken back, that are still there, that wait in the obituary's snapshot, that
-- were reported and that were found gone, together; a dead proxy has nobody registered; while it is
-- alive, nothing is in a snapshot, reported or found gone.
pub run-IsAccounted : (acts : List Act) → IsAccounted (run acts start)
run-IsAccounted acts =
    run_from-IsAccounted acts start
      (record { each = λ r. refl; dead = λ t. refl; live = λ f. (refl, (refl, refl)) })
