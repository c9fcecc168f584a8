-- ===== src/Natives/Pins.antt =====
-- Sums over the binders that the entries of the table pin, and the entries of one binder, counted.
use rsbinder.Prelude.{
  ℕ, ◌+◌, ◌≤◌, ◌≡◌, refl, List, [], ◌∷◌, none, some, ◌==◌, if◌then◌else◌, arith, nat_eq, inl, inr,
  Bool-cases,
}
use rsbinder.Prelude.Maps.{get, insert, remove, IsUniq}
use rsbinder.Natives.{PublishedNative, find_pin}
use rsbinder.Natives.Held.{Table}

abbrev pub occurs : ℕ → List ℕ → ℕ
occurs a [] = 0
occurs a (b ∷ bs) = (if b == a then 1 else 0) + occurs a bs

abbrev pub total : (ℕ → ℕ) → Table → ℕ
total w [] = 0
total w ((id, e) ∷ m) = w e.binder_pin + total w m

abbrev pub pins : ℕ → Table → ℕ
pins a m = total (λ b. if b == a then 1 else 0) m

remove-none : (id : ℕ) (m : Table) → get id m ≡ none → remove id m ≡ m
remove-none id [] g = refl
remove-none id ((j, x) ∷ m) g = ground (arith, remove-none id m)

module _ (w : ℕ → ℕ) where
  pub total-update :
      (id : ℕ) (e f : PublishedNative) (m : Table)
      → get id m ≡ some e
      → f.binder_pin ≡ e.binder_pin
      → total w (insert id f m) ≡ total w m
  total-update id e f [] g p = cc
  total-update id e f ((j, x) ∷ m) g p = ground (arith, total-update id e f m)

  total-insert :
      (id : ℕ) (f : PublishedNative) (m : Table)
      → get id m ≡ none
      → total w (insert id f m) ≡ w f.binder_pin + total w m
  total-insert id f [] g = refl
  total-insert id f ((j, x) ∷ m) g = ground (arith, total-insert id f m)

  pub total-remove :
      (id : ℕ) (e : PublishedNative) (m : Table)
      → IsUniq m
      → get id m ≡ some e
      → total w m ≡ w e.binder_pin + total w (remove id m)
  total-remove id e [] u g = cc
  total-remove id e ((j, x) ∷ m) u g = elim (Bool-cases (j == id)) [
    | inl q ↦ ground (arith, remove-none id m)
    | inr q ↦ ground (arith, total-remove id e m u.1)
  ]

pub pins-update :
    (a id : ℕ) (e f : PublishedNative) (m : Table)
    → get id m ≡ some e
    → f.binder_pin ≡ e.binder_pin
    → pins a (insert id f m) ≡ pins a m
pins-update a = total-update (λ b. if b == a then 1 else 0)

pub pins-insert :
    (a id : ℕ) (f : PublishedNative) (m : Table)
    → get id m ≡ none
    → pins a (insert id f m) ≡ (if f.binder_pin == a then 1 else 0) + pins a m
pins-insert a = total-insert (λ b. if b == a then 1 else 0)

pub pins-remove :
    (a id : ℕ) (e : PublishedNative) (m : Table)
    → IsUniq m
    → get id m ≡ some e
    → pins a m ≡ (if e.binder_pin == a then 1 else 0) + pins a (remove id m)
pins-remove a = total-remove (λ b. if b == a then 1 else 0)

pub pins-find_pin : (a : ℕ) (m : Table) → find_pin a m ≡ none → pins a m ≡ 0
pins-find_pin a [] h = refl
pins-find_pin a ((j, x) ∷ m) h = ground (arith, pins-find_pin a m)

pins_found :
    (a id : ℕ) (e : PublishedNative) (m : Table)
    → get id m ≡ some e
    → e.binder_pin ≡ a
    → 1 ≤ pins a m
pins_found a id e [] g p = cc
pins_found a id e ((j, x) ∷ m) g p = ground (arith, pins_found a id e m)

-- A binder that is pinned once has one id.
pub pins_one :
    (id j : ℕ) (e f : PublishedNative) (m : Table)
    → pins e.binder_pin m ≤ 1
    → get id m ≡ some e
    → get j m ≡ some f
    → e.binder_pin ≡ f.binder_pin
    → id ≡ j
pins_one id j e f [] b g h p = cc
pins_one id j e f ((i, x) ∷ m) b g h p =
    ground
      (arith, pins_one id j e f m, pins_found e.binder_pin id e m, pins_found e.binder_pin j f m)
