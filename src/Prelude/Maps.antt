-- ===== src/Prelude/Maps.antt =====
-- A hash map as an association list. Writing keeps at most one entry a key; the laws speak of `get`,
-- and of what `retain` and `insert` do to it.
use rsbinder.Prelude.Tests.{Eq, Bool-cases, if◌then◌else◌}
use mathlib.Core.Path.{◌≡◌, refl}
use mathlib.Core.Logic.{◌≢◌, ◌⊎◌, inl, inr}
use mathlib.Core.Bool.{Bool, true, false}
use mathlib.Core.Option.{Option, none, some}
use mathlib.Core.List.{List, [], ◌∷◌}
use native.Mathlib.Omega.{arith}

abbrev pub Map {ℓ κ} : Type ℓ → Type κ → Type (ℓ ⊔ κ)
Map K V = List (K × V)

abbrev pub keep_if {κ} : {V : Type κ} → (V → Bool) → Option V → Option V
keep_if p none = none
keep_if p (some v) = if p v then some v else none

module _ {ℓ} {K : Type ℓ} ⦃e : Eq K⦄ where
  pub beq_refl : (k : K) → e.beq k k ≡ true
  beq_refl k = (e.beq_iff k k).1 refl

  pub beq_ne : (j k : K) → j ≢ k → e.beq j k ≡ false
  beq_ne j k h = ground (arith, e.beq_iff j k)

  pub Key-cases : (j k : K) → (j ≡ k) ⊎ (j ≢ k)
  Key-cases j k = elim (Bool-cases (e.beq j k)) [
    | inl h ↦ inl ((e.beq_iff j k).0 h)
    | inr h ↦ inr (λ q. cc ((e.beq_iff j k).1 q))
  ]

module _ {ℓ κ} {K : Type ℓ} {V : Type κ} ⦃e : Eq K⦄ where
  abbrev pub get : K → Map K V → Option V
  get k [] = none
  get k ((j, v) ∷ m) = if e.beq j k then some v else get k m

  abbrev pub insert : K → V → Map K V → Map K V
  insert k v [] = (k, v) ∷ []
  insert k v ((j, w) ∷ m) = if e.beq j k then (k, v) ∷ m else (j, w) ∷ insert k v m

  abbrev pub remove : K → Map K V → Map K V
  remove k [] = []
  remove k ((j, v) ∷ m) = if e.beq j k then remove k m else (j, v) ∷ remove k m

  -- `HashMap::retain`, by the entry's value.
  abbrev pub retain : (V → Bool) → Map K V → Map K V
  retain p [] = []
  retain p ((j, v) ∷ m) = if p v then (j, v) ∷ retain p m else retain p m

  pub get-insert :
      (k j : K) (v : V) (m : Map K V)
      → get j (insert k v m) ≡ (if e.beq k j then some v else get j m)
  get-insert k j v [] = refl
  get-insert k j v ((i, w) ∷ m) =
      ground (arith, e.beq_iff k j, e.beq_iff i k, e.beq_iff i j, get-insert k j v m)

  pub get-remove :
      (k j : K) (m : Map K V) → get j (remove k m) ≡ (if e.beq k j then none else get j m)
  get-remove k j [] = ground arith
  get-remove k j ((i, w) ∷ m) =
      ground (arith, e.beq_iff k j, e.beq_iff i k, e.beq_iff i j, get-remove k j m)

  pub get-insert_self : (k : K) (v : V) (m : Map K V) → get k (insert k v m) ≡ some v
  get-insert_self k v m = ground (arith, get-insert k k v m, beq_refl k)

  pub get-remove_self : (k : K) (m : Map K V) → get k (remove k m) ≡ none
  get-remove_self k m = ground (arith, get-remove k k m, beq_refl k)

  pub get-insert_ne : (k j : K) (v : V) (m : Map K V) → k ≢ j → get j (insert k v m) ≡ get j m
  get-insert_ne k j v m h = ground (arith, get-insert k j v m, beq_ne k j)

  pub get-remove_ne : (k j : K) (m : Map K V) → k ≢ j → get j (remove k m) ≡ get j m
  get-remove_ne k j m h = ground (arith, get-remove k j m, beq_ne k j)

  -- No key stands twice.
  abbrev pub IsUniq : Map K V → Type κ
  IsUniq [] = Unit
  IsUniq ((j, v) ∷ m) = (get j m ≡ none) × IsUniq m

  pub insert-IsUniq : (k : K) (v : V) (m : Map K V) → IsUniq m → IsUniq (insert k v m)
  insert-IsUniq k v [] u = (refl, tt)
  insert-IsUniq k v ((i, w) ∷ m) u =
      ground (arith, e.beq_iff i k, e.beq_iff k i, insert-IsUniq k v m, get-insert k i v m)

  pub get-retain :
      (p : V → Bool) (j : K) (m : Map K V) → IsUniq m → get j (retain p m) ≡ keep_if p (get j m)
  get-retain p j [] u = refl
  get-retain p j ((i, w) ∷ m) u = ground (arith, e.beq_iff i j, get-retain p j m u.1)

  pub retain-IsUniq : (p : V → Bool) (m : Map K V) → IsUniq m → IsUniq (retain p m)
  retain-IsUniq p [] u = u
  retain-IsUniq p ((i, w) ∷ m) u = ground (arith, retain-IsUniq p m u.1, get-retain p i m u.1)

  pub remove-IsUniq : (k : K) (m : Map K V) → IsUniq m → IsUniq (remove k m)
  remove-IsUniq k [] u = u
  remove-IsUniq k ((i, w) ∷ m) u =
      ground (arith, remove-IsUniq k m u.1, get-remove k i m, e.beq_iff k i)
