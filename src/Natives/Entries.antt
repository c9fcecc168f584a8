-- ===== src/Natives/Entries.antt =====
-- Objects picked from a list, and counted by their id.
use rsbinder.Prelude.{
  pick, ℕ, zero, suc, ◌+◌, ◌≤◌, ◌≡◌, ◌≢◌, refl, sym, ap, subst, List, [], ◌∷◌, some, ◌==◌,
  if◌then◌else◌, arith, inl, inr, Option-cases, All, length,
}
use rsbinder.Natives.Objects.{Object}

module _ {A : Type 0} where
  pub data Picked (y : A) : List A → List A → Type 0 where
    here : {xs : List A} → Picked y (y ∷ xs) xs
    there : {x : A} {xs rest : List A} → Picked y xs rest → Picked y (x ∷ xs) (x ∷ rest)

  Picked-here : (y x : A) (xs rest : List A) → x ≡ y → xs ≡ rest → Picked y (x ∷ xs) rest
  Picked-here y x xs rest p q = subst (λ z. Picked y (z ∷ xs) rest) (sym p) (rw q here)

  Picked-there :
      (y x : A) (xs others rest : List A)
      → Picked y xs others
      → x ∷ others ≡ rest
      → Picked y (x ∷ xs) rest
  Picked-there y x xs others rest l e = subst (λ r. Picked y (x ∷ xs) r) e (there l)

  pub pick-Picked :
      (i : ℕ) (y : A) (xs rest : List A) → pick i xs ≡ some (y, rest) → Picked y xs rest
  pick-Picked i y [] rest e = cc
  pick-Picked zero y (x ∷ xs) rest e = Picked-here y x xs rest (cc) (cc)
  pick-Picked (suc i) y (x ∷ xs) rest e = elim (Option-cases (pick i xs)) [
    | inl n ↦ ground arith
    | inr ((z, others), n) ↦
        Picked-there y x xs others rest (pick-Picked i y xs others (ground arith)) (ground arith)
  ]

  pub Picked-All :
      (P : A → Type 0) {y : A} {xs rest : List A} → Picked y xs rest → All P xs → P y × All P rest
  Picked-All P here h = h
  Picked-All P (there l) h = let r = Picked-All P l h.1 in (r.0, (h.0, r.1))

  pub Picked-length : {y : A} {xs rest : List A} → Picked y xs rest → length xs ≡ suc (length rest)
  Picked-length here = refl
  Picked-length (there l) = ap suc (Picked-length l)

-- How many of the objects have the id.
abbrev pub count : ℕ → List Object → ℕ
count id [] = 0
count id ((j, a) ∷ os) = (if j == id then 1 else 0) + count id os

pub count-le : (id : ℕ) (os : List Object) → count id os ≤ length os
count-le id [] = omega arith
count-le id ((j, a) ∷ os) = ground (arith, count-le id os)

pub Picked-count :
    (id : ℕ) {o : Object} {os rest : List Object}
    → Picked o os rest
    → count id os ≡ (if o.0 == id then 1 else 0) + count id rest
Picked-count id here = refl
Picked-count id (there l) = omega (arith, Picked-count id l)

pub All-map :
    {A : Type 0} (P Q : A → Type 0) (xs : List A) → ((a : A) → P a → Q a) → All P xs → All Q xs
All-map P Q [] f h = tt
All-map P Q (x ∷ xs) f h = (f x h.0, All-map P Q xs f h.1)

-- No object of an id that is counted 0 times.
pub count-zero : (id : ℕ) (os : List Object) → count id os ≡ 0 → All (λ (o : Object). o.0 ≢ id) os
count-zero id [] e = tt
count-zero id ((j, a) ∷ os) e = (λ q. ground arith, count-zero id os (ground arith))

pub count-absent : (id : ℕ) (os : List Object) → All (λ (o : Object). o.0 ≢ id) os → count id os ≡ 0
count-absent id [] h = refl
count-absent id ((j, a) ∷ os) h = ground (arith, count-absent id os h.1, h.0)
