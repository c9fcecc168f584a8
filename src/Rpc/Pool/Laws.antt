-- ===== src/Rpc/Pool/Laws.antt =====
-- The slots of a pool found by their number, and what a write, a removal and an addition do to that.
use rsbinder.Prelude.{
  ℕ, ◌≡◌, ◌≢◌, refl, Bool, true, false, List, [], ◌∷◌, ◌++◌, Option, none, some, ◌==◌,
  if◌then◌else◌, arith, nat_eq, inl, inr, Bool-cases,
}
use rsbinder.Prelude.Maps.{get, IsUniq}
use rsbinder.Rpc.Pool.{
  ConnSlot, first, update, retain, has_id, set_tid, first_driven, is_driving, unmark,
}

-- No number stands twice.
abbrev pub HasIds : List ConnSlot → Type 0
HasIds [] = Unit
HasIds (c ∷ cs) = (first (has_id c.id) cs ≡ none) × HasIds cs

pub first_found :
    (p : ConnSlot → Bool) (c : ConnSlot) (cs : List ConnSlot)
    → first p cs ≡ some c
    → first (has_id c.id) cs ≢ none
first_found p c [] h q = cc
first_found p c (x ∷ xs) h q = elim (Bool-cases (p x)) [
  | inl e ↦ ground arith
  | inr e ↦ ground (arith, first_found p c xs)
]

pub first_holds :
    (p : ConnSlot → Bool) (c : ConnSlot) (cs : List ConnSlot) → first p cs ≡ some c → p c ≡ true
first_holds p c [] h = cc
first_holds p c (x ∷ xs) h = elim (Bool-cases (p x)) [
  | inl e ↦ ground arith
  | inr e ↦ ground (arith, first_holds p c xs)
]

-- What any search finds is found by its number.
pub first-has_id :
    (p : ConnSlot → Bool) (c : ConnSlot) (cs : List ConnSlot)
    → HasIds cs
    → first p cs ≡ some c
    → first (has_id c.id) cs ≡ some c
first-has_id p c [] u h = cc
first-has_id p c (x ∷ xs) u h = ground (arith, first-has_id p c xs u.1, first_found p c xs)

pub first-update :
    (p : ConnSlot → Bool) (o : Option ℕ) (k : ℕ) (c : ConnSlot) (cs : List ConnSlot)
    → HasIds cs
    → first p cs ≡ some c
    → first (has_id k) (update p (set_tid o) cs)
      ≡ (if c.id == k then some (set_tid o c) else first (has_id k) cs)
first-update p o k c [] u h = cc
first-update p o k c (x ∷ xs) u h = ground (arith, first-update p o k c xs u.1, first_found p c xs)

pub update-none :
    (p : ConnSlot → Bool) (f : ConnSlot → ConnSlot) (cs : List ConnSlot)
    → first p cs ≡ none
    → update p f cs ≡ cs
update-none p f [] h = refl
update-none p f (x ∷ xs) h = ground (arith, update-none p f xs)

first-update-none :
    (p : ConnSlot → Bool) (o : Option ℕ) (k : ℕ) (cs : List ConnSlot)
    → first (has_id k) cs ≡ none
    → first (has_id k) (update p (set_tid o) cs) ≡ none
first-update-none p o k [] h = refl
first-update-none p o k (x ∷ xs) h = ground (arith, first-update-none p o k xs)

pub update-HasIds :
    (p : ConnSlot → Bool) (o : Option ℕ) (cs : List ConnSlot)
    → HasIds cs
    → HasIds (update p (set_tid o) cs)
update-HasIds p o [] u = u
update-HasIds p o (x ∷ xs) u =
    ground (arith, update-HasIds p o xs u.1, first-update-none p o x.id xs u.0)

abbrev pub others : ℕ → ConnSlot → Bool
others k c = if has_id k c then false else true

pub first-retain :
    (k j : ℕ) (cs : List ConnSlot)
    → first (has_id j) (retain (others k) cs) ≡ (if k == j then none else first (has_id j) cs)
first-retain k j [] = ground arith
first-retain k j (x ∷ xs) = ground (arith, first-retain k j xs)

pub retain-HasIds : (k : ℕ) (cs : List ConnSlot) → HasIds cs → HasIds (retain (others k) cs)
retain-HasIds k [] u = u
retain-HasIds k (x ∷ xs) u = ground (arith, retain-HasIds k xs u.1, first-retain k x.id xs)

pub first-append :
    (k : ℕ) (c : ConnSlot) (cs : List ConnSlot)
    → first (has_id c.id) cs ≡ none
    → first (has_id k) (cs ++ (c ∷ [])) ≡ (if c.id == k then some c else first (has_id k) cs)
first-append k c [] h = ground arith
first-append k c (x ∷ xs) h = ground (arith, first-append k c xs)

pub append-HasIds :
    (c : ConnSlot) (cs : List ConnSlot)
    → HasIds cs
    → first (has_id c.id) cs ≡ none
    → HasIds (cs ++ (c ∷ []))
append-HasIds c [] u h = (refl, tt)
append-HasIds c (x ∷ xs) u h = ground (arith, append-HasIds c xs u.1, first-append x.id c xs)

pub not-first_driven : (t k : ℕ) (d : List (ℕ × ℕ)) → first_driven t d ≡ none → get k d ≢ some t
not-first_driven t k [] h q = cc
not-first_driven t k ((j, o) ∷ d) h q = ground (arith, not-first_driven t k d)

pub not-is_driving : (t k : ℕ) (d : List (ℕ × ℕ)) → is_driving t k d ≡ false → get k d ≢ some t
not-is_driving t k [] h q = cc
not-is_driving t k ((j, o) ∷ d) h q = ground (arith, not-is_driving t k d)

get-none : (k : ℕ) (d : List (ℕ × ℕ)) (t : ℕ) → is_driving t k d ≡ true → get k d ≢ none
get-none k [] t h q = cc
get-none k ((j, o) ∷ d) t h q = ground (arith, get-none k d t)

pub get-is_driving :
    (t k : ℕ) (d : List (ℕ × ℕ)) → IsUniq d → is_driving t k d ≡ true → get k d ≡ some t
get-is_driving t k [] u h = cc
get-is_driving t k ((j, o) ∷ d) u h = ground (arith, get-is_driving t k d u.1, get-none k d t)

first_driven-is_driving :
    (t k : ℕ) (d : List (ℕ × ℕ)) → first_driven t d ≡ some k → is_driving t k d ≡ true
first_driven-is_driving t k [] h = cc
first_driven-is_driving t k ((j, o) ∷ d) h = ground (arith, first_driven-is_driving t k d)

pub get-first_driven :
    (t k : ℕ) (d : List (ℕ × ℕ)) → IsUniq d → first_driven t d ≡ some k → get k d ≡ some t
get-first_driven t k d u h = get-is_driving t k d u (first_driven-is_driving t k d h)

pub get-unmark :
    (t k j : ℕ) (d : List (ℕ × ℕ))
    → IsUniq d
    → get k d ≡ some t
    → get j (unmark t k d) ≡ (if k == j then none else get j d)
get-unmark t k j [] u h = cc
get-unmark t k j ((i, o) ∷ d) u h = ground (arith, get-unmark t k j d u.1)

pub unmark-IsUniq :
    (t k : ℕ) (d : List (ℕ × ℕ)) → IsUniq d → get k d ≡ some t → IsUniq (unmark t k d)
unmark-IsUniq t k [] u h = cc
unmark-IsUniq t k ((i, o) ∷ d) u h = ground (arith, unmark-IsUniq t k d u.1, get-unmark t k i d u.1)
