-- ===== src/Status/Codes.antt =====
-- Status codes to numbers and back.
use rsbinder.Prelude.{
  ◌≡◌, refl, sym, ap, ◌∙◌, true, false, List, [], ◌∷◌, inl, inr, Bool-cases, arith, All,
  All-get_elem,
}
use rsbinder.Prelude.Int.{ℤ, pos, negsuc}
use rsbinder.Status.{
  StatusCode, ok, unknown, no_memory, invalid_operation, bad_value, bad_type, name_not_found,
  permission_denied, no_init, already_exists, dead_object, failed_transaction, unknown_transaction,
  bad_index, fds_not_allowed, unexpected_null, not_enough_data, would_block, timed_out, bad_fd,
  rpc_error, errno, service_specific, Errnos, to_i32, eq_int, arms, other, match_arms, from_i32,
}

eq_int-true : (m n : ℤ) → eq_int m n ≡ true → m ≡ n
eq_int-true (pos m) (pos n) h = ap pos (ground (arith, h))
eq_int-true (pos m) (negsuc n) h = absurd (cc h)
eq_int-true (negsuc m) (pos n) h = absurd (cc h)
eq_int-true (negsuc m) (negsuc n) h = ap negsuc (ground (arith, h))

eq_int_refl : (n : ℤ) → eq_int n n ≡ true
eq_int_refl (pos n) = ground arith
eq_int_refl (negsuc n) = ground arith

-- The constant of an arm is the number of its code.
IsArm : Errnos → ℤ × StatusCode → Type 0
IsArm r (k, c) = to_i32 r c ≡ k

arms-IsArm : (r : Errnos) → All (IsArm r) (arms r)
unfolding IsArm to_i32
arms-IsArm r = (
  refl,
  (
    refl,
    (
      refl,
      (
        refl,
        (
          refl,
          (
            refl,
            (
              refl,
              (
                refl,
                (
                  refl,
                  (
                    refl,
                    (
                      refl,
                      (
                        refl,
                        (refl, (refl, (refl, (refl, (refl, (refl, (refl, (refl, (refl, tt))))))))),
                      ),
                    ),
                  ),
                ),
              ),
            ),
          ),
        ),
      ),
    ),
  ),
)

match_arms-back :
    (r : Errnos) (n : ℤ) (xs : List (ℤ × StatusCode))
    → All (IsArm r) xs
    → to_i32 r (match_arms n xs) ≡ n
unfolding match_arms IsArm to_i32
match_arms-back r (pos n) [] valid = refl
match_arms-back r (negsuc n) [] valid = refl
match_arms-back r n ((k, c) ∷ xs) (here, valid) = elim (Bool-cases (eq_int n k)) [
  | inl same ↦ rw same (here ∙ sym (eq_int-true n k same))
  | inr differs ↦ rw differs (match_arms-back r n xs valid)
]

-- Constants that tell the arms apart.
abbrev pub Apart : ℤ → List (ℤ × StatusCode) → Type 0
Apart k [] = Unit
Apart k ((k', c) ∷ xs) = (eq_int k k' ≡ false) × Apart k xs

abbrev pub IsDistinct : List (ℤ × StatusCode) → Type 0
IsDistinct [] = Unit
IsDistinct ((k, c) ∷ xs) = Apart k xs × IsDistinct xs

eq_int-sym : (m n : ℤ) → eq_int m n ≡ false → eq_int n m ≡ false
eq_int-sym m n h = elim (Bool-cases (eq_int n m)) [
  | inr differs ↦ differs
  | inl same ↦ absurd (cc (eq_int_refl m, h, eq_int-true n m same))
]

Found : List (ℤ × StatusCode) → ℤ × StatusCode → Type 0
Found xs p = match_arms p.0 xs ≡ p.1

skip :
    (k : ℤ) (c : StatusCode) (xs ys : List (ℤ × StatusCode))
    → Apart k ys
    → All (Found xs) ys
    → All (Found ((k, c) ∷ xs)) ys
unfolding Found match_arms
skip k c xs [] apart found = tt
skip k c xs (y ∷ ys) (apart, aparts) (here, found) =
    (rw (eq_int-sym k y.0 apart) here, skip k c xs ys aparts found)

All-Found : (xs : List (ℤ × StatusCode)) → IsDistinct xs → All (Found xs) xs
unfolding Found match_arms
All-Found [] distinct = tt
All-Found ((k, c) ∷ xs) (apart, distinct) =
    (rw (eq_int_refl k) refl, skip k c xs xs apart (All-Found xs distinct))

not_found : (k : ℤ) (xs : List (ℤ × StatusCode)) → Apart k xs → match_arms k xs ≡ other k
unfolding match_arms
not_found k [] apart = refl
not_found k (x ∷ xs) (apart, aparts) = rw apart (not_found k xs aparts)

-- The codes with a number of their own: an errno is negative, a service's own code is not, and neither
-- is the number of a named code.
abbrev pub IsCanonical : Errnos → StatusCode → Type 0
IsCanonical r (errno (pos n)) = ⊥
IsCanonical r (errno (negsuc n)) = Apart (negsuc n) (arms r)
IsCanonical r (service_specific (pos n)) = Apart (pos n) (arms r)
IsCanonical r (service_specific (negsuc n)) = ⊥
IsCanonical r c = Unit

back :
    (r : Errnos) (c : StatusCode)
    → IsDistinct (arms r)
    → IsCanonical r c
    → from_i32 r (to_i32 r c) ≡ c
unfolding from_i32 to_i32 Found
back r ok distinct canonical =
    All-get_elem (Found (arms r)) (arms r) 0 (All-Found (arms r) distinct) refl
back r unknown distinct canonical =
    All-get_elem (Found (arms r)) (arms r) 1 (All-Found (arms r) distinct) refl
back r no_memory distinct canonical =
    All-get_elem (Found (arms r)) (arms r) 2 (All-Found (arms r) distinct) refl
back r invalid_operation distinct canonical =
    All-get_elem (Found (arms r)) (arms r) 3 (All-Found (arms r) distinct) refl
back r bad_value distinct canonical =
    All-get_elem (Found (arms r)) (arms r) 4 (All-Found (arms r) distinct) refl
back r bad_type distinct canonical =
    All-get_elem (Found (arms r)) (arms r) 5 (All-Found (arms r) distinct) refl
back r name_not_found distinct canonical =
    All-get_elem (Found (arms r)) (arms r) 6 (All-Found (arms r) distinct) refl
back r permission_denied distinct canonical =
    All-get_elem (Found (arms r)) (arms r) 7 (All-Found (arms r) distinct) refl
back r no_init distinct canonical =
    All-get_elem (Found (arms r)) (arms r) 8 (All-Found (arms r) distinct) refl
back r already_exists distinct canonical =
    All-get_elem (Found (arms r)) (arms r) 9 (All-Found (arms r) distinct) refl
back r dead_object distinct canonical =
    All-get_elem (Found (arms r)) (arms r) 10 (All-Found (arms r) distinct) refl
back r failed_transaction distinct canonical =
    All-get_elem (Found (arms r)) (arms r) 11 (All-Found (arms r) distinct) refl
back r unknown_transaction distinct canonical =
    All-get_elem (Found (arms r)) (arms r) 12 (All-Found (arms r) distinct) refl
back r bad_index distinct canonical =
    All-get_elem (Found (arms r)) (arms r) 13 (All-Found (arms r) distinct) refl
back r fds_not_allowed distinct canonical =
    All-get_elem (Found (arms r)) (arms r) 14 (All-Found (arms r) distinct) refl
back r unexpected_null distinct canonical =
    All-get_elem (Found (arms r)) (arms r) 15 (All-Found (arms r) distinct) refl
back r rpc_error distinct canonical =
    All-get_elem (Found (arms r)) (arms r) 16 (All-Found (arms r) distinct) refl
back r not_enough_data distinct canonical =
    All-get_elem (Found (arms r)) (arms r) 17 (All-Found (arms r) distinct) refl
back r would_block distinct canonical =
    All-get_elem (Found (arms r)) (arms r) 18 (All-Found (arms r) distinct) refl
back r timed_out distinct canonical =
    All-get_elem (Found (arms r)) (arms r) 19 (All-Found (arms r) distinct) refl
back r bad_fd distinct canonical =
    All-get_elem (Found (arms r)) (arms r) 20 (All-Found (arms r) distinct) refl
back r (errno (pos n)) distinct canonical = absurd canonical
back r (errno (negsuc n)) distinct canonical = not_found (negsuc n) (arms r) canonical
back r (service_specific (pos n)) distinct canonical = not_found (pos n) (arms r) canonical
back r (service_specific (negsuc n)) distinct canonical = absurd canonical

forth : (r : Errnos) (n : ℤ) → to_i32 r (from_i32 r n) ≡ n
unfolding from_i32
forth r n = match_arms-back r n (arms r) (arms-IsArm r)

-- On a host whose errno numbers tell the named codes apart, and for a code that is named or whose number
-- is none of theirs and has the sign of its kind: the code comes back from its number, and any number
-- comes back from its code.
pub from_i32-to_i32 :
    (r : Errnos) (c : StatusCode) (n : ℤ)
    → IsDistinct (arms r)
    → IsCanonical r c
    → (from_i32 r (to_i32 r c) ≡ c) × (to_i32 r (from_i32 r n) ≡ n)
from_i32-to_i32 r c n distinct canonical = (back r c distinct canonical, forth r n)
