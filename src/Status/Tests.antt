-- ===== src/Status/Tests.antt =====
-- The errno numbers of Linux.
use rsbinder.Prelude.{
  none, false, ◌≢◌, ◌↔◌, ◌≡◌, refl, Bool, true, ◌&&◌, not, List, [], ◌∷◌, inl, inr, Bool-cases,
}
use rsbinder.Prelude.Int.{ℤ, pos, negsuc}
use rsbinder.Status.Exceptions.{
  just_error, illegal_argument, no_exception, exception_to_i32, exception_from_i32, first_match,
  Status, is_ok, code_of_status, status_of_code, status_of_exception,
}
use rsbinder.Status.Exceptions.Kept.{code_of_status-status_of_code}
use rsbinder.Status.{StatusCode, ok, bad_value, errno, Errnos, to_i32, from_i32, eq_int, arms}
use rsbinder.Status.Codes.{Apart, IsDistinct, from_i32-to_i32}

abbrev linux : Errnos
linux = record {
  nomem = 12;
  nosys = 38;
  inval = 22;
  noent = 2;
  perm = 1;
  nodev = 19;
  exist = 17;
  pipe = 32;
  badmsg = 74;
  overflow = 75;
  nodata = 61;
  wouldblock = 11;
  timedout = 110;
  badf = 9;
}

apart : ℤ → List (ℤ × StatusCode) → Bool
apart k [] = true
apart k (x ∷ xs) = not (eq_int k x.0) && apart k xs

distinct : List (ℤ × StatusCode) → Bool
distinct [] = true
distinct (x ∷ xs) = apart x.0 xs && distinct xs

apart-Apart : (k : ℤ) (xs : List (ℤ × StatusCode)) → apart k xs ≡ true → Apart k xs
unfolding apart
apart-Apart k [] h = tt
apart-Apart k (x ∷ xs) h = elim (Bool-cases (eq_int k x.0)) [
  | inl same ↦ absurd (cc (rw same at h))
  | inr differs ↦ (differs, apart-Apart k xs (rw differs at h))
]

distinct-IsDistinct : (xs : List (ℤ × StatusCode)) → distinct xs ≡ true → IsDistinct xs
unfolding distinct
distinct-IsDistinct [] h = tt
distinct-IsDistinct (x ∷ xs) h = elim (Bool-cases (apart x.0 xs)) [
  | inl here ↦ (apart-Apart x.0 xs here, distinct-IsDistinct xs (rw here at h))
  | inr clash ↦ absurd (cc (rw clash at h))
]

linux-distinct : distinct (arms linux) ≡ true
unfolding distinct apart
linux-distinct = refl

interrupted_apart : apart (negsuc 3) (arms linux) ≡ true
unfolding apart
interrupted_apart = refl

-- An errno that no code names.
from_i32-to_i32_example :
    (from_i32 linux (to_i32 linux (errno (negsuc 3))) ≡ errno (negsuc 3))
    × (to_i32 linux (from_i32 linux (pos 7)) ≡ pos 7)
from_i32-to_i32_example =
    from_i32-to_i32 linux (errno (negsuc 3)) (pos 7)
      (distinct-IsDistinct (arms linux) linux-distinct)
      (apart-Apart (negsuc 3) (arms linux) interrupted_apart)

unheard_of : exception_from_i32 (pos 5) ≡ just_error
unfolding exception_from_i32 first_match exception_to_i32
unheard_of = refl

abbrev refused : Status
refused = status_of_exception illegal_argument none

code_of_status-status_of_code_example :
    (is_ok refused ≡ false → code_of_status refused ≢ ok)
    × (code_of_status (status_of_code bad_value) ≡ bad_value)
    × ((is_ok (status_of_code bad_value) ≡ true) ↔ (bad_value ≡ ok))
    × ((code_of_status refused ≡ ok) ↔ (illegal_argument ≡ no_exception))
code_of_status-status_of_code_example =
    code_of_status-status_of_code refused bad_value illegal_argument none
