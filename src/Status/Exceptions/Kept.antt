-- ===== src/Status/Exceptions/Kept.antt =====
-- What exceptions, statuses and their codes keep of one another.
use rsbinder.Prelude.{
  ℕ, ◌+◌, ◌-◌, ◌≤◌, ◌≡◌, ◌≢◌, ◌↔◌, refl, true, false, Option, String, ltb, leb, take, drop, length,
  inl, inr, Bool-cases, arith,
}
use rsbinder.Prelude.Int.{as_i32}
use rsbinder.Prelude.Bytes.{from_le}
use rsbinder.Status.{StatusCode, ok, unexpected_null}
use rsbinder.Parcel.{
  Result, Parcel, data_avail, set_data_position, read_aligned_data, read_i32, pad_size, to_usize,
}
use rsbinder.Status.Exceptions.{
  ExceptionCode, no_exception, security, bad_parcelable, illegal_argument, null_pointer,
  illegal_state, network_main_thread, unsupported_operation, service_specific, parcelable,
  has_noted_app_ops_reply_header, has_reply_header, transaction_failed, just_error,
  exception_to_i32, first_match, exception_from_i32, Status, is_none, surfaced, is_ok,
  code_of_exception, code_of_status, exception_of_code, status_of_exception, status_of_code,
  negative, read_check_header_size,
}

-- Every exception code comes back from its number.
pub exception_from_i32-exception_to_i32 :
    (e : ExceptionCode) → exception_from_i32 (exception_to_i32 e) ≡ e
unfolding exception_from_i32 exception_to_i32 first_match
exception_from_i32-exception_to_i32 no_exception = refl
exception_from_i32-exception_to_i32 security = refl
exception_from_i32-exception_to_i32 bad_parcelable = refl
exception_from_i32-exception_to_i32 illegal_argument = refl
exception_from_i32-exception_to_i32 null_pointer = refl
exception_from_i32-exception_to_i32 illegal_state = refl
exception_from_i32-exception_to_i32 network_main_thread = refl
exception_from_i32-exception_to_i32 unsupported_operation = refl
exception_from_i32-exception_to_i32 service_specific = refl
exception_from_i32-exception_to_i32 parcelable = refl
exception_from_i32-exception_to_i32 has_noted_app_ops_reply_header = refl
exception_from_i32-exception_to_i32 has_reply_header = refl
exception_from_i32-exception_to_i32 transaction_failed = refl
exception_from_i32-exception_to_i32 just_error = refl

failing : (e : ExceptionCode) (c : StatusCode) → is_none e ≡ false → surfaced e c ≢ ok
failing e ok h same = absurd (cc (rw h at same))
failing e c h same = absurd (cc same)

back :
    (c : StatusCode)
    → (code_of_status (status_of_code c) ≡ c) × ((is_ok (status_of_code c) ≡ true) ↔ (c ≡ ok))
unfolding code_of_status status_of_code exception_of_code is_ok
back ok = (refl, ((λ h. refl), (λ h. refl)))
back unexpected_null = (refl, ((λ h. absurd (cc h)), (λ h. absurd (cc h))))
back (StatusCode.service_specific v) = (refl, ((λ h. absurd (cc h)), (λ h. absurd (cc h))))
back c = (refl, ((λ h. absurd (cc h)), (λ h. absurd (cc h))))

raised :
    (e : ExceptionCode) (message : Option String)
    → (code_of_status (status_of_exception e message) ≡ ok) ↔ (e ≡ no_exception)
unfolding code_of_status status_of_exception code_of_exception
raised no_exception message = ((λ h. refl), (λ h. refl))
raised e message = ((λ h. absurd (cc h)), (λ h. absurd (cc h)))

-- A status that is not a success never becomes the code `Ok`. A code made into a status comes back, and
-- the status is a success exactly for `Ok`. An exception made into a status becomes `Ok` exactly when it
-- is none.
pub code_of_status-status_of_code :
    (s : Status) (c : StatusCode) (e : ExceptionCode) (message : Option String)
    → (is_ok s ≡ false → code_of_status s ≢ ok)
      × (code_of_status (status_of_code c) ≡ c)
      × ((is_ok (status_of_code c) ≡ true) ↔ (c ≡ ok))
      × ((code_of_status (status_of_exception e message) ≡ ok) ↔ (e ≡ no_exception))
code_of_status-status_of_code s c e message = (
  (λ h. unfold is_ok code_of_status in failing s.exception s.code h),
  (back c).0,
  (back c).1,
  raised e message,
)

inside :
    (size at n : ℕ)
    → leb (pad_size 4) (size - at) ≡ true
    → ltb (size - at) n ≡ false
    → at + n ≤ size
unfolding pad_size
inside size at n room within = ground (arith, room, within)

-- A header to skip: whatever the bytes are, they stay as they are, and when the header is skipped, the
-- cursor is not before where it began, and not past the end of the data.
pub read_check_header_size_lem :
    (p : Parcel)
    → let s = read_check_header_size p in
      (s.parcel.data_bytes ≡ p.data_bytes)
      × (s.result ≡ Result.ok tt
          → (p.cursor ≤ s.parcel.cursor) × (s.parcel.cursor ≤ length p.data_bytes))
unfolding read_check_header_size read_i32 read_aligned_data data_avail set_data_position
read_check_header_size_lem p =
    let v = as_i32 (from_le (take 4 (drop p.cursor p.data_bytes))) in
    elim (Bool-cases (leb (pad_size 4) (length p.data_bytes - p.cursor))) [
      | inr short ↦ rw short (refl, (λ h. absurd (cc h)))
      | inl room ↦ elim (Bool-cases (negative v)) [
        | inl bad ↦ rw (room, bad) (refl, (λ h. absurd (cc h)))
        | inr fine ↦ elim (Bool-cases (ltb (length p.data_bytes - p.cursor) (to_usize v))) [
          | inl over ↦ rw (room, fine, over) (refl, (λ h. absurd (cc h)))
          | inr within ↦
              rw (room, fine, within)
                (
                  refl,
                  (λ h. (
                    omega arith,
                    inside (length p.data_bytes) p.cursor (to_usize v) room within,
                  )),
                )
        ]
      ]
    ]
