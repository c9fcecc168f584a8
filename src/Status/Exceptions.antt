-- ===== src/Status/Exceptions.antt =====
-- Exception codes, statuses and what becomes of one in the other (rsbinder/src/status.rs). The message is
-- kept as it is.
pub mod Kept
use rsbinder.Prelude.{
  ℕ, ◌+◌, ◌<◌, ◌||◌, String, Bool, true, false, List, [], ◌∷◌, Option, none, ltb, if◌then◌else◌,
}
use rsbinder.Prelude.Int.{ℤ, pos, negsuc}
use rsbinder.Status.{StatusCode, ok, unknown, failed_transaction, unexpected_null, eq_int}
use rsbinder.Parcel.{
  Result, Parcel, M, pure, refuse_if, data_avail, set_data_position, read_i32, ◌>>=◌, ◌>>◌,
  to_usize,
}

pub data ExceptionCode : Type 0 where
  no_exception security bad_parcelable illegal_argument null_pointer illegal_state : ExceptionCode
  network_main_thread unsupported_operation service_specific parcelable : ExceptionCode
  has_noted_app_ops_reply_header has_reply_header transaction_failed just_error : ExceptionCode

-- `*self as i32`.
unfoldable pub exception_to_i32 : ExceptionCode → ℤ
exception_to_i32 no_exception = pos 0
exception_to_i32 security = negsuc 0
exception_to_i32 bad_parcelable = negsuc 1
exception_to_i32 illegal_argument = negsuc 2
exception_to_i32 null_pointer = negsuc 3
exception_to_i32 illegal_state = negsuc 4
exception_to_i32 network_main_thread = negsuc 5
exception_to_i32 unsupported_operation = negsuc 6
exception_to_i32 service_specific = negsuc 7
exception_to_i32 parcelable = negsuc 8
exception_to_i32 has_noted_app_ops_reply_header = negsuc 126
exception_to_i32 has_reply_header = negsuc 127
exception_to_i32 transaction_failed = negsuc 128
exception_to_i32 just_error = negsuc 255

-- The arms of the match in `deserialize`, in their order.
abbrev pub known_exceptions : List ExceptionCode
known_exceptions =
    no_exception ∷ security ∷ bad_parcelable ∷ illegal_argument ∷ null_pointer ∷ illegal_state
    ∷ network_main_thread ∷ unsupported_operation ∷ service_specific ∷ parcelable
    ∷ has_noted_app_ops_reply_header ∷ has_reply_header ∷ transaction_failed ∷ []

unfoldable pub first_match : ℤ → List ExceptionCode → ExceptionCode
unfolding exception_to_i32
first_match v [] = just_error
first_match v (e ∷ es) = if eq_int v (exception_to_i32 e) then e else first_match v es

unfoldable pub exception_from_i32 : ℤ → ExceptionCode
exception_from_i32 v = first_match v known_exceptions

unfoldable pub read_exception : M ExceptionCode
read_exception = do v ← read_i32; pure (exception_from_i32 v)

pub record Status : Type 0 where
  pub code : StatusCode
  pub exception : ExceptionCode
  pub message : Option String

abbrev pub is_none : ExceptionCode → Bool
is_none no_exception = true
is_none e = false

abbrev pub is_transaction_failed : ExceptionCode → Bool
is_transaction_failed transaction_failed = true
is_transaction_failed e = false

unfoldable pub is_ok : Status → Bool
is_ok s = is_none s.exception

unfoldable pub transaction_error : Status → StatusCode
transaction_error s = if is_transaction_failed s.exception then s.code else ok

abbrev pub specific_or_zero : StatusCode → ℤ
specific_or_zero (StatusCode.service_specific v) = v
specific_or_zero c = pos 0

unfoldable pub service_specific_error : Status → ℤ
service_specific_error s = specific_or_zero s.code

unfoldable pub new_service_specific_error : ℤ → Option String → Status
new_service_specific_error v message = record {
  code = StatusCode.service_specific v;
  exception = service_specific;
  message = message;
}

-- `From<ExceptionCode> for StatusCode`.
unfoldable pub code_of_exception : ExceptionCode → StatusCode
code_of_exception e = if is_transaction_failed e then failed_transaction else ok

-- `From<Status> for StatusCode`.
abbrev pub surfaced : ExceptionCode → StatusCode → StatusCode
surfaced e ok = if is_none e then ok else failed_transaction
surfaced e c = c

unfoldable pub code_of_status : Status → StatusCode
code_of_status s = surfaced s.exception s.code

-- `From<StatusCode> for ExceptionCode`.
unfoldable pub exception_of_code : StatusCode → ExceptionCode
exception_of_code ok = no_exception
exception_of_code unexpected_null = null_pointer
exception_of_code (StatusCode.service_specific v) = service_specific
exception_of_code c = transaction_failed

-- `From<ExceptionCode> for Status`, `From<(ExceptionCode, &str)> for Status` and `From<StatusCode> for Status`.
unfoldable pub status_of_exception : ExceptionCode → Option String → Status
unfolding code_of_exception
status_of_exception e message = record {
  code = code_of_exception e;
  exception = e;
  message = message;
}

unfoldable pub status_of_code : StatusCode → Status
unfolding exception_of_code
status_of_code c = record { code = c; exception = exception_of_code c; message = none }

abbrev pub negative : ℤ → Bool
negative (pos n) = false
negative (negsuc n) = true

unfoldable pub read_check_header_size : M (Unit {0})
read_check_header_size p =
    (do
      header_size ← read_i32
      refuse_if (negative header_size) unknown
      refuse_if (ltb (data_avail p) (to_usize header_size)) unknown
      (λ q. record {
        parcel = set_data_position (p.cursor + to_usize header_size) q;
        result = Result.ok tt;
      }))
      p
