-- ===== src/Status.antt =====
-- Status codes and the numbers that stand for them on the wire (rsbinder/src/error.rs), with the `rpc`
-- feature. The host's errno numbers are an argument.
pub mod Codes
pub mod Exceptions
mod Tests
use rsbinder.Prelude.{
  ℕ, zero, suc, ◌+◌, ◌-◌, ◌^◌, Bool, true, false, List, [], ◌∷◌, ◌==◌, if◌then◌else◌,
}
use rsbinder.Prelude.Int.{ℤ, pos, negsuc}

pub data StatusCode : Type 0 where
  ok unknown no_memory invalid_operation bad_value bad_type name_not_found permission_denied
        no_init :
      StatusCode
  already_exists dead_object failed_transaction unknown_transaction bad_index fds_not_allowed :
      StatusCode
  unexpected_null not_enough_data would_block timed_out bad_fd rpc_error : StatusCode
  errno : ℤ → StatusCode
  service_specific : ℤ → StatusCode

-- `rustix::io::Errno::X.raw_os_error()` for each X that the code names.
pub record Errnos : Type 0 where
  pub nomem : ℕ
  pub nosys : ℕ
  pub inval : ℕ
  pub noent : ℕ
  pub perm : ℕ
  pub nodev : ℕ
  pub exist : ℕ
  pub pipe : ℕ
  pub badmsg : ℕ
  pub overflow : ℕ
  pub nodata : ℕ
  pub wouldblock : ℕ
  pub timedout : ℕ
  pub badf : ℕ

-- `-n`.
abbrev pub negated : ℕ → ℤ
negated zero = pos 0
negated (suc n) = negsuc n

-- `UNKNOWN_ERROR + n`, with `UNKNOWN_ERROR` the least `i32`.
abbrev pub unknown_error_plus : ℕ → ℤ
unknown_error_plus n = negsuc (2 ^ 31 - 1 - n)

-- `impl From<StatusCode> for i32`.
unfoldable pub to_i32 : Errnos → StatusCode → ℤ
to_i32 r ok = pos 0
to_i32 r unknown = unknown_error_plus 0
to_i32 r no_memory = negated r.nomem
to_i32 r invalid_operation = negated r.nosys
to_i32 r bad_value = negated r.inval
to_i32 r bad_type = unknown_error_plus 1
to_i32 r name_not_found = negated r.noent
to_i32 r permission_denied = negated r.perm
to_i32 r no_init = negated r.nodev
to_i32 r already_exists = negated r.exist
to_i32 r dead_object = negated r.pipe
to_i32 r failed_transaction = unknown_error_plus 2
to_i32 r unknown_transaction = negated r.badmsg
to_i32 r bad_index = negated r.overflow
to_i32 r fds_not_allowed = unknown_error_plus 7
to_i32 r unexpected_null = unknown_error_plus 8
to_i32 r rpc_error = unknown_error_plus 10
to_i32 r not_enough_data = negated r.nodata
to_i32 r would_block = negated r.wouldblock
to_i32 r timed_out = negated r.timedout
to_i32 r bad_fd = negated r.badf
to_i32 r (service_specific v) = v
to_i32 r (errno v) = v

abbrev pub eq_int : ℤ → ℤ → Bool
eq_int (pos m) (pos n) = m == n
eq_int (pos m) (negsuc n) = false
eq_int (negsuc m) (pos n) = false
eq_int (negsuc m) (negsuc n) = m == n

-- The arms of the match with a constant, in their order.
abbrev pub arms : Errnos → List (ℤ × StatusCode)
arms r =
    (pos 0, ok)
    ∷ (unknown_error_plus 0, unknown)
    ∷ (negated r.nomem, no_memory)
    ∷ (negated r.nosys, invalid_operation)
    ∷ (negated r.inval, bad_value)
    ∷ (unknown_error_plus 1, bad_type)
    ∷ (negated r.noent, name_not_found)
    ∷ (negated r.perm, permission_denied)
    ∷ (negated r.nodev, no_init)
    ∷ (negated r.exist, already_exists)
    ∷ (negated r.pipe, dead_object)
    ∷ (unknown_error_plus 2, failed_transaction)
    ∷ (negated r.badmsg, unknown_transaction)
    ∷ (negated r.overflow, bad_index)
    ∷ (unknown_error_plus 7, fds_not_allowed)
    ∷ (unknown_error_plus 8, unexpected_null)
    ∷ (unknown_error_plus 10, rpc_error)
    ∷ (negated r.nodata, not_enough_data)
    ∷ (negated r.wouldblock, would_block)
    ∷ (negated r.timedout, timed_out)
    ∷ (negated r.badf, bad_fd)
    ∷ []

-- The last two arms.
abbrev pub other : ℤ → StatusCode
other (pos n) = service_specific (pos n)
other (negsuc n) = errno (negsuc n)

unfoldable pub match_arms : ℤ → List (ℤ × StatusCode) → StatusCode
match_arms code [] = other code
match_arms code ((k, c) ∷ rest) = if eq_int code k then c else match_arms code rest

-- `impl From<i32> for StatusCode`.
unfoldable pub from_i32 : Errnos → ℤ → StatusCode
from_i32 r code = match_arms code (arms r)
