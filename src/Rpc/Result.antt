-- ===== src/Rpc/Result.antt =====
-- `RpcError` and `RpcResult` (rsbinder/src/rpc/mod.rs).
use rsbinder.Prelude.{ℕ, ◌≡◌, refl, ◌⊎◌, inl, inr, Bool, true, false, String}

-- The kinds of `std::io::Error` that the RPC stack tells apart; `other` is any other kind.
pub data ErrorKind : Type 0 where
  unexpected_eof broken_pipe connection_reset connection_aborted : ErrorKind
  interrupted would_block timed_out other : ErrorKind

pub data RpcError : Type 0 where
  peer_closed truncated : RpcError
  frame_too_large : ℕ → ℕ → RpcError
  io : ErrorKind → RpcError
  protocol : String → RpcError
  timeout : RpcError

pub data Result {ℓ} (A : Type ℓ) : Type ℓ where
  ok : A → Result A
  err : RpcError → Result A

infixl 5 ◌>>◌ ◌>>=◌
abbrev pub ◌>>=◌ {ℓ κ} : {T : Type ℓ} {U : Type κ} → Result T → (T → Result U) → Result U
err e >>= next = err e
ok value >>= next = next value

abbrev pub ◌>>◌ {κ} : {U : Type κ} → Result (Unit {0}) → Result U → Result U
first >> next = first >>= λ _. next

-- `if test { return Err(e) }`.
abbrev pub refuse_if : Bool → RpcError → Result (Unit {0})
refuse_if true e = err e
refuse_if false e = ok tt

pub Result-cases {ℓ} :
    {A : Type ℓ} (r : Result A) → ((a : A) × (r ≡ ok a)) ⊎ ((e : RpcError) × (r ≡ err e))
Result-cases (ok a) = inl (a, refl)
Result-cases (err e) = inr (e, refl)

-- `impl From<std::io::Error> for RpcError`.
unfoldable pub from_io : ErrorKind → RpcError
from_io ErrorKind.unexpected_eof = peer_closed
from_io ErrorKind.broken_pipe = peer_closed
from_io ErrorKind.connection_reset = peer_closed
from_io ErrorKind.connection_aborted = peer_closed
from_io k = io k
