-- ===== src/Rpc/Calls.antt =====
-- Calls over one connection of a session (rsbinder/src/rpc/session.rs): `client_transact`, which waits for
-- its reply and serves what the peer calls meanwhile, and `serve_once_on_slot`, which serves one message.
-- One thread drives the connection and its slot stays in the pool while it does, so that `find_conn`
-- gives the same slot to every nested call. What the transport answers to a receive, a send or a new
-- deadline is read from lists; a list that has run out means a closed peer, a send and a deadline that
-- go through. File descriptors are left out, and the special transactions' answers are the handlers'.
pub mod Loop
pub mod Run
pub mod Dialogue
pub mod Answers
pub mod Wires
mod Tests
mod Reads
mod Taken
pub mod Ends
pub mod Stale
use rsbinder.Prelude.{
  ℕ, zero, suc, ◌+◌, ◌%◌, Bool, true, false, List, [], ◌∷◌, ◌++◌, Option, none, some, ◌==◌,
  if◌then◌else◌,
}
use rsbinder.Prelude.Int.{ℤ, pos}
use rsbinder.Status.{
  StatusCode, Errnos, from_i32, to_i32, dead_object, not_enough_data, failed_transaction, timed_out,
  rpc_error,
}
use rsbinder.Rpc.Result.{
  ErrorKind, RpcError, peer_closed, truncated, frame_too_large, io, protocol, timeout, Result, ok,
  err,
}
use rsbinder.Rpc.Address.{RpcAddress, is_zero}
use rsbinder.Rpc.Wire.Readers.{WireTransaction, WireReply, WireMessage, transact, reply, dec_strong}
use rsbinder.Rpc.State.Nodes.{
  AsyncTodo, RpcState, lookup_local, dec_strong_local, cancel_binder_leaving,
  next_send_async_number, cancel_send_async_number,
}
use rsbinder.Rpc.State.Async.{
  AsyncDecision, dispatch, enqueued, dropped, terminate, dispatch_async_or_enqueue,
  advance_and_pop_async,
}

-- What a parcel adds to a message: its bytes, its object table, and the local binders that were written
-- into it, whose departure the session has counted.
pub record Body : Type 0 where
  pub payload : List ℕ
  pub object_positions : List ℕ
  pub leaving : List RpcAddress

pub record Call : Type 0 where
  pub address : RpcAddress
  pub code : ℕ
  pub flags : ℕ
  pub body : Body

-- The results of `client_transact`: `Ok(None)`, `Ok(Some(reply))` and an error. `stuck` is that the fuel
-- ran out, here and below.
pub data Answer : Type 0 where
  sent : Answer
  replied : WireReply → Answer
  failed : StatusCode → Answer
  stuck : Answer

-- What the user's code does when it is called: it returns or fails with the reply written so far, calls
-- the peer, or drops a proxy of the peer's object.
pub data Program : Type 0 where
  returns : Body → Program
  fails : StatusCode → Body → Program
  calls : Call → (Answer → Program) → Program
  drops : RpcAddress → Program → Program

-- The binders of a process: what each does with a transaction (the check of the interface token
-- included, and a panic caught), the reply with its descriptor, and the answers of `serve_special`.
pub record Handlers : Type 0 where
  pub handle : ℕ → WireTransaction → Program
  pub descriptor : ℕ → Body
  pub special : WireTransaction → WireReply

-- The wire's codec, the error numbers, and `StatusCode::from(std::io::Error)`.
pub record Host : Type 0 where
  pub errnos : Errnos
  pub encode : WireMessage → Result (List ℕ)
  pub decode_message : List ℕ → Result WireMessage
  pub io_status : ErrorKind → StatusCode

pub record Endpoint : Type 0 where
  pub state : RpcState
  pub inbound : List (Result (List ℕ))
  pub outbound : List (List ℕ)
  pub send_errors : List (Option RpcError)
  pub deadline : Bool
  pub timer_errors : List (Option RpcError)
  pub removed : Bool

pub data Done : Type 0 where
  handled : Done
  broken : StatusCode → Done
  unfinished : Done

pub data Finish : Type 0 where
  finished : Body → Finish
  refused : StatusCode → Body → Finish
  unfinished : Finish

abbrev pub no_body : Body
no_body = record { payload = []; object_positions = []; leaving = [] }

abbrev pub flag_oneway : ℕ
flag_oneway = 1

-- `flags & FLAG_ONEWAY != 0`.
abbrev pub is_oneway : ℕ → Bool
is_oneway flags = flags % 2 == 1

abbrev pub interface_transaction : ℕ
interface_transaction = 0x5f4e5446

abbrev pub ping_transaction : ℕ
ping_transaction = 0x5f504e47

-- What the next operation comes to.
abbrev pub outcome : List (Option RpcError) → Result (Unit {0})
outcome [] = ok tt
outcome (none ∷ xs) = ok tt
outcome (some x ∷ xs) = err x

abbrev pub later {ℓ} : {A : Type ℓ} → List A → List A
later [] = []
later (x ∷ xs) = xs

abbrev pub put : Result (Unit {0}) → List ℕ → List (List ℕ) → List (List ℕ)
put (ok u) frame out = out ++ (frame ∷ [])
put (err x) frame out = out

abbrev pub send_msg : List ℕ → Endpoint → Result (Unit {0}) × Endpoint
send_msg frame e = (
  outcome e.send_errors,
  record e {
    outbound = put (outcome e.send_errors) frame e.outbound;
    send_errors = later e.send_errors;
  },
)

abbrev pub incoming : List (Result (List ℕ)) → Result (List ℕ)
incoming [] = err peer_closed
incoming (r ∷ rs) = r

abbrev pub recv_msg : Endpoint → Result (List ℕ) × Endpoint
recv_msg e = (incoming e.inbound, record e { inbound = later e.inbound })

-- `set_read_timeout`, which is called where the session has a deadline.
abbrev pub set_read_timeout : Endpoint → Result (Unit {0}) × Endpoint
set_read_timeout e =
    if e.deadline
    then (outcome e.timer_errors, record e { timer_errors = later e.timer_errors })
    else (ok tt, e)

abbrev pub remove_slot : Endpoint → Endpoint
remove_slot e = record e { removed = true }

abbrev pub poison_slot : Bool → Endpoint → Endpoint
poison_slot reentrant e = if reentrant then e else remove_slot e

abbrev pub cancel_all : List RpcAddress → RpcState → RpcState
cancel_all [] s = s
cancel_all (a ∷ rest) s = cancel_all rest (cancel_binder_leaving a s)

abbrev pub cancel_number : Option (RpcAddress × ℕ) → RpcState → RpcState
cancel_number none s = s
cancel_number (some (a, n)) s = cancel_send_async_number a n s

unfoldable pub rollback_outgoing : Body → Option (RpcAddress × ℕ) → Endpoint → Endpoint
rollback_outgoing b oneway e = record e {
  state = cancel_all b.leaving (cancel_number oneway e.state);
}

abbrev pub oneway_number : Call → ℕ → Option (RpcAddress × ℕ)
oneway_number c n = if is_oneway c.flags then some (c.address, n) else none

abbrev pub wire_transaction : Call → ℕ → WireTransaction
wire_transaction c n = record {
  address = c.address;
  code = c.code;
  flags = c.flags;
  async_number = n;
  payload = c.body.payload;
  object_positions = c.body.object_positions;
}

abbrev pub take_number : Call → Endpoint → Endpoint × ℕ
take_number c e =
    if is_oneway c.flags
    then (
      record e { state = (next_send_async_number c.address e.state).0 },
      (next_send_async_number c.address e.state).1,
    )
    else (e, 0)

abbrev pub wire_reply : ℤ → Body → WireReply
wire_reply n b = record { status = n; payload = b.payload; object_positions = b.object_positions }
