-- ===== src/Rpc/Calls/Run.antt =====
-- The calls of one thread over one connection, tied together (rsbinder/src/rpc/session.rs).
use rsbinder.Prelude.{ℕ, zero, suc, Bool, true, List, Option, none, some}
use rsbinder.Rpc.Result.{peer_closed, Result, ok, err}
use rsbinder.Rpc.Address.{RpcAddress}
use rsbinder.Rpc.Wire.Readers.{WireTransaction, WireMessage, transact, reply, dec_strong}
use rsbinder.Rpc.State.Nodes.{dec_strong_local}
use rsbinder.Status.{StatusCode}
use rsbinder.Rpc.Calls.{
  Call, Answer, stuck, Program, returns, fails, calls, drops, Handlers, Host, Endpoint, Done,
  handled, broken, Finish, finished, refused, recv_msg,
}
use rsbinder.Rpc.Calls.Loop.{
  status_of, execute_dispatched, drained, dispatched, received, start_call, queue_dec_strong,
  called,
}

unfoldable mutual
  pub client_transact : Host → Handlers → ℕ → Bool → Call → Endpoint → Answer × Endpoint
  client_transact host h zero reentrant c e = (stuck, e)
  client_transact host h (suc n) reentrant c e =
      start_call host (λ e'. wait_reply host h n reentrant e') c e

  -- The loop that waits for the reply.
  pub wait_reply : Host → Handlers → ℕ → Bool → Endpoint → Answer × Endpoint
  wait_reply host h zero reentrant e = (stuck, e)
  wait_reply host h (suc n) reentrant e =
      received host (λ e'. wait_reply host h n reentrant e')
        (λ t e'. dispatch_transact host h n t e') reentrant (recv_msg e)

  pub dispatch_transact : Host → Handlers → ℕ → WireTransaction → Endpoint → Done × Endpoint
  dispatch_transact host h zero t e = (Done.unfinished, e)
  dispatch_transact host h (suc n) t e =
      dispatched host h (λ p e'. perform host h n p e')
        (λ o e'. replay_parked host h n t.address o e') t e

  -- The `while let` of `dispatch_oneway_ordered`.
  pub replay_parked :
      Host → Handlers → ℕ → RpcAddress → Option WireTransaction → Endpoint → Done × Endpoint
  replay_parked host h zero addr o e = (Done.unfinished, e)
  replay_parked host h (suc n) addr none e = (handled, e)
  replay_parked host h (suc n) addr (some t) e =
      drained host (λ o e'. replay_parked host h n addr o e') addr
        (execute_dispatched host h (λ p e'. perform host h n p e') true t e)

  -- The user's code.
  pub perform : Host → Handlers → ℕ → Program → Endpoint → Finish × Endpoint
  perform host h zero p e = (Finish.unfinished, e)
  perform host h (suc n) (returns b) e = (finished b, e)
  perform host h (suc n) (fails c b) e = (refused c b, e)
  perform host h (suc n) (calls c next) e =
      called host (λ p e'. perform host h n p e') next (client_transact host h n true c e)
  perform host h (suc n) (drops a p) e = perform host h n p (queue_dec_strong host a e)

-- `Ok(true)`, `Ok(false)` for a closed peer, or an error.
pub data Served : Type 0 where
  served closed : Served
  ended : StatusCode → Served
  stopped : Served

abbrev pub served_of : Done × Endpoint → Served × Endpoint
served_of (handled, e) = (served, e)
served_of (broken c, e) = (ended c, e)
served_of (Done.unfinished, e) = (stopped, e)

abbrev pub serve_message : Host → Handlers → ℕ → Result WireMessage → Endpoint → Served × Endpoint
serve_message host h n (ok (transact t)) e = served_of (dispatch_transact host h n t e)
serve_message host h n (ok (dec_strong a k)) e =
    (served, record e { state = (dec_strong_local a k e.state).0 })
serve_message host h n (ok (reply r)) e = (served, e)
serve_message host h n (err x) e = (ended (status_of host x), e)

abbrev pub serve_frame : Host → Handlers → ℕ → Result (List ℕ) × Endpoint → Served × Endpoint
serve_frame host h n (ok frame, e) = serve_message host h n (host.decode_message frame) e
serve_frame host h n (err peer_closed, e) = (closed, e)
serve_frame host h n (err x, e) = (ended (status_of host x), e)

unfoldable pub serve_once_on_slot : Host → Handlers → ℕ → Endpoint → Served × Endpoint
serve_once_on_slot host h n e = serve_frame host h n (recv_msg e)
