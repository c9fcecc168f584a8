-- ===== src/Rpc/Calls/Loop.antt =====
-- The reply loop of `client_transact` and the dispatch of an inbound transaction, which call each other:
-- `execute_dispatched`, `dispatch_oneway_ordered`, `send_reply`, `queue_dec_strong`, `serve_once_on_slot`
-- (rsbinder/src/rpc/session.rs). The fuel bounds the depth of the recursion.
use rsbinder.Prelude.{ℕ, Bool, true, false, List, [], Option, none, some, ◌==◌, if◌then◌else◌}
use rsbinder.Prelude.Int.{pos}
use rsbinder.Status.{
  StatusCode, bad_value, dead_object, eq_int, failed_transaction, from_i32, not_enough_data,
  rpc_error, timed_out, to_i32,
}
use rsbinder.Rpc.Result.{
  RpcError, peer_closed, truncated, frame_too_large, io, protocol, timeout, Result, ok, err,
}
use rsbinder.Rpc.Address.{RpcAddress, is_zero}
use rsbinder.Rpc.Wire.Readers.{WireTransaction, WireReply, WireMessage, transact, reply, dec_strong}
use rsbinder.Rpc.State.Nodes.{AsyncTodo, lookup_local, dec_strong_local}
use rsbinder.Rpc.State.Async.{
  AsyncDecision, dispatch, enqueued, dropped, terminate, dispatch_async_or_enqueue,
  advance_and_pop_async,
}
use rsbinder.Rpc.Calls.{
  Body, Call, Answer, sent, replied, failed, stuck, Program, Handlers, Host, Endpoint, Done,
  handled, broken, Finish, finished, refused, no_body, is_oneway, interface_transaction,
  ping_transaction, send_msg, set_read_timeout, poison_slot, rollback_outgoing, oneway_number,
  wire_transaction, take_number, wire_reply,
}

module _ (host : Host) where
  -- `impl From<RpcError> for StatusCode`.
  unfoldable pub status_of : RpcError → StatusCode
  status_of peer_closed = dead_object
  status_of truncated = not_enough_data
  status_of (frame_too_large declared max) = bad_value
  status_of (io k) = host.io_status k
  status_of (protocol why) = rpc_error
  status_of timeout = timed_out

  abbrev pub reply_sent : Result (Unit {0}) × Endpoint → Done × Endpoint
  reply_sent (ok u, e) = (handled, e)
  reply_sent (err x, e) = (broken (status_of x), e)

  abbrev pub encoded_reply : Result (List ℕ) → Endpoint → Done × Endpoint
  encoded_reply (ok frame) e = reply_sent (send_msg frame e)
  encoded_reply (err x) e = (broken (status_of x), e)

  unfoldable pub send_reply : WireReply → Endpoint → Done × Endpoint
  send_reply r e = encoded_reply (host.encode (reply r)) e

  -- A reply that was not sent gives back what its body has counted.
  abbrev pub undone : Body → Done × Endpoint → Done × Endpoint
  undone b (handled, e) = (handled, e)
  undone b (broken c, e) = (broken c, rollback_outgoing b none e)
  undone b (Done.unfinished, e) = (Done.unfinished, e)

  -- What follows the user's code.
  abbrev pub performed : Bool → Finish × Endpoint → Done × Endpoint
  performed oneway (Finish.unfinished, e) = (Done.unfinished, e)
  performed true (finished b, e) = (handled, rollback_outgoing b none e)
  performed true (refused c b, e) = (handled, rollback_outgoing b none e)
  performed false (finished b, e) = undone b (send_reply (wire_reply (pos 0) b) e)
  performed false (refused c b, e) =
      send_reply (wire_reply (to_i32 host.errnos c) no_body) (rollback_outgoing b none e)

  -- The transactions that are answered before the user's code: whether it is the one for the descriptor,
  -- and whether it is a ping.
  abbrev pub by_code :
      Handlers
      → (Program → Endpoint → Finish × Endpoint)
      → Bool
      → Bool
      → ℕ
      → WireTransaction
      → Endpoint
      → Done × Endpoint
  by_code h run true ping b t e = send_reply (wire_reply (pos 0) (h.descriptor b)) e
  by_code h run false true b t e = send_reply (wire_reply (pos 0) no_body) e
  by_code h run false false b t e = performed false (run (h.handle b t) e)

  abbrev pub control :
      Handlers
      → (Program → Endpoint → Finish × Endpoint)
      → Bool
      → ℕ
      → WireTransaction
      → Endpoint
      → Done × Endpoint
  control h run true b t e = performed true (run (h.handle b t) e)
  control h run false b t e =
      by_code h run (t.code == interface_transaction) (t.code == ping_transaction) b t e

  abbrev pub at_target :
      Handlers
      → (Program → Endpoint → Finish × Endpoint)
      → Bool
      → Option ℕ
      → WireTransaction
      → Endpoint
      → Done × Endpoint
  at_target h run oneway (some b) t e = control h run oneway b t e
  at_target h run true none t e = (handled, e)
  at_target h run false none t e =
      send_reply (wire_reply (to_i32 host.errnos dead_object) no_body) e

  abbrev pub execute_dispatched :
      Handlers
      → (Program → Endpoint → Finish × Endpoint)
      → Bool
      → WireTransaction
      → Endpoint
      → Done × Endpoint
  execute_dispatched h run oneway t e = at_target h run oneway (lookup_local t.address e.state) t e

  abbrev pub serve_special : Handlers → Bool → WireTransaction → Endpoint → Done × Endpoint
  serve_special h true t e = (handled, e)
  serve_special h false t e = send_reply (h.special t) e

  abbrev pub transaction_of : Option AsyncTodo → Option WireTransaction
  transaction_of none = none
  transaction_of (some todo) = some todo.transaction

  -- The turn of the loop that replays parked transactions, after one was at_target.
  abbrev pub drained :
      (Option WireTransaction → Endpoint → Done × Endpoint)
      → RpcAddress
      → Done × Endpoint
      → Done × Endpoint
  drained again addr (handled, e) =
      again (transaction_of (advance_and_pop_async addr e.state).1)
        (record e { state = (advance_and_pop_async addr e.state).0 })
  drained again addr (broken c, e) = (broken c, e)
  drained again addr (Done.unfinished, e) = (Done.unfinished, e)

  abbrev pub follow :
      (Option WireTransaction → Endpoint → Done × Endpoint)
      → AsyncDecision
      → Endpoint
      → Done × Endpoint
  follow drain (dispatch t fds) e = drain (some t) e
  follow drain enqueued e = (handled, e)
  follow drain (dropped reason) e = (handled, e)
  follow drain (terminate n) e = (broken failed_transaction, e)

  abbrev pub dispatch_oneway_ordered :
      (Option WireTransaction → Endpoint → Done × Endpoint)
      → WireTransaction
      → Endpoint
      → Done × Endpoint
  dispatch_oneway_ordered drain t e =
      let gated = dispatch_async_or_enqueue t.address t.async_number t [] e.state in
      follow drain gated.1 (record e { state = gated.0 })

  -- Whether the address is zero, and whether the transaction is oneway.
  abbrev pub by_kind :
      Handlers
      → (Program → Endpoint → Finish × Endpoint)
      → (Option WireTransaction → Endpoint → Done × Endpoint)
      → Bool
      → Bool
      → WireTransaction
      → Endpoint
      → Done × Endpoint
  by_kind h run drain true oneway t e = serve_special h oneway t e
  by_kind h run drain false true t e = dispatch_oneway_ordered drain t e
  by_kind h run drain false false t e = execute_dispatched h run false t e

  -- `dispatch_transact`, over the user's code and the replay loop.
  abbrev pub dispatched :
      Handlers
      → (Program → Endpoint → Finish × Endpoint)
      → (Option WireTransaction → Endpoint → Done × Endpoint)
      → WireTransaction
      → Endpoint
      → Done × Endpoint
  dispatched h run drain t e = by_kind h run drain (is_zero t.address) (is_oneway t.flags) t e

  abbrev pub answer_of : WireReply → Answer
  answer_of r =
      if eq_int r.status (pos 0) then replied r else failed (from_i32 host.errnos r.status)

  -- The guard that restores the deadline, when it is dropped.
  abbrev pub restored : Endpoint → Endpoint
  restored e = (set_read_timeout e).1

  abbrev pub nested : (Endpoint → Answer × Endpoint) → Bool → Done × Endpoint → Answer × Endpoint
  nested again reentrant (handled, e) = again (restored e)
  nested again reentrant (broken c, e) = (failed c, restored (poison_slot reentrant e))
  nested again reentrant (Done.unfinished, e) = (stuck, e)

  -- The nested call, once the deadline is lifted; a failure of that returns at once.
  abbrev pub lifted :
      (Endpoint → Answer × Endpoint)
      → (WireTransaction → Endpoint → Done × Endpoint)
      → Bool
      → WireTransaction
      → Result (Unit {0}) × Endpoint
      → Answer × Endpoint
  lifted again serve reentrant t (ok u, e) = nested again reentrant (serve t e)
  lifted again serve reentrant t (err x, e) = (failed (status_of x), e)

  abbrev pub on_message :
      (Endpoint → Answer × Endpoint)
      → (WireTransaction → Endpoint → Done × Endpoint)
      → Bool
      → Result WireMessage
      → Endpoint
      → Answer × Endpoint
  on_message again serve reentrant (err x) e = (failed (status_of x), poison_slot reentrant e)
  on_message again serve reentrant (ok (reply r)) e = (answer_of r, e)
  on_message again serve reentrant (ok (dec_strong a n)) e =
      again (record e { state = (dec_strong_local a n e.state).0 })
  on_message again serve reentrant (ok (transact t)) e =
      lifted again serve reentrant t (set_read_timeout e)

  -- One turn of the reply loop.
  abbrev pub received :
      (Endpoint → Answer × Endpoint)
      → (WireTransaction → Endpoint → Done × Endpoint)
      → Bool
      → Result (List ℕ) × Endpoint
      → Answer × Endpoint
  received again serve reentrant (err x, e) = (failed (status_of x), poison_slot reentrant e)
  received again serve reentrant (ok frame, e) =
      on_message again serve reentrant (host.decode_message frame) e

  abbrev pub disarmed : Answer × Endpoint → Answer × Endpoint
  disarmed (a, e) = (a, restored e)

  abbrev pub armed :
      (Endpoint → Answer × Endpoint) → Result (Unit {0}) × Endpoint → Answer × Endpoint
  armed wait (ok u, e) = disarmed (wait e)
  armed wait (err x, e) = (failed (status_of x), e)

  -- A oneway call returns here.
  abbrev pub answered : (Endpoint → Answer × Endpoint) → Bool → Endpoint → Answer × Endpoint
  answered wait true e = (sent, e)
  answered wait false e = armed wait (set_read_timeout e)

  abbrev pub request_sent :
      (Endpoint → Answer × Endpoint) → Call → ℕ → Result (Unit {0}) × Endpoint → Answer × Endpoint
  request_sent wait c n (err x, e) =
      (failed (status_of x), rollback_outgoing c.body (oneway_number c n) e)
  request_sent wait c n (ok u, e) = answered wait (is_oneway c.flags) e

  abbrev pub encoded :
      (Endpoint → Answer × Endpoint) → Call → ℕ → Result (List ℕ) → Endpoint → Answer × Endpoint
  encoded wait c n (err x) e =
      (failed (status_of x), rollback_outgoing c.body (oneway_number c n) e)
  encoded wait c n (ok frame) e = request_sent wait c n (send_msg frame e)

  abbrev pub start_call : (Endpoint → Answer × Endpoint) → Call → Endpoint → Answer × Endpoint
  start_call wait c e =
      let numbered = take_number c e in
      encoded wait c numbered.1 (host.encode (transact (wire_transaction c numbered.1))) numbered.0

  -- The drop of a proxy: an error of the send is ignored.
  abbrev pub dropped_proxy : Result (List ℕ) → Endpoint → Endpoint
  dropped_proxy (ok frame) e = (send_msg frame e).1
  dropped_proxy (err x) e = e

  unfoldable pub queue_dec_strong : RpcAddress → Endpoint → Endpoint
  queue_dec_strong a e = dropped_proxy (host.encode (dec_strong a 1)) e

  abbrev pub called :
      (Program → Endpoint → Finish × Endpoint)
      → (Answer → Program)
      → Answer × Endpoint
      → Finish × Endpoint
  called run next (stuck, e) = (Finish.unfinished, e)
  called run next (a, e) = run (next a) e
