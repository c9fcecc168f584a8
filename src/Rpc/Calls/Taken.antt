-- ===== src/Rpc/Calls/Taken.antt =====
-- What a whole call takes from the connection, whatever it comes to: frames, from the front.
use rsbinder.Prelude.{ℕ, zero, suc, refl, Bool, true, false, List, Option, none, some}
use rsbinder.Rpc.Result.{Result, ok, err}
use rsbinder.Rpc.Address.{RpcAddress, is_zero}
use rsbinder.Rpc.Wire.Readers.{WireTransaction, WireMessage, transact, reply, dec_strong}
use rsbinder.Rpc.Calls.{
  Call, Answer, sent, replied, failed, stuck, Program, returns, fails, calls, drops, Handlers, Host,
  Endpoint, Done, handled, broken, Finish, is_oneway, set_read_timeout, poison_slot,
  rollback_outgoing, recv_msg, take_number, wire_transaction, later,
}
use rsbinder.Rpc.Calls.Loop.{
  nested, lifted, on_message, received, armed, answered, request_sent, encoded, start_call,
  dropped_proxy, queue_dec_strong, called,
}
use rsbinder.Rpc.Calls.Run.{client_transact, wait_reply, dispatch_transact, replay_parked, perform}
use rsbinder.Rpc.Calls.Reads.{
  Frames, Reads, Reads_trans, set_read_timeout-inbound, poison_slot-inbound, take_number-inbound,
  later-Reads, execute_dispatched-Reads, drained-Reads, by_kind-Reads,
}

module _ (host : Host) (xs : Frames) where
  module _ (again : Endpoint → Answer × Endpoint)
      (ag : (e : Endpoint) → Reads xs e.inbound → Reads xs (again e).1.inbound) where
    module _ (serve : WireTransaction → Endpoint → Done × Endpoint)
        (sv : (t : WireTransaction) (e : Endpoint)
          → Reads xs e.inbound
          → Reads xs (serve t e).1.inbound) where
      nested-Reads :
          (b : Bool) (r : Done × Endpoint)
          → Reads xs r.1.inbound
          → Reads xs (nested host again b r).1.inbound
      nested-Reads b (handled, e) h = ag _ (rw (set_read_timeout-inbound e) h)
      nested-Reads b (broken c, e) h =
          rw (set_read_timeout-inbound (poison_slot b e), poison_slot-inbound b e) h
      nested-Reads b (Done.unfinished, e) h = h

      lifted-Reads :
          (b : Bool) (t : WireTransaction) (r : Result (Unit {0}) × Endpoint)
          → Reads xs r.1.inbound
          → Reads xs (lifted host again serve b t r).1.inbound
      lifted-Reads b t (ok u, e) h = nested-Reads b _ (sv t e h)
      lifted-Reads b t (err x, e) h = h

      on_message-Reads :
          (b : Bool) (m : Result WireMessage) (e : Endpoint)
          → Reads xs e.inbound
          → Reads xs (on_message host again serve b m e).1.inbound
      on_message-Reads b (err x) e h = rw (poison_slot-inbound b e) h
      on_message-Reads b (ok (reply r)) e h = h
      on_message-Reads b (ok (dec_strong a n)) e h = ag _ h
      on_message-Reads b (ok (transact t)) e h =
          lifted-Reads b t (set_read_timeout e) (rw (set_read_timeout-inbound e) h)

      received-Reads :
          (b : Bool) (r : Result (List ℕ) × Endpoint)
          → Reads xs r.1.inbound
          → Reads xs (received host again serve b r).1.inbound
      received-Reads b (err x, e) h = rw (poison_slot-inbound b e) h
      received-Reads b (ok frame, e) h = on_message-Reads b _ e h

    armed-Reads :
        (r : Result (Unit {0}) × Endpoint)
        → Reads xs r.1.inbound
        → Reads xs (armed host again r).1.inbound
    armed-Reads (ok u, e) h = rw (set_read_timeout-inbound (again e).1) (ag e h)
    armed-Reads (err x, e) h = h

    answered-Reads :
        (oneway : Bool) (e : Endpoint)
        → Reads xs e.inbound
        → Reads xs (answered host again oneway e).1.inbound
    answered-Reads true e h = h
    answered-Reads false e h = armed-Reads (set_read_timeout e) (rw (set_read_timeout-inbound e) h)

    request_sent-Reads :
        (c : Call) (n : ℕ) (r : Result (Unit {0}) × Endpoint)
        → Reads xs r.1.inbound
        → Reads xs (request_sent host again c n r).1.inbound
    unfolding rollback_outgoing
    request_sent-Reads c n (err x, e) h = h
    request_sent-Reads c n (ok u, e) h = answered-Reads (is_oneway c.flags) e h

    encoded-Reads :
        (c : Call) (n : ℕ) (r : Result (List ℕ)) (e : Endpoint)
        → Reads xs e.inbound
        → Reads xs (encoded host again c n r e).1.inbound
    unfolding rollback_outgoing
    encoded-Reads c n (err x) e h = h
    encoded-Reads c n (ok frame) e h = request_sent-Reads c n _ h

    start_call-Reads :
        (c : Call) (e : Endpoint)
        → Reads xs e.inbound
        → Reads xs (start_call host again c e).1.inbound
    start_call-Reads c e h =
        encoded-Reads c (take_number c e).1
          (host.encode (transact (wire_transaction c (take_number c e).1))) (take_number c e).0
          (rw (take_number-inbound c e) h)

  dropped_proxy-Reads :
      (r : Result (List ℕ)) (e : Endpoint)
      → Reads xs e.inbound
      → Reads xs (dropped_proxy host r e).inbound
  dropped_proxy-Reads (ok frame) e h = h
  dropped_proxy-Reads (err x) e h = h

  queue_dec_strong-Reads :
      (a : RpcAddress) (e : Endpoint)
      → Reads xs e.inbound
      → Reads xs (queue_dec_strong host a e).inbound
  unfolding queue_dec_strong
  queue_dec_strong-Reads a e h = dropped_proxy-Reads _ e h

  called-Reads :
      (run : Program → Endpoint → Finish × Endpoint)
      → ((p : Program) (e : Endpoint) → Reads xs e.inbound → Reads xs (run p e).1.inbound)
      → (next : Answer → Program) (r : Answer × Endpoint) → Reads xs r.1.inbound
      → Reads xs (called host run next r).1.inbound
  called-Reads run ran next (stuck, e) h = h
  called-Reads run ran next (sent, e) h = ran _ e h
  called-Reads run ran next (replied r, e) h = ran _ e h
  called-Reads run ran next (failed c, e) h = ran _ e h

-- Every part of a call, for all that it can do.
mutual
  unfolding client_transact

  client_transact-Reads :
      (host : Host) (h : Handlers) (n : ℕ) (b : Bool) (c : Call) (xs : Frames) (e : Endpoint)
      → Reads xs e.inbound
      → Reads xs (client_transact host h n b c e).1.inbound
  client_transact-Reads host h zero b c xs e r = r
  client_transact-Reads host h (suc n) b c xs e r =
      start_call-Reads host xs (λ e'. wait_reply host h n b e')
        (λ e' s. wait_reply-Reads host h n b xs e' s) c e r

  wait_reply-Reads :
      (host : Host) (h : Handlers) (n : ℕ) (b : Bool) (xs : Frames) (e : Endpoint)
      → Reads xs e.inbound
      → Reads xs (wait_reply host h n b e).1.inbound
  wait_reply-Reads host h zero b xs e r = r
  wait_reply-Reads host h (suc n) b xs e r =
      received-Reads host xs (λ e'. wait_reply host h n b e')
        (λ e' s. wait_reply-Reads host h n b xs e' s) (λ t e'. dispatch_transact host h n t e')
        (λ t e' s. dispatch_transact-Reads host h n t xs e' s) b (recv_msg e)
        (Reads_trans xs e.inbound (later e.inbound) r (later-Reads e.inbound e.inbound refl))

  pub dispatch_transact-Reads :
      (host : Host) (h : Handlers) (n : ℕ) (t : WireTransaction) (xs : Frames) (e : Endpoint)
      → Reads xs e.inbound
      → Reads xs (dispatch_transact host h n t e).1.inbound
  dispatch_transact-Reads host h zero t xs e r = r
  dispatch_transact-Reads host h (suc n) t xs e r =
      by_kind-Reads host xs h (λ p e'. perform host h n p e')
        (λ p e' s. perform-Reads host h n p xs e' s) (λ o e'. replay_parked host h n t.address o e')
        (λ o e' s. replay_parked-Reads host h n t.address o xs e' s) (is_zero t.address)
        (is_oneway t.flags) t e r

  replay_parked-Reads :
      (host : Host) (h : Handlers) (n : ℕ) (addr : RpcAddress) (o : Option WireTransaction)
      (xs : Frames) (e : Endpoint)
      → Reads xs e.inbound
      → Reads xs (replay_parked host h n addr o e).1.inbound
  replay_parked-Reads host h zero addr o xs e r = r
  replay_parked-Reads host h (suc n) addr none xs e r = r
  replay_parked-Reads host h (suc n) addr (some t) xs e r =
      drained-Reads host xs h (λ p e'. perform host h n p e')
        (λ p e' s. perform-Reads host h n p xs e' s) (λ o e'. replay_parked host h n addr o e')
        (λ o e' s. replay_parked-Reads host h n addr o xs e' s) addr _
        (execute_dispatched-Reads host xs h (λ p e'. perform host h n p e')
          (λ p e' s. perform-Reads host h n p xs e' s) true t e r)

  perform-Reads :
      (host : Host) (h : Handlers) (n : ℕ) (p : Program) (xs : Frames) (e : Endpoint)
      → Reads xs e.inbound
      → Reads xs (perform host h n p e).1.inbound
  perform-Reads host h zero p xs e r = r
  perform-Reads host h (suc n) (returns b) xs e r = r
  perform-Reads host h (suc n) (fails c b) xs e r = r
  perform-Reads host h (suc n) (calls c next) xs e r =
      called-Reads host xs (λ p e'. perform host h n p e')
        (λ p e' s. perform-Reads host h n p xs e' s) next _
        (client_transact-Reads host h n true c xs e r)
  perform-Reads host h (suc n) (drops a p) xs e r =
      perform-Reads host h n p xs _ (queue_dec_strong-Reads host xs a e r)
