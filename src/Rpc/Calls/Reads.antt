-- ===== src/Rpc/Calls/Reads.antt =====
-- What the dispatch of a transaction takes from the connection: frames, from the front.
use rsbinder.Prelude.{
  ℕ, ◌≡◌, refl, sym, ap, ◌∙◌, Bool, true, false, List, [], ◌∷◌, ◌++◌, Option, none, some, arith,
}
use rsbinder.Rpc.Result.{Result, ok, err}
use rsbinder.Rpc.Address.{RpcAddress}
use rsbinder.Rpc.Wire.Readers.{WireTransaction, WireReply, reply}
use rsbinder.Rpc.State.Nodes.{lookup_local}
use rsbinder.Rpc.State.Async.{AsyncDecision, dispatch, enqueued, dropped, terminate}
use rsbinder.Rpc.Calls.{
  Body, Call, Program, Handlers, Host, Endpoint, Done, handled, broken, Finish, finished, refused,
  set_read_timeout, poison_slot, rollback_outgoing, send_msg, take_number, later,
}
use rsbinder.Rpc.Calls.Loop.{
  reply_sent, encoded_reply, send_reply, undone, performed, by_code, at_target, execute_dispatched,
  drained, follow, by_kind,
}

abbrev pub Frames : Type 0
Frames = List (Result (List ℕ))

-- What is left to be read is the end of what there was.
abbrev pub Reads : Frames → Frames → Type 0
Reads xs ys = (front : Frames) × (xs ≡ front ++ ys)

pub Reads_refl : (xs : Frames) → Reads xs xs
Reads_refl xs = ([], refl)

append_assoc : (xs ys zs : Frames) → (xs ++ ys) ++ zs ≡ xs ++ (ys ++ zs)
append_assoc [] ys zs = refl
append_assoc (x ∷ xs) ys zs = ap (λ l. x ∷ l) (append_assoc xs ys zs)

pub Reads_trans : (xs ys zs : Frames) → Reads xs ys → Reads ys zs → Reads xs zs
Reads_trans xs ys zs (f, p) (g, q) = (f ++ g, p ∙ ap (λ l. f ++ l) q ∙ sym (append_assoc f g zs))

pub set_read_timeout-inbound : (e : Endpoint) → (set_read_timeout e).1.inbound ≡ e.inbound
set_read_timeout-inbound e = ground arith

pub poison_slot-inbound : (b : Bool) (e : Endpoint) → (poison_slot b e).inbound ≡ e.inbound
poison_slot-inbound true e = refl
poison_slot-inbound false e = refl

pub take_number-inbound : (c : Call) (e : Endpoint) → (take_number c e).0.inbound ≡ e.inbound
take_number-inbound c e = ground arith

pub later-Reads : (xs ys : Frames) → xs ≡ ys → Reads xs (later ys)
later-Reads xs [] p = ([], p)
later-Reads xs (y ∷ ys) p = (y ∷ [], p)

module _ (host : Host) (xs : Frames) where
  reply_sent-Reads :
      (r : Result (Unit {0}) × Endpoint)
      → Reads xs r.1.inbound
      → Reads xs (reply_sent host r).1.inbound
  reply_sent-Reads (ok u, e) h = h
  reply_sent-Reads (err x, e) h = h

  encoded_reply-Reads :
      (r : Result (List ℕ)) (e : Endpoint)
      → Reads xs e.inbound
      → Reads xs (encoded_reply host r e).1.inbound
  encoded_reply-Reads (ok frame) e h = reply_sent-Reads (send_msg frame e) h
  encoded_reply-Reads (err x) e h = h

  pub send_reply-Reads :
      (r : WireReply) (e : Endpoint) → Reads xs e.inbound → Reads xs (send_reply host r e).1.inbound
  unfolding send_reply
  send_reply-Reads r e h = encoded_reply-Reads (host.encode (reply r)) e h

  undone-Reads :
      (b : Body) (r : Done × Endpoint) → Reads xs r.1.inbound → Reads xs (undone host b r).1.inbound
  unfolding rollback_outgoing
  undone-Reads b (handled, e) h = h
  undone-Reads b (broken c, e) h = h
  undone-Reads b (Done.unfinished, e) h = h

  performed-Reads :
      (oneway : Bool) (r : Finish × Endpoint)
      → Reads xs r.1.inbound
      → Reads xs (performed host oneway r).1.inbound
  unfolding rollback_outgoing
  performed-Reads oneway (Finish.unfinished, e) h = h
  performed-Reads true (finished b, e) h = h
  performed-Reads true (refused c b, e) h = h
  performed-Reads false (finished b, e) h = undone-Reads b _ (send_reply-Reads _ e h)
  performed-Reads false (refused c b, e) h = send_reply-Reads _ (rollback_outgoing b none e) h

  module _ (hs : Handlers) (run : Program → Endpoint → Finish × Endpoint)
      (ran : (p : Program) (e : Endpoint) → Reads xs e.inbound → Reads xs (run p e).1.inbound) where
    by_code-Reads :
        (i ping : Bool) (b : ℕ) (t : WireTransaction) (e : Endpoint)
        → Reads xs e.inbound
        → Reads xs (by_code host hs run i ping b t e).1.inbound
    by_code-Reads true ping b t e h = send_reply-Reads _ e h
    by_code-Reads false true b t e h = send_reply-Reads _ e h
    by_code-Reads false false b t e h = performed-Reads false _ (ran _ e h)

    at_target-Reads :
        (oneway : Bool) (o : Option ℕ) (t : WireTransaction) (e : Endpoint)
        → Reads xs e.inbound
        → Reads xs (at_target host hs run oneway o t e).1.inbound
    at_target-Reads true (some b) t e h = performed-Reads true _ (ran _ e h)
    at_target-Reads false (some b) t e h = by_code-Reads _ _ b t e h
    at_target-Reads true none t e h = h
    at_target-Reads false none t e h = send_reply-Reads _ e h

    pub execute_dispatched-Reads :
        (oneway : Bool) (t : WireTransaction) (e : Endpoint)
        → Reads xs e.inbound
        → Reads xs (execute_dispatched host hs run oneway t e).1.inbound
    execute_dispatched-Reads oneway t e h =
        at_target-Reads oneway (lookup_local t.address e.state) t e h

    module _ (drain : Option WireTransaction → Endpoint → Done × Endpoint)
        (dr : (o : Option WireTransaction) (e : Endpoint)
          → Reads xs e.inbound
          → Reads xs (drain o e).1.inbound) where
      follow-Reads :
          (d : AsyncDecision) (e : Endpoint)
          → Reads xs e.inbound
          → Reads xs (follow host drain d e).1.inbound
      follow-Reads (dispatch t fds) e h = dr (some t) e h
      follow-Reads enqueued e h = h
      follow-Reads (dropped reason) e h = h
      follow-Reads (terminate n) e h = h

      pub drained-Reads :
          (addr : RpcAddress) (r : Done × Endpoint)
          → Reads xs r.1.inbound
          → Reads xs (drained host drain addr r).1.inbound
      drained-Reads addr (handled, e) h = dr _ _ h
      drained-Reads addr (broken c, e) h = h
      drained-Reads addr (Done.unfinished, e) h = h

      pub by_kind-Reads :
          (special oneway : Bool) (t : WireTransaction) (e : Endpoint)
          → Reads xs e.inbound
          → Reads xs (by_kind host hs run drain special oneway t e).1.inbound
      by_kind-Reads true true t e h = h
      by_kind-Reads true false t e h = send_reply-Reads _ e h
      by_kind-Reads false true t e h = follow-Reads _ _ h
      by_kind-Reads false false t e h = execute_dispatched-Reads false t e h
