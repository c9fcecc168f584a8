-- ===== src/Rpc/Calls/Ends.antt =====
-- How the outermost wait for a reply can end.
use rsbinder.Prelude.{arith, ℕ, zero, suc, ◌≡◌, refl, true, false, List, [], ◌∷◌}
use rsbinder.Status.{StatusCode}
use rsbinder.Rpc.Result.{RpcError, peer_closed, Result, ok, err}
use rsbinder.Rpc.Wire.Readers.{WireTransaction, WireReply, WireMessage, transact, reply, dec_strong}
use rsbinder.Rpc.Calls.{
  Answer, failed, stuck, Handlers, Host, Endpoint, Done, handled, broken, set_read_timeout,
  poison_slot, incoming, later,
}
use rsbinder.Rpc.Calls.Loop.{status_of, answer_of, restored, nested, lifted, on_message, received}
use rsbinder.Rpc.Calls.Run.{wait_reply, dispatch_transact}
use rsbinder.Rpc.Calls.Reads.{Frames, Reads, Reads_refl, Reads_trans, set_read_timeout-inbound}
use rsbinder.Rpc.Calls.Taken.{dispatch_transact-Reads}

-- How the wait ends from an endpoint with the frames `xs` to read. With a reply: the last frame that was
-- read decodes to it. Without fuel. With the slot retired from the pool. Or with the deadline not lifted
-- for a nested call, which is what the last frame decodes to.
pub data WaitEnd (host : Host) (xs : Frames) : Answer × Endpoint → Type 0 where
  by_reply :
      (frame : List ℕ) (r : WireReply) (e : Endpoint)
      → Reads xs (ok frame ∷ e.inbound)
      → host.decode_message frame ≡ ok (reply r)
      → WaitEnd host xs (answer_of host r, e)
  by_fuel : (e : Endpoint) → WaitEnd host xs (stuck, e)
  by_retiring :
      (code : StatusCode) (e : Endpoint) → e.removed ≡ true → WaitEnd host xs (failed code, e)
  by_timer :
      (frame : List ℕ) (t : WireTransaction) (x : RpcError) (e : Endpoint)
      → Reads xs (ok frame ∷ e.inbound)
      → host.decode_message frame ≡ ok (transact t)
      → (set_read_timeout e).0 ≡ err x
      → WaitEnd host xs (failed (status_of host x), (set_read_timeout e).1)

restored-removed : (host : Host) (e : Endpoint) → (restored host e).removed ≡ e.removed
restored-removed host e = ground arith

behind :
    {xs : Frames} (frame : List ℕ) (e : Endpoint)
    → Reads xs (ok frame ∷ e.inbound)
    → Reads xs e.inbound
behind {xs} frame e h = Reads_trans xs (ok frame ∷ e.inbound) e.inbound h (ok frame ∷ [], refl)

module _ (host : Host) (xs : Frames) (again : Endpoint → Answer × Endpoint)
    (serve : WireTransaction → Endpoint → Done × Endpoint)
    (ih : (e : Endpoint) → Reads xs e.inbound → WaitEnd host xs (again e))
    (sv : (t : WireTransaction) (e : Endpoint)
      → Reads xs e.inbound
      → Reads xs (serve t e).1.inbound) where
  nested-WaitEnd :
      (r : Done × Endpoint) → Reads xs r.1.inbound → WaitEnd host xs (nested host again false r)
  nested-WaitEnd (handled, e) h = ih (restored host e) (rw (set_read_timeout-inbound e) h)
  nested-WaitEnd (broken c, e) h =
      by_retiring c (restored host (poison_slot false e))
        (restored-removed host (poison_slot false e))
  nested-WaitEnd (Done.unfinished, e) h = by_fuel e

  lifted-WaitEnd :
      (frame : List ℕ) (t : WireTransaction) (e : Endpoint) (r : Result (Unit {0}))
      → Reads xs (ok frame ∷ e.inbound)
      → host.decode_message frame ≡ ok (transact t)
      → (set_read_timeout e).0 ≡ r
      → WaitEnd host xs (lifted host again serve false t (r, (set_read_timeout e).1))
  lifted-WaitEnd frame t e (ok u) h d q =
      nested-WaitEnd (serve t (set_read_timeout e).1)
        (sv t (set_read_timeout e).1 (rw (set_read_timeout-inbound e) (behind frame e h)))
  lifted-WaitEnd frame t e (err x) h d q = by_timer frame t x e h d q

  on_message-WaitEnd :
      (frame : List ℕ) (m : Result WireMessage) (e : Endpoint)
      → Reads xs (ok frame ∷ e.inbound)
      → host.decode_message frame ≡ m
      → WaitEnd host xs (on_message host again serve false m e)
  on_message-WaitEnd frame (err x) e h d = by_retiring (status_of host x) (poison_slot false e) refl
  on_message-WaitEnd frame (ok (reply r)) e h d = by_reply frame r e h d
  on_message-WaitEnd frame (ok (dec_strong a n)) e h d = ih _ (behind frame e h)
  on_message-WaitEnd frame (ok (transact t)) e h d =
      lifted-WaitEnd frame t e (set_read_timeout e).0 h d refl

  received-WaitEnd :
      (ys : Frames) (e : Endpoint)
      → Reads xs ys
      → WaitEnd host xs
          (received host again serve false (incoming ys, record e { inbound = later ys }))
  received-WaitEnd [] e h =
      by_retiring (status_of host peer_closed) (poison_slot false (record e { inbound = [] })) refl
  received-WaitEnd (err x ∷ ys) e h =
      by_retiring (status_of host x) (poison_slot false (record e { inbound = ys })) refl
  received-WaitEnd (ok frame ∷ ys) e h =
      on_message-WaitEnd frame (host.decode_message frame) (record e { inbound = ys }) h refl

wait_from-WaitEnd :
    (host : Host) (h : Handlers) (n : ℕ) (xs : Frames) (e : Endpoint)
    → Reads xs e.inbound
    → WaitEnd host xs (wait_reply host h n false e)
unfolding wait_reply
wait_from-WaitEnd host h zero xs e r = by_fuel e
wait_from-WaitEnd host h (suc n) xs e r =
    received-WaitEnd host xs (λ e'. wait_reply host h n false e')
      (λ t e'. dispatch_transact host h n t e') (λ e' s. wait_from-WaitEnd host h n xs e' s)
      (λ t e' s. dispatch_transact-Reads host h n t xs e' s) e.inbound e r

-- Whatever arrives and fails, the wait of an outermost call ends in one of four ways: with the status
-- and payload of a reply that is the last frame that it, or what it has served, has taken from the
-- connection; with its slot retired from the pool; with the error of a deadline that could not be lifted
-- for the nested call that is the last such frame; or, in the model, without fuel.
pub wait_reply-WaitEnd :
    (host : Host) (h : Handlers) (n : ℕ) (e : Endpoint)
    → WaitEnd host e.inbound (wait_reply host h n false e)
wait_reply-WaitEnd host h n e = wait_from-WaitEnd host h n e.inbound e (Reads_refl e.inbound)
