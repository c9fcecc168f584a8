-- ===== src/Rpc/Calls/Stale.antt =====
-- A deadline that cannot be set, after the request was sent.
use rsbinder.Prelude.{ℕ, suc, ◌≡◌, refl, true, false, List, [], ◌∷◌, ◌++◌, some}
use rsbinder.Rpc.Result.{RpcError, Result, ok}
use rsbinder.Rpc.Wire.Readers.{WireReply, transact, reply}
use rsbinder.Rpc.State.Nodes.{RpcState}
use rsbinder.Rpc.Calls.{Call, failed, Handlers, Host, Endpoint, wire_transaction}
use rsbinder.Rpc.Calls.Loop.{status_of, answer_of}
use rsbinder.Rpc.Calls.Run.{client_transact, wait_reply}
use rsbinder.Rpc.Calls.Dialogue.{IsCarried, IsTwoway}
use rsbinder.Rpc.Calls.Answers.{ready, start_call-ready}

-- The next deadline is refused with the error.
abbrev pub refusing : RpcError → RpcState → List (Result (List ℕ)) → List (List ℕ) → Endpoint
refusing x s i o = record (ready true s i o) { timer_errors = some x ∷ [] }

module _ (host : Host) (h : Handlers) (n : ℕ) (s : RpcState) (o : List (List ℕ)) where
  client_transact-refusing :
      (c : Call) (frame : List ℕ) (x : RpcError) (i : List (Result (List ℕ)))
      → IsTwoway c
      → IsCarried host (transact (wire_transaction c 0)) frame
      → client_transact host h (suc n) false c (refusing x s i o)
        ≡ (failed (status_of host x), ready true s i (o ++ (frame ∷ [])))
  unfolding client_transact
  client_transact-refusing c frame x i t m = rw (t.flags, m.0, t.flags) refl

  client_transact-waiting :
      (c : Call) (frame answer : List ℕ) (r : WireReply) (i : List (Result (List ℕ)))
      → IsTwoway c
      → IsCarried host (transact (wire_transaction c 0)) frame
      → IsCarried host (reply r) answer
      → client_transact host h (suc (suc n)) false c (ready true s (ok answer ∷ i) o)
        ≡ (answer_of host r, ready true s i (o ++ (frame ∷ [])))
  unfolding client_transact
  client_transact-waiting c frame answer r i t m k =
      start_call-ready host true (λ e. wait_reply host h (suc n) false e) c frame s (ok answer ∷ i)
        o r s i (o ++ (frame ∷ [])) t m (rw k.1 refl)

-- When the deadline is refused, an outermost call whose request was sent fails and leaves its slot in the
-- pool; the next call on the slot then returns the reply to the first.
pub client_transact-stale :
    (host : Host) (h : Handlers) (n : ℕ) (s : RpcState) (o : List (List ℕ)) (c c' : Call)
    (frame frame' answer : List ℕ) (r : WireReply) (x : RpcError) (i : List (Result (List ℕ)))
    → IsTwoway c
    → IsTwoway c'
    → IsCarried host (transact (wire_transaction c 0)) frame
    → IsCarried host (transact (wire_transaction c' 0)) frame'
    → IsCarried host (reply r) answer
    → (client_transact host h (suc n) false c (refusing x s (ok answer ∷ i) o)
        ≡ (failed (status_of host x), ready true s (ok answer ∷ i) (o ++ (frame ∷ []))))
      × (client_transact host h
            (suc (suc n))
            false
            c'
            (ready true s (ok answer ∷ i) (o ++ (frame ∷ [])))
          ≡ (answer_of host r, ready true s i ((o ++ (frame ∷ [])) ++ (frame' ∷ []))))
client_transact-stale host h n s o c c' frame frame' answer r x i t t' m m' k = (
  client_transact-refusing host h n s o c frame x (ok answer ∷ i) t m,
  client_transact-waiting host h n s (o ++ (frame ∷ [])) c' frame' answer r i t' m' k,
)
