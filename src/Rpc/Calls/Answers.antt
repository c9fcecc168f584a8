-- ===== src/Rpc/Calls/Answers.antt =====
-- The loops against the dialogue.
use rsbinder.Prelude.{
  ℕ, suc, ◌≡◌, refl, sym, ap, ◌∙◌, Bool, true, false, List, [], ◌∷◌, ◌++◌, Option, some, ==_ne,
  Bool-cases, inl, inr,
}
use mathlib.Core.List.{append_assoc, append-nil}
use rsbinder.Prelude.Int.{pos}
use rsbinder.Status.{to_i32, eq_int}
use rsbinder.Rpc.Result.{Result, ok}
use rsbinder.Rpc.Address.{RpcAddress}
use rsbinder.Rpc.Wire.Readers.{WireTransaction, WireReply, transact, reply, dec_strong}
use rsbinder.Rpc.State.Nodes.{RpcState, lookup_local}
use rsbinder.Rpc.Calls.{
  Call, Answer, Program, Handlers, Host, Endpoint, Done, handled, Finish, wire_transaction,
  wire_reply, no_body, set_read_timeout, rollback_outgoing, cancel_all,
}
use rsbinder.Rpc.Calls.Loop.{
  answer_of, send_reply, performed, called, queue_dec_strong, start_call, received, dispatched,
  answered, lifted,
}
use rsbinder.Rpc.Calls.Run.{
  client_transact, wait_reply, dispatch_transact, replay_parked, perform, served, served_of,
  serve_once_on_slot,
}
use rsbinder.Rpc.Calls.Dialogue.{
  IsCarried, IsTwoway, Dialogue, asks, Service, ends, refuses, asks_back, lets_go,
}

-- The frames that arrive before others.
abbrev pub arrive : List (List ℕ) → List (Result (List ℕ)) → List (Result (List ℕ))
arrive [] rest = rest
arrive (f ∷ fs) rest = ok f ∷ arrive fs rest

arrive-append :
    (fs gs : List (List ℕ)) (rest : List (Result (List ℕ)))
    → arrive (fs ++ gs) rest ≡ arrive fs (arrive gs rest)
arrive-append [] gs rest = refl
arrive-append (f ∷ fs) gs rest = ap (λ r. ok f ∷ r) (arrive-append fs gs rest)

arrive-two :
    (fs gs hs : List (List ℕ)) (rest : List (Result (List ℕ)))
    → arrive ((fs ++ gs) ++ hs) rest ≡ arrive fs (arrive (gs ++ hs) rest)
arrive-two fs gs hs rest =
    ap (λ z. arrive z rest) (append_assoc fs gs hs) ∙ arrive-append fs (gs ++ hs) rest

append_four : (o a b c : List (List ℕ)) → (o ++ a) ++ (b ++ c) ≡ o ++ ((a ++ b) ++ c)
append_four o a b c = append_assoc o a (b ++ c) ∙ ap (λ z. o ++ z) (sym (append_assoc a b c))

-- An end of a connection on which nothing fails, with a deadline or without one.
abbrev pub ready : Bool → RpcState → List (Result (List ℕ)) → List (List ℕ) → Endpoint
ready d s inbound outbound = record {
  state = s;
  inbound = inbound;
  outbound = outbound;
  send_errors = [];
  deadline = d;
  timer_errors = [];
  removed = false;
}

answered-ready :
    (host : Host) (d : Bool) (wait : Endpoint → Answer × Endpoint) (s : RpcState)
    (i : List (Result (List ℕ))) (o : List (List ℕ)) (q : WireReply) (s' : RpcState)
    (i' : List (Result (List ℕ))) (o' : List (List ℕ))
    → wait (ready d s i o) ≡ (answer_of host q, ready d s' i' o')
    → answered host wait false (ready d s i o) ≡ (answer_of host q, ready d s' i' o')
answered-ready host true wait s i o q s' i' o' w = rw w refl
answered-ready host false wait s i o q s' i' o' w = rw w refl

-- The turn of the loop that serves a call of the peer's.
lifted-ready :
    (host : Host) (d : Bool) (again : Endpoint → Answer × Endpoint)
    (serve : WireTransaction → Endpoint → Done × Endpoint) (re : Bool) (t : WireTransaction)
    (s : RpcState) (i : List (Result (List ℕ))) (o : List (List ℕ)) (s' : RpcState)
    (i' : List (Result (List ℕ))) (o' : List (List ℕ))
    → serve t (ready d s i o) ≡ (handled, ready d s' i' o')
    → lifted host again serve re t (set_read_timeout (ready d s i o)) ≡ again (ready d s' i' o')
lifted-ready host true again serve re t s i o s' i' o' w = rw w refl
lifted-ready host false again serve re t s i o s' i' o' w = rw w refl

received-turn :
    (host : Host) (d : Bool) (again : Endpoint → Answer × Endpoint)
    (serve : WireTransaction → Endpoint → Done × Endpoint) (re : Bool) (t : WireTransaction)
    (frame : List ℕ) (s : RpcState) (i : List (Result (List ℕ))) (o : List (List ℕ)) (s' : RpcState)
    (i' : List (Result (List ℕ))) (o' : List (List ℕ))
    → host.decode_message frame ≡ ok (transact t)
    → serve t (ready d s i o) ≡ (handled, ready d s' i' o')
    → received host again serve re (ok frame, ready d s i o) ≡ again (ready d s' i' o')
received-turn host d again serve re t frame s i o s' i' o' m w =
    rw m (lifted-ready host d again serve re t s i o s' i' o' w)

module _ (host : Host) (d : Bool) where
  send_reply-ready :
      (r : WireReply) (answer : List ℕ) (s : RpcState) (i : List (Result (List ℕ)))
      (o : List (List ℕ))
      → IsCarried host (reply r) answer
      → send_reply host r (ready d s i o) ≡ (handled, ready d s i (o ++ (answer ∷ [])))
  unfolding send_reply
  send_reply-ready r answer s i o c = rw c.0 refl

  called-answer :
      (run : Program → Endpoint → Finish × Endpoint) (next : Answer → Program) (q : WireReply)
      (e : Endpoint)
      → called host run next (answer_of host q, e) ≡ run (next (answer_of host q)) e
  called-answer run next q e = elim (Bool-cases (eq_int q.status (pos 0))) [
    | inl h ↦ rw h refl
    | inr h ↦ rw h refl
  ]

  queue_dec_strong-ready :
      (a : RpcAddress) (frame : List ℕ) (s : RpcState) (i : List (Result (List ℕ)))
      (o : List (List ℕ))
      → IsCarried host (dec_strong a 1) frame
      → queue_dec_strong host a (ready d s i o) ≡ ready d s i (o ++ (frame ∷ []))
  unfolding queue_dec_strong
  queue_dec_strong-ready a frame s i o c = rw c.0 refl

  -- The request goes out, and the loop waits.
  pub start_call-ready :
      (wait : Endpoint → Answer × Endpoint) (c : Call) (frame : List ℕ) (s : RpcState)
      (i : List (Result (List ℕ))) (o : List (List ℕ)) (q : WireReply) (s' : RpcState)
      (i' : List (Result (List ℕ))) (o' : List (List ℕ))
      → IsTwoway c
      → IsCarried host (transact (wire_transaction c 0)) frame
      → wait (ready d s i (o ++ (frame ∷ []))) ≡ (answer_of host q, ready d s' i' o')
      → start_call host wait c (ready d s i o) ≡ (answer_of host q, ready d s' i' o')
  start_call-ready wait c frame s i o q s' i' o' t m w =
      rw (t.flags, m.0, t.flags) (answered-ready host d wait s i (o ++ (frame ∷ [])) q s' i' o' w)

  -- The dispatch reaches the handler.
  dispatched-ready :
      (h : Handlers) (run : Program → Endpoint → Finish × Endpoint)
      (drain : Option WireTransaction → Endpoint → Done × Endpoint) (c : Call) (binder : ℕ)
      (s : RpcState) (i : List (Result (List ℕ))) (o : List (List ℕ))
      → IsTwoway c
      → lookup_local c.address s ≡ some binder
      → dispatched host h run drain (wire_transaction c 0) (ready d s i o)
        ≡ performed host false (run (h.handle binder (wire_transaction c 0)) (ready d s i o))
  dispatched-ready h run drain c binder s i o t l =
      rw (t.address, t.flags, l, ==_ne c.code _ t.interface, ==_ne c.code _ t.ping) refl

module _ (host : Host) (d : Bool) where
  mutual
    unfolding client_transact wait_reply dispatch_transact perform rollback_outgoing

    pub client_transact-answers :
        {n : ℕ} {a b : Handlers} {c : Call} {sa sa' sb sb' : RpcState} {out inn : List (List ℕ)}
        {r : WireReply}
        → Dialogue host n a b c sa sa' sb sb' out inn r
        → (re : Bool) (rest : List (Result (List ℕ))) (o : List (List ℕ))
        → client_transact host a n re c (ready d sa (arrive inn rest) o)
          ≡ (answer_of host r, ready d sa' rest (o ++ out))
    client_transact-answers
          (asks {n} {a} {b} {c} {sa} {sa'} {sb} {sb'} {out} {inn} {r} {frame} {answer} t l m v k) re
          rest o =
        start_call-ready host d (λ e. wait_reply host a n re e) c frame sa
          (arrive (out ++ (answer ∷ [])) rest) o r sa' rest (o ++ (frame ∷ inn)) t m
          (wait_reply-answers v answer k re rest (o ++ (frame ∷ []))
            ∙ ap (λ z. (answer_of host r, ready d sa' rest z)) (append_assoc o (frame ∷ []) inn))

    pub wait_reply-answers :
        {n : ℕ} {b a : Handlers} {p : Program} {sb sb' sa sa' : RpcState} {out inn : List (List ℕ)}
        {r : WireReply}
        → Service host n b a p sb sb' sa sa' out inn r
        → (answer : List ℕ) → IsCarried host (reply r) answer
        → (re : Bool) (rest : List (Result (List ℕ))) (o : List (List ℕ))
        → wait_reply host a n re (ready d sa (arrive (out ++ (answer ∷ [])) rest) o)
          ≡ (answer_of host r, ready d sa' rest (o ++ inn))
    wait_reply-answers (ends {sa = sa}) answer k re rest o =
        rw k.1 (ap (λ z. (_, ready d sa rest z)) (sym (append-nil o)))
    wait_reply-answers (refuses {sa = sa}) answer k re rest o =
        rw k.1 (ap (λ z. (_, ready d sa rest z)) (sym (append-nil o)))
    wait_reply-answers (lets_go {n} {b} {a} {addr} {sa = sa} {out = out} {inn = inn} m v) answer k
          re rest o =
        rw m.1 (wait_reply-answers v answer k re rest o)
    wait_reply-answers
          (asks_back {n} {b} {a} {c} {next} {sb} {sb'} {sb''} {sa} {sa'} {sa''} {out' = out'}
            {inn' = inn'} {r = r}
            (asks {n = n'} {out = ins} {inn = outs} {frame = frame} {answer = own} {binder = binder}
              t l m v x)
            w)
          answer k re rest o =
        let last : List (Result (List ℕ)) = arrive (out' ++ (answer ∷ [])) rest in
        ap (λ z. wait_reply host a (suc (suc n')) re (ready d sa (ok frame ∷ z) o))
          (arrive-two outs out' (answer ∷ []) rest)
        ∙ received-turn host d (λ e. wait_reply host a (suc n') re e)
            (λ t e. dispatch_transact host a (suc n') t e) re (wire_transaction c 0) frame sa
            (arrive outs last) o sa' last (o ++ (ins ++ (own ∷ []))) m.1
            (dispatched-ready host d a (λ p e. perform host a n' p e)
                (λ q e. replay_parked host a n' c.address q e) c binder sa (arrive outs last) o t l
              ∙ perform-replies v own x last o)
        ∙ wait_reply-answers w answer k re rest (o ++ (ins ++ (own ∷ [])))
        ∙ ap (λ z. (answer_of host r, ready d sa'' rest z))
            (append_assoc o (ins ++ (own ∷ [])) inn')

    pub dispatch_transact-replies :
        {n : ℕ} {a b : Handlers} {c : Call} {sa sa' sb sb' : RpcState} {out inn : List (List ℕ)}
        {r : WireReply} {frame : List ℕ}
        → Dialogue host n a b c sa sa' sb sb' (frame ∷ out) inn r
        → (rest : List (Result (List ℕ))) (o : List (List ℕ))
        → dispatch_transact host b n (wire_transaction c 0) (ready d sb (arrive out rest) o)
          ≡ (handled, ready d sb' rest (o ++ inn))
    dispatch_transact-replies
          (asks {n} {a} {b} {c} {sa} {sa'} {sb} {sb'} {out} {inn} {r} {frame} {answer} {binder} t l
            m v k)
          rest o =
        dispatched-ready host d b (λ p e. perform host b n p e)
          (λ q e. replay_parked host b n c.address q e) c binder sb (arrive inn rest) o t l
        ∙ perform-replies v answer k rest o

    pub perform-replies :
        {n : ℕ} {b a : Handlers} {p : Program} {sb sb' sa sa' : RpcState} {out inn : List (List ℕ)}
        {r : WireReply}
        → Service host n b a p sb sb' sa sa' out inn r
        → (answer : List ℕ) → IsCarried host (reply r) answer
        → (rest : List (Result (List ℕ))) (o : List (List ℕ))
        → performed host false (perform host b n p (ready d sb (arrive inn rest) o))
          ≡ (handled, ready d sb' rest (o ++ (out ++ (answer ∷ []))))
    perform-replies (ends {body = body} {sb = sb}) answer k rest o =
        rw (send_reply-ready host d (wire_reply (pos 0) body) answer sb rest o k) refl
    perform-replies (refuses {code = code} {body = body} {sb = sb}) answer k rest o =
        send_reply-ready host d (wire_reply (to_i32 host.errnos code) no_body) answer
          (cancel_all body.leaving sb) rest o k
    perform-replies
          (lets_go {n} {b} {a} {addr} {p} {sb} {sb'} {sa} {sa'} {out} {inn} {frame = frame} m v)
          answer k rest o =
        rw (queue_dec_strong-ready host d addr frame sb (arrive inn rest) o m) (
          perform-replies v answer k rest (o ++ (frame ∷ []))
          ∙ ap (λ z. (handled, ready d sb' rest z))
              (append_assoc o (frame ∷ []) (out ++ (answer ∷ []))))
    perform-replies
          (asks_back {n} {b} {a} {c} {next} {sb} {sb'} {sb''} {sa} {sa'} {sa''} {out} {inn} {out'}
            {inn'} {q} {r} v w)
          answer k rest o =
        ap
          (λ z. performed host false (
            called host (λ p e. perform host b n p e) next
              (client_transact host b n true c (ready d sb z o))))
          (arrive-append inn inn' rest)
        ∙ ap (λ z. performed host false (called host (λ p e. perform host b n p e) next z))
            (client_transact-answers v true (arrive inn' rest) o)
        ∙ ap (λ z. performed host false z)
            (called-answer host d (λ p e. perform host b n p e) next q
              (ready d sb' (arrive inn' rest) (o ++ out)))
        ∙ perform-replies w answer k rest (o ++ out)
        ∙ ap (λ z. (handled, ready d sb'' rest z)) (append_four o out out' (answer ∷ []))

-- A call between two processes, with calls back and forth nested in it to any depth and decrements in
-- between, is agreed on by both ends, over any wire that carries its messages: when the caller receives
-- the callee's frames, `client_transact` sends the caller's frames of the dialogue, returns the reply to
-- its own call, and consumes no more; when the callee receives those, one `serve_once_on_slot` sends the
-- callee's frames, and consumes no more. Both leave the tables of the dialogue.
pub client_transact-serve_once_on_slot :
    {host : Host} {n : ℕ} {a b : Handlers} {c : Call} {sa sa' sb sb' : RpcState}
    {out inn : List (List ℕ)} {r : WireReply}
    → Dialogue host n a b c sa sa' sb sb' out inn r
    → (d d' re : Bool) (rest rest' : List (Result (List ℕ))) (o o' : List (List ℕ))
    → (client_transact host a n re c (ready d sa (arrive inn rest) o)
        ≡ (answer_of host r, ready d sa' rest (o ++ out)))
      × (serve_once_on_slot host b n (ready d' sb (arrive out rest') o')
          ≡ (served, ready d' sb' rest' (o' ++ inn)))
unfolding serve_once_on_slot
client_transact-serve_once_on_slot {host} (asks {frame = frame} t l m v k) d d' re rest rest' o o' =
    (
      client_transact-answers host d (asks t l m v k) re rest o,
      rw m.1 (ap served_of (dispatch_transact-replies host d' (asks t l m v k) rest' o')),
    )
