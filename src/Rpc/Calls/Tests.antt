-- ===== src/Rpc/Calls/Tests.antt =====
-- A call with a call back and a dropped proxy in it, on the r34 wire.
use rsbinder.Prelude.{ℕ, ◌<◌, ◌≡◌, refl, true, false, List, [], ◌∷◌, some, arith}
use rsbinder.Prelude.Bytes.{le_bytes}
use rsbinder.Prelude.Int.{pos}
use rsbinder.Status.{Errnos, unknown}
use rsbinder.Rpc.Result.{ok, timeout}
use rsbinder.Rpc.Address.{
  RpcAddress, initiator, acceptor, tag, unique, unique-ne-zero, unique-IsAddress, is_zero,
  IsAddress,
}
use rsbinder.Rpc.Wire.Readers.{WireMessage, transact, reply, dec_strong}
use rsbinder.Rpc.Wire.Transaction.{IsTransaction, length-txn_body}
use rsbinder.Rpc.Wire.RoundTrip.{length-reply_body}
use rsbinder.Rpc.State.Nodes.{RpcState, new, fresh_node, lookup_local}
use rsbinder.Rpc.Calls.{
  Body, Call, returns, calls, drops, Handlers, Host, no_body, wire_transaction, wire_reply, failed,
}
use rsbinder.Rpc.Calls.Loop.{answer_of, status_of}
use rsbinder.Rpc.Calls.Run.{client_transact, serve_once_on_slot, served, wait_reply}
use rsbinder.Rpc.Calls.Dialogue.{
  IsCarried, IsTwoway, Dialogue, asks, ends, asks_back, lets_go, dec_of,
}
use rsbinder.Rpc.Calls.Answers.{ready, arrive, client_transact-serve_once_on_slot}
use rsbinder.Rpc.Calls.Ends.{WaitEnd, wait_reply-WaitEnd}
use rsbinder.Rpc.Calls.Stale.{refusing, client_transact-stale}
use rsbinder.Rpc.Calls.Wires.{r34_host, r34_host-IsCarried}

abbrev linux : Errnos
linux = record {
  nomem = 12;
  nosys = 38;
  inval = 22;
  noent = 2;
  perm = 1;
  nodev = 19;
  exist = 17;
  pipe = 32;
  badmsg = 74;
  overflow = 75;
  nodata = 61;
  wouldblock = 11;
  timedout = 110;
  badf = 9;
}

abbrev host : Host
host = r34_host linux (λ k. unknown)

-- The object that the caller uses, and the callee's use of one of the caller's.
abbrev theirs : RpcAddress
theirs = (unique 0 acceptor).1

abbrev ours : RpcAddress
ours = (unique 0 initiator).1

abbrev table : RpcAddress → ℕ → RpcState
table a binder = record (new initiator) { local_nodes = (a, fresh_node binder) ∷ [] }

abbrev to : RpcAddress → ℕ → Call
to a code = record { address = a; code = code; flags = 0; body = no_body }

abbrev plain : ℕ → Body
plain n = record { payload = n ∷ []; object_positions = []; leaving = [] }

-- The callee calls back, drops its proxy, and returns 9; the caller's object answers 7.
abbrev callee : Handlers
callee = record {
  handle = λ b t. calls (to ours 2) (λ a. drops ours (returns (plain 9)));
  descriptor = λ b. no_body;
  special = λ t. wire_reply (pos 0) no_body;
}

abbrev caller : Handlers
caller = record {
  handle = λ b t. returns (plain 7);
  descriptor = λ b. no_body;
  special = λ t. wire_reply (pos 0) no_body;
}

to-IsTwoway : (a : RpcAddress) (n : ℕ) → is_zero a ≡ false → n < 10 → IsTwoway (to a n)
to-IsTwoway a n z h = record {
  address = z;
  flags = refl;
  interface = λ e. omega (arith, h, e);
  ping = λ e. omega (arith, h, e);
}

abbrev Carried : WireMessage → Type 0
Carried m = (f : List ℕ) × IsCarried host m f

to-IsTransaction :
    (a : RpcAddress) (n : ℕ) → IsAddress a → n < 10 → IsTransaction (wire_transaction (to a n) 0)
to-IsTransaction a n v h = record {
  address = v;
  code = omega (arith, h);
  flags = omega arith;
  async_number = omega arith;
  no_table = refl;
}

to-Carried :
    (a : RpcAddress) (n : ℕ)
    → IsAddress a
    → n < 10
    → Carried (transact (wire_transaction (to a n) 0))
to-Carried a n v h =
    r34_host-IsCarried linux (λ k. unknown) (transact (wire_transaction (to a n) 0))
      (to-IsTransaction a n v h)
      (omega (arith, length-txn_body (wire_transaction (to a n) 0) (to-IsTransaction a n v h)))

reply-Carried : (n : ℕ) → Carried (reply (wire_reply (pos 0) (plain n)))
reply-Carried n =
    r34_host-IsCarried linux (λ k. unknown) (reply (wire_reply (pos 0) (plain n)))
      (record { status = omega arith; no_table = refl })
      (omega (arith, length-reply_body (wire_reply (pos 0) (plain n))))

dec_strong-Carried : Carried (dec_strong ours 1)
dec_strong-Carried =
    r34_host-IsCarried linux (λ k. unknown) (dec_strong ours 1) (unique-IsAddress 0 initiator, refl)
      (omega (arith, (unique-IsAddress 0 initiator).sized))

nonzero_theirs : is_zero theirs ≡ false
nonzero_theirs = unique-ne-zero 0 acceptor

nonzero_ours : is_zero ours ≡ false
nonzero_ours = unique-ne-zero 0 initiator

theirs_found : lookup_local theirs (table theirs 4) ≡ some 4
unfolding lookup_local fresh_node unique le_bytes tag
theirs_found = refl

ours_found : lookup_local ours (table ours 3) ≡ some 3
unfolding lookup_local fresh_node unique le_bytes tag
ours_found = refl

abbrev request_frame : Carried (transact (wire_transaction (to theirs 1) 0))
request_frame = to-Carried theirs 1 (unique-IsAddress 0 acceptor) (omega arith)

abbrev callback : Carried (transact (wire_transaction (to ours 2) 0))
callback = to-Carried ours 2 (unique-IsAddress 0 initiator) (omega arith)

abbrev sent_frames : List (List ℕ)
sent_frames = request_frame.0 ∷ (reply-Carried 7).0 ∷ []

abbrev received_frames : List (List ℕ)
received_frames = callback.0 ∷ dec_strong-Carried.0 ∷ (reply-Carried 9).0 ∷ []

talk :
    Dialogue host 6 caller callee
      (to theirs 1)
      (table ours 3)
      (dec_of ours (table ours 3))
      (table theirs 4)
      (table theirs 4)
      sent_frames
      received_frames
      (wire_reply (pos 0) (plain 9))
talk =
    asks (to-IsTwoway theirs 1 nonzero_theirs (omega arith)) theirs_found request_frame.1
      (asks_back
        (asks (to-IsTwoway ours 2 nonzero_ours (omega arith)) ours_found callback.1 ends
          (reply-Carried 7).1)
        (lets_go dec_strong-Carried.1 ends))
      (reply-Carried 9).1

client_transact-serve_once_on_slot_example :
    (client_transact host caller 6 false
        (to theirs 1)
        (ready true (table ours 3) (arrive received_frames []) [])
      ≡ (
        answer_of host (wire_reply (pos 0) (plain 9)),
        ready true (dec_of ours (table ours 3)) [] sent_frames,
      ))
    × (serve_once_on_slot host callee 6 (ready false (table theirs 4) (arrive sent_frames []) [])
        ≡ (served, ready false (table theirs 4) [] received_frames))
client_transact-serve_once_on_slot_example =
    client_transact-serve_once_on_slot talk true false false [] [] [] []

wait_reply-WaitEnd_example :
    WaitEnd host
      (arrive (callback.0 ∷ []) [])
      (wait_reply host caller 6 false (ready true (table ours 3) (arrive (callback.0 ∷ []) []) []))
wait_reply-WaitEnd_example =
    wait_reply-WaitEnd host caller 6 (ready true (table ours 3) (arrive (callback.0 ∷ []) []) [])

client_transact-stale_example :
    (client_transact host caller 2 false
        (to theirs 1)
        (refusing timeout (table ours 3) (ok (reply-Carried 9).0 ∷ []) [])
      ≡ (
        failed (status_of host timeout),
        ready true (table ours 3) (ok (reply-Carried 9).0 ∷ []) (request_frame.0 ∷ []),
      ))
    × (client_transact host caller 3 false
          (to theirs 1)
          (ready true (table ours 3) (ok (reply-Carried 9).0 ∷ []) (request_frame.0 ∷ []))
        ≡ (
          answer_of host (wire_reply (pos 0) (plain 9)),
          ready true (table ours 3) [] (request_frame.0 ∷ request_frame.0 ∷ []),
        ))
client_transact-stale_example =
    client_transact-stale host caller 1 (table ours 3) [] (to theirs 1) (to theirs 1)
      request_frame.0 request_frame.0 (reply-Carried 9).0 (wire_reply (pos 0) (plain 9)) timeout []
      (to-IsTwoway theirs 1 nonzero_theirs (omega arith))
      (to-IsTwoway theirs 1 nonzero_theirs (omega arith)) request_frame.1 request_frame.1
      (reply-Carried 9).1
