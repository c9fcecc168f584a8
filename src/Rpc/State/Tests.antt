-- ===== src/Rpc/State/Tests.antt =====
-- The object table and the oneway queue at concrete inputs.
use rsbinder.Prelude.{
  ℕ, zero, suc, ◌+◌, ◌≤◌, ◌<◌, ◌⊎◌, inl, inr, length, ◌≡◌, ◌≢◌, ◌↔◌, refl, true, List, [], ◌∷◌,
  some, none, arith, nat_eq,
}
use rsbinder.Prelude.Maps.{get}
use rsbinder.Rpc.Address.{RpcAddress, acceptor, unique, tag, addr_eq}
use rsbinder.Prelude.Bytes.{le_bytes}
use rsbinder.Rpc.State.Nodes.{
  AsyncTodo, LocalNode, RpcState, ok, on_binder_leaving, new, register, lookup_local,
  next_send_async_number,
}
use rsbinder.Rpc.State.Balance.{Op, leave, cancel, dec, run, step, replay, outstanding, run-replay}
use rsbinder.Rpc.State.Identity.{leaving-identity}
use rsbinder.Rpc.State.Async.{dispatch_oneway_ordered, dispatch_async_or_enqueue, gate}
use rsbinder.Rpc.State.Queue.{IsQueue}
use rsbinder.Rpc.State.Parked.{Parked}
use rsbinder.Rpc.State.Threads
use rsbinder.Rpc.State.Threads.{Act, arrives, returns, others, start}
use rsbinder.Rpc.State.Turns.{IsDistinct, Keeps}
use rsbinder.Rpc.State.Progress.{run-executed}
use rsbinder.Rpc.State.Delivery.{Consecutive, Delivered, dispatch_oneway_ordered-Delivered}

abbrev first : RpcAddress
first = (unique 0 acceptor).1

-- Two sends of one binder, one of them cancelled, and one of another.
abbrev history : List Op
history = leave 50 ∷ leave 50 ∷ cancel first ∷ leave 60 ∷ dec first 3 ∷ leave 50 ∷ []

run-replay_example :
    (outstanding (run history (new acceptor)) first ≡ replay history (new acceptor) (λ _. 0) first)
    × ((lookup_local first (run history (new acceptor)) ≡ none)
        ↔ (replay history (new acceptor) (λ _. 0) first ≡ 0))
run-replay_example = run-replay acceptor history first

abbrev oneway : ℕ → AsyncTodo
oneway n = record {
  async_number = n;
  transaction = record {
    address = first;
    code = 1;
    flags = 1;
    async_number = n;
    payload = [];
    object_positions = [];
  };
  in_fds = [];
}

-- Number 0 is awaited while 1, 1 and 3 are parked.
abbrev node : LocalNode
node = record {
  binder = 50;
  strong = 1;
  next_async_number = 0;
  async_todo = oneway 1 ∷ oneway 1 ∷ oneway 3 ∷ [];
}

abbrev state : RpcState
state = record (new acceptor) { local_nodes = (first, node) ∷ [] }

node-IsQueue : IsQueue node
node-IsQueue = record {
  ordered = (omega arith, (omega arith, (omega arith, tt)));
  bounded = omega arith;
}

node_found : get first state.local_nodes ≡ some node
unfolding unique le_bytes tag
node_found = refl

dispatch_oneway_ordered-Delivered_example :
    let d = dispatch_oneway_ordered (λ e. true) first (oneway 0) state in
    Delivered node.next_async_number first d
    × ((oneway 0).async_number ≡ node.next_async_number
        → (rest : List AsyncTodo) × (d.executed ≡ oneway 0 ∷ rest))
    × ((oneway 0).async_number ≢ node.next_async_number → d.executed ≡ [])
dispatch_oneway_ordered-Delivered_example =
    dispatch_oneway_ordered-Delivered (λ e. true) first (oneway 0) state node node_found
      node-IsQueue (omega arith, (omega arith, (omega arith, tt))) (omega arith)

-- Number 2 comes before number 0, whose execution another send overlaps, and 4 comes while 1 is executed;
-- 1, 1 and 3 are parked already.
abbrev overlapped : List Act
overlapped =
    arrives (oneway 2)
    ∷ arrives (oneway 0)
    ∷ others (λ s. (next_send_async_number first s).0)
    ∷ returns 0 true
    ∷ arrives (oneway 4)
    ∷ returns 0 true
    ∷ []

sending-Keeps : Keeps first (λ s. (next_send_async_number first s).0)
unfolding next_send_async_number
sending-Keeps s node found = (node, found, refl, refl)

five_come :
    (m : ℕ)
    → 0 ≤ m
    → m < 0 + 5
    → Parked m (oneway 2 ∷ oneway 0 ∷ oneway 4 ∷ [])
      ⊎ Parked m (oneway 1 ∷ oneway 1 ∷ oneway 3 ∷ [])
five_come zero le lt = inl (inr (inl refl))
five_come (suc zero) le lt = inr (inl refl)
five_come (suc (suc zero)) le lt = inl (inl refl)
five_come (suc (suc (suc zero))) le lt = inr (inr (inr (inl refl)))
five_come (suc (suc (suc (suc zero)))) le lt = inl (inr (inr (inl refl)))
five_come (suc (suc (suc (suc (suc m))))) le lt = absurd (omega arith)

none-Parked :
    (m : ℕ)
    → Parked m (oneway 2 ∷ oneway 0 ∷ oneway 4 ∷ [])
    → Parked m (oneway 1 ∷ oneway 1 ∷ oneway 3 ∷ [])
    → ⊥
none-Parked m p q = ground arith

distinct : IsDistinct (oneway 2 ∷ oneway 0 ∷ oneway 4 ∷ [])
distinct = ((λ p. ground arith), ((λ p. ground arith), ((λ p. p), tt)))

run-executed_example :
    let y = Threads.run first overlapped (start state) in
    (length y.executing ≤ 1)
    × Consecutive 0 y.executed
    × ((length y.executing ≡ 1) ⊎ (5 ≤ length y.executed))
run-executed_example =
    run-executed first overlapped state node 5 node_found node-IsQueue
      (omega arith, (omega arith, (omega arith, tt))) (omega arith) (omega arith) distinct
      none-Parked (tt, (tt, (sending-Keeps, (refl, (tt, (refl, tt)))))) five_come

-- A peer that sends the due number again while it is executed gets it executed twice.
repeated :
    (Threads.run first (arrives (oneway 0) ∷ arrives (oneway 0) ∷ []) (start state)).executed
    ≡ oneway 0 ∷ oneway 0 ∷ []
unfolding Threads.run Threads.step dispatch_async_or_enqueue gate unique le_bytes tag
repeated = refl

abbrev sent : RpcState
sent = run (leave 50 ∷ leave 60 ∷ []) (new acceptor)

abbrev fifty : ℕ
fifty = 50

abbrev sixty : ℕ
sixty = 60

abbrev second : RpcAddress
second = (unique 1 acceptor).1

fifty_goes : (on_binder_leaving 50 sent).1 ≡ ok first
unfolding on_binder_leaving run step new register unique tag le_bytes
fifty_goes = refl

sixty_goes : (on_binder_leaving 60 (on_binder_leaving 50 sent).0).1 ≡ ok second
unfolding on_binder_leaving run step new register unique tag le_bytes
sixty_goes = refl

leaving-identity_example :
    ((first ≡ second) ↔ (fifty ≡ sixty))
    × (lookup_local first (on_binder_leaving 60 (on_binder_leaving 50 sent).0).0 ≡ some 50)
    × (lookup_local second (on_binder_leaving 60 (on_binder_leaving 50 sent).0).0 ≡ some 60)
leaving-identity_example =
    leaving-identity acceptor (leave 50 ∷ leave 60 ∷ []) 50 60 first second fifty_goes sixty_goes
