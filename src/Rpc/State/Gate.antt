-- ===== src/Rpc/State/Gate.antt =====
-- The decisions of the gate for an inbound oneway transaction, and what each leaves.
use rsbinder.Prelude.{◌+◌, ◌≡◌, ◌≢◌, Bool, [], Option, none, some, inl, inr, arith, Option-cases}
use rsbinder.Prelude.Maps.{get, insert}
use rsbinder.Rpc.Address.{RpcAddress, addr_eq}
use rsbinder.Rpc.State.Nodes.{AsyncTodo, LocalNode, RpcState}
use rsbinder.Rpc.State.Async.{
  park, AsyncDecision, enqueued, dropped, terminate, follow, Flow, done, failed, stuck, gate,
  dispatch, dispatch_async_or_enqueue,
}
use rsbinder.Rpc.State.Queue.{Above, push-Above}

-- How a decision that executes nothing ends the call.
pub flow_of : AsyncDecision → Option Flow
flow_of (dispatch txn fds) = none
flow_of enqueued = some done
flow_of (dropped reason) = some done
flow_of (terminate n) = some failed

pub follow_parked :
    (execute : AsyncTodo → Bool) (addr : RpcAddress) (e : AsyncTodo) (s : RpcState)
    (decision : AsyncDecision) (f : Flow)
    → flow_of decision ≡ some f
    → (follow execute addr e s decision ≡ record { state = s; executed = []; flow = f })
      × (f ≢ stuck)
unfolding follow flow_of
follow_parked execute addr e s (dispatch txn fds) f h = cc
follow_parked execute addr e s enqueued f h = (cc, λ p. cc)
follow_parked execute addr e s (dropped reason) f h = (cc, λ p. cc)
follow_parked execute addr e s (terminate n) f h = (cc, λ p. cc)

pub gate_due :
    (node : LocalNode) (e : AsyncTodo)
    → e.async_number ≡ node.next_async_number
    → gate node e ≡ (node, dispatch e.transaction e.in_fds)
unfolding gate
gate_due node e h = ground arith

-- A transaction that is not due moves no number, and leaves nothing due.
pub gate_other :
    (node : LocalNode) (e : AsyncTodo)
    → e.async_number ≢ node.next_async_number
    → Above (node.next_async_number + 1) node.async_todo
    → ((f : Flow) × (flow_of (gate node e).1 ≡ some f))
      × ((gate node e).0.next_async_number ≡ node.next_async_number)
      × Above (node.next_async_number + 1) (gate node e).0.async_todo
gate_other node e ne idle = (ending, number, order)
  where
    ending : (f : Flow) × (flow_of (gate node e).1 ≡ some f)
    ending = elim (Option-cases (flow_of (gate node e).1)) [
      | inr found ↦ found
      | inl lost ↦ absurd (unfold gate park flow_of in ground (arith, lost))
    ]

    number : (gate node e).0.next_async_number ≡ node.next_async_number
    number = unfold gate in ground arith

    order : Above (node.next_async_number + 1) (gate node e).0.async_todo
    order = unfold gate in ground (arith, push-Above (node.next_async_number + 1) e node.async_todo)

pub gate_at :
    (addr : RpcAddress) (e : AsyncTodo) (s : RpcState) (node : LocalNode)
    → get addr s.local_nodes ≡ some node
    → dispatch_async_or_enqueue addr e.async_number e.transaction e.in_fds s
      ≡ (record s { local_nodes = insert addr (gate node e).0 s.local_nodes }, (gate node e).1)
unfolding dispatch_async_or_enqueue
gate_at addr e s node found = rw (found, dispatch_async_or_enqueue)
