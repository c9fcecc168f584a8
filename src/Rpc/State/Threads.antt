-- ===== src/Rpc/State/Threads.antt =====
-- The threads of a session that deliver oneway transactions to one object: each runs
-- `dispatch_oneway_ordered` (rsbinder/src/rpc/session.rs) for what its connection has brought. The gate is
-- one step under the lock of the state, and so is each `advance_and_pop_async`; what stands between them,
-- an execution, is not, and any thread may take its steps meanwhile.
use rsbinder.Prelude.{ℕ, Bool, true, false, List, [], ◌∷◌, ◌++◌, Option, none, some, pick}
use rsbinder.Rpc.Address.{RpcAddress}
use rsbinder.Rpc.State.Nodes.{AsyncTodo, RpcState}
use rsbinder.Rpc.State.Async.{
  AsyncDecision, dispatch, enqueued, dropped, terminate, dispatch_async_or_enqueue,
  advance_and_pop_async,
}

-- `executing` has one entry for each thread that executes a transaction of the object; `executed` logs
-- those whose execution has begun, in order.
pub record Site : Type 0 where
  pub state : RpcState
  pub executing : List AsyncTodo
  pub executed : List AsyncTodo

-- A transaction comes in on some connection; an execution returns, without an error or with one; or
-- something else happens to the table.
pub data Act : Type 0 where
  arrives : AsyncTodo → Act
  returns : ℕ → Bool → Act
  others : (RpcState → RpcState) → Act

abbrev pub decided : AsyncTodo → RpcState × AsyncDecision → Site → Site
decided e (s, dispatch txn fds) y =
    let todo : AsyncTodo = record {
      async_number = e.async_number;
      transaction = txn;
      in_fds = fds;
    } in
    record { state = s; executing = todo ∷ y.executing; executed = y.executed ++ (todo ∷ []) }
decided e (s, enqueued) y = record y { state = s }
decided e (s, dropped reason) y = record y { state = s }
decided e (s, terminate n) y = record y { state = s }

abbrev pub advanced : List AsyncTodo → RpcState × Option AsyncTodo → Site → Site
advanced rest (s, none) y = record y { state = s; executing = rest }
advanced rest (s, some e) y = record {
  state = s;
  executing = e ∷ rest;
  executed = y.executed ++ (e ∷ []);
}

module _ (addr : RpcAddress) where
  -- An error ends the loop at once.
  abbrev pub resumed : Bool → Option (AsyncTodo × List AsyncTodo) → Site → Site
  resumed fine none y = y
  resumed false (some (e, rest)) y = record y { executing = rest }
  resumed true (some (e, rest)) y = advanced rest (advance_and_pop_async addr y.state) y

  unfoldable pub step : Act → Site → Site
  step (arrives e) y =
      decided e (dispatch_async_or_enqueue addr e.async_number e.transaction e.in_fds y.state) y
  step (returns i fine) y = resumed fine (pick i y.executing) y
  step (others f) y = record y { state = f y.state }

  unfoldable pub run : List Act → Site → Site
  run [] y = y
  run (a ∷ acts) y = run acts (step a y)

abbrev pub start : RpcState → Site
start s = record { state = s; executing = []; executed = [] }
