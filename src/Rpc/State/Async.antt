-- ===== src/Rpc/State/Async.antt =====
-- The ordering of inbound oneway transactions: `dispatch_async_or_enqueue`, `advance_and_pop_async`
-- (rsbinder/src/rpc/state.rs), and the loop of `dispatch_oneway_ordered` (rsbinder/src/rpc/session.rs)
-- that calls them.
use rsbinder.Prelude.{
  ℕ, zero, suc, ◌+◌, ◌^◌, ◌%◌, Bool, List, [], ◌∷◌, Option, none, some, ltb, leb, ◌==◌,
  if◌then◌else◌, length,
}
use rsbinder.Prelude.Maps.{get, insert}
use rsbinder.Rpc.Address.{RpcAddress, addr_eq}
use rsbinder.Rpc.Wire.Readers.{WireTransaction}
use rsbinder.Rpc.State.Nodes.{AsyncTodo, LocalNode, RpcState}

pub data DropReason : Type 0 where
  unknown_address stale_async_number : DropReason

pub data AsyncDecision : Type 0 where
  dispatch : WireTransaction → List ℕ → AsyncDecision
  enqueued : AsyncDecision
  dropped : DropReason → AsyncDecision
  terminate : ℕ → AsyncDecision

abbrev pub async_todo_terminate_level : ℕ
async_todo_terminate_level = 10000

-- `BinaryHeap::push`, as a heap that gives out its entries with the smallest number first. Entries of
-- one number come out in the order in which they went in, which the heap leaves open.
unfoldable pub push : AsyncTodo → List AsyncTodo → List AsyncTodo
push e [] = e ∷ []
push e (x ∷ xs) = if ltb e.async_number x.async_number then e ∷ x ∷ xs else x ∷ push e xs

-- Bounds the backlog: at the terminate level it is flushed.
unfoldable pub park : LocalNode → List AsyncTodo → LocalNode × AsyncDecision
park node todo =
    if leb async_todo_terminate_level (length todo)
    then (record node { async_todo = [] }, terminate (length todo))
    else (record node { async_todo = todo }, enqueued)

-- The branches of `dispatch_async_or_enqueue` at a known node.
unfoldable pub gate : LocalNode → AsyncTodo → LocalNode × AsyncDecision
unfolding park
gate node e =
    if e.async_number == node.next_async_number
    then (node, dispatch e.transaction e.in_fds)
    else if ltb node.next_async_number e.async_number
    then park node (push e node.async_todo)
    else (node, dropped stale_async_number)

unfoldable pub dispatch_async_or_enqueue :
    RpcAddress → ℕ → WireTransaction → List ℕ → RpcState → RpcState × AsyncDecision
dispatch_async_or_enqueue addr wire_async txn in_fds s = elim (get addr s.local_nodes) [
  | none ↦ (s, dropped unknown_address)
  | some node ↦
      let (node', decision) =
        gate node (record { async_number = wire_async; transaction = txn; in_fds = in_fds }) in
      (record s { local_nodes = insert addr node' s.local_nodes }, decision)
]

-- The `while let` of `advance_and_pop_async`.
unfoldable pub drop_below : ℕ → List AsyncTodo → List AsyncTodo
drop_below n [] = []
drop_below n (x ∷ xs) = if leb n x.async_number then x ∷ xs else drop_below n xs

-- The `if let` behind it.
unfoldable pub pop_at : ℕ → List AsyncTodo → List AsyncTodo × Option AsyncTodo
pop_at n [] = ([], none)
pop_at n (x ∷ xs) = if x.async_number == n then (xs, some x) else (x ∷ xs, none)

unfoldable pub advance : LocalNode → LocalNode × Option AsyncTodo
advance node =
    let n = (node.next_async_number + 1) % 2 ^ 64 in
    let (todo, popped) = pop_at n (drop_below n node.async_todo) in
    (record node { next_async_number = n; async_todo = todo }, popped)

unfoldable pub advance_and_pop_async : RpcAddress → RpcState → RpcState × Option AsyncTodo
advance_and_pop_async addr s = elim (get addr s.local_nodes) [
  | none ↦ (s, none)
  | some node ↦
      let (node', popped) = advance node in
      (record s { local_nodes = insert addr node' s.local_nodes }, popped)
]

pub data Flow : Type 0 where
  done failed stuck : Flow

-- What a run of `dispatch_oneway_ordered` leaves: the table, the transactions that were executed, in
-- order, and how it ended. `stuck` is that the fuel ran out.
pub record Delivery : Type 0 where
  pub state : RpcState
  pub executed : List AsyncTodo
  pub flow : Flow

-- The `while let`. `execute` is `execute_dispatched`, whose error ends the loop; it is taken not to
-- touch this session's table.
unfoldable pub drain : (AsyncTodo → Bool) → ℕ → RpcAddress → Option AsyncTodo → RpcState → Delivery
drain execute fuel addr none s = record { state = s; executed = []; flow = done }
drain execute zero addr (some e) s = record { state = s; executed = []; flow = stuck }
drain execute (suc fuel) addr (some e) s =
    let (s', next) = advance_and_pop_async addr s in
    let rest = drain execute fuel addr next s' in
    if execute e
    then record { state = rest.state; executed = e ∷ rest.executed; flow = rest.flow }
    else record { state = s; executed = e ∷ []; flow = failed }

abbrev pub backlog : RpcAddress → RpcState → ℕ
backlog addr s = elim (get addr s.local_nodes) [ none ↦ 0 | some node ↦ length node.async_todo ]

-- What the loop starts from. Every round but the first takes an entry off the backlog, so one more
-- round than that is enough.
unfoldable pub follow :
    (AsyncTodo → Bool) → RpcAddress → AsyncTodo → RpcState → AsyncDecision → Delivery
follow execute addr e s (dispatch txn fds) =
    drain execute (suc (backlog addr s)) addr
      (some (record { async_number = e.async_number; transaction = txn; in_fds = fds })) s
follow execute addr e s enqueued = record { state = s; executed = []; flow = done }
follow execute addr e s (dropped reason) = record { state = s; executed = []; flow = done }
follow execute addr e s (terminate n) = record { state = s; executed = []; flow = failed }

unfoldable pub dispatch_oneway_ordered :
    (AsyncTodo → Bool) → RpcAddress → AsyncTodo → RpcState → Delivery
dispatch_oneway_ordered execute addr e s =
    let (s', decision) = dispatch_async_or_enqueue addr e.async_number e.transaction e.in_fds s in
    follow execute addr e s' decision
