-- ===== src/Rpc/State/Nodes.antt =====
-- `RpcState` and its books of local objects and remote proxies (rsbinder/src/rpc/state.rs).
-- An `SIBinder` is the address of its allocation: a clone is the same number, and `binder_ptr` the
-- identity. A `Weak` is that address too, and what is still alive is an argument.
use rsbinder.Prelude.{
  ℕ, ◌+◌, ◌-◌, ◌^◌, ◌%◌, not, Bool, true, false, List, [], ◌∷◌, Option, none, some, leb, ◌==◌,
  if◌then◌else◌, length,
}
use rsbinder.Prelude.Maps.{Map, get, insert, remove, retain}
use rsbinder.Rpc.Address.{RpcAddress, AddressSpace, unique, beq_addr, addr_eq}
use rsbinder.Rpc.Wire.Readers.{WireTransaction}
use rsbinder.Prelude.{nat_eq}

pub record AsyncTodo : Type 0 where
  pub async_number : ℕ
  pub transaction : WireTransaction
  pub in_fds : List ℕ

-- `strong` is positive in every node of the table: an update that would bring it to 0 or below drops
-- the node, and is written as that test on natural numbers.
-- `async_todo` is a min-heap: here the list in the order in which the heap gives its entries out.
pub record LocalNode : Type 0 where
  pub binder : ℕ
  pub strong : ℕ
  pub next_async_number : ℕ
  pub async_todo : List AsyncTodo

pub record RpcState : Type 0 where
  pub local_nodes : Map RpcAddress LocalNode
  pub local_by_ptr : Map ℕ RpcAddress
  pub remote_proxies : Map RpcAddress ℕ
  pub remote_send_async_counters : Map RpcAddress ℕ
  pub addr_counter : ℕ
  pub space : AddressSpace

unfoldable pub new : AddressSpace → RpcState
new space = record {
  local_nodes = [];
  local_by_ptr = [];
  remote_proxies = [];
  remote_send_async_counters = [];
  addr_counter = 0;
  space = space;
}

-- `crate::Result<RpcAddress>` with the one error that the function has.
pub data Leaving : Type 0 where
  ok : RpcAddress → Leaving
  failed_transaction : Leaving

abbrev pub u32_max : ℕ
u32_max = 0xffff_ffff

-- `get_mut(addr)` and an update of what it finds.
abbrev pub modify : RpcAddress → (LocalNode → LocalNode) → RpcState → RpcState
modify addr f s = elim (get addr s.local_nodes) [
  | none ↦ s
  | some node ↦ record s { local_nodes = insert addr (f node) s.local_nodes }
]

bump : LocalNode → LocalNode
bump node = record node { strong = node.strong + 1 }

unfoldable pub fresh_node : ℕ → LocalNode
fresh_node binder = record { binder = binder; strong = 1; next_async_number = 0; async_todo = [] }

-- The branch that mints an address.
unfoldable pub register : ℕ → RpcState → RpcState × Leaving
unfolding fresh_node
register binder s =
    if leb u32_max s.addr_counter
    then (s, failed_transaction)
    else let (counter, addr) = unique s.addr_counter s.space in
      (
        record s {
          local_nodes = insert addr (fresh_node binder) s.local_nodes;
          local_by_ptr = insert binder addr s.local_by_ptr;
          addr_counter = counter;
        },
        ok addr,
      )

unfoldable pub on_binder_leaving : ℕ → RpcState → RpcState × Leaving
unfolding bump
on_binder_leaving binder s = elim (get binder s.local_by_ptr) [
  | some addr ↦ (modify addr bump s, ok addr)
  | none ↦ register binder s
]

unfoldable pub lookup_local : RpcAddress → RpcState → Option ℕ
lookup_local addr s = elim (get addr s.local_nodes) [ none ↦ none | some node ↦ some node.binder ]

-- Takes `amount` from the node's count: whether it was removed is the second result.
unfoldable pub dec_strong_local : RpcAddress → ℕ → RpcState → RpcState × Bool
dec_strong_local addr amount s = elim (get addr s.local_nodes) [
  | none ↦ (s, false)
  | some node ↦
      if leb node.strong amount
      then (
        record s {
          local_nodes = remove addr s.local_nodes;
          local_by_ptr = retain (λ a. not (beq_addr a addr)) s.local_by_ptr;
        },
        true,
      )
      else (
        record s {
          local_nodes = insert addr (record node { strong = node.strong - amount }) s.local_nodes;
        },
        false,
      )
]

unfoldable pub cancel_binder_leaving : RpcAddress → RpcState → RpcState
unfolding dec_strong_local
cancel_binder_leaving addr s = (dec_strong_local addr 1 s).0

-- `make` is the proxy that would be created; `live` tells which allocations can be upgraded.
unfoldable pub remote_proxy : (ℕ → Bool) → RpcAddress → ℕ → RpcState → RpcState × (ℕ × Bool)
remote_proxy live addr make s =
    let minted : RpcState × (ℕ × Bool) =
      (record s { remote_proxies = insert addr make s.remote_proxies }, (make, false)) in
    elim (get addr s.remote_proxies) [
      | none ↦ minted
      | some weak ↦ if live weak then (s, (weak, true)) else minted
    ]

unfoldable pub forget_remote_if : RpcAddress → ℕ → RpcState → RpcState
forget_remote_if addr who s = elim (get addr s.remote_proxies) [
  | none ↦ s
  | some weak ↦
      if weak == who
      then record s {
        remote_proxies = remove addr s.remote_proxies;
        remote_send_async_counters = remove addr s.remote_send_async_counters;
      }
      else s
]

unfoldable pub local_node_count : RpcState → ℕ
local_node_count s = length s.local_nodes

abbrev pub or_zero : Option ℕ → ℕ
or_zero none = 0
or_zero (some n) = n

-- Returns the number to stamp on the outgoing transaction.
unfoldable pub next_send_async_number : RpcAddress → RpcState → RpcState × ℕ
next_send_async_number addr s =
    let n = or_zero (get addr s.remote_send_async_counters) in
    (
      record s {
        remote_send_async_counters = insert addr ((n + 1) % 2 ^ 64) s.remote_send_async_counters;
      },
      n,
    )

unfoldable pub cancel_send_async_number : RpcAddress → ℕ → RpcState → RpcState
cancel_send_async_number addr consumed s = elim (get addr s.remote_send_async_counters) [
  | none ↦ s
  | some counter ↦
      if counter == (consumed + 1) % 2 ^ 64
      then record s {
        remote_send_async_counters = insert addr consumed s.remote_send_async_counters;
      }
      else s
]

live_values : (ℕ → Bool) → Map RpcAddress ℕ → List ℕ
live_values live [] = []
live_values live ((a, weak) ∷ m) =
    if live weak then weak ∷ live_values live m else live_values live m

unfoldable pub remote_proxy_snapshot : (ℕ → Bool) → RpcState → List ℕ
unfolding live_values
remote_proxy_snapshot live s = live_values live s.remote_proxies
