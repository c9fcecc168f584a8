-- ===== src/Rpc/State/Steps.antt =====
-- The operations on local objects, branch by branch: what each leaves and returns.
use rsbinder.Prelude.{
  ℕ, ◌+◌, ◌-◌, ◌≤◌, ◌<◌, ◌≡◌, not, true, false, none, some, le→leb, leb-false_of_lt, nat_eq,
}
use rsbinder.Prelude.Maps.{get, insert, remove, retain}
use rsbinder.Rpc.Address.{RpcAddress, unique, beq_addr, addr_eq}
use rsbinder.Rpc.State.Nodes.{
  LocalNode, RpcState, ok, failed_transaction, u32_max, modify, register, on_binder_leaving,
  dec_strong_local, fresh_node,
}

-- The table without the node at an address.
abbrev pub without : RpcAddress → RpcState → RpcState
without addr s = record s {
  local_nodes = remove addr s.local_nodes;
  local_by_ptr = retain (λ a. not (beq_addr a addr)) s.local_by_ptr;
}

abbrev pub with_node : RpcAddress → LocalNode → RpcState → RpcState
with_node addr node s = record s { local_nodes = insert addr node s.local_nodes }

abbrev pub registered : ℕ → RpcState → RpcState
registered p s =
    let (counter, addr) = unique s.addr_counter s.space in
    record s {
      local_nodes = insert addr (fresh_node p) s.local_nodes;
      local_by_ptr = insert p addr s.local_by_ptr;
      addr_counter = counter;
    }

module _ (addr : RpcAddress) (amount : ℕ) (s : RpcState) where
  pub dec_unknown : get addr s.local_nodes ≡ none → dec_strong_local addr amount s ≡ (s, false)
  unfolding dec_strong_local
  dec_unknown e = rw (e, dec_strong_local)

  pub dec_last :
      (node : LocalNode)
      → get addr s.local_nodes ≡ some node
      → node.strong ≤ amount
      → dec_strong_local addr amount s ≡ (without addr s, true)
  unfolding dec_strong_local
  dec_last node e h = rw (e, dec_strong_local, le→leb node.strong amount h)

  pub dec_some :
      (node : LocalNode)
      → get addr s.local_nodes ≡ some node
      → amount < node.strong
      → dec_strong_local addr amount s
        ≡ (with_node addr (record node { strong = node.strong - amount }) s, false)
  unfolding dec_strong_local
  dec_some node e h = rw (e, dec_strong_local, leb-false_of_lt node.strong amount h)

module _ (p : ℕ) (s : RpcState) where
  pub leaving_known :
      (addr : RpcAddress) (node : LocalNode)
      → get p s.local_by_ptr ≡ some addr
      → get addr s.local_nodes ≡ some node
      → on_binder_leaving p s
        ≡ (with_node addr (record node { strong = node.strong + 1 }) s, ok addr)
  unfolding on_binder_leaving
  leaving_known addr node e here = rw (e, on_binder_leaving, modify, here)

  pub leaving_full :
      get p s.local_by_ptr ≡ none
      → u32_max ≤ s.addr_counter
      → on_binder_leaving p s ≡ (s, failed_transaction)
  unfolding on_binder_leaving register
  leaving_full e h = rw (e, on_binder_leaving, le→leb u32_max s.addr_counter h)

  pub leaving_new :
      get p s.local_by_ptr ≡ none
      → s.addr_counter < u32_max
      → on_binder_leaving p s ≡ (registered p s, ok (unique s.addr_counter s.space).1)
  unfolding on_binder_leaving register
  leaving_new e h = rw (e, on_binder_leaving, leb-false_of_lt u32_max s.addr_counter h)
