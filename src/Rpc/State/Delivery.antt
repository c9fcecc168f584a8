-- ===== src/Rpc/State/Delivery.antt =====
-- Oneway transactions are executed in the order of their numbers.
use rsbinder.Prelude.{
  ℕ, zero, suc, ◌+◌, ◌^◌, ◌<◌, ◌≡◌, ◌≢◌, ◌⊎◌, refl, sym, ap, ◌∙◌, subst, Bool, true, false, List,
  [], ◌∷◌, Option, none, some, inl, inr, arith, Bool-cases, nat_eq, Option-cases, length,
}
use rsbinder.Prelude.Maps.{get, insert, get-insert_self, Key-cases}
use rsbinder.Rpc.Address.{RpcAddress, addr_eq}
use rsbinder.Rpc.State.Nodes.{AsyncTodo, LocalNode, RpcState}
use rsbinder.Rpc.State.Async.{
  AsyncDecision, follow, Flow, done, failed, stuck, Delivery, advance, advance_and_pop_async, drain,
  gate, dispatch, dispatch_oneway_ordered,
}
use rsbinder.Rpc.State.Steps.{with_node}
use rsbinder.Rpc.State.Gate.{flow_of, follow_parked, gate_due, gate_other, gate_at}
use rsbinder.Rpc.State.Queue.{Above, IsQueue, Advanced, advance-Advanced, gate-IsQueue}

-- The entries carry the numbers `n`, `n + 1`, and so on.
abbrev pub Consecutive : ℕ → List AsyncTodo → Type 0
Consecutive n [] = Unit
Consecutive n (e ∷ es) = (e.async_number ≡ n) × Consecutive (suc n) es

-- What a run has done from a node whose next number was `n`.
pub record Delivered (n : ℕ) (addr : RpcAddress) (d : Delivery) : Type 0 where
  pub in_order : Consecutive n d.executed
  pub ended : d.flow ≢ stuck
  pub node : LocalNode
  pub found : get addr d.state.local_nodes ≡ some node
  pub queue : IsQueue node
  pub caught_up :
      d.flow ≡ done
      → (node.next_async_number ≡ n + length d.executed)
        × Above (node.next_async_number + 1) node.async_todo

pub advance_and_pop-node :
    (addr : RpcAddress) (s : RpcState) (node : LocalNode)
    → get addr s.local_nodes ≡ some node
    → advance_and_pop_async addr s
      ≡ (record s { local_nodes = insert addr (advance node).0 s.local_nodes }, (advance node).1)
unfolding advance_and_pop_async
advance_and_pop-node addr s node e = rw (e, advance_and_pop_async)

module _ (execute : AsyncTodo → Bool) (addr : RpcAddress) where
  drain_failed :
      (fuel : ℕ) (e : AsyncTodo) (s : RpcState)
      → execute e ≡ false
      → drain execute (suc fuel) addr (some e) s
        ≡ record { state = s; executed = e ∷ []; flow = failed }
  unfolding drain
  drain_failed fuel e s h = rw h

  abbrev pub behind : AsyncTodo → Delivery → Delivery
  behind e rest = record { state = rest.state; executed = e ∷ rest.executed; flow = rest.flow }

  pub drain_next :
      (fuel : ℕ) (e : AsyncTodo) (s : RpcState) (s' : RpcState) (next : Option AsyncTodo)
      → execute e ≡ true
      → advance_and_pop_async addr s ≡ (s', next)
      → drain execute (suc fuel) addr (some e) s ≡ behind e (drain execute fuel addr next s')
  unfolding drain
  drain_next fuel e s s' next h step = rw (h, step)

  -- The run that follows an executed entry, put behind it.
  behind-Delivered :
      (n m : ℕ) (e : AsyncTodo) (rest : Delivery)
      → e.async_number ≡ n
      → m ≡ suc n
      → Delivered m addr rest
      → Delivered n addr (behind e rest)
  behind-Delivered n m e rest here after r = record {
    in_order = (here, subst (λ k. Consecutive k rest.executed) after r.in_order);
    ended = r.ended;
    node = r.node;
    found = r.found;
    queue = r.queue;
    caught_up = λ finished. (omega (arith, (r.caught_up finished).0), (r.caught_up finished).1);
  }

  drain-Delivered :
      (fuel : ℕ) (e : AsyncTodo) (s : RpcState) (node : LocalNode)
      → get addr s.local_nodes ≡ some node
      → IsQueue node
      → e.async_number ≡ node.next_async_number
      → node.next_async_number + fuel < 2 ^ 64
      → length node.async_todo < fuel
      → Delivered node.next_async_number addr (drain execute fuel addr (some e) s)
  drain-Delivered zero e s node found v here room enough = absurd (omega arith)
  drain-Delivered (suc fuel) e s node found v here room enough = elim (Bool-cases (execute e)) [
    | inr bad ↦ rw (drain_failed fuel e s bad) (record {
      in_order = (here, tt);
      ended = λ h. cc;
      node = node;
      found = found;
      queue = v;
      caught_up = λ h. absurd (cc h);
    })
    | inl fine ↦
        go fine
          (λ e' some_e'.
            drain-Delivered fuel e' s' node' found' a.queue (a.number e' some_e')
              (omega (arith, a.next)) (omega (arith, a.shorter e' some_e')))
          (Option-cases (advance node).1)
  ]
    where
      node' : LocalNode
      node' = (advance node).0

      a : Advanced node node' (advance node).1
      a = advance-Advanced node v (omega arith)

      s' : RpcState
      s' = record s { local_nodes = insert addr node' s.local_nodes }

      found' : get addr s'.local_nodes ≡ some node'
      found' = get-insert_self addr node' s.local_nodes

      round :
          execute e ≡ true
          → (next : Option AsyncTodo) → (advance node).1 ≡ next
          → Delivered node'.next_async_number addr (drain execute fuel addr next s')
          → Delivered node.next_async_number addr (drain execute (suc fuel) addr (some e) s)
      round fine next popped r =
          rw
            (drain_next fuel e s s' next fine
              (advance_and_pop-node addr s node found ∙ ap (λ o. (s', o)) popped))
            (behind-Delivered node.next_async_number node'.next_async_number e
              (drain execute fuel addr next s') here (omega (arith, a.next)) r)

      go :
          execute e ≡ true
          → ((e' : AsyncTodo)
              → (advance node).1 ≡ some e'
              → Delivered node'.next_async_number addr (drain execute fuel addr (some e') s'))
          → ((advance node).1 ≡ none) ⊎ ((e' : AsyncTodo) × ((advance node).1 ≡ some e'))
          → Delivered node.next_async_number addr (drain execute (suc fuel) addr (some e) s)
      go fine ih (inr (e', popped)) = round fine (some e') popped (ih e' popped)
      go fine ih (inl popped) = round fine none popped (
          unfold drain in
          (record {
            in_order = tt;
            ended = λ h. cc;
            node = node';
            found = found';
            queue = a.queue;
            caught_up = λ finished. (omega arith, a.idle popped);
          }))

  drain_head :
      (fuel : ℕ) (e : AsyncTodo) (s : RpcState)
      → (rest : List AsyncTodo) × ((drain execute (suc fuel) addr (some e) s).executed ≡ e ∷ rest)
  drain_head fuel e s = elim (Bool-cases (execute e)) [
    | inr bad ↦ ([], ap (λ (d : Delivery). d.executed) (drain_failed fuel e s bad))
    | inl fine ↦
        let (s', next) = advance_and_pop_async addr s in
        (
          (drain execute fuel addr next s').executed,
          ap (λ (d : Delivery). d.executed) (drain_next fuel e s s' next fine refl),
        )
  ]

module _ (execute : AsyncTodo → Bool) (addr : RpcAddress) (e : AsyncTodo) where
  pub follow-due :
      (s : RpcState) (node : LocalNode)
      → get addr s.local_nodes ≡ some node
      → follow execute addr e s (dispatch e.transaction e.in_fds)
        ≡ drain execute (suc (length node.async_todo)) addr (some e) s
  unfolding follow
  follow-due s node found =
      ap
        (λ (o : Option LocalNode).
          drain execute (suc (elim o [ none ↦ 0 | some n ↦ length n.async_todo ])) addr (some e) s)
        found

  pub parked-Delivered :
      (s : RpcState) (old node : LocalNode) (decision : AsyncDecision) (f : Flow)
      → get addr s.local_nodes ≡ some node
      → IsQueue node
      → node.next_async_number ≡ old.next_async_number
      → Above (old.next_async_number + 1) node.async_todo
      → flow_of decision ≡ some f
      → Delivered old.next_async_number addr (follow execute addr e s decision)
        × ((follow execute addr e s decision).executed ≡ [])
  parked-Delivered s old node decision f found v same above ending =
      let (ends, lively) = follow_parked execute addr e s decision f ending in
      rw ends (
        record {
          in_order = tt;
          ended = lively;
          node = node;
          found = found;
          queue = v;
          caught_up = λ finished.
              (omega arith, subst (λ k. Above (k + 1) node.async_todo) (sym same) above);
        },
        refl,
      )

-- One inbound oneway transaction at a known node, whose parked transactions stand in order, are fewer
-- than 10000 and all numbered above its next number, which is more than 10000 away from its
-- wrap-around: whatever the transaction is, what gets executed are the
-- transactions numbered from the node's next number on, without a gap; the arriving one is executed
-- exactly when it has that number, and then first; the loop ends; and if it ended without an error,
-- the next number has moved by what was executed, and nothing that is parked has come due.
pub dispatch_oneway_ordered-Delivered :
    (execute : AsyncTodo → Bool) (addr : RpcAddress) (e : AsyncTodo) (s : RpcState)
    (node : LocalNode)
    → get addr s.local_nodes ≡ some node
    → IsQueue node
    → Above (node.next_async_number + 1) node.async_todo
    → node.next_async_number + 10001 < 2 ^ 64
    → let d = dispatch_oneway_ordered execute addr e s in
      Delivered node.next_async_number addr d
      × (e.async_number ≡ node.next_async_number
          → (rest : List AsyncTodo) × (d.executed ≡ e ∷ rest))
      × (e.async_number ≢ node.next_async_number → d.executed ≡ [])
unfolding dispatch_oneway_ordered
dispatch_oneway_ordered-Delivered execute addr e s node found v idle room =
    rw (gate_at addr e s node found) (elim (Key-cases e.async_number node.next_async_number) [
      | inl due ↦
          rw
            (
              gate_due node e due,
              follow-due execute addr e (with_node addr node s) node
                  (get-insert_self addr node s.local_nodes),
            )
            (
              drain-Delivered execute addr _ e (with_node addr node s) node
                  (get-insert_self addr node s.local_nodes) v due (omega arith) (omega arith),
              (λ _. drain_head execute addr (length node.async_todo) e (with_node addr node s)),
              (λ ne. absurd (ne due)),
            )
      | inr ne ↦
          let node' : LocalNode = (gate node e).0 in
          let ((f, ending), same, above) = gate_other node e ne idle in
          let (d, nothing) =
            parked-Delivered execute addr e (with_node addr node' s) node node' (gate node e).1 f
              (get-insert_self addr node' s.local_nodes) (gate-IsQueue node e v) same above
              ending in
          (d, (λ due. absurd (ne due)), (λ _. nothing))
    ])
