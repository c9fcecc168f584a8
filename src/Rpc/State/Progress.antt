-- ===== src/Rpc/State/Progress.antt =====
-- Every oneway transaction is executed once those before it have arrived, whatever the threads do.
use rsbinder.Prelude.{
  ℕ, zero, suc, ◌+◌, ◌^◌, ◌≤◌, ◌<◌, ◌≡◌, ◌⊎◌, refl, ap, subst, true, List, [], ◌∷◌, some, inl, inr,
  leb, arith, Bool-cases, Option-cases, All, length, length-append, nat_eq,
}
use rsbinder.Prelude.Maps.{get, get-insert_self}
use rsbinder.Rpc.Address.{RpcAddress, addr_eq}
use rsbinder.Rpc.State.Nodes.{AsyncTodo, LocalNode, RpcState}
use rsbinder.Rpc.State.Async.{async_todo_terminate_level, advance}
use rsbinder.Rpc.State.Threads.{Site, Act, arrives, returns, others, resumed, step, run, start}
use rsbinder.Rpc.State.Delivery.{Consecutive, advance_and_pop-node}
use rsbinder.Rpc.State.Queue.{Above, IsQueue, Advanced, advance-Advanced}
use rsbinder.Rpc.State.Parked.{
  Parked, length-advance, advance-Parked, advance-Accounted, Parked-advance, advance-some-Parked,
}
use rsbinder.Rpc.State.Turns.{
  not-Parked, Consecutive-snoc, arrivals, IsDistinct, Keeps, IsFine, IsTurn-next, Ready, until,
  site, arrives-Ready,
}

module _ (addr : RpcAddress) (n k : ℕ) (es : List AsyncTodo) (s : RpcState)
    (log : List AsyncTodo) where
  advanced-Ready :
      (e : AsyncTodo)
      → Ready addr n k es (site s (e ∷ []) log)
      → Ready addr n k es (resumed addr true (some (e, [])) (site s (e ∷ []) log))
  advanced-Ready e r =
      let near : r.node.next_async_number + 1 < 2 ^ 64 = omega (arith, r.room) in
      let after : LocalNode = (advance r.node).0 in
      let a : Advanced r.node after (advance r.node).1 = advance-Advanced r.node r.queue near in
      let size = length-advance r.node in
      let found' = get-insert_self addr after s.local_nodes in
      elim (Option-cases (advance r.node).1) [
        | inl nothing ↦
            rw (advance_and_pop-node addr s r.node r.found, nothing)
              (record {
                node = after;
                found = found';
                queue = a.queue;
                in_turn = a.idle nothing;
                in_order = r.in_order;
                moved = omega (arith, r.moved, a.next);
                few = omega (arith, r.few, size);
                room = omega (arith, r.room, a.next, size);
                unseen = λ m h. ((λ p. p), λ p. (r.unseen m h).1 (Parked-advance m r.node p));
                distinct = r.distinct;
                served = λ m lo hi. elim (r.served m lo hi) [
                  | inl here ↦
                      inl (elim (advance-Accounted m r.node near nothing (until m e r.node here)) [
                        | inl before ↦ inl (omega (arith, before))
                        | inr parked ↦ inr parked
                      ])
                  | inr late ↦ inr late
                ];
              })
        | inr (e', popped) ↦
            rw (advance_and_pop-node addr s r.node r.found, popped)
              (record {
                node = after;
                found = found';
                queue = a.queue;
                in_turn = a.number e' popped;
                in_order =
                    Consecutive-snoc n log e' r.in_order
                      (omega (arith, r.moved, a.next, a.number e' popped));
                moved = omega (arith, r.moved, a.next, length-append log (e' ∷ []));
                few = omega (arith, r.few, size);
                room = omega (arith, r.room, a.next, a.shorter e' popped);
                unseen = λ m h. (
                  λ p. elim p [
                    | inl new ↦ (r.unseen m h).1 (
                        subst (λ j. Parked j r.node.async_todo) new
                          (advance-some-Parked r.node e' popped))
                    | inr none_left ↦ none_left
                  ],
                  λ p. (r.unseen m h).1 (Parked-advance m r.node p),
                );
                distinct = r.distinct;
                served = λ m lo hi. elim (r.served m lo hi) [
                  | inl here ↦ inl (elim (advance-Parked m r.node near (until m e r.node here)) [
                    | inl before ↦ inl (omega (arith, before))
                    | inr parked ↦ inr parked
                  ])
                  | inr late ↦ inr late
                ];
              })
      ]

  returns-Ready :
      (i : ℕ) (xs : List AsyncTodo)
      → Ready addr n k es (site s xs log)
      → Ready addr n k es (step addr (returns i true) (site s xs log))
  unfolding step
  returns-Ready i [] r = r
  returns-Ready zero (e ∷ []) r = advanced-Ready e r
  returns-Ready (suc i) (e ∷ []) r = r
  returns-Ready i (e ∷ x ∷ xs) r = absurd r.in_turn

  others-Ready :
      (f : RpcState → RpcState) (xs : List AsyncTodo)
      → Keeps addr f
      → Ready addr n k es (site s xs log)
      → Ready addr n k es (step addr (others f) (site s xs log))
  unfolding step
  others-Ready f xs keeps r =
      let (after, found, same, parked) = keeps s r.node r.found in
      record {
        node = after;
        found = found;
        queue = record {
          ordered = rw (same, parked) r.queue.ordered;
          bounded = rw parked r.queue.bounded;
        };
        in_turn = IsTurn-next xs r.node after same parked r.in_turn;
        in_order = r.in_order;
        moved = rw same r.moved;
        few = rw parked r.few;
        room = rw (same, parked) r.room;
        unseen = λ m h. ((r.unseen m h).0, rw parked (r.unseen m h).1);
        distinct = r.distinct;
        served = λ m lo hi. rw (same, parked) (r.served m lo hi);
      }

step-Ready :
    (addr : RpcAddress) (n k : ℕ) (a : Act) (acts : List Act) (y : Site)
    → IsFine addr a
    → Ready addr n k (arrivals (a ∷ acts)) y
    → Ready addr n k (arrivals acts) (step addr a y)
step-Ready addr n k (arrives e) acts y fine r =
    arrives-Ready addr n k e (arrivals acts) y.state y.executed y.executing r
step-Ready addr n k (returns i ok) acts y fine r =
    rw fine (returns-Ready addr n k (arrivals acts) y.state y.executed i y.executing r)
step-Ready addr n k (others f) acts y fine r =
    others-Ready addr n k (arrivals acts) y.state y.executed f y.executing fine r

run-Ready :
    (addr : RpcAddress) (n k : ℕ) (acts : List Act) (y : Site)
    → All (IsFine addr) acts
    → Ready addr n k (arrivals acts) y
    → Ready addr n k [] (run addr acts y)
unfolding run
run-Ready addr n k [] y fine r = r
run-Ready addr n k (a ∷ acts) y fine r =
    run-Ready addr n k acts (step addr a y) fine.1 (step-Ready addr n k a acts y fine.0 r)

Ready-length :
    (addr : RpcAddress) (n k : ℕ) (y : Site) (xs : List AsyncTodo)
    → y.executing ≡ xs
    → Ready addr n k [] y
    → (length xs ≤ 1) × ((length xs ≡ 1) ⊎ (k ≤ length y.executed))
Ready-length addr n k y [] e r = (
  omega arith,
  elim (Bool-cases (leb k (length y.executed))) [
    | inl enough ↦ inr (ground (arith, enough))
    | inr short ↦
        let m = r.node.next_async_number in
        let at : m ≡ n + length y.executed = omega (arith, r.moved, ap length e) in
        elim (r.served m (omega (arith, at)) (ground (arith, at, short))) [
          | inr late ↦ absurd late
          | inl (inl before) ↦ absurd (omega (arith, before, ap length e))
          | inl (inr parked) ↦
              absurd
                (not-Parked m (m + 1) r.node.async_todo (omega arith) (rw e at r.in_turn) parked)
        ]
  ],
)
Ready-length addr n k y (x ∷ []) e r = (omega arith, inl refl)
Ready-length addr n k y (x ∷ z ∷ xs) e r = absurd (rw e at r.in_turn)

-- A node is known, its parked transactions stand in order and none of them is due, the backlog with
-- all that arrives stays below 10000, and the numbers stay below the wrap-around. Transactions arrive on
-- any connections in any order, no two with one number and none with the number of one that is parked; no
-- execution fails; and between the steps of the threads anything else happens to the table that leaves the
-- node's queue alone. Then, after any such steps, at most one transaction is being executed, and those
-- whose execution has begun are numbered from the node's next number on without a gap. And when `k`
-- of them from that number on have arrived or were parked, among any others, either one is still being
-- executed, or at least `k` have been, and so each of them, in its turn.
pub run-executed :
    (addr : RpcAddress) (acts : List Act) (s : RpcState) (node : LocalNode) (k : ℕ)
    → get addr s.local_nodes ≡ some node
    → IsQueue node
    → Above (node.next_async_number + 1) node.async_todo
    → length node.async_todo + length (arrivals acts) < async_todo_terminate_level
    → node.next_async_number + length node.async_todo + length (arrivals acts) < 2 ^ 64
    → IsDistinct (arrivals acts)
    → ((m : ℕ) → Parked m (arrivals acts) → Parked m node.async_todo → ⊥)
    → All (IsFine addr) acts
    → ((m : ℕ)
        → node.next_async_number ≤ m
        → m < node.next_async_number + k
        → Parked m (arrivals acts) ⊎ Parked m node.async_todo)
    → let y = run addr acts (start s) in
      (length y.executing ≤ 1)
      × Consecutive node.next_async_number y.executed
      × ((length y.executing ≡ 1) ⊎ (k ≤ length y.executed))
run-executed addr acts s node k found queue idle few room distinct apart fine all =
    let y = run addr acts (start s) in
    let r = run-Ready addr node.next_async_number k acts (start s) fine (record {
      node = node;
      found = found;
      queue = queue;
      in_turn = idle;
      in_order = tt;
      moved = omega arith;
      few = few;
      room = omega (arith, room);
      unseen = λ m h. ((λ p. p), apart m h);
      distinct = distinct;
      served =
          λ m lo hi. elim (all m lo hi) [ inl comes ↦ inr comes | inr parked ↦ inl (inr parked) ];
    }) in
    let ends = Ready-length addr node.next_async_number k y y.executing refl r in
    (ends.0, r.in_order, ends.1)
