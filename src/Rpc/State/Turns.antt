-- ===== src/Rpc/State/Turns.antt =====
-- One transaction at a time: what holds of a node between the steps of the threads, and after an
-- arrival.
use rsbinder.Prelude.{
  ℕ, suc, ◌+◌, ◌^◌, ◌≤◌, ◌<◌, ◌≡◌, ◌⊎◌, refl, sym, ap, subst, true, List, [], ◌∷◌, ◌++◌, some, inl,
  inr, ltb, arith, Bool-cases, length, length-append, nat_eq,
}
use rsbinder.Prelude.Maps.{get, get-insert_self, Key-cases}
use rsbinder.Rpc.Address.{RpcAddress, addr_eq}
use rsbinder.Rpc.State.Nodes.{AsyncTodo, LocalNode, RpcState}
use rsbinder.Rpc.State.Async.{
  async_todo_terminate_level, AsyncDecision, enqueued, dropped, stale_async_number, push, gate,
  park,
}
use rsbinder.Rpc.State.Threads.{Site, Act, arrives, returns, others, step}
use rsbinder.Rpc.State.Steps.{with_node}
use rsbinder.Rpc.State.Gate.{gate_at, gate_due}
use rsbinder.Rpc.State.Delivery.{Consecutive}
use rsbinder.Rpc.State.Queue.{Above, IsQueue, gate-IsQueue, length-push, push-Above}
use rsbinder.Rpc.State.Parked.{Parked, push-here, push-Parked}

pub not-Parked : (m n : ℕ) (xs : List AsyncTodo) → m < n → Above n xs → Parked m xs → ⊥
not-Parked m n [] lt above p = p
not-Parked m n (x ∷ xs) lt (here, above) (inl same) = omega (arith, same)
not-Parked m n (x ∷ xs) lt (here, above) (inr there) =
    not-Parked m x.async_number xs (omega arith) above there

pub Consecutive-snoc :
    (n : ℕ) (xs : List AsyncTodo) (e : AsyncTodo)
    → Consecutive n xs
    → e.async_number ≡ n + length xs
    → Consecutive n (xs ++ (e ∷ []))
Consecutive-snoc n [] e front same = (omega (arith, same), tt)
Consecutive-snoc n (x ∷ xs) e (here, front) same =
    (here, Consecutive-snoc (suc n) xs e front (omega (arith, same)))

abbrev pub arrivals : List Act → List AsyncTodo
arrivals [] = []
arrivals (arrives e ∷ acts) = e ∷ arrivals acts
arrivals (returns i fine ∷ acts) = arrivals acts
arrivals (others f ∷ acts) = arrivals acts

-- No two entries have one number.
abbrev pub IsDistinct : List AsyncTodo → Type 0
IsDistinct [] = Unit
IsDistinct (e ∷ es) = (Parked e.async_number es → ⊥) × IsDistinct es

-- What else happens to the table leaves the queue of the node alone.
abbrev pub Keeps : RpcAddress → (RpcState → RpcState) → Type 0
Keeps addr f =
    (s : RpcState) (node : LocalNode)
    → get addr s.local_nodes ≡ some node
    → (after : LocalNode) × (get addr (f s).local_nodes ≡ some after)
      × (after.next_async_number ≡ node.next_async_number)
      × (after.async_todo ≡ node.async_todo)

-- No execution fails.
abbrev pub IsFine : RpcAddress → Act → Type 0
IsFine addr (arrives e) = Unit
IsFine addr (returns i fine) = fine ≡ true
IsFine addr (others f) = Keeps addr f

-- At most one transaction is executed at a time: the one with the node's next number. While none is,
-- none that is parked is due.
abbrev pub IsTurn : List AsyncTodo → LocalNode → Type 0
IsTurn [] node = Above (node.next_async_number + 1) node.async_todo
IsTurn (e ∷ []) node = e.async_number ≡ node.next_async_number
IsTurn (e ∷ x ∷ xs) node = ⊥

pub IsTurn-next :
    (xs : List AsyncTodo) (node after : LocalNode)
    → after.next_async_number ≡ node.next_async_number
    → after.async_todo ≡ node.async_todo
    → IsTurn xs node
    → IsTurn xs after
IsTurn-next [] node after p q t = rw (p, q) t
IsTurn-next (e ∷ []) node after p q t = omega (arith, p, t)
IsTurn-next (e ∷ x ∷ xs) node after p q t = absurd t

-- Executed, in execution, or parked.
abbrev pub Served : ℕ → List AsyncTodo → LocalNode → Type 0
Served m xs node = (m < node.next_async_number + length xs) ⊎ Parked m node.async_todo

-- `n` and `k` as in the theorem, and `es` what is still to arrive.
pub record Ready (addr : RpcAddress) (n k : ℕ) (es : List AsyncTodo) (y : Site) : Type 0 where
  pub node : LocalNode
  pub found : get addr y.state.local_nodes ≡ some node
  pub queue : IsQueue node
  pub in_turn : IsTurn y.executing node
  pub in_order : Consecutive n y.executed
  pub moved : node.next_async_number + length y.executing ≡ n + length y.executed
  pub few : length node.async_todo + length es < async_todo_terminate_level
  pub room :
      node.next_async_number + length node.async_todo + length es + length y.executing < 2 ^ 64
  pub unseen : (m : ℕ) → Parked m es → (Parked m y.executing → ⊥) × (Parked m node.async_todo → ⊥)
  pub distinct : IsDistinct es
  pub served : (m : ℕ) → n ≤ m → m < n + k → Served m y.executing node ⊎ Parked m es

gate_later :
    (node : LocalNode) (e : AsyncTodo)
    → node.next_async_number < e.async_number
    → length node.async_todo + 1 < async_todo_terminate_level
    → gate node e ≡ (record node { async_todo = push e node.async_todo }, enqueued)
unfolding gate park
gate_later node e later room = ground (arith, length-push e node.async_todo)

gate_stale :
    (node : LocalNode) (e : AsyncTodo)
    → e.async_number < node.next_async_number
    → gate node e ≡ (node, dropped stale_async_number)
unfolding gate
gate_stale node e stale = ground arith

Parked-push :
    (m : ℕ) (e : AsyncTodo) (xs : List AsyncTodo)
    → Parked m (push e xs)
    → (e.async_number ≡ m) ⊎ Parked m xs
unfolding push
Parked-push m e [] h = h
Parked-push m e (x ∷ xs) h = elim (Bool-cases (ltb e.async_number x.async_number)) [
  | inl front ↦ rw front at h
  | inr later ↦ elim (rw later at h) [
    | inl here ↦ inr (inl here)
    | inr there ↦ elim (Parked-push m e xs there) [
      | inl here ↦ inl here
      | inr back ↦ inr (inr back)
    ]
  ]
]

-- The parked transactions stay above the next number when one behind it joins them.
push-IsTurn :
    (xs : List AsyncTodo) (node : LocalNode) (e : AsyncTodo)
    → node.next_async_number < e.async_number
    → IsTurn xs node
    → IsTurn xs (record node { async_todo = push e node.async_todo })
push-IsTurn [] node e later t =
    push-Above (node.next_async_number + 1) e node.async_todo (omega arith) t
push-IsTurn (x ∷ []) node e later t = t
push-IsTurn (x ∷ z ∷ xs) node e later t = t

pub until :
    (m : ℕ) (e : AsyncTodo) (node : LocalNode)
    → Served m (e ∷ []) node
    → (m ≤ node.next_async_number) ⊎ Parked m node.async_todo
until m e node (inl before) = inl (omega (arith, before))
until m e node (inr parked) = inr parked

abbrev pub site : RpcState → List AsyncTodo → List AsyncTodo → Site
site s xs log = record { state = s; executing = xs; executed = log }

module _ (addr : RpcAddress) (n k : ℕ) (e : AsyncTodo) (es : List AsyncTodo) (s : RpcState)
    (log : List AsyncTodo) where
  -- An arrival that is not executed, at the node that it leaves.
  joined-Ready :
      (xs : List AsyncTodo) (r : Ready addr n k (e ∷ es) (site s xs log)) (after : LocalNode)
      → IsQueue after
      → IsTurn xs after
      → after.next_async_number ≡ r.node.next_async_number
      → length after.async_todo ≤ length r.node.async_todo + 1
      → ((m : ℕ) → Parked m r.node.async_todo → Parked m after.async_todo)
      → ((m : ℕ) → Parked m after.async_todo → (e.async_number ≡ m) ⊎ Parked m r.node.async_todo)
      → Served e.async_number xs after
      → Ready addr n k es (site (with_node addr after s) xs log)
  joined-Ready xs r after queue in_turn same grows keeps joins there = record {
    node = after;
    found = get-insert_self addr after s.local_nodes;
    queue = queue;
    in_turn = in_turn;
    in_order = r.in_order;
    moved = omega (arith, r.moved, same);
    few = omega (arith, r.few, grows);
    room = omega (arith, r.room, grows, same);
    unseen = λ m h. (
      (r.unseen m (inr h)).0,
      λ p. elim (joins m p) [
        | inl new ↦ r.distinct.0 (subst (λ j. Parked j es) (sym new) h)
        | inr old ↦ (r.unseen m (inr h)).1 old
      ],
    );
    distinct = r.distinct.1;
    served = λ m lo hi. elim (r.served m lo hi) [
      | inl (inl before) ↦ inl (inl (omega (arith, before, same)))
      | inl (inr parked) ↦ inl (inr (keeps m parked))
      | inr (inl here) ↦ inl (subst (λ j. Served j xs after) here there)
      | inr (inr late) ↦ inr late
    ];
  }

  due-Ready :
      (xs : List AsyncTodo) (r : Ready addr n k (e ∷ es) (site s xs log))
      → e.async_number ≡ r.node.next_async_number
      → Ready addr n k es (site (with_node addr r.node s) (e ∷ xs) (log ++ (e ∷ [])))
  due-Ready (x ∷ []) r due =
      absurd ((r.unseen e.async_number (inl refl)).0 (inl (omega (arith, due, r.in_turn))))
  due-Ready (x ∷ z ∷ xs) r due = absurd r.in_turn
  due-Ready [] r due = record {
    node = r.node;
    found = get-insert_self addr r.node s.local_nodes;
    queue = r.queue;
    in_turn = due;
    in_order = Consecutive-snoc n log e r.in_order (omega (arith, due, r.moved));
    moved = omega (arith, r.moved, length-append log (e ∷ []));
    few = omega (arith, r.few);
    room = omega (arith, r.room);
    unseen = λ m h. (
      λ p. elim p [
        | inl new ↦ r.distinct.0 (subst (λ j. Parked j es) (sym new) h)
        | inr none_left ↦ none_left
      ],
      (r.unseen m (inr h)).1,
    );
    distinct = r.distinct.1;
    served = λ m lo hi. elim (r.served m lo hi) [
      | inl (inl before) ↦ inl (inl (omega (arith, before)))
      | inl (inr parked) ↦ inl (inr parked)
      | inr (inl here) ↦ inl (inl (omega (arith, here, due)))
      | inr (inr late) ↦ inr late
    ];
  }

  pub arrives-Ready :
      (xs : List AsyncTodo)
      → Ready addr n k (e ∷ es) (site s xs log)
      → Ready addr n k es (step addr (arrives e) (site s xs log))
  unfolding step
  arrives-Ready xs r = elim (Key-cases e.async_number r.node.next_async_number) [
    | inl due ↦ rw (gate_at addr e s r.node r.found, gate_due r.node e due) (due-Ready xs r due)
    | inr ne ↦ elim (Bool-cases (ltb e.async_number r.node.next_async_number)) [
      | inl stale ↦
          let before : e.async_number < r.node.next_async_number = ground (arith, stale) in
          rw (gate_at addr e s r.node r.found, gate_stale r.node e before)
            (joined-Ready xs r r.node r.queue r.in_turn refl (omega arith) (λ m p. p) (λ m p. inr p)
              (inl (omega (arith, before))))
      | inr late ↦
          let later : r.node.next_async_number < e.async_number = ground (arith, late, ne) in
          let after : LocalNode = record r.node { async_todo = push e r.node.async_todo } in
          let parks = gate_later r.node e later (omega (arith, r.few)) in
          rw (gate_at addr e s r.node r.found, parks)
            (joined-Ready xs r after
              (subst IsQueue (ap (λ (p : LocalNode × AsyncDecision). p.0) parks)
                (gate-IsQueue r.node e r.queue))
              (push-IsTurn xs r.node e later r.in_turn) refl
              (omega (arith, length-push e r.node.async_todo))
              (λ m p. push-Parked m e r.node.async_todo p)
              (λ m p. Parked-push m e r.node.async_todo p) (inr (push-here e r.node.async_todo)))
    ]
  ]
