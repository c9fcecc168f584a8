-- ===== src/Rpc/State/Queue.antt =====
-- The order of a node's parked transactions.
use rsbinder.Prelude.{
  ℕ, suc, ◌+◌, ◌^◌, ◌%◌, ◌≤◌, ◌<◌, ◌≡◌, refl, List, [], ◌∷◌, Option, none, some, arith, length,
}
use rsbinder.Rpc.State.Nodes.{AsyncTodo, LocalNode}
use rsbinder.Rpc.State.Async.{async_todo_terminate_level, push, gate, drop_below, pop_at, advance}

-- No entry is numbered below `n`, and none below the one in front of it.
abbrev pub Above : ℕ → List AsyncTodo → Type 0
Above n [] = Unit
Above n (x ∷ xs) = (n ≤ x.async_number) × Above x.async_number xs

pub record IsQueue (node : LocalNode) : Type 0 where
  pub ordered : Above node.next_async_number node.async_todo
  pub bounded : length node.async_todo < async_todo_terminate_level

pub push-Above :
    (n : ℕ) (e : AsyncTodo) (xs : List AsyncTodo)
    → n ≤ e.async_number
    → Above n xs
    → Above n (push e xs)
unfolding push
push-Above n e [] h a = (h, tt)
push-Above n e (x ∷ xs) h a = ground (arith, push-Above x.async_number e xs)

pub length-push : (e : AsyncTodo) (xs : List AsyncTodo) → length (push e xs) ≡ suc (length xs)
unfolding push
length-push e [] = refl
length-push e (x ∷ xs) = ground (arith, length-push e xs)

pub gate-IsQueue : (node : LocalNode) (e : AsyncTodo) → IsQueue node → IsQueue (gate node e).0
unfolding gate
gate-IsQueue node e v =
    ground (arith, push-Above node.next_async_number e node.async_todo, v.ordered)

-- What `advance` may pop: the new number, or else nothing at that number is left.
pub record Advanced (node : LocalNode) (node' : LocalNode) (popped : Option AsyncTodo)
    : Type 0 where
  pub queue : IsQueue node'
  pub next : node'.next_async_number ≡ node.next_async_number + 1
  pub number : (e : AsyncTodo) → popped ≡ some e → e.async_number ≡ node'.next_async_number
  pub shorter : (e : AsyncTodo) → popped ≡ some e → length node'.async_todo < length node.async_todo
  pub idle : popped ≡ none → Above (node'.next_async_number + 1) node'.async_todo

drop_below-Above : (m n : ℕ) (xs : List AsyncTodo) → Above m xs → Above n (drop_below n xs)
unfolding drop_below
drop_below-Above m n [] a = tt
drop_below-Above m n (x ∷ xs) a = ground (arith, drop_below-Above x.async_number n xs)

length-drop_below : (n : ℕ) (xs : List AsyncTodo) → length (drop_below n xs) ≤ length xs
unfolding drop_below
length-drop_below n [] = omega arith
length-drop_below n (x ∷ xs) = ground (arith, length-drop_below n xs)

pop_at-Above :
    (n : ℕ) (xs : List AsyncTodo)
    → Above n xs
    → Above n (pop_at n xs).0
      × (length (pop_at n xs).0 ≤ length xs)
      × ((pop_at n xs).1 ≡ none → Above (n + 1) (pop_at n xs).0)
unfolding pop_at
pop_at-Above n [] a = (tt, omega arith, λ e. tt)
pop_at-Above n (x ∷ xs) a = ground arith

pop_at-some :
    (n : ℕ) (xs : List AsyncTodo) (e : AsyncTodo)
    → (pop_at n xs).1 ≡ some e
    → (e.async_number ≡ n) × (length (pop_at n xs).0 < length xs)
unfolding pop_at
pop_at-some n [] e h = cc
pop_at-some n (x ∷ xs) e h = ground arith

pub advance-Advanced :
    (node : LocalNode)
    → IsQueue node
    → node.next_async_number + 1 < 2 ^ 64
    → Advanced node (advance node).0 (advance node).1
unfolding advance
advance-Advanced node v h = record {
  queue = record { ordered = kept.0; bounded = omega (arith, kept.1, v.bounded, shrinks) };
  next = no_wrap;
  number = λ e some_e. (pop_at-some n rest e some_e).0;
  shorter = λ e some_e. omega (arith, (pop_at-some n rest e some_e).1, shrinks);
  idle = kept.2;
}
  where
    n : ℕ
    n = (node.next_async_number + 1) % 2 ^ 64

    no_wrap : n ≡ node.next_async_number + 1
    no_wrap = omega arith

    rest : List AsyncTodo
    rest = drop_below n node.async_todo

    shrinks : length rest ≤ length node.async_todo
    shrinks = length-drop_below n node.async_todo

    kept :
        Above n (pop_at n rest).0
        × (length (pop_at n rest).0 ≤ length rest)
        × ((pop_at n rest).1 ≡ none → Above (n + 1) (pop_at n rest).0)
    kept = pop_at-Above n rest (drop_below-Above node.next_async_number n node.async_todo v.ordered)
