-- ===== src/Rpc/State/Parked.antt =====
-- What is parked at a node, while transactions come and go.
use rsbinder.Prelude.{
  ℕ, ◌+◌, ◌^◌, ◌%◌, ◌≤◌, ◌<◌, ◌≡◌, ◌≢◌, ◌⊎◌, refl, List, [], ◌∷◌, Option, some, none, inl, inr, ltb,
  leb, ◌==◌, arith, Bool-cases, length, nat_eq,
}
use rsbinder.Rpc.Address.{addr_eq}
use rsbinder.Rpc.State.Nodes.{AsyncTodo, LocalNode}
use rsbinder.Rpc.State.Async.{push, drop_below, pop_at, advance}

-- A transaction with this number is parked.
abbrev pub Parked : ℕ → List AsyncTodo → Type 0
Parked m [] = ⊥
Parked m (x ∷ xs) = (x.async_number ≡ m) ⊎ Parked m xs

pub push-here : (e : AsyncTodo) (xs : List AsyncTodo) → Parked e.async_number (push e xs)
unfolding push
push-here e [] = inl refl
push-here e (x ∷ xs) = elim (Bool-cases (ltb e.async_number x.async_number)) [
  | inl front ↦ rw front (inl refl)
  | inr later ↦ rw later (inr (push-here e xs))
]

pub push-Parked : (m : ℕ) (e : AsyncTodo) (xs : List AsyncTodo) → Parked m xs → Parked m (push e xs)
unfolding push
push-Parked m e [] h = absurd h
push-Parked m e (x ∷ xs) h = elim (Bool-cases (ltb e.async_number x.async_number)) [
  | inl front ↦ rw front (inr h)
  | inr later ↦
      rw later (elim h [ inl here ↦ inl here | inr there ↦ inr (push-Parked m e xs there) ])
]

drop_below-Parked :
    (m n : ℕ) (xs : List AsyncTodo) → n ≤ m → Parked m xs → Parked m (drop_below n xs)
unfolding drop_below
drop_below-Parked m n [] h p = p
drop_below-Parked m n (x ∷ xs) h p = elim (Bool-cases (leb n x.async_number)) [
  | inl stays ↦ rw stays p
  | inr goes ↦ rw goes (elim p [
    | inl here ↦ absurd (ground (arith, goes, here))
    | inr there ↦ drop_below-Parked m n xs h there
  ])
]

pop_at-Parked :
    (m n : ℕ) (xs : List AsyncTodo)
    → Parked m xs
    → ((pop_at n xs).1 ≡ none) ⊎ (m ≢ n)
    → Parked m (pop_at n xs).0
unfolding pop_at
pop_at-Parked m n [] p other = p
pop_at-Parked m n (x ∷ xs) p other = elim (Bool-cases (x.async_number == n)) [
  | inr differs ↦ rw differs p
  | inl same ↦ rw same (elim p [
    | inr there ↦ there
    | inl here ↦ elim (rw same at other) [
      | inl nothing ↦ absurd (cc nothing)
      | inr ne ↦ absurd (ne (ground (arith, same, here)))
    ]
  ])
]

-- What `advance` takes off the backlog.
abbrev pub popped_count : Option AsyncTodo → ℕ
popped_count none = 0
popped_count (some e) = 1

length-drop_below_le : (n : ℕ) (xs : List AsyncTodo) → length (drop_below n xs) ≤ length xs
unfolding drop_below
length-drop_below_le n [] = omega arith
length-drop_below_le n (x ∷ xs) = ground (arith, length-drop_below_le n xs)

length-pop_at :
    (n : ℕ) (xs : List AsyncTodo)
    → length (pop_at n xs).0 + popped_count (pop_at n xs).1 ≡ length xs
unfolding pop_at
length-pop_at n [] = refl
length-pop_at n (x ∷ xs) = ground arith

pub length-advance :
    (node : LocalNode)
    → length (advance node).0.async_todo + popped_count (advance node).1 ≤ length node.async_todo
unfolding advance
length-advance node =
    let n = (node.next_async_number + 1) % 2 ^ 64 in
    omega (
      arith,
      length-pop_at n (drop_below n node.async_todo),
      length-drop_below_le n node.async_todo,
    )

-- Due or executed before, or parked.
abbrev pub Accounted : ℕ → LocalNode → Type 0
Accounted m node = (m < node.next_async_number) ⊎ Parked m node.async_todo

pub advance-Parked :
    (m : ℕ) (node : LocalNode)
    → node.next_async_number + 1 < 2 ^ 64
    → (m ≤ node.next_async_number) ⊎ Parked m node.async_todo
    → (m ≤ (advance node).0.next_async_number) ⊎ Parked m (advance node).0.async_todo
unfolding advance
advance-Parked m node room h =
    let n = (node.next_async_number + 1) % 2 ^ 64 in
    let next : n ≡ node.next_async_number + 1 = omega arith in
    elim (Bool-cases (leb m n)) [
      | inl le ↦ inl (ground (arith, le))
      | inr gt ↦ elim h [
        | inl before ↦ inl (omega (arith, before, next))
        | inr parked ↦ inr (
            pop_at-Parked m n (drop_below n node.async_todo)
              (drop_below-Parked m n node.async_todo (ground (arith, gt)) parked)
              (inr (λ e. ground (arith, gt, e))))
      ]
    ]

pub advance-Accounted :
    (m : ℕ) (node : LocalNode)
    → node.next_async_number + 1 < 2 ^ 64
    → (advance node).1 ≡ none
    → (m ≤ node.next_async_number) ⊎ Parked m node.async_todo
    → Accounted m (advance node).0
unfolding advance
advance-Accounted m node room nothing h =
    let n = (node.next_async_number + 1) % 2 ^ 64 in
    let next : n ≡ node.next_async_number + 1 = omega arith in
    elim (Bool-cases (ltb m n)) [
      | inl lt ↦ inl (ground (arith, lt))
      | inr ge ↦ elim h [
        | inl before ↦ inl (omega (arith, before, next))
        | inr parked ↦ inr (
            pop_at-Parked m n (drop_below n node.async_todo)
              (drop_below-Parked m n node.async_todo (ground (arith, ge)) parked) (inl nothing))
      ]
    ]

Parked-drop_below : (m n : ℕ) (xs : List AsyncTodo) → Parked m (drop_below n xs) → Parked m xs
unfolding drop_below
Parked-drop_below m n [] h = h
Parked-drop_below m n (x ∷ xs) h = elim (Bool-cases (leb n x.async_number)) [
  | inl stays ↦ rw stays at h
  | inr goes ↦ inr (Parked-drop_below m n xs (rw goes at h))
]

Parked-pop_at : (m n : ℕ) (xs : List AsyncTodo) → Parked m (pop_at n xs).0 → Parked m xs
unfolding pop_at
Parked-pop_at m n [] h = h
Parked-pop_at m n (x ∷ xs) h = elim (Bool-cases (x.async_number == n)) [
  | inl same ↦ inr (rw same at h)
  | inr differs ↦ rw differs at h
]

pop_at-some-Parked :
    (n : ℕ) (xs : List AsyncTodo) (e : AsyncTodo)
    → (pop_at n xs).1 ≡ some e
    → Parked e.async_number xs
unfolding pop_at
pop_at-some-Parked n [] e h = absurd (cc h)
pop_at-some-Parked n (x ∷ xs) e h = elim (Bool-cases (x.async_number == n)) [
  | inl same ↦ inl (ground arith)
  | inr differs ↦ absurd (ground arith)
]

-- `advance` parks nothing, and pops what was parked.
pub Parked-advance :
    (m : ℕ) (node : LocalNode) → Parked m (advance node).0.async_todo → Parked m node.async_todo
unfolding advance
Parked-advance m node h =
    let n = (node.next_async_number + 1) % 2 ^ 64 in
    Parked-drop_below m n node.async_todo (Parked-pop_at m n (drop_below n node.async_todo) h)

pub advance-some-Parked :
    (node : LocalNode) (e : AsyncTodo)
    → (advance node).1 ≡ some e
    → Parked e.async_number node.async_todo
unfolding advance
advance-some-Parked node e h =
    let n = (node.next_async_number + 1) % 2 ^ 64 in
    Parked-drop_below e.async_number n node.async_todo
      (pop_at-some-Parked n (drop_below n node.async_todo) e h)
