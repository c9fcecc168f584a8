-- ===== src/Rpc/State/Valid.antt =====
-- The invariant of the object table, kept by every operation on the books of local objects.
use rsbinder.Prelude.{
  ℕ, ◌+◌, ◌≤◌, ◌<◌, ◌≡◌, ◌≢◌, refl, sym, ap, ◌∙◌, subst, not, Option, none, some, inl, inr, arith,
  leb, Option-cases, Bool-cases,
}
use rsbinder.Prelude.Maps.{
  get, IsUniq, keep_if, Key-cases, get-insert_self, get-insert_ne, get-remove_self, get-remove_ne,
  get-retain, insert-IsUniq, retain-IsUniq,
}
use rsbinder.Rpc.Address.{
  RpcAddress, AddressSpace, unique, beq_addr, beq_addr_iff, addr_eq, unique-injective,
}
use rsbinder.Rpc.State.Nodes.{
  LocalNode, RpcState, u32_max, new, on_binder_leaving, dec_strong_local, fresh_node,
}
use rsbinder.Prelude.{nat_eq}
use rsbinder.Rpc.State.Steps.{
  without, with_node, registered, dec_unknown, dec_last, dec_some, leaving_known, leaving_full,
  leaving_new,
}

-- An address that the session has handed out.
abbrev pub Minted : RpcState → RpcAddress → Type 0
Minted s a = (c : ℕ) × (c < s.addr_counter) × (a ≡ (unique c s.space).1)

pub record IsValid (s : RpcState) : Type 0 where
  pub uniq : IsUniq s.local_by_ptr
  pub counter : s.addr_counter ≤ u32_max
  pub by_ptr :
      (p : ℕ) (a : RpcAddress)
      → get p s.local_by_ptr ≡ some a
      → (n : LocalNode) × (get a s.local_nodes ≡ some n) × (n.binder ≡ p)
  pub nodes :
      (a : RpcAddress) (n : LocalNode)
      → get a s.local_nodes ≡ some n
      → (get n.binder s.local_by_ptr ≡ some a) × (1 ≤ n.strong) × Minted s a

pub new-IsValid : (space : AddressSpace) → IsValid (new space)
unfolding new
new-IsValid space = record {
  uniq = tt;
  counter = omega arith;
  by_ptr = λ p a h. cc;
  nodes = λ a n h. cc;
}

-- The next address is not in the table.
pub unminted :
    (s : RpcState) → IsValid s → get (unique s.addr_counter s.space).1 s.local_nodes ≡ none
unminted s v = elim (Option-cases (get (unique s.addr_counter s.space).1 s.local_nodes)) [
  | inl e ↦ e
  | inr (n, e) ↦
      let (c, lt, same) = (v.nodes _ n e).2 in
      absurd (
        omega (
          arith,
          (unique-injective s.addr_counter c s.space s.space (omega (arith, v.counter))
              (omega (arith, v.counter)) same).0,
        ))
]

unique-counter : (c : ℕ) (sp : AddressSpace) → c < u32_max → (unique c sp).0 ≡ c + 1
unfolding unique
unique-counter c sp h = omega arith

module _ (p : ℕ) (s : RpcState) (v : IsValid s) (absent : get p s.local_by_ptr ≡ none)
    (room : s.addr_counter < u32_max) where
  addr : RpcAddress
  addr = (unique s.addr_counter s.space).1

  registered-by_ptr :
      (q : ℕ) (a : RpcAddress)
      → get q (registered p s).local_by_ptr ≡ some a
      → (n : LocalNode) × (get a (registered p s).local_nodes ≡ some n) × (n.binder ≡ q)
  unfolding addr fresh_node
  registered-by_ptr q a h = elim (Key-cases p q) [
    | inl e ↦ (
      fresh_node p,
      cc (get-insert_self addr (fresh_node p) s.local_nodes, get-insert_self p addr s.local_by_ptr),
      e,
    )
    | inr ne ↦
        let (n, found, same) = v.by_ptr q a (cc (get-insert_ne p q addr s.local_by_ptr ne)) in
        (
          n,
          get-insert_ne addr a (fresh_node p) s.local_nodes (λ e. cc (unminted s v)) ∙ found,
          same,
        )
  ]

  registered-nodes :
      (a : RpcAddress) (n : LocalNode)
      → get a (registered p s).local_nodes ≡ some n
      → (get n.binder (registered p s).local_by_ptr ≡ some a)
        × (1 ≤ n.strong)
        × Minted (registered p s) a
  unfolding addr fresh_node
  registered-nodes a n h = elim (Key-cases addr a) [
    | inl e ↦
        let is_new : fresh_node p ≡ n = cc (get-insert_self addr (fresh_node p) s.local_nodes, e) in
        (
          cc (get-insert_self p addr s.local_by_ptr, ap (λ (m : LocalNode). m.binder) is_new),
          omega (arith, ap (λ (m : LocalNode). m.strong) is_new),
          (s.addr_counter, omega (arith, unique-counter s.addr_counter s.space room), sym e),
        )
    | inr ne ↦
        let old : get a s.local_nodes ≡ some n =
          sym (get-insert_ne addr a (fresh_node p) s.local_nodes ne) ∙ h in
        let (indexed, positive, (c, lt, same)) = v.nodes a n old in
        (
          get-insert_ne p n.binder addr s.local_by_ptr (λ e. cc (absent, indexed, e)) ∙ indexed,
          positive,
          (c, omega (arith, unique-counter s.addr_counter s.space room), same),
        )
  ]

  registered-IsValid : IsValid (registered p s)
  unfolding addr
  registered-IsValid = record {
    uniq = insert-IsUniq p addr s.local_by_ptr v.uniq;
    counter = omega (arith, unique-counter s.addr_counter s.space room);
    by_ptr = registered-by_ptr;
    nodes = registered-nodes;
  }

-- An update of one node that keeps its binder and leaves its count positive.
modified-IsValid :
    (addr : RpcAddress) (old node : LocalNode) (s : RpcState)
    → IsValid s
    → get addr s.local_nodes ≡ some old
    → node.binder ≡ old.binder
    → 1 ≤ node.strong
    → IsValid (with_node addr node s)
modified-IsValid addr old node s v found same positive = record {
  uniq = v.uniq;
  counter = v.counter;
  by_ptr = λ p a h. elim (Key-cases addr a) [
    | inl e ↦
        let (n, here, owner) = v.by_ptr p a h in
        (
          node,
          cc (get-insert_self addr node s.local_nodes, e),
          cc (ap (λ (o : Option LocalNode). o) here, e, found, owner, same),
        )
    | inr ne ↦
        let (n, here, owner) = v.by_ptr p a h in
        (n, get-insert_ne addr a node s.local_nodes ne ∙ here, owner)
  ];
  nodes = λ a n h. elim (Key-cases addr a) [
    | inl e ↦
        let is_new : node ≡ n = cc (get-insert_self addr node s.local_nodes, e) in
        let (indexed, _, minted) = v.nodes addr old found in
        (
          cc (indexed, same, e, ap (λ (m : LocalNode). m.binder) is_new),
          omega (arith, ap (λ (m : LocalNode). m.strong) is_new),
          subst (Minted s) e minted,
        )
    | inr ne ↦ v.nodes a n (sym (get-insert_ne addr a node s.local_nodes ne) ∙ h)
  ];
}

keep_if-some :
    (addr a : RpcAddress) (o : Option RpcAddress)
    → keep_if (λ b. not (beq_addr b addr)) o ≡ some a
    → (o ≡ some a) × (a ≢ addr)
keep_if-some addr a none h = cc
keep_if-some addr a (some b) h = elim (Bool-cases (beq_addr b addr)) [
  | inl same ↦ cc (rw same at h)
  | inr other ↦
      let eq : some b ≡ some a = rw other at h in
      (eq, λ e. cc (other, (beq_addr_iff b addr).1 (cc (eq, e))))
]

keep_if-ne :
    (addr a : RpcAddress) → a ≢ addr → keep_if (λ b. not (beq_addr b addr)) (some a) ≡ some a
keep_if-ne addr a ne = elim (Bool-cases (beq_addr a addr)) [
  | inl same ↦ absurd (ne ((beq_addr_iff a addr).0 same))
  | inr other ↦ rw other
]

without-IsValid : (addr : RpcAddress) (s : RpcState) → IsValid s → IsValid (without addr s)
without-IsValid addr s v = record {
  uniq = retain-IsUniq _ s.local_by_ptr v.uniq;
  counter = v.counter;
  by_ptr = λ p a h.
      let (was, ne) =
        keep_if-some addr a (get p s.local_by_ptr)
          (sym (get-retain _ p s.local_by_ptr v.uniq) ∙ h) in
      let (n, here, owner) = v.by_ptr p a was in
      (n, get-remove_ne addr a s.local_nodes (λ e. ne (sym e)) ∙ here, owner);
  nodes = λ a n h. elim (Key-cases addr a) [
    | inl e ↦ cc (get-remove_self addr s.local_nodes, e)
    | inr ne ↦
        let (indexed, positive, minted) =
          v.nodes a n (sym (get-remove_ne addr a s.local_nodes ne) ∙ h) in
        (
          get-retain _ n.binder s.local_by_ptr v.uniq
              ∙ ap (keep_if (λ b. not (beq_addr b addr))) indexed
              ∙ keep_if-ne addr a (λ e. ne (sym e)),
          positive,
          minted,
        )
  ];
}

pub dec_strong_local-IsValid :
    (at : RpcAddress) (amount : ℕ) (s : RpcState)
    → IsValid s
    → IsValid (dec_strong_local at amount s).0
dec_strong_local-IsValid at amount s v = elim (Option-cases (get at s.local_nodes)) [
  | inl e ↦ rw (dec_unknown at amount s e) v
  | inr (node, e) ↦ elim (Bool-cases (leb node.strong amount)) [
    | inl gone ↦ rw (dec_last at amount s node e (ground arith)) (without-IsValid at s v)
    | inr kept ↦
        rw (dec_some at amount s node e (ground arith))
          (modified-IsValid at node _ s v e refl (ground arith))
  ]
]

pub on_binder_leaving-IsValid :
    (p : ℕ) (s : RpcState) → IsValid s → IsValid (on_binder_leaving p s).0
on_binder_leaving-IsValid p s v = elim (Option-cases (get p s.local_by_ptr)) [
  | inr (a, e) ↦
      let (n, here, owner) = v.by_ptr p a e in
      rw (leaving_known p s a n e here) (modified-IsValid a n _ s v here refl (omega arith))
  | inl e ↦ elim (Bool-cases (leb u32_max s.addr_counter)) [
    | inl full ↦ rw (leaving_full p s e (ground arith)) v
    | inr room ↦ rw (leaving_new p s e (ground arith)) (registered-IsValid p s v e (ground arith))
  ]
]
