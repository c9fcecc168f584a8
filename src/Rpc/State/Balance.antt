-- ===== src/Rpc/State/Balance.antt =====
-- The references that the peer holds, as the table counts them against a ledger of what was sent and
-- given back.
use rsbinder.Prelude.{
  ℕ, ◌+◌, ◌-◌, ◌≡◌, ◌↔◌, refl, ap, fun_ext, List, [], ◌∷◌, Option, none, some, inl, inr, arith, leb,
  if◌then◌else◌, Option-cases, Bool-cases, nat_eq,
}
use rsbinder.Prelude.Maps.{get, get-insert, get-remove}
use rsbinder.Rpc.Address.{RpcAddress, AddressSpace, unique, beq_addr, beq_addr_iff, addr_eq}
use rsbinder.Rpc.State.Nodes.{
  LocalNode, RpcState, Leaving, ok, failed_transaction, u32_max, new, on_binder_leaving,
  lookup_local, dec_strong_local, cancel_binder_leaving, fresh_node,
}
use rsbinder.Rpc.State.Steps.{
  dec_unknown, dec_last, dec_some, leaving_known, leaving_full, leaving_new,
}
use rsbinder.Rpc.State.Valid.{
  IsValid, new-IsValid, unminted, dec_strong_local-IsValid, on_binder_leaving-IsValid,
}

-- `timesSent` at an address; 0 without a node.
abbrev strong_of : Option LocalNode → ℕ
strong_of none = 0
strong_of (some node) = node.strong

abbrev pub outstanding : RpcState → RpcAddress → ℕ
outstanding s a = strong_of (get a s.local_nodes)

dec-outstanding :
    (at : RpcAddress) (amount : ℕ) (s : RpcState) (b : RpcAddress)
    → outstanding (dec_strong_local at amount s).0 b
      ≡ (if beq_addr at b then outstanding s b - amount else outstanding s b)
dec-outstanding at amount s b = elim (Option-cases (get at s.local_nodes)) [
  | inl e ↦ rw (dec_unknown at amount s e) (ground (arith, beq_addr_iff at b))
  | inr (node, e) ↦ elim (Bool-cases (leb node.strong amount)) [
    | inl gone ↦
        rw (dec_last at amount s node e (ground arith))
          (ground (arith, beq_addr_iff at b, get-remove at b s.local_nodes))
    | inr kept ↦ rw (dec_some at amount s node e (ground arith)) (
        ground (
          arith,
          beq_addr_iff at b,
          get-insert at b (record node { strong = node.strong - amount }) s.local_nodes,
        ))
  ]
]

leaving-outstanding :
    (p : ℕ) (s : RpcState) (a b : RpcAddress)
    → IsValid s
    → (on_binder_leaving p s).1 ≡ ok a
    → outstanding (on_binder_leaving p s).0 b
      ≡ (if beq_addr a b then outstanding s b + 1 else outstanding s b)
unfolding fresh_node
leaving-outstanding p s a b v sent = elim (Option-cases (get p s.local_by_ptr)) [
  | inr (at, e) ↦
      let (node, here, owner) = v.by_ptr p at e in
      rw (leaving_known p s at node e here) (
        ground (
          arith,
          ap (λ (r : RpcState × Leaving). r.1) (leaving_known p s at node e here),
          here,
          beq_addr_iff at b,
          get-insert at b (record node { strong = node.strong + 1 }) s.local_nodes,
        ))
  | inl e ↦ elim (Bool-cases (leb u32_max s.addr_counter)) [
    | inl full ↦ cc (ap (λ (r : RpcState × Leaving). r.1) (leaving_full p s e (ground arith)))
    | inr room ↦
        let at : RpcAddress = (unique s.addr_counter s.space).1 in
        rw (leaving_new p s e (ground arith)) (
          ground (
            arith,
            ap (λ (r : RpcState × Leaving). r.1) (leaving_new p s e (ground arith)),
            unminted s v,
            beq_addr_iff at b,
            get-insert at b (fresh_node p) s.local_nodes,
          ))
  ]
]

leaving_failed :
    (p : ℕ) (s : RpcState)
    → IsValid s
    → (on_binder_leaving p s).1 ≡ failed_transaction
    → (on_binder_leaving p s).0 ≡ s
leaving_failed p s v failed = elim (Option-cases (get p s.local_by_ptr)) [
  | inr (at, e) ↦
      let (node, here, owner) = v.by_ptr p at e in
      cc (ap (λ (r : RpcState × Leaving). r.1) (leaving_known p s at node e here))
  | inl e ↦ elim (Bool-cases (leb u32_max s.addr_counter)) [
    | inl full ↦ rw (leaving_full p s e (ground arith)) refl
    | inr room ↦ cc (ap (λ (r : RpcState × Leaving). r.1) (leaving_new p s e (ground arith)))
  ]
]

-- What a session does to the table: it sends a binder, cancels a send, or takes decrements.
pub data Op : Type 0 where
  leave : ℕ → Op
  cancel : RpcAddress → Op
  dec : RpcAddress → ℕ → Op

unfoldable pub step : Op → RpcState → RpcState
step (leave p) s = (on_binder_leaving p s).0
step (cancel a) s = cancel_binder_leaving a s
step (dec a amount) s = (dec_strong_local a amount s).0

unfoldable pub run : List Op → RpcState → RpcState
run [] s = s
run (op ∷ ops) s = run ops (step op s)

pub step-IsValid : (op : Op) (s : RpcState) → IsValid s → IsValid (step op s)
unfolding step cancel_binder_leaving
step-IsValid (leave p) s v = on_binder_leaving-IsValid p s v
step-IsValid (cancel a) s v = dec_strong_local-IsValid a 1 s v
step-IsValid (dec a amount) s v = dec_strong_local-IsValid a amount s v

-- The ledger: how many references the peer owes at each address.
abbrev pub Ledger : Type 0
Ledger = RpcAddress → ℕ

abbrev pub credit : RpcAddress → Ledger → Ledger
credit a l b = if beq_addr a b then l b + 1 else l b

abbrev pub debit : RpcAddress → ℕ → Ledger → Ledger
debit a amount l b = if beq_addr a b then l b - amount else l b

-- What one operation means for the ledger, given the address that a send came back with.
abbrev pub entry : Op → Leaving → Ledger → Ledger
entry (leave p) (ok a) l = credit a l
entry (leave p) failed_transaction l = l
entry (cancel a) r l = debit a 1 l
entry (dec a amount) r l = debit a amount l

-- The result of the send, if the operation is one.
abbrev pub answer : Op → RpcState → Leaving
answer (leave p) s = (on_binder_leaving p s).1
answer _ s = failed_transaction

unfoldable pub replay : List Op → RpcState → Ledger → Ledger
replay [] s l = l
replay (op ∷ ops) s l = replay ops (step op s) (entry op (answer op s) l)

step-entry :
    (op : Op) (s : RpcState)
    → IsValid s
    → outstanding (step op s) ≡ entry op (answer op s) (outstanding s)
unfolding step cancel_binder_leaving
step-entry (leave p) s v = go ((on_binder_leaving p s).1) refl
  where
    go :
        (r : Leaving)
        → (on_binder_leaving p s).1 ≡ r
        → outstanding (on_binder_leaving p s).0
          ≡ entry (leave p) (on_binder_leaving p s).1 (outstanding s)
    go (ok a) e = rw e (fun_ext (λ b. leaving-outstanding p s a b v e))
    go failed_transaction e = rw e (ap outstanding (leaving_failed p s v e))
step-entry (cancel a) s v = fun_ext (dec-outstanding a 1 s)
step-entry (dec a amount) s v = fun_ext (dec-outstanding a amount s)

run-replay-IsValid :
    (ops : List Op) (s : RpcState)
    → IsValid s
    → (outstanding (run ops s) ≡ replay ops s (outstanding s)) × IsValid (run ops s)
unfolding run replay
run-replay-IsValid [] s v = (refl, v)
run-replay-IsValid (op ∷ ops) s v =
    let (same, valid) = run-replay-IsValid ops (step op s) (step-IsValid op s v) in
    (rw (← step-entry op s v) same, valid)

lookup-outstanding :
    (a : RpcAddress) (s : RpcState) → IsValid s → (lookup_local a s ≡ none) ↔ (outstanding s a ≡ 0)
unfolding lookup_local
lookup-outstanding a s v = elim (Option-cases (get a s.local_nodes)) [
  | inl e ↦ rw (e, lookup_local) (ground arith)
  | inr (node, e) ↦
      let (indexed, positive, minted) = v.nodes a node e in rw (e, lookup_local) (ground arith)
]

-- After any history of sends, cancelled sends and decrements on a new session, the count at each
-- address is what the ledger of sends and returns says, and the object there can be looked up exactly
-- while that is not 0.
pub run-replay :
    (space : AddressSpace) (ops : List Op) (a : RpcAddress)
    → (outstanding (run ops (new space)) a ≡ replay ops (new space) (λ _. 0) a)
      × ((lookup_local a (run ops (new space)) ≡ none) ↔ (replay ops (new space) (λ _. 0) a ≡ 0))
unfolding new
run-replay space ops a =
    let (same, valid) = run-replay-IsValid ops (new space) (new-IsValid space) in
    let here : outstanding (run ops (new space)) a ≡ replay ops (new space) (λ _. 0) a =
      ap (λ (l : Ledger). l a) same in
    (here, rw here at (lookup-outstanding a (run ops (new space)) valid))
