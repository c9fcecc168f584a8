-- ===== src/Rpc/State/Identity.antt =====
-- An address names one binder, and a binder has one address.
use rsbinder.Prelude.{
  ℕ, ◌≡◌, ◌↔◌, ap, List, [], ◌∷◌, some, inl, inr, arith, leb, nat_eq, Bool-cases, Option-cases,
}
use rsbinder.Prelude.Maps.{get, get-insert}
use rsbinder.Rpc.Address.{RpcAddress, AddressSpace, unique, addr_eq}
use rsbinder.Rpc.State.Nodes.{RpcState, Leaving, ok, u32_max, new, on_binder_leaving, lookup_local}
use rsbinder.Rpc.State.Steps.{leaving_known, leaving_full, leaving_new}
use rsbinder.Rpc.State.Valid.{IsValid, new-IsValid, on_binder_leaving-IsValid}
use rsbinder.Rpc.State.Balance.{Op, step, run, step-IsValid}

pub run-IsValid : (ops : List Op) (s : RpcState) → IsValid s → IsValid (run ops s)
unfolding run
run-IsValid [] s v = v
run-IsValid (op ∷ ops) s v = run-IsValid ops (step op s) (step-IsValid op s v)

-- A send that succeeds leaves its address in the index, and no other entry changes.
leaving-index :
    (p q : ℕ) (s : RpcState) (a : RpcAddress)
    → IsValid s
    → (on_binder_leaving p s).1 ≡ ok a
    → (get p (on_binder_leaving p s).0.local_by_ptr ≡ some a)
      × ((b : RpcAddress)
          → get q s.local_by_ptr ≡ some b
          → get q (on_binder_leaving p s).0.local_by_ptr ≡ some b)
leaving-index p q s a v sent = elim (Option-cases (get p s.local_by_ptr)) [
  | inr (at, e) ↦
      let (node, here, owner) = v.by_ptr p at e in
      let eq = leaving_known p s at node e here in
      rw eq (ground (arith, ap (λ (r : RpcState × Leaving). r.1) eq, e), λ b h. h)
  | inl e ↦ elim (Bool-cases (leb u32_max s.addr_counter)) [
    | inl full ↦ cc (ap (λ (r : RpcState × Leaving). r.1) (leaving_full p s e (ground arith)))
    | inr room ↦
        let eq = leaving_new p s e (ground arith) in
        let at : RpcAddress = (unique s.addr_counter s.space).1 in
        rw eq (
          ground (arith, ap (λ (r : RpcState × Leaving). r.1) eq, get-insert p p at s.local_by_ptr),
          λ b h. ground (arith, get-insert p q at s.local_by_ptr, h, e),
        )
  ]
]

-- Who stands behind an address of the index.
indexed-lookup :
    (p : ℕ) (a : RpcAddress) (s : RpcState)
    → IsValid s
    → get p s.local_by_ptr ≡ some a
    → lookup_local a s ≡ some p
unfolding lookup_local
indexed-lookup p a s v h =
    let (node, here, owner) = v.by_ptr p a h in rw (here, lookup_local) (ap some owner)

-- After any history of sends, cancelled sends and decrements, two sends that succeed, one after the
-- other, come back with one address exactly when they send one binder; and after them each of the two
-- addresses looks up to the binder that it was sent for.
pub leaving-identity :
    (space : AddressSpace) (ops : List Op) (p q : ℕ) (a b : RpcAddress)
    → let s = run ops (new space) in
      let s' = (on_binder_leaving p s).0 in
      (on_binder_leaving p s).1 ≡ ok a
      → (on_binder_leaving q s').1 ≡ ok b
      → ((a ≡ b) ↔ (p ≡ q))
        × (lookup_local a (on_binder_leaving q s').0 ≡ some p)
        × (lookup_local b (on_binder_leaving q s').0 ≡ some q)
leaving-identity space ops p q a b one two =
    let s = run ops (new space) in
    let s' = (on_binder_leaving p s).0 in
    let s'' = (on_binder_leaving q s').0 in
    let v : IsValid s = run-IsValid ops (new space) (new-IsValid space) in
    let v' : IsValid s' = on_binder_leaving-IsValid p s v in
    let v'' : IsValid s'' = on_binder_leaving-IsValid q s' v' in
    let at_p : get p s''.local_by_ptr ≡ some a =
      (leaving-index q p s' b v' two).1 a (leaving-index p p s a v one).0 in
    let at_q : get q s''.local_by_ptr ≡ some b = (leaving-index q q s' b v' two).0 in
    let for_p = indexed-lookup p a s'' v'' at_p in
    let for_q = indexed-lookup q b s'' v'' at_q in
    (
      (λ same. ground (arith, for_p, for_q, same), λ same. ground (arith, at_p, at_q, same)),
      for_p,
      for_q,
    )
