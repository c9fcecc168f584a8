-- ===== src/Natives/Resolved.antt =====
-- Every act of the threads and the kernel keeps the table in agreement with the objects.
use rsbinder.Prelude.{
  pick, ℕ, suc, ◌+◌, ◌-◌, ◌^◌, ◌<◌, ◌≤◌, ◌≡◌, ◌≢◌, refl, Bool, true, false, List, [], ◌∷◌, none,
  some, arith, nat_eq, inl, inr, Bool-cases, Option-cases, All, All-get_elem, get_elem?, length,
}
use rsbinder.Prelude.Maps.{get, IsUniq}
use rsbinder.Natives.{
  PublishedNative, ProcessState, default, find_pin, publish_native, incref_publish, decref_publish,
  ref_native_kernel, deref_native_kernel, lookup_native, is_unused, u32, remove_entry_if_zero,
  drop_pin, dropped, saturating_add,
}
use rsbinder.Natives.Objects.{
  Object, Process, Act, makes, acquires, clones, releases, releases_lost, increfs, derefs, removes,
  drops, acquire, step, run, start,
}
use rsbinder.Natives.Entries.{Picked, pick-Picked, Picked-All, Picked-length, count-le}
use rsbinder.Natives.Held.{
  Table, IsHeld, IsMade, IsLost, Agrees, Agrees-update, Agrees-fresh, Agrees-incref, Agrees-decref,
  Agrees-remove, Agrees-objects,
}

abbrev pub IsValid : Process → Type 0
IsValid p = Agrees p.state.published_natives p.state.next_native_id p.made p.acquired p.lost

pub find_pin-get :
    (arc id : ℕ) (e : PublishedNative) (m : Table)
    → IsUniq m
    → find_pin arc m ≡ some (id, e)
    → (get id m ≡ some e) × (e.binder_pin ≡ arc)
find_pin-get arc id e [] u h = cc
find_pin-get arc id e ((j, x) ∷ m) u h = ground (arith, find_pin-get arc id e m u.1)

makes-IsValid : (arc : ℕ) (p : Process) → IsValid p → IsValid (step (makes arc) p)
unfolding step publish_native
makes-IsValid arc p v = elim (Option-cases (find_pin arc p.state.published_natives)) [
  | inl n ↦ rw n (Agrees-fresh v arc)
  | inr ((id, e), n) ↦
      let g : (get id p.state.published_natives ≡ some e) × (e.binder_pin ≡ arc) =
        find_pin-get arc id e p.state.published_natives v.uniq n in
      rw n (
        Agrees-update
          (Agrees-objects v ((v.fresh id e g.0, λ x k. ground arith), v.mades) v.held v.counted
            v.losts)
          id e (record e { pending_reservations = saturating_add e.pending_reservations 1 }) g.0
          refl refl)
]

acquire-IsValid :
    (o : Object) (p : Process)
    → IsValid p
    → IsMade p.state.published_natives p.state.next_native_id o
    → suc (length p.acquired) < 2 ^ 32
    → IsValid (acquire o (incref_publish o.0 p.state) p)
unfolding incref_publish
acquire-IsValid o p v h b = elim (Option-cases (get o.0 p.state.published_natives)) [
  | inl n ↦ rw n (Agrees-objects v v.mades v.held v.counted ((h.0, n), v.losts))
  | inr (e, n) ↦ rw n (
      Agrees-incref v o e
        (record e {
          publish_count = u32 (e.publish_count + 1);
          pending_reservations = e.pending_reservations - 1;
        })
        n refl (omega (arith, v.counted o.0 e n, count-le o.0 p.acquired)) (h.1 e n))
]

acquires-IsValid :
    (i : ℕ) (p : Process)
    → IsValid p
    → suc (length p.acquired) < 2 ^ 32
    → IsValid (step (acquires i) p)
unfolding step
acquires-IsValid i p v b = elim (Option-cases (pick i p.made)) [
  | inl n ↦ rw n v
  | inr ((o, rest), n) ↦
      let h : IsMade p.state.published_natives p.state.next_native_id o
          × All (IsMade p.state.published_natives p.state.next_native_id) rest =
        Picked-All _ (pick-Picked i o p.made rest n) v.mades in
      rw n (
        acquire-IsValid o (record p { made = rest }) (Agrees-objects v h.1 v.held v.counted v.losts)
          h.0 b)
]

IsHeld-IsMade :
    (p : Process)
    → IsValid p
    → (o : Object) → IsHeld p.state.published_natives o
    → IsMade p.state.published_natives p.state.next_native_id o
IsHeld-IsMade p v o h = elim (Option-cases (get o.0 p.state.published_natives)) [
  | inl n ↦ ground arith
  | inr (e, n) ↦ (v.fresh o.0 e n, λ x k. ground arith)
]

clones-IsValid :
    (i : ℕ) (p : Process)
    → IsValid p
    → suc (length p.acquired) < 2 ^ 32
    → IsValid (step (clones i) p)
unfolding step
clones-IsValid i p v b = elim (Option-cases (pick i p.acquired)) [
  | inl n ↦ rw n v
  | inr ((o, rest), n) ↦
      let h : IsHeld p.state.published_natives o =
        (Picked-All _ (pick-Picked i o p.acquired rest n) v.held).0 in
      rw n (acquire-IsValid o p v (IsHeld-IsMade p v o h) b)
]

unknown-acquired :
    (p : Process)
    → IsValid p
    → {o : Object} {rest : List Object} → Picked o p.acquired rest
    → get o.0 p.state.published_natives ≢ none
unknown-acquired p v l n =
    let h = Picked-All (IsHeld p.state.published_natives) l v.held in ground arith

releases-IsValid : (i : ℕ) (p : Process) → IsValid p → IsValid (step (releases i) p)
unfolding step decref_publish
releases-IsValid i p v = elim (Option-cases (pick i p.acquired)) [
  | inl n ↦ rw n v
  | inr ((o, rest), n) ↦
      let l : Picked o p.acquired rest = pick-Picked i o p.acquired rest n in
      elim (Option-cases (get o.0 p.state.published_natives)) [
        | inl q ↦ absurd (unknown-acquired p v l q)
        | inr (e, q) ↦
            rw (n, q)
              (Agrees-decref v o rest e (record e { publish_count = e.publish_count - 1 }) l q refl
                refl)
      ]
]

releases_lost-IsValid : (i : ℕ) (p : Process) → IsValid p → IsValid (step (releases_lost i) p)
unfolding step decref_publish
releases_lost-IsValid i p v = elim (Option-cases (pick i p.lost)) [
  | inl n ↦ rw n v
  | inr ((o, rest), n) ↦
      let h : IsLost p.state.published_natives p.state.next_native_id o
          × All (IsLost p.state.published_natives p.state.next_native_id) rest =
        Picked-All _ (pick-Picked i o p.lost rest n) v.losts in
      rw (n, h.0.1) (Agrees-objects v v.mades v.held v.counted h.1)
]

increfs-IsValid : (id : ℕ) (p : Process) → IsValid p → IsValid (step (increfs id) p)
unfolding step ref_native_kernel
increfs-IsValid id p v = elim (Option-cases (get id p.state.published_natives)) [
  | inl n ↦ rw n v
  | inr (e, n) ↦
      rw n (Agrees-update v id e (record e { kernel_refs = u32 (e.kernel_refs + 1) }) n refl refl)
]

derefs-IsValid : (id : ℕ) (p : Process) → IsValid p → IsValid (step (derefs id) p)
unfolding step deref_native_kernel
derefs-IsValid id p v = elim (Option-cases (get id p.state.published_natives)) [
  | inl n ↦ rw n v
  | inr (e, n) ↦
      rw n (Agrees-update v id e (record e { kernel_refs = e.kernel_refs - 1 }) n refl refl)
]

remove_entry_if_zero-IsValid :
    (id : ℕ) (ids : List ℕ) (p : Process)
    → IsValid p
    → IsValid (record p { state = remove_entry_if_zero id p.state; removing = ids })
unfolding remove_entry_if_zero
remove_entry_if_zero-IsValid id ids p v = elim (Option-cases (get id p.state.published_natives)) [
  | inl n ↦ rw n v
  | inr (e, n) ↦ rw n (elim (Bool-cases (is_unused e)) [
    | inl u ↦ rw u (Agrees-remove v id e n (ground arith))
    | inr u ↦ rw u v
  ])
]

removes-IsValid : (i : ℕ) (p : Process) → IsValid p → IsValid (step (removes i) p)
unfolding step
removes-IsValid i p v = elim (Option-cases (pick i p.removing)) [
  | inl n ↦ rw n v
  | inr ((id, rest), n) ↦ rw n (remove_entry_if_zero-IsValid id rest p v)
]

dropped-IsValid :
    (arcs : List ℕ) (p : Process) → IsValid p → IsValid (record p { state = dropped arcs p.state })
dropped-IsValid [] p v = v
dropped-IsValid (a ∷ rest) p v = v

pub step-IsValid :
    (a : Act) (p : Process) → IsValid p → suc (length p.acquired) < 2 ^ 32 → IsValid (step a p)
unfolding drop_pin
step-IsValid (makes arc) p v b = makes-IsValid arc p v
step-IsValid (acquires i) p v b = acquires-IsValid i p v b
step-IsValid (clones i) p v b = clones-IsValid i p v b
step-IsValid (releases i) p v b = releases-IsValid i p v
step-IsValid (releases_lost i) p v b = releases_lost-IsValid i p v
step-IsValid (increfs id) p v b = increfs-IsValid id p v
step-IsValid (derefs id) p v b = derefs-IsValid id p v
step-IsValid (removes i) p v b = removes-IsValid i p v
step-IsValid drops p v b = unfold step in dropped-IsValid p.state.dying p v

length-acquire :
    (o : Object) (r : Bool × ProcessState) (p : Process)
    → length (acquire o r p).acquired ≤ suc (length p.acquired)
length-acquire o (true, s) p = omega arith
length-acquire o (false, s) p = omega arith

-- An act acquires one object at most.
pub length-step : (a : Act) (p : Process) → length (step a p).acquired ≤ suc (length p.acquired)
unfolding step
length-step (makes arc) p = omega arith
length-step (acquires i) p = elim (Option-cases (pick i p.made)) [
  | inl n ↦ rw n (omega arith)
  | inr ((o, rest), n) ↦
      rw n (length-acquire o (incref_publish o.0 p.state) (record p { made = rest }))
]
length-step (clones i) p = elim (Option-cases (pick i p.acquired)) [
  | inl n ↦ rw n (omega arith)
  | inr ((o, rest), n) ↦ rw n (length-acquire o (incref_publish o.0 p.state) p)
]
length-step (releases i) p = elim (Option-cases (pick i p.acquired)) [
  | inl n ↦ rw n (omega arith)
  | inr ((o, rest), n) ↦ rw n (omega (arith, Picked-length (pick-Picked i o p.acquired rest n)))
]
length-step (releases_lost i) p = elim (Option-cases (pick i p.lost)) [
  | inl n ↦ rw n (omega arith)
  | inr ((o, rest), n) ↦ rw n (omega arith)
]
length-step (increfs id) p = omega arith
length-step (derefs id) p = omega arith
length-step (removes i) p = elim (Option-cases (pick i p.removing)) [
  | inl n ↦ rw n (omega arith)
  | inr ((id, rest), n) ↦ rw n (omega arith)
]
length-step drops p = omega arith

pub run-IsValid :
    (acts : List Act) (p : Process)
    → IsValid p
    → length p.acquired + length acts < 2 ^ 32
    → IsValid (run acts p)
unfolding run
run-IsValid [] p v b = v
run-IsValid (a ∷ acts) p v b =
    run-IsValid acts (step a p) (step-IsValid a p v (omega (arith, b)))
      (omega (arith, b, length-step a p))

pub start-IsValid : IsValid (start default)
unfolding default
start-IsValid = record {
  uniq = tt;
  fresh = λ id e h. cc;
  counted = λ id e h. cc;
  held = tt;
  mades = tt;
  losts = tt;
}

-- From the empty table, whatever threads publish, acquire, clone, release_object and remove in fewer than
-- 2^32 acts, and whatever the kernel counts up and down for any ids, in any order: an object that was
-- acquired and is not released yet resolves to the binder that it was made for.
pub run-lookup_native :
    (acts : List Act) (i id arc : ℕ)
    → length acts < 2 ^ 32
    → get_elem? (run acts (start default)).acquired i ≡ some (id, arc)
    → lookup_native id (run acts (start default)).state ≡ some arc
unfolding lookup_native
run-lookup_native acts i id arc b e =
    All-get_elem (IsHeld p.state.published_natives) p.acquired i
      (run-IsValid acts (start default) start-IsValid (unfold default in omega (arith, b))).held e
  where
    p : Process
    p = run acts (start default)
