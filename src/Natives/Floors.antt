-- ===== src/Natives/Floors.antt =====
-- The references that the table itself holds of each binder, and the one id that each has.
use rsbinder.Prelude.{
  pick, ℕ, ◌+◌, ◌^◌, ◌<◌, ◌≤◌, ◌≡◌, ◌↔◌, refl, ap, Bool, true, false, List, [], ◌∷◌, none, some,
  arith, nat_eq, inl, inr, Bool-cases, Option-cases, All-get_elem, get_elem?, length,
}
use rsbinder.Prelude.Maps.{get, IsUniq}
use rsbinder.Natives.{
  PublishedNative, ProcessState, default, find_pin, fresh_entry, with_entry, publish_native,
  incref_publish, decref_publish, ref_native_kernel, deref_native_kernel, is_unused,
  remove_entry_if_zero, drop_pin, dropped, saturating_add, taken,
}
use rsbinder.Natives.Objects.{
  Object, Process, Act, makes, acquires, clones, releases, releases_lost, increfs, derefs, removes,
  drops, acquire, step, run, start,
}
use rsbinder.Natives.Held.{IsHeld}
use rsbinder.Natives.Pins.{
  pins, occurs, pins-update, pins-insert, pins-remove, pins-find_pin, pins_one,
}
use rsbinder.Natives.Resolved.{
  IsValid, find_pin-get, step-IsValid, run-IsValid, start-IsValid, length-step,
}

-- Each binder is pinned by one entry at most; the table holds one strong and one weak reference for
-- its entry, and one of each for every pin that it is about to drop.
pub record IsFloor (s : ProcessState) : Type 0 where
  pub single : (a : ℕ) → pins a s.published_natives ≤ 1
  pub strongs : (a : ℕ) → s.strong a ≡ pins a s.published_natives + occurs a s.dying
  pub weaks : (a : ℕ) → s.weak a ≡ pins a s.published_natives + occurs a s.dying

module _ (s : ProcessState) (f : IsFloor s) where
  with_entry-IsFloor :
      (id : ℕ) (e e' : PublishedNative)
      → get id s.published_natives ≡ some e
      → e'.binder_pin ≡ e.binder_pin
      → IsFloor (with_entry id e' s)
  with_entry-IsFloor id e e' g p = record {
    single = λ a. omega (arith, pins-update a id e e' s.published_natives g p, f.single a);
    strongs = λ a. omega (arith, pins-update a id e e' s.published_natives g p, f.strongs a);
    weaks = λ a. omega (arith, pins-update a id e e' s.published_natives g p, f.weaks a);
  }

  publish_native-IsFloor :
      (arc : ℕ)
      → IsUniq s.published_natives
      → get s.next_native_id s.published_natives ≡ none
      → IsFloor (publish_native arc s).1
  unfolding publish_native
  publish_native-IsFloor arc u n = elim (Option-cases (find_pin arc s.published_natives)) [
    | inl q ↦ rw q (record {
      single = λ a. ground (
        arith,
        pins-insert a s.next_native_id (fresh_entry arc) s.published_natives n,
        f.single a,
        pins-find_pin arc s.published_natives q,
      );
      strongs = λ a. ground (
        arith,
        pins-insert a s.next_native_id (fresh_entry arc) s.published_natives n,
        f.strongs a,
      );
      weaks = λ a. ground (
        arith,
        pins-insert a s.next_native_id (fresh_entry arc) s.published_natives n,
        f.weaks a,
      );
    })
    | inr ((id, e), q) ↦ rw q (
        with_entry-IsFloor id e
          (record e { pending_reservations = saturating_add e.pending_reservations 1 })
          (find_pin-get arc id e s.published_natives u q).0 refl)
  ]

  incref_publish-IsFloor : (id : ℕ) → IsFloor (incref_publish id s).1
  unfolding incref_publish
  incref_publish-IsFloor id = elim (Option-cases (get id s.published_natives)) [
    | inl n ↦ rw n f
    | inr (e, n) ↦ rw n (with_entry-IsFloor id e _ n refl)
  ]

  decref_publish-IsFloor : (id : ℕ) → IsFloor (decref_publish id s).2
  unfolding decref_publish
  decref_publish-IsFloor id = elim (Option-cases (get id s.published_natives)) [
    | inl n ↦ rw n f
    | inr (e, n) ↦ rw n (with_entry-IsFloor id e _ n refl)
  ]

  ref_native_kernel-IsFloor : (id : ℕ) → IsFloor (ref_native_kernel id s).1
  unfolding ref_native_kernel
  ref_native_kernel-IsFloor id = elim (Option-cases (get id s.published_natives)) [
    | inl n ↦ rw n f
    | inr (e, n) ↦ rw n (with_entry-IsFloor id e _ n refl)
  ]

  deref_native_kernel-IsFloor : (id : ℕ) → IsFloor (deref_native_kernel id s).2
  unfolding deref_native_kernel
  deref_native_kernel-IsFloor id = elim (Option-cases (get id s.published_natives)) [
    | inl n ↦ rw n f
    | inr (e, n) ↦ rw n (with_entry-IsFloor id e _ n refl)
  ]

  taken-IsFloor :
      (id : ℕ) (e : PublishedNative)
      → IsUniq s.published_natives
      → get id s.published_natives ≡ some e
      → IsFloor (taken id (some e) s)
  taken-IsFloor id e u n = elim (Bool-cases (is_unused e)) [
    | inl q ↦ rw q (record {
      single = λ a. ground (arith, pins-remove a id e s.published_natives u n, f.single a);
      strongs = λ a. ground (arith, pins-remove a id e s.published_natives u n, f.strongs a);
      weaks = λ a. ground (arith, pins-remove a id e s.published_natives u n, f.weaks a);
    })
    | inr q ↦ rw q f
  ]

  remove_entry_if_zero-IsFloor :
      (id : ℕ) → IsUniq s.published_natives → IsFloor (remove_entry_if_zero id s)
  unfolding remove_entry_if_zero
  remove_entry_if_zero-IsFloor id u = elim (Option-cases (get id s.published_natives)) [
    | inl n ↦ rw n f
    | inr (e, n) ↦ rw n (taken-IsFloor id e u n)
  ]

dropped-IsFloor :
    (arcs : List ℕ) (s : ProcessState) → s.dying ≡ arcs → IsFloor s → IsFloor (dropped arcs s)
dropped-IsFloor [] s d f = f
dropped-IsFloor (b ∷ rest) s d f = record {
  single = f.single;
  strongs = λ a. ground (arith, f.strongs a, ap (occurs a) d);
  weaks = λ a. ground (arith, f.weaks a, ap (occurs a) d);
}

acquire-IsFloor :
    (o : Object) (r : Bool × ProcessState) (p : Process)
    → IsFloor r.1
    → IsFloor (acquire o r p).state
acquire-IsFloor o (true, s) p f = f
acquire-IsFloor o (false, s) p f = f

unpublished :
    (p : Process) → IsValid p → get p.state.next_native_id p.state.published_natives ≡ none
unpublished p v = elim (Option-cases (get p.state.next_native_id p.state.published_natives)) [
  | inl e ↦ e
  | inr (x, e) ↦ absurd (omega (arith, v.fresh p.state.next_native_id x e))
]

step-IsFloor : (a : Act) (p : Process) → IsValid p → IsFloor p.state → IsFloor (step a p).state
unfolding step drop_pin
step-IsFloor (makes arc) p v f = publish_native-IsFloor p.state f arc v.uniq (unpublished p v)
step-IsFloor (acquires i) p v f = elim (Option-cases (pick i p.made)) [
  | inl n ↦ rw n f
  | inr ((o, rest), n) ↦ rw n (
      acquire-IsFloor o (incref_publish o.0 p.state) (record p { made = rest })
        (incref_publish-IsFloor p.state f o.0))
]
step-IsFloor (clones i) p v f = elim (Option-cases (pick i p.acquired)) [
  | inl n ↦ rw n f
  | inr ((o, rest), n) ↦
      rw n (acquire-IsFloor o (incref_publish o.0 p.state) p (incref_publish-IsFloor p.state f o.0))
]
step-IsFloor (releases i) p v f = elim (Option-cases (pick i p.acquired)) [
  | inl n ↦ rw n f
  | inr ((o, rest), n) ↦ rw n (decref_publish-IsFloor p.state f o.0)
]
step-IsFloor (releases_lost i) p v f = elim (Option-cases (pick i p.lost)) [
  | inl n ↦ rw n f
  | inr ((o, rest), n) ↦ rw n (decref_publish-IsFloor p.state f o.0)
]
step-IsFloor (increfs id) p v f = ref_native_kernel-IsFloor p.state f id
step-IsFloor (derefs id) p v f = deref_native_kernel-IsFloor p.state f id
step-IsFloor (removes i) p v f = elim (Option-cases (pick i p.removing)) [
  | inl n ↦ rw n f
  | inr ((id, rest), n) ↦ rw n (remove_entry_if_zero-IsFloor p.state f id v.uniq)
]
step-IsFloor drops p v f = dropped-IsFloor p.state.dying p.state refl f

run_from-IsFloor :
    (acts : List Act) (p : Process)
    → IsValid p
    → IsFloor p.state
    → length p.acquired + length acts < 2 ^ 32
    → IsFloor (run acts p).state
unfolding run
run_from-IsFloor [] p v f b = f
run_from-IsFloor (a ∷ acts) p v f b =
    run_from-IsFloor acts (step a p) (step-IsValid a p v (omega (arith, b))) (step-IsFloor a p v f)
      (omega (arith, b, length-step a p))

start-IsFloor : IsFloor (start default).state
unfolding default
start-IsFloor = record { single = λ a. omega arith; strongs = λ a. refl; weaks = λ a. refl }

-- From the empty table, after fewer than 2^32 acts of threads and kernel in any order: the references
-- that the table holds of a binder, strong and weak, are one for each entry that pins it, of which
-- there is one at most, and one for each pin that was taken out and is not dropped yet.
pub run-IsFloor :
    (acts : List Act) → length acts < 2 ^ 32 → IsFloor (run acts (start default)).state
run-IsFloor acts b =
    run_from-IsFloor acts (start default) start-IsValid start-IsFloor
      (unfold default in omega (arith, b))

module _ (s : ProcessState) (f : IsFloor s) where
  entries-same :
      (id j a b : ℕ)
      → IsHeld s.published_natives (id, a)
      → IsHeld s.published_natives (j, b)
      → (id ≡ j) ↔ (a ≡ b)
  entries-same id j a b h k = elim (Option-cases (get id s.published_natives)) [
    | inl n ↦ ground arith
    | inr (e, n) ↦ elim (Option-cases (get j s.published_natives)) [
      | inl n' ↦ ground arith
      | inr (x, n') ↦ (
        λ q. ground arith,
        λ q. pins_one id j e x s.published_natives (f.single e.binder_pin) n n' (ground arith),
      )
    ]
  ]

-- From the empty table, after fewer than 2^32 acts in any order: two objects that are acquired and not
-- released yet have the same id exactly when they were made for the same binder.
pub run-same_id :
    (acts : List Act) (i k id j a b : ℕ)
    → length acts < 2 ^ 32
    → get_elem? (run acts (start default)).acquired i ≡ some (id, a)
    → get_elem? (run acts (start default)).acquired k ≡ some (j, b)
    → (id ≡ j) ↔ (a ≡ b)
run-same_id acts i k id j a b l p q =
    entries-same y.state (run-IsFloor acts l) id j a b
      (All-get_elem (IsHeld y.state.published_natives) y.acquired i v.held p)
      (All-get_elem (IsHeld y.state.published_natives) y.acquired k v.held q)
  where
    y : Process
    y = run acts (start default)

    v : IsValid y
    v = run-IsValid acts (start default) start-IsValid (unfold default in omega (arith, l))
