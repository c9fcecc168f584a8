-- ===== src/Natives/Derefs/Drained.antt =====
-- What the loop dispatches, summed with any weight on ids, and when it ends.
use rsbinder.Prelude.{
  ℕ, zero, suc, ◌+◌, ◌-◌, ◌<◌, ◌≡◌, refl, ap, ◌∙◌, Bool, true, false, List, [], ◌∷◌, ◌++◌, some,
  arith, nat_eq, inl, inr, Option-cases,
}
use rsbinder.Prelude.Maps.{get, IsUniq, get-insert_self, insert-IsUniq, remove-IsUniq}
use rsbinder.Natives.{
  PublishedNative, deref_native_kernel, remove_entry_if_zero, drop_pin, is_unused, with_entry,
}
use rsbinder.Natives.Pins.{total, total-update, total-remove}
use rsbinder.Natives.Derefs.{
  BinderDerefs, Thread, settled, dispatch_one, dispatch_all, with_derefs, turn,
  process_pending_derefs,
}

abbrev pub sum : (ℕ → ℕ) → List ℕ → ℕ
sum g [] = 0
sum g (x ∷ xs) = g x + sum g xs

sum-append : (g : ℕ → ℕ) (xs ys : List ℕ) → sum g (xs ++ ys) ≡ sum g xs + sum g ys
sum-append g [] ys = omega arith
sum-append g (x ∷ xs) ys = omega (arith, sum-append g xs ys)

abbrev pub queued : (ℕ → ℕ) → BinderDerefs → ℕ
queued g q = sum g q.pending_weak_derefs + sum g q.pending_strong_derefs

module _ (destroy : ℕ → BinderDerefs) (g : ℕ → ℕ) where
  -- What waits in the queues, and what the destructors of the entries would add.
  abbrev pub pending : Thread → ℕ
  pending t = queued g t.derefs + total (λ a. queued g (destroy a)) t.table.published_natives

  abbrev IsTable : Thread → Type 0
  IsTable t = IsUniq t.table.published_natives

  removed-pending :
      (id : ℕ) (e : PublishedNative) (t : Thread)
      → IsTable t
      → get id t.table.published_natives ≡ some e
      → is_unused e ≡ true
      → (pending (settled destroy id true t) ≡ pending t) × IsTable (settled destroy id true t)
  unfolding remove_entry_if_zero drop_pin
  removed-pending id e t u n q = rw n (
      rw q (
        omega (
          arith,
          total-remove (λ a. queued g (destroy a)) id e t.table.published_natives u n,
          sum-append g t.derefs.pending_strong_derefs (destroy e.binder_pin).pending_strong_derefs,
          sum-append g t.derefs.pending_weak_derefs (destroy e.binder_pin).pending_weak_derefs,
        ),
        remove-IsUniq id t.table.published_natives u,
      ))

  settled-pending :
      (id : ℕ) (e : PublishedNative) (t : Thread) (b : Bool)
      → IsTable t
      → get id t.table.published_natives ≡ some e
      → is_unused e ≡ b
      → (pending (settled destroy id b t) ≡ pending t) × IsTable (settled destroy id b t)
  settled-pending id e t false u n q = (refl, u)
  settled-pending id e t true u n q = removed-pending id e t u n q

  -- A decrement only moves what waits: from an entry that it removes into the queues.
  dispatch_one-pending :
      (id : ℕ) (t : Thread)
      → IsTable t
      → (pending (dispatch_one destroy id t) ≡ pending t) × IsTable (dispatch_one destroy id t)
  unfolding dispatch_one deref_native_kernel
  dispatch_one-pending id t u = elim (Option-cases (get id t.table.published_natives)) [
    | inl n ↦ rw n (refl, u)
    | inr (e, n) ↦ rw n (
        let e' = record e { kernel_refs = e.kernel_refs - 1 } in
        let t' = record t { table = with_entry id e' t.table; log = id ∷ t.log } in
        let r =
          settled-pending id e' t' (is_unused e') (insert-IsUniq id e' t.table.published_natives u)
            (get-insert_self id e' t.table.published_natives) refl in
        (
          omega (
            arith,
            r.0,
            total-update (λ a. queued g (destroy a)) id e e' t.table.published_natives n refl,
          ),
          r.1,
        ))
  ]

  settled-log : (id : ℕ) (b : Bool) (t : Thread) → (settled destroy id b t).log ≡ t.log
  settled-log id false t = refl
  settled-log id true t = refl

  dispatch_one-log : (id : ℕ) (t : Thread) → (dispatch_one destroy id t).log ≡ id ∷ t.log
  unfolding dispatch_one
  dispatch_one-log id t = settled-log id _ _

  -- Everything dispatched or waiting, counted.
  abbrev pub account : Thread → ℕ
  account t = sum g t.log + pending t

  dispatch_one-account :
      (id : ℕ) (t : Thread)
      → IsTable t
      → (account (dispatch_one destroy id t) ≡ g id + account t)
        × IsTable (dispatch_one destroy id t)
  dispatch_one-account id t u =
      let r = dispatch_one-pending id t u in
      (omega (arith, r.0, ap (sum g) (dispatch_one-log id t)), r.1)

  dispatch_all-account :
      (ids : List ℕ) (t : Thread)
      → IsTable t
      → (account (dispatch_all destroy ids t) ≡ sum g ids + account t)
        × (IsTable (dispatch_all destroy ids t)
            × (pending (dispatch_all destroy ids t) ≡ pending t))
  dispatch_all-account [] t u = (omega arith, (u, refl))
  dispatch_all-account (id ∷ ids) t u =
      let a = dispatch_one-account id t u in
      let r = dispatch_all-account ids (dispatch_one destroy id t) a.1 in
      (omega (arith, a.0, r.0), (r.1.0, r.1.1 ∙ (dispatch_one-pending id t u).0))

module _ (destroy : ℕ → BinderDerefs) where
  -- Every id has been dispatched as often as it waited or as the destructors that have run since queued
  -- it, for any weight on ids.
  pub record IsDrained (t : Thread) (r : Thread × Bool) : Type 0 where
    pub ended : r.1 ≡ true
    pub no_strong : r.0.derefs.pending_strong_derefs ≡ []
    pub no_weak : r.0.derefs.pending_weak_derefs ≡ []
    pub each :
        (g : ℕ → ℕ)
        → sum g r.0.log + total (λ a. queued g (destroy a)) r.0.table.published_natives
          ≡ sum g t.log
            + (queued g t.derefs + total (λ a. queued g (destroy a)) t.table.published_natives)

  -- How many decrements can still be dispatched.
  abbrev pub waiting : Thread → ℕ
  waiting t = pending destroy (λ id. 1) t

  module _ (n : ℕ) (again : Thread → Thread × Bool)
      (h : (t : Thread)
        → IsUniq t.table.published_natives
        → waiting t < n
        → IsDrained t (again t)) where
    turn-IsDrained :
        (weak strong : List ℕ) (t : Thread)
        → t.derefs ≡ (with_derefs strong weak t).derefs
        → IsUniq t.table.published_natives
        → waiting t < suc n
        → IsDrained t (turn destroy again weak strong t)
    turn-IsDrained (id ∷ ids) strong t e u b =
        let t' = with_derefs strong [] t in
        let w = dispatch_all-account destroy (λ j. 1) (id ∷ ids) t' u in
        let r =
          h (dispatch_all destroy (id ∷ ids) t') w.1.0
            (omega (arith, b, w.1.1, ap (queued (λ j. 1)) e)) in
        record {
          ended = r.ended;
          no_strong = r.no_strong;
          no_weak = r.no_weak;
          each = λ g. omega (
            arith,
            r.each g,
            (dispatch_all-account destroy g (id ∷ ids) t' u).0,
            ap (queued g) e,
          );
        }
    turn-IsDrained [] (id ∷ ids) t e u b =
        let t' = with_derefs ids [] t in
        let w = dispatch_one-pending destroy (λ j. 1) id t' u in
        let r =
          h (dispatch_one destroy id t') w.1 (omega (arith, b, w.0, ap (queued (λ j. 1)) e)) in
        record {
          ended = r.ended;
          no_strong = r.no_strong;
          no_weak = r.no_weak;
          each = λ g.
              omega (arith, r.each g, (dispatch_one-account destroy g id t' u).0, ap (queued g) e);
        }
    turn-IsDrained [] [] t e u b = record {
      ended = refl;
      no_strong = ap (λ q. q.pending_strong_derefs) e;
      no_weak = ap (λ q. q.pending_weak_derefs) e;
      each = λ g. omega (arith, ap (queued g) e);
    }

-- For any destructors, with a table of distinct ids and more fuel than there are ids waiting and ids
-- that the destructors of the table's binders would queue: `process_pending_derefs` ends, leaves both
-- queues empty, and the ids that it has dispatched, summed with any weight, are those that waited and
-- those that the destructors of the binders it removed from the table queued.
pub process_pending_derefs_lem :
    (destroy : ℕ → BinderDerefs) (n : ℕ) (t : Thread)
    → IsUniq t.table.published_natives
    → waiting destroy t < n
    → IsDrained destroy t (process_pending_derefs destroy n t)
unfolding process_pending_derefs
process_pending_derefs_lem destroy zero t u b = absurd (omega (arith, b))
process_pending_derefs_lem destroy (suc n) t u b =
    turn-IsDrained destroy n (λ x. process_pending_derefs destroy n x)
      (λ x. process_pending_derefs_lem destroy n x) t.derefs.pending_weak_derefs
      t.derefs.pending_strong_derefs t refl u b
