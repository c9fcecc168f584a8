-- ===== src/Natives/Derefs.antt =====
-- The decrements of the kernel that a binder thread keeps for later: `BinderDerefs`, the arms of
-- `BR_RELEASE` and `BR_DECREFS`, and `process_pending_derefs` (rsbinder/src/thread_state.rs). What the
-- destructor of a binder makes the kernel queue meanwhile is a parameter.
pub mod Drained
use rsbinder.Prelude.{ℕ, zero, suc, Bool, true, false, List, [], ◌∷◌, ◌++◌, Option, none, some}
use rsbinder.Natives.{ProcessState, deref_native_kernel, remove_entry_if_zero, drop_pin}

pub record BinderDerefs : Type 0 where
  pub pending_strong_derefs : List ℕ
  pub pending_weak_derefs : List ℕ

-- `log` keeps the ids that were given to `deref_native_kernel`, the latest first.
pub record Thread : Type 0 where
  pub derefs : BinderDerefs
  pub table : ProcessState
  pub log : List ℕ

abbrev pub br_release : ℕ → BinderDerefs → BinderDerefs
br_release id q = record q { pending_strong_derefs = q.pending_strong_derefs ++ (id ∷ []) }

abbrev pub br_decrefs : ℕ → BinderDerefs → BinderDerefs
br_decrefs id q = record q { pending_weak_derefs = q.pending_weak_derefs ++ (id ∷ []) }

abbrev pub pushed : BinderDerefs → BinderDerefs → BinderDerefs
pushed more q = record {
  pending_strong_derefs = q.pending_strong_derefs ++ more.pending_strong_derefs;
  pending_weak_derefs = q.pending_weak_derefs ++ more.pending_weak_derefs;
}

abbrev pub with_derefs : List ℕ → List ℕ → Thread → Thread
with_derefs strong weak t = record t {
  derefs = record { pending_strong_derefs = strong; pending_weak_derefs = weak };
}

module _ (destroy : ℕ → BinderDerefs) where
  -- The drop of the pin that was taken out last runs its binder's destructor.
  abbrev pub destroyed : List ℕ → BinderDerefs → BinderDerefs
  destroyed [] q = q
  destroyed (arc ∷ rest) q = pushed (destroy arc) q

  -- The removal that a decrement has asked for.
  abbrev pub settled : ℕ → Bool → Thread → Thread
  settled id false t = t
  settled id true t = record t {
    derefs = destroyed (remove_entry_if_zero id t.table).dying t.derefs;
    table = drop_pin (remove_entry_if_zero id t.table);
  }

  unfoldable pub dispatch_one : ℕ → Thread → Thread
  dispatch_one id t =
      let r = deref_native_kernel id t.table in
      settled id r.1 (record t { table = r.2; log = id ∷ t.log })

  -- The `for` over a batch of weak decrements.
  abbrev pub dispatch_all : List ℕ → Thread → Thread
  dispatch_all [] t = t
  dispatch_all (id ∷ ids) t = dispatch_all ids (dispatch_one id t)

  -- One turn of the loops: a batch of weak decrements while there is one, else one strong decrement.
  abbrev pub turn : (Thread → Thread × Bool) → List ℕ → List ℕ → Thread → Thread × Bool
  turn again (id ∷ ids) strong t = again (dispatch_all (id ∷ ids) (with_derefs strong [] t))
  turn again [] (id ∷ ids) t = again (dispatch_one id (with_derefs ids [] t))
  turn again [] [] t = (t, true)

  -- The second result is whether the loop ended within the fuel.
  unfoldable pub process_pending_derefs : ℕ → Thread → Thread × Bool
  process_pending_derefs zero t = (t, false)
  process_pending_derefs (suc n) t =
      turn (λ u. process_pending_derefs n u) t.derefs.pending_weak_derefs
        t.derefs.pending_strong_derefs t
