-- ===== src/Natives/Tests.antt =====
-- One binder sent twice, released, and let go by the kernel.
use rsbinder.Prelude.{ℕ, ◌≡◌, ◌↔◌, refl, List, [], ◌∷◌, some, ◌==◌, if◌then◌else◌, arith, nat_eq}
use rsbinder.Natives.{
  PublishedNative, default, publish_native, incref_publish, decref_publish, ref_native_kernel,
  deref_native_kernel, lookup_native, remove_entry_if_zero, drop_pin,
}
use rsbinder.Natives.Objects.{
  Act, makes, acquires, releases, increfs, derefs, removes, drops, step, run, start,
}
use rsbinder.Natives.Resolved.{run-lookup_native}
use rsbinder.Natives.Derefs.{
  BinderDerefs, Thread, br_release, br_decrefs, dispatch_one, process_pending_derefs,
}
use rsbinder.Natives.Derefs.Drained.{IsDrained, process_pending_derefs_lem}
use rsbinder.Natives.Floors.{IsFloor, run-IsFloor, run-same_id}

-- Two binders that the kernel alone holds; the destructor of binder 50 gives up id 2.
abbrev kept_by_kernel : ℕ → PublishedNative
kept_by_kernel arc = record {
  binder_pin = arc;
  publish_count = 0;
  kernel_refs = 1;
  pending_reservations = 0;
}

abbrev two_waiting : Thread
two_waiting = record {
  derefs =
      br_release 1 (br_decrefs 7 (record { pending_strong_derefs = []; pending_weak_derefs = [] }));
  table = record {
    published_natives = (1, kept_by_kernel 50) ∷ (2, kept_by_kernel 60) ∷ [];
    next_native_id = 3;
    strong = λ a. 1;
    weak = λ a. 1;
    dying = [];
  };
  log = [];
}

abbrev gives_up : ℕ → BinderDerefs
gives_up arc = record {
  pending_strong_derefs = if arc == 50 then 2 ∷ [] else [];
  pending_weak_derefs = [];
}

process_pending_derefs_lem_example :
    IsDrained gives_up two_waiting (process_pending_derefs gives_up 5 two_waiting)
process_pending_derefs_lem_example =
    process_pending_derefs_lem gives_up 5 two_waiting (refl, (refl, tt)) (omega arith)

dispatched_in_order : (process_pending_derefs gives_up 5 two_waiting).0.log ≡ 2 ∷ 1 ∷ 7 ∷ []
unfolding process_pending_derefs dispatch_one deref_native_kernel remove_entry_if_zero drop_pin
dispatched_in_order = refl

-- Binder 50 is sent, and sent again; the kernel takes and gives up the first object's reference, and
-- gives up one that it never had.
abbrev sent_twice : List Act
sent_twice =
    makes 50
    ∷ acquires 0
    ∷ increfs 1
    ∷ makes 50
    ∷ acquires 0
    ∷ releases 0
    ∷ derefs 1
    ∷ derefs 1
    ∷ makes 60
    ∷ acquires 0
    ∷ []

run-lookup_native_example : lookup_native 1 (run sent_twice (start default)).state ≡ some 50
unfolding run step publish_native incref_publish decref_publish ref_native_kernel
    deref_native_kernel default
run-lookup_native_example = run-lookup_native sent_twice 1 1 50 (omega arith) refl

run-same_id_example : (◌≡◌ {A = ℕ} 2 1) ↔ (◌≡◌ {A = ℕ} 60 50)
unfolding run step publish_native incref_publish decref_publish ref_native_kernel
    deref_native_kernel default
run-same_id_example = run-same_id sent_twice 0 1 2 1 60 50 (omega arith) refl refl

run-IsFloor_example : IsFloor (run sent_twice (start default)).state
run-IsFloor_example = run-IsFloor sent_twice (omega arith)

-- The last release takes the entry away, and the next sending gets a new id.
new_id :
    (run
      (makes 50 ∷ acquires 0 ∷ releases 0 ∷ removes 0 ∷ drops ∷ makes 50 ∷ [])
      (start default)).made
    ≡ (2, 50) ∷ []
unfolding run step publish_native incref_publish decref_publish remove_entry_if_zero drop_pin
    default
new_id = refl

-- A fresh entry is not reserved: when a second object of the binder is made, acquired and released before
-- the first object's acquire, that acquire meets an unknown id.
fresh_gap :
    (run
      (makes 50 ∷ makes 50 ∷ acquires 0 ∷ releases 0 ∷ removes 0 ∷ acquires 0 ∷ [])
      (start default)).lost
    ≡ (1, 50) ∷ []
unfolding run step publish_native incref_publish decref_publish remove_entry_if_zero default
fresh_gap = refl
