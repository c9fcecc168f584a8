-- ===== src/Rpc/Pool/Tests.antt =====
-- Two threads over a pool of one slot, and of two.
use rsbinder.Prelude.{ℕ, ◌≡◌, refl, true, false, List, [], ◌∷◌, none, some, nat_eq}
use rsbinder.Rpc.Pool.{
  ConnSlot, ConnGuard, owns, first, has_id, drop_guard, new, find_conn, find_conn_pinned,
  add_slot_inner,
}
use rsbinder.Rpc.Pool.Called.{IsStuck}
use rsbinder.Rpc.Pool.Threads.{System, Act, finds, pins, drops, adds, step, run, start}
use rsbinder.Rpc.Pool.Exclusive.{reached-IsValid, run-Exclusive}
use rsbinder.Rpc.Pool.Wakeups.{run-IsStuck}
use rsbinder.Rpc.Pool.Release.{drops-find_conn}

-- Thread 4 calls and calls again from its handler; thread 5 has to wait.
abbrev nested_call : List Act
nested_call = finds 4 ∷ finds 4 ∷ finds 5 ∷ []

abbrev claimed : ConnGuard
claimed = record { slot_id = 1; transport = 70; reentrant = false }

abbrev inner_guard : ConnGuard
inner_guard = record { slot_id = 1; transport = 70; reentrant = true }

run-Exclusive_example :
    ◌≡◌ {A = ℕ} 4 4
    × ((c : ConnSlot)
        → first (has_id 1) (run nested_call (start (new 70))).session.conn.slots ≡ some c
        → c.exclusive_tid ≡ some 4)
unfolding run step find_conn new
run-Exclusive_example = run-Exclusive 70 nested_call 0 1 4 4 inner_guard claimed refl refl refl

run-IsStuck_example : IsStuck (run nested_call (start (new 70))).session.conn.slots (5, none)
unfolding run step find_conn new
run-IsStuck_example = run-IsStuck 70 nested_call 0 (5, none) refl refl

abbrev one_call : System
one_call = run (finds 4 ∷ finds 5 ∷ []) (start (new 70))

drops-find_conn_example :
    (h : ConnGuard) × ((find_conn 5 (step (drops 4) one_call).session).0 ≡ owns h)
unfolding run step find_conn new drop_guard
drops-find_conn_example =
    drops-find_conn 4 5 claimed (record { transport = 70; exclusive_tid = some 4; id = 1 }) []
      one_call (reached-IsValid 70 (finds 4 ∷ finds 5 ∷ [])) refl refl refl refl refl

-- After the drop a pinned thread gets the slot; a second slot serves at once.
second_slot :
    (run (finds 4 ∷ adds 71 ∷ finds 5 ∷ []) (start (new 70))).guards
    ≡ (5, record { slot_id = 2; transport = 71; reentrant = false }) ∷ (4, claimed) ∷ []
unfolding run step find_conn new add_slot_inner
second_slot = refl

pinned_wait : (run (finds 4 ∷ pins 5 1 ∷ []) (start (new 70))).waiting ≡ (5, some 1) ∷ []
unfolding run step find_conn find_conn_pinned new
pinned_wait = refl
