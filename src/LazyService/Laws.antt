-- ===== src/LazyService/Laws.antt =====
-- Unregistering is all or nothing, and registering again undoes it.
use rsbinder.Prelude.{
  suc, ◌≡◌, String, true, false, [], ◌∷◌, none, some, string_eq, length, arith, refl, ap, ◌∙◌, inl,
  inr, Bool-cases,
}
use rsbinder.Prelude.Maps.{Map, get}
use rsbinder.LazyService.{
  RegisteredService, Registrar, any_clients, each, is_empty, unregistered, reregistered,
  try_unregister, re_register, count_registered, registered_count, binder_of, binder_for,
}

get-each :
    (f : RegisteredService → RegisteredService) (k : String) (m : Map String RegisteredService)
    → get k (each f m) ≡ elim (get k m) [ none ↦ none | some e ↦ some (f e) ]
get-each f k [] = refl
get-each f k ((j, e) ∷ m) = ground (arith, get-each f k m)

count-unregistered : (m : Map String RegisteredService) → count_registered (each unregistered m) ≡ 0
count-unregistered [] = refl
count-unregistered ((k, e) ∷ m) = ground (arith, count-unregistered m)

length-each :
    (f : RegisteredService → RegisteredService) (m : Map String RegisteredService)
    → length (each f m) ≡ length m
length-each f [] = refl
length-each f ((k, e) ∷ m) = ap suc (length-each f m)

count-reregistered :
    (m : Map String RegisteredService) → count_registered (each reregistered m) ≡ length m
count-reregistered [] = refl
count-reregistered ((k, e) ∷ m) = ground (arith, count-reregistered m)

any-get :
    (k : String) (m : Map String RegisteredService) {e : RegisteredService}
    → any_clients m ≡ false
    → get k m ≡ some e
    → e.has_clients ≡ false
any-get k [] h found = ground (arith, found)
any-get k ((j, d) ∷ m) {e} h found = ground (arith, any-get k m {e = e}, h, found)

any-reregistered :
    (m : Map String RegisteredService)
    → is_empty m ≡ false
    → any_clients (each reregistered (each unregistered m)) ≡ true
any-reregistered [] h = cc
any-reregistered ((k, e) ∷ m) h = ground arith

try_unregister-true :
    (r : Registrar)
    → (try_unregister r).1 ≡ true
    → (r.persisted ≡ false)
      × (is_empty r.services ≡ false)
      × (any_clients r.services ≡ false)
      × ((try_unregister r).0 ≡ record r { services = each unregistered r.services })
unfolding try_unregister
try_unregister-true r h = elim (Bool-cases r.persisted) [
  | inl p ↦ absurd (ground (arith, p, h))
  | inr p ↦ ground (arith, p, h)
]

binder-each :
    (f : RegisteredService → RegisteredService) (k : String) (m : Map String RegisteredService)
    → ((e : RegisteredService) → (f e).binder ≡ e.binder)
    → binder_of (get k (each f m)) ≡ binder_of (get k m)
binder-each f k [] same = refl
binder-each f k ((j, e) ∷ m) same = ground (arith, binder-each f k m same, same e)

try_unregister-false : (r : Registrar) → (try_unregister r).1 ≡ false → (try_unregister r).0 ≡ r
unfolding try_unregister
try_unregister-false r h = ground arith

clients_keep : (r : Registrar) → any_clients r.services ≡ true → (try_unregister r).1 ≡ false
unfolding try_unregister
clients_keep r h = ground arith

binder_for-twice :
    (k : String) (r : Registrar)
    → binder_for k (record r { services = each reregistered (each unregistered r.services) })
      ≡ binder_for k r
unfolding binder_for
binder_for-twice k r =
    binder-each reregistered k (each unregistered r.services) (λ e. ground arith)
    ∙ binder-each unregistered k r.services (λ e. refl)

-- `try_unregister` is all or nothing. When it answers `true`, no tracked service had clients, none is
-- registered any more, each keeps its other data; and after `re_register` every service is registered
-- again with its own binder, and a `try_unregister` directly behind it is refused. When it answers
-- `false`, nothing has changed.
pub try_unregister-re_register :
    (r : Registrar)
    → let r' = (try_unregister r).0 in
      ((try_unregister r).1 ≡ true
        → (registered_count r' ≡ 0)
          × ((k : String) (e : RegisteredService)
              → get k r.services ≡ some e
              → (e.has_clients ≡ false) × (get k r'.services ≡ some (unregistered e)))
          × (registered_count (re_register r') ≡ length r.services)
          × ((k : String) → binder_for k (re_register r') ≡ binder_for k r)
          × ((try_unregister (re_register r')).1 ≡ false))
      × ((try_unregister r).1 ≡ false → r' ≡ r)
unfolding registered_count re_register
try_unregister-re_register r = (
  λ all.
      let (free, some_there, idle, at) = try_unregister-true r all in
      (
        rw at (count-unregistered r.services),
        λ k e found. (
          any-get k r.services idle found,
          rw at (ground (arith, get-each unregistered k r.services, found)),
        ),
        rw at (
            count-reregistered (each unregistered r.services)
            ∙ length-each unregistered r.services),
        λ k. rw at (binder_for-twice k r),
        rw at (
            clients_keep (record r { services = each reregistered (each unregistered r.services) })
              (any-reregistered r.services some_there)),
      ),
  λ refused. try_unregister-false r refused,
)
