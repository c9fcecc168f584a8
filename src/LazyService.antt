-- ===== src/LazyService.antt =====
-- The bookkeeping of lazy services (rsbinder/src/lazy_service.rs). A binder is the address of its
-- allocation.
pub mod Laws
mod Tests
use rsbinder.Prelude.{
  ℕ, ◌+◌, String, not, Bool, true, false, ◌||◌, List, [], ◌∷◌, Option, none, some, if◌then◌else◌,
  map, string_eq,
}
use rsbinder.Prelude.Maps.{Map, get, insert}

pub record RegisteredService : Type 0 where
  pub name : String
  pub binder : ℕ
  pub has_clients : Bool
  pub registered : Bool

-- `LazyServiceRegistrar`: the map under its lock, and the flag.
pub record Registrar : Type 0 where
  pub services : Map String RegisteredService
  pub persisted : Bool

abbrev pub new : Registrar
new = record { services = []; persisted = false }

unfoldable pub register_service : String → ℕ → Registrar → Registrar
register_service name binder r = record r {
  services =
      insert name (record { name = name; binder = binder; has_clients = true; registered = true })
        r.services;
}

unfoldable pub force_persist : Bool → Registrar → Registrar
force_persist persist r = record r { persisted = persist }

unfoldable pub is_force_persisted : Registrar → Bool
is_force_persisted r = r.persisted

-- The second result: whether the name is tracked.
unfoldable pub on_clients : String → Bool → Registrar → Registrar × Bool
on_clients name has_clients r = elim (get name r.services) [
  | none ↦ (r, false)
  | some entry ↦ (
    record r { services = insert name (record entry { has_clients = has_clients }) r.services },
    true,
  )
]

-- The loops over `values()` and `values_mut()`.
abbrev pub any_clients : Map String RegisteredService → Bool
any_clients [] = false
any_clients ((k, e) ∷ m) = e.has_clients || any_clients m

abbrev pub each :
    (RegisteredService → RegisteredService)
    → Map String RegisteredService
    → Map String RegisteredService
each f [] = []
each f ((k, e) ∷ m) = (k, f e) ∷ each f m

abbrev pub is_empty : Map String RegisteredService → Bool
is_empty [] = true
is_empty (e ∷ m) = false

abbrev pub unregistered : RegisteredService → RegisteredService
unregistered e = record e { registered = false }

abbrev pub reregistered : RegisteredService → RegisteredService
reregistered e = if not e.registered then record e { registered = true; has_clients = true } else e

unfoldable pub try_unregister : Registrar → Registrar × Bool
try_unregister r =
    if r.persisted
    then (r, false)
    else if is_empty r.services
    then (r, false)
    else if any_clients r.services
    then (r, false)
    else (record r { services = each unregistered r.services }, true)

unfoldable pub re_register : Registrar → Registrar
re_register r = record r { services = each reregistered r.services }

unfoldable pub snapshot : Registrar → List (String × (Bool × Bool))
snapshot r = map (λ p. (p.1.name, (p.1.has_clients, p.1.registered))) r.services

abbrev pub count_registered : Map String RegisteredService → ℕ
count_registered [] = 0
count_registered ((k, e) ∷ m) = if e.registered then count_registered m + 1 else count_registered m

unfoldable pub registered_count : Registrar → ℕ
registered_count r = count_registered r.services

abbrev pub binder_of : Option RegisteredService → Option ℕ
binder_of none = none
binder_of (some e) = some e.binder

unfoldable pub binder_for : String → Registrar → Option ℕ
binder_for name r = binder_of (get name r.services)
