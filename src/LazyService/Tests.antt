-- ===== src/LazyService/Tests.antt =====
-- Two services at concrete states.
use rsbinder.Prelude.{◌≡◌, refl, String, true, false, some, length, string_eq}
use rsbinder.Prelude.Maps.{get}
use rsbinder.LazyService.{
  RegisteredService, Registrar, new, register_service, on_clients, unregistered, try_unregister,
  re_register, registered_count, binder_for,
}
use rsbinder.LazyService.Laws.{try_unregister-re_register}

abbrev two : Registrar
two = register_service "b" 4 (register_service "a" 3 new)

abbrev idle : Registrar
idle = (on_clients "a" false (on_clients "b" false two).0).0

held : (try_unregister (on_clients "b" false two).0).1 ≡ false
unfolding try_unregister on_clients register_service
held = refl

released : registered_count (try_unregister idle).0 ≡ 0
unfolding registered_count try_unregister on_clients register_service
released = refl

try_unregister-re_register_example :
    let r' = (try_unregister idle).0 in
    ((try_unregister idle).1 ≡ true
      → (registered_count r' ≡ 0)
        × ((k : String) (e : RegisteredService)
            → get k idle.services ≡ some e
            → (e.has_clients ≡ false) × (get k r'.services ≡ some (unregistered e)))
        × (registered_count (re_register r') ≡ length idle.services)
        × ((k : String) → binder_for k (re_register r') ≡ binder_for k idle)
        × ((try_unregister (re_register r')).1 ≡ false))
    × ((try_unregister idle).1 ≡ false → r' ≡ idle)
try_unregister-re_register_example = try_unregister-re_register idle
