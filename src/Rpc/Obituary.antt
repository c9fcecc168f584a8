-- ===== src/Rpc/Obituary.antt =====
-- The death recipients of an RPC proxy (rsbinder/src/rpc/proxy.rs): `link_to_death`, `unlink_to_death`,
-- `send_obituary`, and what threads make of them in any order. A recipient is a weak reference, equal by
-- `Weak::ptr_eq`, and so a number.
pub mod Reports
mod Tests
use rsbinder.Prelude.{
  ℕ, zero, suc, Bool, true, false, List, [], ◌∷◌, ◌++◌, Option, none, some, ◌==◌, if◌then◌else◌,
  nat_eq,
}
use rsbinder.Parcel.{Result}
use rsbinder.Status.{StatusCode, dead_object, name_not_found}

pub record RpcProxy : Type 0 where
  pub obituary_sent : Bool
  pub recipients : List ℕ

abbrev pub new : RpcProxy
new = record { obituary_sent = false; recipients = [] }

unfoldable pub link_to_death : ℕ → RpcProxy → Result (Unit {0}) × RpcProxy
link_to_death r p =
    if p.obituary_sent
    then (Result.err dead_object, p)
    else (Result.ok tt, record p { recipients = p.recipients ++ (r ∷ []) })

abbrev pub position : ℕ → List ℕ → Option ℕ
position r [] = none
position r (x ∷ xs) =
    if x == r then some 0 else elim (position r xs) [ none ↦ none | some i ↦ some (suc i) ]

abbrev pub remove_at : ℕ → List ℕ → List ℕ
remove_at i [] = []
remove_at zero (x ∷ xs) = xs
remove_at (suc i) (x ∷ xs) = x ∷ remove_at i xs

abbrev pub unlinked_at : Option ℕ → RpcProxy → Result (Unit {0}) × RpcProxy
unlinked_at none p = (Result.err name_not_found, p)
unlinked_at (some i) p = (Result.ok tt, record p { recipients = remove_at i p.recipients })

unfoldable pub unlink_to_death : ℕ → RpcProxy → Result (Unit {0}) × RpcProxy
unlink_to_death r p =
    if p.obituary_sent then (Result.err dead_object, p) else unlinked_at (position r p.recipients) p

-- The part of `send_obituary` under its lock: the snapshot to report to.
unfoldable pub take_recipients : RpcProxy → List ℕ × RpcProxy
take_recipients p =
    if p.obituary_sent
    then ([], p)
    else (p.recipients, record { obituary_sent = true; recipients = [] })

-- The rest of it, one recipient at a time: `upgraded` tells whether the weak reference is alive then.
-- `linked` and `unlinked` log the calls that succeeded, `called` the recipients whose `binder_died` was
-- called, and `gone` those that were not alive.
pub record System : Type 0 where
  pub proxy : RpcProxy
  pub reporting : List ℕ
  pub linked : List ℕ
  pub unlinked : List ℕ
  pub called : List ℕ
  pub gone : List ℕ

-- What threads do: the calls, an obituary, and a turn of its loop.
pub data Act : Type 0 where
  links unlinks : ℕ → Act
  sends : Act
  reports : Bool → Act

abbrev pub linked_to : ℕ → Result (Unit {0}) × RpcProxy → System → System
linked_to r (Result.ok u, p) y = record y { proxy = p; linked = r ∷ y.linked }
linked_to r (Result.err e, p) y = record y { proxy = p }

abbrev pub unlinked_from : ℕ → Result (Unit {0}) × RpcProxy → System → System
unlinked_from r (Result.ok u, p) y = record y { proxy = p; unlinked = r ∷ y.unlinked }
unlinked_from r (Result.err e, p) y = record y { proxy = p }

abbrev pub report : Bool → List ℕ → System → System
report upgraded [] y = y
report true (r ∷ rs) y = record y { reporting = rs; called = r ∷ y.called }
report false (r ∷ rs) y = record y { reporting = rs; gone = r ∷ y.gone }

unfoldable pub step : Act → System → System
step (links r) y = linked_to r (link_to_death r y.proxy) y
step (unlinks r) y = unlinked_from r (unlink_to_death r y.proxy) y
step sends y =
    let t = take_recipients y.proxy in record y { proxy = t.1; reporting = y.reporting ++ t.0 }
step (reports upgraded) y = report upgraded y.reporting y

unfoldable pub run : List Act → System → System
run [] y = y
run (a ∷ acts) y = run acts (step a y)

abbrev pub start : System
start = record { proxy = new; reporting = []; linked = []; unlinked = []; called = []; gone = [] }
