-- ===== src/Natives/Objects.antt =====
-- The objects of type `BINDER_TYPE_BINDER` in a process: made by `From<&SIBinder>` and not acquired yet,
-- or acquired for a parcel's buffer; `lost` are those whose acquire met an unknown id. `removing` holds
-- the removals that a decrement has asked for.
use rsbinder.Prelude.{ℕ, Bool, true, false, List, [], ◌∷◌, Option, none, some, if◌then◌else◌, pick}
use rsbinder.Natives.{
  ProcessState, publish_native, incref_publish, decref_publish, ref_native_kernel,
  deref_native_kernel, remove_entry_if_zero, drop_pin,
}

-- The id in the object, and the binder that it was made for.
abbrev pub Object : Type 0
Object = ℕ × ℕ

pub record Process : Type 0 where
  pub state : ProcessState
  pub made : List Object
  pub acquired : List Object
  pub lost : List Object
  pub removing : List ℕ

-- What the threads and the kernel do; an object is named by its place. `increfs` and `derefs` are the
-- kernel's, for any id at any time.
pub data Act : Type 0 where
  makes acquires clones releases releases_lost increfs derefs removes : ℕ → Act
  drops : Act

abbrev pub asked : Bool → ℕ → List ℕ → List ℕ
asked b id ids = if b then id ∷ ids else ids

abbrev pub made_object : ℕ → ℕ × ProcessState → Process → Process
made_object arc (id, s) p = record p { state = s; made = (id, arc) ∷ p.made }

-- `flat_binder_object::acquire`.
abbrev pub acquire : Object → Bool × ProcessState → Process → Process
acquire o (true, s) p = record p { state = s; acquired = o ∷ p.acquired }
acquire o (false, s) p = record p { state = s; lost = o ∷ p.lost }

-- `flat_binder_object::release_object`.
abbrev pub release_object : ℕ → Bool × Bool × ProcessState → Process → Process
release_object id (known, unused, s) p = record p {
  state = s;
  removing = asked unused id p.removing;
}

abbrev pub derefed : ℕ → Option ℕ × Bool × ProcessState → Process → Process
derefed id (arc, unused, s) p = record p { state = s; removing = asked unused id p.removing }

abbrev pub acquires_made : Option (Object × List Object) → Process → Process
acquires_made none p = p
acquires_made (some (o, rest)) p = acquire o (incref_publish o.0 p.state) (record p { made = rest })

-- `Parcel::append_from`: the copy of an acquired object is acquired too. Copies of objects of incoming
-- parcels, which this process has not acquired, are left out.
abbrev pub clones_acquired : Option (Object × List Object) → Process → Process
clones_acquired none p = p
clones_acquired (some (o, rest)) p = acquire o (incref_publish o.0 p.state) p

abbrev pub releases_acquired : Option (Object × List Object) → Process → Process
releases_acquired none p = p
releases_acquired (some (o, rest)) p =
    release_object o.0 (decref_publish o.0 p.state) (record p { acquired = rest })

abbrev pub releases_unknown : Option (Object × List Object) → Process → Process
releases_unknown none p = p
releases_unknown (some (o, rest)) p =
    release_object o.0 (decref_publish o.0 p.state) (record p { lost = rest })

abbrev pub removes_asked : Option (ℕ × List ℕ) → Process → Process
removes_asked none p = p
removes_asked (some (id, rest)) p = record p {
  state = remove_entry_if_zero id p.state;
  removing = rest;
}

unfoldable pub step : Act → Process → Process
step (makes arc) p = made_object arc (publish_native arc p.state) p
step (acquires i) p = acquires_made (pick i p.made) p
step (clones i) p = clones_acquired (pick i p.acquired) p
step (releases i) p = releases_acquired (pick i p.acquired) p
step (releases_lost i) p = releases_unknown (pick i p.lost) p
step (increfs id) p = record p { state = (ref_native_kernel id p.state).1 }
step (derefs id) p = derefed id (deref_native_kernel id p.state) p
step (removes i) p = removes_asked (pick i p.removing) p
step drops p = record p { state = drop_pin p.state }

unfoldable pub run : List Act → Process → Process
run [] p = p
run (a ∷ acts) p = run acts (step a p)

abbrev pub start : ProcessState → Process
start s = record { state = s; made = []; acquired = []; lost = []; removing = [] }
