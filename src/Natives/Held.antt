-- ===== src/Natives/Held.antt =====
-- The table against the objects of the process.
use rsbinder.Prelude.{
  ℕ, suc, ◌+◌, ◌-◌, ◌<◌, ◌≡◌, ◌≢◌, List, [], ◌∷◌, none, some, arith, nat_eq, inl, inr, Option-cases,
  All,
}
use rsbinder.Prelude.Maps.{
  Map, get, insert, remove, IsUniq, get-insert, get-remove, insert-IsUniq, remove-IsUniq,
}
use rsbinder.Natives.{PublishedNative, fresh_entry, pin_of}
use rsbinder.Natives.Objects.{Object}
use rsbinder.Natives.Entries.{
  Picked, Picked-All, count, count-absent, Picked-count, All-map, count-zero,
}

abbrev pub Table : Type 0
Table = Map ℕ PublishedNative

-- The object's id has an entry for the object's binder.
abbrev pub IsHeld : Table → Object → Type 0
IsHeld m (id, arc) = pin_of (get id m) ≡ some arc

-- If the object's id has an entry still, it is for the object's binder.
abbrev pub IsMade : Table → ℕ → Object → Type 0
IsMade m next (id, arc) =
    (id < next) × ((e : PublishedNative) → get id m ≡ some e → e.binder_pin ≡ arc)

abbrev pub IsLost : Table → ℕ → Object → Type 0
IsLost m next (id, arc) = (id < next) × (get id m ≡ none)

pub record Agrees (m : Table) (next : ℕ) (made acquired lost : List Object) : Type 0 where
  pub uniq : IsUniq m
  pub fresh : (id : ℕ) (e : PublishedNative) → get id m ≡ some e → id < next
  pub counted :
      (id : ℕ) (e : PublishedNative) → get id m ≡ some e → e.publish_count ≡ count id acquired
  pub held : All (IsHeld m) acquired
  pub mades : All (IsMade m next) made
  pub losts : All (IsLost m next) lost

All-IsHeld_remove :
    (id : ℕ) (m : Table) (os : List Object)
    → All (IsHeld m) os
    → All (λ (o : Object). o.0 ≢ id) os
    → All (IsHeld (remove id m)) os
All-IsHeld_remove id m [] h n = tt
All-IsHeld_remove id m (o ∷ os) h n =
    (ground (arith, get-remove id o.0 m, n.0, h.0), All-IsHeld_remove id m os h.1 n.1)

module _ {m : Table} {next : ℕ} {made acquired lost : List Object}
    (v : Agrees m next made acquired lost) where
  -- Other objects over the same table.
  pub Agrees-objects :
      {made' acquired' lost' : List Object}
      → All (IsMade m next) made'
      → All (IsHeld m) acquired'
      → ((id : ℕ) (e : PublishedNative) → get id m ≡ some e → e.publish_count ≡ count id acquired')
      → All (IsLost m next) lost'
      → Agrees m next made' acquired' lost'
  Agrees-objects mades held counted losts = record {
    uniq = v.uniq;
    fresh = v.fresh;
    counted = counted;
    held = held;
    mades = mades;
    losts = losts;
  }

  -- A write of an entry that keeps its binder and its count.
  pub Agrees-update :
      (id : ℕ) (e f : PublishedNative)
      → get id m ≡ some e
      → f.binder_pin ≡ e.binder_pin
      → f.publish_count ≡ e.publish_count
      → Agrees (insert id f m) next made acquired lost
  Agrees-update id e f g p q = record {
    uniq = insert-IsUniq id f m v.uniq;
    fresh = λ j x h. ground (arith, get-insert id j f m, v.fresh j x, v.fresh id e);
    counted = λ j x h. ground (arith, get-insert id j f m, v.counted j x, v.counted id e);
    held =
        All-map (IsHeld m) (IsHeld (insert id f m)) acquired
          (λ o h. ground (arith, get-insert id o.0 f m)) v.held;
    mades =
        All-map (IsMade m next) (IsMade (insert id f m) next) made
          (λ o h. (h.0, λ x k. ground (arith, get-insert id o.0 f m, h.1 x, h.1 e))) v.mades;
    losts =
        All-map (IsLost m next) (IsLost (insert id f m) next) lost
          (λ o h. (h.0, ground (arith, get-insert id o.0 f m))) v.losts;
  }

  unheld : (id : ℕ) → get id m ≡ none → All (λ (o : Object). o.0 ≢ id) acquired
  unheld id n =
      All-map (IsHeld m) (λ (o : Object). o.0 ≢ id) acquired (λ o h q. ground arith) v.held

  -- A new entry for an object that is made.
  pub Agrees-fresh :
      (arc : ℕ)
      → Agrees (insert next (fresh_entry arc) m) (next + 1) ((next, arc) ∷ made) acquired lost
  Agrees-fresh arc = record {
    uniq = insert-IsUniq next (fresh_entry arc) m v.uniq;
    fresh = λ j x h. ground (arith, get-insert next j (fresh_entry arc) m, v.fresh j x);
    counted = λ j x h. ground (arith, get-insert next j (fresh_entry arc) m, v.counted j x, absent);
    held =
        All-map (IsHeld m) (IsHeld (insert next (fresh_entry arc) m)) acquired
          (λ o h. ground (arith, get-insert next o.0 (fresh_entry arc) m, unused)) v.held;
    mades = (
      (omega arith, λ x k. ground (arith, get-insert next next (fresh_entry arc) m)),
      All-map (IsMade m next) (IsMade (insert next (fresh_entry arc) m) (next + 1)) made
          (λ o h. (
            omega (arith, h.0),
            λ x k. ground (arith, get-insert next o.0 (fresh_entry arc) m, h.0, h.1 x),
          ))
          v.mades,
    );
    losts =
        All-map (IsLost m next) (IsLost (insert next (fresh_entry arc) m) (next + 1)) lost
          (λ o h.
            (omega (arith, h.0), ground (arith, h.0, get-insert next o.0 (fresh_entry arc) m)))
          v.losts;
  }
    where
      unused : get next m ≡ none
      unused = elim (Option-cases (get next m)) [
        | inl e ↦ e
        | inr (x, e) ↦ absurd (omega (arith, v.fresh next x e))
      ]

      absent : count next acquired ≡ 0
      absent = count-absent next acquired (unheld next unused)

  -- An acquire of an object that was made or acquired.
  pub Agrees-incref :
      (o : Object) (e f : PublishedNative)
      → get o.0 m ≡ some e
      → f.binder_pin ≡ e.binder_pin
      → f.publish_count ≡ suc e.publish_count
      → e.binder_pin ≡ o.1
      → Agrees (insert o.0 f m) next made (o ∷ acquired) lost
  Agrees-incref o e f g p q r = record {
    uniq = insert-IsUniq o.0 f m v.uniq;
    fresh = λ j x h. ground (arith, get-insert o.0 j f m, v.fresh j x, v.fresh o.0 e);
    counted = λ j x h. ground (arith, get-insert o.0 j f m, v.counted j x, v.counted o.0 e);
    held = (
      ground (arith, get-insert o.0 o.0 f m),
      All-map (IsHeld m) (IsHeld (insert o.0 f m)) acquired
          (λ a h. ground (arith, get-insert o.0 a.0 f m)) v.held,
    );
    mades =
        All-map (IsMade m next) (IsMade (insert o.0 f m) next) made
          (λ a h. (h.0, λ x k. ground (arith, get-insert o.0 a.0 f m, h.1 x, h.1 e))) v.mades;
    losts =
        All-map (IsLost m next) (IsLost (insert o.0 f m) next) lost
          (λ a h. (h.0, ground (arith, get-insert o.0 a.0 f m))) v.losts;
  }

  -- A release of an acquired object.
  pub Agrees-decref :
      (o : Object) (rest : List Object) (e f : PublishedNative)
      → Picked o acquired rest
      → get o.0 m ≡ some e
      → f.binder_pin ≡ e.binder_pin
      → f.publish_count ≡ e.publish_count - 1
      → Agrees (insert o.0 f m) next made rest lost
  Agrees-decref o rest e f l g p q = record {
    uniq = insert-IsUniq o.0 f m v.uniq;
    fresh = λ j x h. ground (arith, get-insert o.0 j f m, v.fresh j x, v.fresh o.0 e);
    counted = λ j x h.
        ground (arith, get-insert o.0 j f m, v.counted j x, v.counted o.0 e, Picked-count j l);
    held =
        All-map (IsHeld m) (IsHeld (insert o.0 f m)) rest
          (λ a h. ground (arith, get-insert o.0 a.0 f m)) (Picked-All (IsHeld m) l v.held).1;
    mades =
        All-map (IsMade m next) (IsMade (insert o.0 f m) next) made
          (λ a h. (h.0, λ x k. ground (arith, get-insert o.0 a.0 f m, h.1 x, h.1 e))) v.mades;
    losts =
        All-map (IsLost m next) (IsLost (insert o.0 f m) next) lost
          (λ a h. (h.0, ground (arith, get-insert o.0 a.0 f m))) v.losts;
  }

  -- The removal of an entry that no object counts in.
  pub Agrees-remove :
      (id : ℕ) (e : PublishedNative)
      → get id m ≡ some e
      → e.publish_count ≡ 0
      → Agrees (remove id m) next made acquired lost
  Agrees-remove id e g z = record {
    uniq = remove-IsUniq id m v.uniq;
    fresh = λ j x h. ground (arith, get-remove id j m, v.fresh j x);
    counted = λ j x h. ground (arith, get-remove id j m, v.counted j x);
    held =
        All-IsHeld_remove id m acquired v.held
          (count-zero id acquired (ground (arith, v.counted id e)));
    mades =
        All-map (IsMade m next) (IsMade (remove id m) next) made
          (λ a h. (h.0, λ x k. ground (arith, get-remove id a.0 m, h.1 x))) v.mades;
    losts =
        All-map (IsLost m next) (IsLost (remove id m) next) lost
          (λ a h. (h.0, ground (arith, get-remove id a.0 m))) v.losts;
  }
