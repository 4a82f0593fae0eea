-- ===== src/Lifecycle/Moves.antt =====
-- Reasoning on actions by the invariant: a run moves if it keeps the invariant and moves the orders
-- forward. The rules follow the text of an action.
use charging_station_system.Prelude.{
  ℕ, ◌≡◌, refl, sym, subst, Bool, true, false, Option, none, some, List, [], ◌∷◌,
}
use charging_station_system.Float.{Float}
use charging_station_system.Schema.{ChargeMode, Db, Pile}
use charging_station_system.Station.{
  World, Env, Effect, Result, ok, err, Action, Error, SchedulerAssignment, and_then, or_raise,
  raise_if,
}
use charging_station_system.Station.Rules.{At, and_then-At}
use charging_station_system.QueueCache.{refresh_mode, refresh_pile, refresh_piles, refresh_all}
use charging_station_system.Billing.Close.{Closing, close_and_bill}
use charging_station_system.Dispatch.Assign.{apply_assignments}
use charging_station_system.Lifecycle.Valid.{Advances, Advances-IsPreorder}
use charging_station_system.Lifecycle.Closing.{Ends}
use charging_station_system.Lifecycle.Dispatching.{
  Advances-same, refresh_mode-At, refresh_pile-At, close_and_bill-At, apply_assignments-At,
}

pub record Moves {F A : Type 0} (w : World F) (r : Result A × World F) : Type 0 where
  pub at_end : At Advances w r

module _ {F : Type 0} where
  -- The database is as it was.
  pub stays : {A : Type 0} → {w : World F} → {r : Result A × World F} → r.1.db ≡ w.db → Moves w r
  stays {A} {w} {r} e = record { at_end = Advances-same w.db r.1.db e }

  pub then-Moves :
      {A B : Type 0}
      → {w : World F} → {r : Result A × World F} → (f : A → Action F B) → Moves w r
      → ((a : A) → r.0 ≡ ok a → Moves r.1 (f a r.1))
      → Moves w (and_then r f)
  then-Moves {A} {B} {w} {r} f h k = record {
    at_end = and_then-At Advances-IsPreorder w r f h.at_end (λ a e. (k a e).at_end);
  }

  pub found-Moves :
      {A B : Type 0}
      → {w : World F} → (o : Option A) → (e : Error) → (f : A → Action F B)
      → ((a : A) → o ≡ some a → Moves w (f a w))
      → Moves w (and_then (or_raise o e w) f)
  found-Moves none e f k = stays refl
  found-Moves (some a) e f k = k a refl

  pub unless-Moves :
      {B : Type 0}
      → {w : World F} → (c : Bool) → (e : Error) → (f : Unit {0} → Action F B)
      → (c ≡ false → Moves w (f tt w))
      → Moves w (and_then (raise_if c e w) f)
  unless-Moves true e f k = stays refl
  unless-Moves false e f k = k refl

  -- A write, and what follows it.
  pub write-Moves :
      {A : Type 0}
      → {w : World F} → {r : Result A × World F} → (f : Db F → Db F) → Advances w.db (f w.db)
      → Moves (record w { db = f w.db }) r
      → Moves w r
  write-Moves {A} {w} {r} f h k = record {
    at_end = Advances-IsPreorder.transitive w.db (f w.db) r.1.db h k.at_end;
  }

  -- What was sent before is not looked at.
  pub sent-Moves :
      {A : Type 0}
      → {w : World F} → {r : Result A × World F} → (es : List (Effect F))
      → Moves (record w { effects = es }) r
      → Moves w r
  sent-Moves es h = record { at_end = h.at_end }

  -- A call that only reads, and what follows it.
  abbrev pub Reads : {A : Type 0} → World F → Result A × World F → Type 0
  Reads {A} w m = (r : Result A) × (m ≡ (r, w))

  after_result :
      {A B : Type 0}
      → {w : World F} → (r : Result A) → (f : A → Action F B) → ((a : A) → Moves w (f a w))
      → Moves w (and_then (r, w) f)
  after_result (ok a) f h = h a
  after_result (err e) f h = stays refl

  pub read-Moves :
      {A B : Type 0}
      → {w : World F} → (m : Result A × World F) → (f : A → Action F B) → Reads w m
      → ((a : A) → Moves w (f a w))
      → Moves w (and_then m f)
  read-Moves {A} {B} {w} m f (r, e) h =
      subst (λ s. Moves w (and_then s f)) (sym e) (after_result r f h)

module _ {F : Type 0} where
  pub mode-Moves :
      (mode : ChargeMode)
      → (broadcast : Bool) → {w : World F} → Moves w (refresh_mode mode broadcast w)
  mode-Moves mode broadcast {w} = record { at_end = refresh_mode-At mode broadcast w }

module _ {F : Type 0} ⦃fl : Float F⦄ where
  pub pile-Moves :
      (env : Env F)
      → (now : F) → (i : ℕ) → (broadcast : Bool) → {w : World F}
      → Moves w (refresh_pile now i broadcast w)
  pile-Moves env now i broadcast {w} = record { at_end = refresh_pile-At env now i broadcast w }

  pub close-Moves :
      (env : Env F)
      → (i : ℕ) → (c : Closing) → {w : World F} → Ends c.target_status
      → Moves w (close_and_bill env i c w)
  close-Moves env i c {w} h = record { at_end = close_and_bill-At env i c w h }

  pub assign-Moves :
      (env : Env F)
      → (mode : Option ChargeMode) → (movable : List ℕ) → (as' : List (SchedulerAssignment F))
      → {w : World F} → Moves w (apply_assignments env mode movable as' w)
  assign-Moves env mode movable as' {w} = record {
    at_end = apply_assignments-At env mode movable as' w;
  }

  piles-Moves :
      (env : Env F) (now : F) (broadcast : Bool) (ps : List (Pile F)) (w : World F)
      → Moves w (refresh_piles now broadcast ps w)
  unfolding refresh_piles
  piles-Moves env now broadcast [] w = stays refl
  piles-Moves env now broadcast (p ∷ ps) w =
      then-Moves (λ _. refresh_piles now broadcast ps) (pile-Moves env now p.id broadcast)
        λ v _. piles-Moves env now broadcast ps _

  pub all-Moves :
      (env : Env F)
      → (now : F) → (broadcast : Bool) → {w : World F} → Moves w (refresh_all now broadcast w)
  unfolding refresh_all
  all-Moves env now broadcast {w} =
      then-Moves _ (mode-Moves _ _)
        λ a _. then-Moves _ (mode-Moves _ _) λ b _. piles-Moves env now broadcast _ _
