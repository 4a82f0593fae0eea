-- ===== src/Station/Rules.antt =====
-- Reasoning on actions by a relation between the database before and the database after: rules for
-- what actions are made of, for any reflexive and transitive relation.
use charging_station_system.Prelude.{◌≡◌, refl, Bool, true, false, Option, none, some}
use charging_station_system.Schema.{Db}
use charging_station_system.Station.Effects.{World}
use charging_station_system.Station.Actions.{
  Error, Result, ok, err, Action, and_then, or_raise, raise_if,
}

pub record IsPreorder {F : Type 0} (R : Db F → Db F → Type 0) : Type 0 where
  pub reflexive : (a : Db F) → R a a
  pub transitive : (a b c : Db F) → R a b → R b c → R a c

-- The action, run in a world, relates the databases before and after.
abbrev pub At : {F A : Type 0} → (Db F → Db F → Type 0) → World F → Result A × World F → Type 0
At R w r = R w.db r.1.db

module _ {F : Type 0} {R : Db F → Db F → Type 0} (p : IsPreorder R) where
  pub and_then-At :
      {A B : Type 0} (w : World F) (r : Result A × World F) (f : A → Action F B)
      → At R w r
      → ((a : A) → r.0 ≡ ok a → At R r.1 (f a r.1))
      → At R w (and_then r f)
  and_then-At w (ok a, w') f h k = p.transitive w.db w'.db _ h (k a refl)
  and_then-At w (err e, w') f h k = h

  -- What follows a reading of the database.
  pub or_raise-At :
      {A B : Type 0} (w : World F) (o : Option A) (e : Error) (f : A → Action F B)
      → ((a : A) → o ≡ some a → At R w (f a w))
      → At R w (and_then (or_raise o e w) f)
  or_raise-At w none e f k = p.reflexive w.db
  or_raise-At w (some a) e f k = k a refl

  pub raise_if-At :
      {B : Type 0} (w : World F) (c : Bool) (e : Error) (f : Unit {0} → Action F B)
      → (c ≡ false → At R w (f tt w))
      → At R w (and_then (raise_if c e w) f)
  raise_if-At w true e f k = p.reflexive w.db
  raise_if-At w false e f k = k refl
