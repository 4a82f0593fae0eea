-- ===== src/Station/Actions.antt =====
-- Asynchronous methods as state passing with exceptions. What was written before an exception stays
-- written; a `$transaction` is one write.
use charging_station_system.Prelude.{Bool, Option, none, some, [], ◌∷◌, ◌++◌, if◌then◌else◌}
use charging_station_system.Schema.{Db}
use charging_station_system.Station.Effects.{Effect, World}

-- Why a call fails, by the exception that the source throws.
pub data Error : Type 0 where
  not_found missing_row already_billed no_active_session no_detail not_owner : Error
  unfinished_order waiting_full not_waiting not_at_head pile_not_available : Error
  not_charging cannot_cancel pile_is_charging unsupported_action : Error
  user_required unique_violation invalid_credentials : Error

pub data Result (A : Type 0) : Type 0 where
  ok : A → Result A
  err : Error → Result A

abbrev pub Action : Type 0 → Type 0 → Type 0
Action F A = World F → Result A × World F

-- What follows a call: the next one, unless it threw.
abbrev pub and_then : {F A B : Type 0} → Result A × World F → (A → Action F B) → Result B × World F
and_then (ok a, w) f = f a w
and_then (err e, w) f = (err e, w)

infixl 5 ◌>>=◌ ◌>>◌
abbrev pub ◌>>=◌ : {F A B : Type 0} → Action F A → (A → Action F B) → Action F B
◌>>=◌ m f w = and_then (m w) f

abbrev pub ◌>>◌ : {F A B : Type 0} → Action F A → Action F B → Action F B
m >> k = m >>= λ _. k

module _ {F A : Type 0} where
  abbrev pub pure : A → Action F A
  pure a w = (ok a, w)

  abbrev pub raise : Error → Action F A
  raise e w = (err e, w)

  abbrev pub or_raise : Option A → Error → Action F A
  or_raise none e = raise e
  or_raise (some a) e = pure a

  abbrev pub gets : (Db F → A) → Action F A
  gets f w = (ok (f w.db), w)

  -- `try { … } catch {}`: the writes made before the exception stay.
  abbrev pub catch_all : Action F A → Action F (Unit {0})
  catch_all m w = (ok tt, (m w).1)

module _ {F : Type 0} where
  abbrev pub raise_if : Bool → Error → Action F (Unit {0})
  raise_if c e w = (if c then err e else ok tt, w)

  abbrev pub modify : (Db F → Db F) → Action F (Unit {0})
  modify f w = (ok tt, record w { db = f w.db })

  abbrev pub emit : Effect F → Action F (Unit {0})
  emit e w = (ok tt, record w { effects = w.effects ++ (e ∷ []) })
