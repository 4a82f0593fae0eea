-- ===== src/QueueCache/Views.antt =====
-- The refreshes read the database, send what they made of it, and never fail.
use charging_station_system.Prelude.{ℕ, ◌≡◌, refl, Bool, true, false, Option, none, some, List}
use charging_station_system.Float.{Float}
use charging_station_system.Schema.{ChargeMode, Pile, Db}
use charging_station_system.Schema.Keys.{find_pile}
use charging_station_system.Station.{World, ok, PileEntry, Effect}
use charging_station_system.QueueCache.{waiting_view, refresh_mode, refresh_pile, publish_pile}

module _ {F : Type 0} where
  pub refresh_mode_lem :
      (mode : ChargeMode) (broadcast : Bool) (w : World F)
      → (es : List (Effect F)) × (refresh_mode mode broadcast w
          ≡ (ok (waiting_view mode w.db), record w { effects = es }))
  unfolding refresh_mode
  refresh_mode_lem mode true w = (_, refl)
  refresh_mode_lem mode false w = (_, refl)

module _ {F : Type 0} ⦃fl : Float F⦄ where
  publish_pile_lem :
      (now : F) (i : ℕ) (broadcast : Bool) (db : Db F) (p : Option (Pile F)) (w : World F)
      → (v : Option (PileEntry F)) × (es : List (Effect F)) × (publish_pile now i broadcast db p w
          ≡ (ok v, record w { effects = es }))
  publish_pile_lem now i broadcast db none w = (_, _, refl)
  publish_pile_lem now i true db (some p) w = (_, _, refl)
  publish_pile_lem now i false db (some p) w = (_, _, refl)

  pub refresh_pile_lem :
      (now : F) (i : ℕ) (broadcast : Bool) (w : World F)
      → (v : Option (PileEntry F)) × (es : List (Effect F)) × (refresh_pile now i broadcast w
          ≡ (ok v, record w { effects = es }))
  unfolding refresh_pile
  refresh_pile_lem now i broadcast w =
      publish_pile_lem now i broadcast w.db (find_pile i w.db.piles) w
