-- ===== src/Dispatch/Assign/Refresh.antt =====
-- Refreshing the piles that a batch touched leaves the database alone.
use charging_station_system.Prelude.{ℕ, ◌≡◌, refl, true, Option, List, [], ◌∷◌}
use charging_station_system.Float.{Float}
use charging_station_system.Station.{Env, World, Effect, SchedulerAssignment, ok}
use charging_station_system.Schema.{ChargeMode}
use charging_station_system.QueueCache.Views.{refresh_pile_lem}
use charging_station_system.Dispatch.Assign.{
  refresh_touched, apply_assignments, apply_from, no_batch,
}

module _ {F : Type 0} ⦃fl : Float F⦄ (env : Env F) where
  pub refresh_touched_lem :
      (is : List ℕ) (w : World F)
      → (es : List (Effect F)) × (refresh_touched env is w ≡ (ok tt, record w { effects = es }))
  unfolding refresh_touched
  refresh_touched_lem [] w = (w.effects, refl)
  refresh_touched_lem (i ∷ is) w =
      let (v, es, e) = refresh_pile_lem env.virtual_ms i true w in
      let (es', e') = refresh_touched_lem is (record w { effects = es }) in
      (es', rw (e, refresh_touched) e')

  -- `applyAssignments` never fails, and leaves the database as the loop does.
  pub apply_assignments_lem :
      (mode : Option ChargeMode) (movable : List ℕ) (as' : List (SchedulerAssignment F))
      (w : World F)
      → let (db', b) = apply_from env mode movable 0 as' (w.db, no_batch) in
        (es : List (Effect F)) × (apply_assignments env mode movable as' w
          ≡ (ok b.applied, record w { db = db'; effects = es }))
  unfolding apply_assignments
  apply_assignments_lem mode movable as' w =
      let after = apply_from env mode movable 0 as' (w.db, no_batch) in
      let (es, e) = refresh_touched_lem after.1.touched (record w { db = after.0 }) in
      (es, rw (e, apply_assignments) refl)
