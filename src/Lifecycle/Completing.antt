-- ===== src/Lifecycle/Completing.antt =====
-- `autoCompleteCharging` of dispatch.service.ts against the invariant and the forward order of the
-- statuses.
use charging_station_system.Prelude.{
  refl, Option, none, some, List, [], ◌∷◌, Bool-cases, inl, inr, filter_by, find_by,
}
use charging_station_system.Float.{Float}
use charging_station_system.Schema.{is_charging, Order, Session, Pile, Db}
use charging_station_system.Schema.Queries.{active_on}
use charging_station_system.Station.{World, Env}
use charging_station_system.Dispatch.Complete.{
  is_full, finish_full, assigned_pile, complete_found, complete_one, complete_from,
  auto_complete_charging,
}
use charging_station_system.Lifecycle.Moves.{
  Moves, stays, then-Moves, mode-Moves, pile-Moves, close-Moves,
}

module _ {F : Type 0} ⦃fl : Float F⦄ (env : Env F) where
  finish_full-Moves : (o : Order F) (p : Pile F) (w : World F) → Moves w (finish_full env o p w)
  unfolding finish_full
  finish_full-Moves o p w = then-Moves _ (close-Moves env _ _ (refl, refl)) λ d _.
      then-Moves _ (pile-Moves env _ _ _) λ v _. then-Moves _ (mode-Moves _ _) λ m _. stays refl

  complete_found-Moves :
      (o : Order F) (s : Option (Session F)) (p : Option (Pile F)) (w : World F)
      → Moves w (complete_found env o s p w)
  complete_found-Moves o (some s) (some p) w = elim (Bool-cases (is_full env o s p)) [
    | inl full ↦ rw full (record { at_end = (finish_full-Moves o p w).at_end })
    | inr not_full ↦ rw not_full (stays refl)
  ]
  complete_found-Moves o (some s) none w = stays refl
  complete_found-Moves o none p w = stays refl

  complete_from-Moves :
      (before : Db F) (os : List (Order F)) (w : World F) → Moves w (complete_from env before os w)
  unfolding complete_from complete_one
  complete_from-Moves before [] w = stays refl
  complete_from-Moves before (o ∷ os) w =
      then-Moves (λ _. complete_from env before os)
        (complete_found-Moves o (find_by (active_on o.id) before.sessions)
          (assigned_pile env o.assigned_pile_id before.piles) w)
        λ t _. complete_from-Moves before os _

  pub auto_complete-Moves : (w : World F) → Moves w (auto_complete_charging env w)
  unfolding auto_complete_charging
  auto_complete-Moves w =
      complete_from-Moves w.db (filter_by (λ o. is_charging o.status) w.db.orders) w
