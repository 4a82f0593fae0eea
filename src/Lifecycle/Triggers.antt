-- ===== src/Lifecycle/Triggers.antt =====
-- The triggers of dispatch.service.ts against the invariant and the forward order of the statuses.
use charging_station_system.Prelude.{ℕ, refl, Bool-cases, inl, inr}
use charging_station_system.Float.{Float}
use charging_station_system.Schema.{ChargeMode, fast, slow, DispatchStrategyType}
use charging_station_system.Schema.Keys.{find_pile}
use charging_station_system.Station.{World, Env, basic_lock, fault_lock, recovery_lock}
use charging_station_system.Dispatch.Trigger.{
  trigger_basic, trigger_basic_all, trigger_fault_reschedule, trigger_single_optimization,
  trigger_batch_optimization, trigger_recovery_reschedule,
}
use charging_station_system.Lifecycle.Moves.{
  Moves, stays, then-Moves, found-Moves, mode-Moves, pile-Moves, all-Moves, assign-Moves,
}
use charging_station_system.Lifecycle.Completing.{auto_complete-Moves}
use charging_station_system.Lifecycle.Waking.{wake-Moves}

module _ {F : Type 0} ⦃fl : Float F⦄ (env : Env F) where
  pub trigger_basic-Moves : (mode : ChargeMode) (w : World F) → Moves w (trigger_basic env mode w)
  unfolding trigger_basic
  trigger_basic-Moves mode w = then-Moves _ (auto_complete-Moves env w) λ t _.
      then-Moves _ (assign-Moves env _ _ _)
        λ applied _. then-Moves _ (mode-Moves _ _) λ v _. stays refl

  pub trigger_single-Moves :
      (spots : ℕ) (mode : ChargeMode) (w : World F)
      → Moves w (trigger_single_optimization env spots mode w)
  unfolding trigger_single_optimization
  trigger_single-Moves spots mode w =
      then-Moves _ (assign-Moves env _ _ _)
        λ applied _. then-Moves _ (mode-Moves _ _) λ v _. stays refl

  pub trigger_batch-Moves :
      (spots : ℕ) (w : World F) → Moves w (trigger_batch_optimization env spots w)
  unfolding trigger_batch_optimization
  trigger_batch-Moves spots w =
      then-Moves _ (assign-Moves env _ _ _)
        λ applied _. then-Moves _ (all-Moves env _ _) λ v _. stays refl

  pub trigger_fault-Moves :
      (i : ℕ) (strategy : DispatchStrategyType) (w : World F)
      → Moves w (trigger_fault_reschedule env i strategy w)
  unfolding trigger_fault_reschedule
  trigger_fault-Moves i strategy w = elim (Bool-cases (env.lock (fault_lock i))) [
    | inl free ↦ rw free (
        found-Moves (find_pile i w.db.piles) _ _ λ pile _.
          then-Moves _ (assign-Moves env _ _ _)
            λ applied _. then-Moves _ (pile-Moves env _ _ _) λ v _. stays refl)
    | inr taken ↦ rw taken (stays refl)
  ]

  pub trigger_recovery-Moves : (i : ℕ) (w : World F) → Moves w (trigger_recovery_reschedule env i w)
  unfolding trigger_recovery_reschedule
  trigger_recovery-Moves i w = elim (Bool-cases (env.lock (recovery_lock i))) [
    | inl free ↦ rw free (
        found-Moves (find_pile i w.db.piles) _ _
          λ pile _. then-Moves _ (assign-Moves env _ _ _) λ applied _. stays refl)
    | inr taken ↦ rw taken (stays refl)
  ]

  pub trigger_all-Moves : (w : World F) → Moves w (trigger_basic_all env w)
  unfolding trigger_basic_all
  trigger_all-Moves w = elim (Bool-cases (env.lock basic_lock)) [
    | inl free ↦ rw free (
        then-Moves _ (auto_complete-Moves env w) λ a _. then-Moves _ (wake-Moves env _) λ b _.
          then-Moves _ (trigger_basic-Moves fast _)
            λ c _. then-Moves _ (trigger_basic-Moves slow _) λ d _. stays refl)
    | inr taken ↦ rw taken (stays refl)
  ]
