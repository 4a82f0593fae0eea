-- ===== src/Lifecycle/Faults.antt =====
-- The methods of pile.service.ts against the invariant and the forward order of the statuses.
use charging_station_system.Prelude.{
  ℕ, ◌≡◌, refl, true, false, Bool, Option, none, some, is_some, find_by, Bool-cases, inl, inr,
}
use charging_station_system.Float.{Float, positive}
use charging_station_system.Schema.{
  ChargeMode, WorkingState, on, off, fault, priority, is_on, is_fault, Order, Pile,
}
use charging_station_system.Schema.Keys.{find_pile, set_pile, detail_of}
use charging_station_system.Schema.Queries.{charging_on}
use charging_station_system.Station.{World, Env, Result}
use charging_station_system.Billing.Close.{close_and_bill}
use charging_station_system.Charging.Submit.{number_taken}
use charging_station_system.Piles.Power.{set_power, dispatch_unless_fault, power_on, power_off}
use charging_station_system.Piles.Fault.{
  fault_closing, aborted_number, remaining_amount, continue_order, abort_charge,
  reschedule_after_fault, report_fault,
}
use charging_station_system.Piles.Control.{
  ControlAction, toggle_power, report, recover_pile, other_action, set_idle, reschedule_if_on,
  recover, toggle, wants_fault, wants_idle, control_state, control,
}
use charging_station_system.Piles.Views.{list_piles}
use charging_station_system.Lifecycle.Completing.{auto_complete-Moves}
use charging_station_system.Lifecycle.Writes.{write_pile}
use charging_station_system.Lifecycle.Moves.{
  Moves, sent-Moves, stays, then-Moves, found-Moves, unless-Moves, write-Moves, pile-Moves,
  close-Moves,
}
use charging_station_system.Lifecycle.Triggers.{
  trigger_basic-Moves, trigger_fault-Moves, trigger_recovery-Moves,
}
use charging_station_system.Lifecycle.Requests.{renumber-Moves, create-Moves}

module _ {F : Type 0} where
  pile_write-Moves :
      {A : Type 0}
      → {w : World F} → {r : Result A × World F} → (i : ℕ) → (f : Pile F → Pile F)
      → ((p : Pile F) → (f p).id ≡ p.id)
      → Moves (record w { db = record w.db { piles = set_pile i f w.db.piles } }) r
      → Moves w r
  pile_write-Moves {A} {w} {r} i f same h =
      write-Moves (λ db. record db { piles = set_pile i f db.piles }) (write_pile i f w.db same) h

module _ {F : Type 0} ⦃fl : Float F⦄ (env : Env F) where
  dispatch_unless-Moves : (p : Pile F) (w : World F) → Moves w (dispatch_unless_fault env p w)
  dispatch_unless-Moves p w = elim (Bool-cases (is_fault p.working_state)) [
    | inl faulty ↦ rw faulty (stays refl)
    | inr sound ↦ rw sound (then-Moves _ (trigger_basic-Moves env p.pile_type w) λ a _. stays refl)
  ]

  pub power_on-Moves : (i : ℕ) (w : World F) → Moves w (power_on env i w)
  unfolding power_on
  power_on-Moves i w = found-Moves (find_pile i w.db.piles) _ _ λ p e.
      pile_write-Moves i (set_power on) (λ x. refl)
        (then-Moves _ (pile-Moves env _ _ _)
          λ v _. then-Moves _ (dispatch_unless-Moves (set_power on p) _) λ t _. stays refl)

  pub power_off-Moves : (i : ℕ) (w : World F) → Moves w (power_off env i w)
  unfolding power_off
  power_off-Moves i w = found-Moves (find_pile i w.db.piles) _ _ λ p e.
      unless-Moves (is_some (find_by (charging_on i) w.db.orders)) _ _ λ free.
        pile_write-Moves i (set_power off) (λ x. refl)
          (then-Moves _ (pile-Moves env _ _ _) λ v _. stays refl)

  continue-Moves : (o : Order F) (rest : F) (w : World F) → Moves w (continue_order env o rest w)
  unfolding continue_order
  continue-Moves o rest w =
      unless-Moves (number_taken (aborted_number o.queue_no) w.db.orders) _ _ λ free.
        renumber-Moves o (aborted_number o.queue_no) (
          then-Moves _ (create-Moves env o.user_id o.charge_mode rest o.queue_no _)
            λ id _. stays refl)

  abort-Moves : (o : Option (Order F)) (w : World F) → Moves w (abort_charge env o w)
  unfolding abort_charge
  abort-Moves none w = stays refl
  abort-Moves (some o) w = then-Moves _ (close-Moves env o.id fault_closing (refl, refl)) λ d _.
      let closed = (close_and_bill env o.id fault_closing w).1 in
      let rest = remaining_amount o (detail_of o.id closed.db.details) in
      elim (Bool-cases (positive rest)) [
        | inl more ↦ rw more (then-Moves _ (continue-Moves o rest closed) λ c _. stays refl)
        | inr enough ↦ rw enough (stays refl)
      ]

  reschedule-Moves :
      (i : ℕ) (mode : ChargeMode) (has_queue : Bool) (more : Option ℕ) (w : World F)
      → Moves w (reschedule_after_fault env i mode has_queue more w)
  unfolding reschedule_after_fault
  reschedule-Moves i mode true more w =
      then-Moves _ (then-Moves _ (trigger_fault-Moves env i priority w) λ a _. stays refl)
        λ t _. then-Moves _ (trigger_basic-Moves env mode _) λ b _. stays refl
  reschedule-Moves i mode false none w = stays refl
  reschedule-Moves i mode false (some id) w =
      then-Moves _ (trigger_basic-Moves env mode w) λ b _. stays refl

  pub report_fault-Moves : (i : ℕ) (w : World F) → Moves w (report_fault env i w)
  unfolding report_fault
  report_fault-Moves i w = found-Moves (find_pile i w.db.piles) _ _ λ p e.
      then-Moves _ (abort-Moves (find_by (charging_on i) w.db.orders) w) λ ended _.
        pile_write-Moves i (λ x. record x { working_state = fault }) (λ x. refl)
          (then-Moves _ (pile-Moves env _ _ _) λ v _.
            sent-Moves _
              (then-Moves _ (reschedule-Moves i p.pile_type _ ended.1 _) λ t _. stays refl))

  reschedule_if_Moves : (p : Pile F) (w : World F) → Moves w (reschedule_if_on env p w)
  reschedule_if_Moves p w = elim (Bool-cases (is_on p.physical_state)) [
    | inl powered ↦ rw powered (
        then-Moves _ (trigger_recovery-Moves env p.id w)
          λ a _. then-Moves _ (trigger_basic-Moves env p.pile_type _) λ b _. stays refl)
    | inr dark ↦ rw dark (stays refl)
  ]

  pub recover-Moves : (i : ℕ) (w : World F) → Moves w (recover env i w)
  unfolding recover
  recover-Moves i w = found-Moves (find_pile i w.db.piles) _ _ λ p e.
      pile_write-Moves i set_idle (λ x. refl)
        (then-Moves _ (pile-Moves env _ _ _)
          λ v _. then-Moves _ (reschedule_if_Moves (set_idle p) _) λ t _. stays refl)

  control_state-Moves :
      (i : ℕ) (action : ControlAction) (target : Option WorkingState) (w : World F)
      → Moves w (control_state env i action target w)
  control_state-Moves i action target w = elim (Bool-cases (wants_fault env action target)) [
    | inl faulty ↦ rw faulty (then-Moves _ (report_fault-Moves i w) λ r _. stays refl)
    | inr sound ↦ elim (Bool-cases (wants_idle env action target)) [
      | inl mended ↦ rw sound (rw mended (then-Moves _ (recover-Moves i w) λ p _. stays refl))
      | inr other ↦ rw sound (rw other (stays refl))
    ]
  ]

  toggle-Moves : (i : ℕ) (p : Pile F) (w : World F) → Moves w (toggle env i p w)
  toggle-Moves i p w = elim (Bool-cases (is_on p.physical_state)) [
    | inl powered ↦ rw powered (power_off-Moves i w)
    | inr dark ↦ rw dark (power_on-Moves i w)
  ]

  pub control-Moves :
      (i : ℕ) (action : ControlAction) (target : Option WorkingState) (w : World F)
      → Moves w (control env i action target w)
  unfolding control
  control-Moves i toggle_power target w =
      found-Moves (find_pile i w.db.piles) _ _
        λ p e. then-Moves _ (toggle-Moves i p w) λ q _. stays refl
  control-Moves i report target w = control_state-Moves i report target w
  control-Moves i recover_pile target w = control_state-Moves i recover_pile target w
  control-Moves i other_action target w = control_state-Moves i other_action target w

  pub list_piles-Moves : (w : World F) → Moves w (list_piles env w)
  unfolding list_piles
  list_piles-Moves w = then-Moves _ (auto_complete-Moves env w) λ t _. stays refl
