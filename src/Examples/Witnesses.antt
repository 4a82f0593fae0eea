-- ===== src/Examples/Witnesses.antt =====
-- The theorems at inputs that meet their hypotheses: a small station, half an hour after a charge began.
use charging_station_system.Prelude.{
  ℕ, ◌+◌, ◌*◌, ◌≤◌, ◌≡◌, refl, false, none, some, List, [], ◌∷◌, arith, All, foldl, count_by, inl,
  inr, find_by, Distinct,
}
use charging_station_system.Float.{fixed_float, unit, nat, round_to}
use charging_station_system.Schema.{fast, slow, OrderStatus, Order, Detail}
use charging_station_system.Schema.Keys.{find_order}
use charging_station_system.Schema.Queries.{active_on}
use charging_station_system.Station.{World, Env, ok, err, SchedulerAssignment, Error}
use charging_station_system.QueueNumber.{queue_number, decimal, prefix_of}
use charging_station_system.QueueNumber.Decimal.{queue_number-decimal}
use charging_station_system.Billing.Tariff.{
  price_at, default_rules, next_rule_boundary, boundary_after, minute_in_rule,
}
use charging_station_system.Billing.Tariff.Uniform.{price_at_uniform}
use charging_station_system.Billing.Tariff.Defaults.{default_rules-InDay, default_rules_cover}
use charging_station_system.Billing.Fee.{calculate_charge_fee}
use charging_station_system.Billing.Fee.Slices.{
  Slice, Tiles, IsUniform, add_slice, calculate_charge_fee_slices,
}
use charging_station_system.QueueCache.{refresh_mode, refresh_pile}
use charging_station_system.Billing.Close.{
  Closing, order_sessions, active_session, bill_for, close_rows, bill_open_order, close_and_bill,
}
use charging_station_system.Billing.Close.Once.{close_and_bill_once}
use charging_station_system.Dispatch.Complete.{completion}
use charging_station_system.Charging.Status.{ensure_order_owner}
use charging_station_system.Charging.Orders.{Started, stop_closing, start}
use charging_station_system.Charging.Orders.Head.{IsStarted, start_head}
use charging_station_system.Dispatch.Assign.{new_session, begin_charge}
use charging_station_system.Lifecycle.Statuses.{Evolves}
use charging_station_system.Lifecycle.Valid.{IsValid}
use charging_station_system.Lifecycle.Billed.{IsBilled, close_and_bill_closes}
use charging_station_system.Lifecycle.Calls.{
  Call, perform_all, perform_all-IsValid, perform_all-ended,
}
use charging_station_system.Charging.Submit.Refused.{submit_request_refused}
use charging_station_system.Charging.Submit.{
  SubmitChargingRequest, submit_request, next_queue_no, number_taken,
}
use charging_station_system.Charging.Submit.Fresh.{next_queue_no_free}
use charging_station_system.Dispatch.Queues.{pile_queue_capacity}
use charging_station_system.Dispatch.Assign.{apply_assignments}
use charging_station_system.Dispatch.Assign.Capacity.{order_key, fixed_load, apply_assignments_fits}
use charging_station_system.Examples.Station.{
  world, world-IsValid, ready_world, env, aborted_order, charging_order, busy_pile,
}

-- The timer ticks, the charge's pile fails, a waiting order is cancelled and another is submitted.
abbrev calls : List (Env ℕ × Call ℕ)
calls =
    (env, Call.tick_call)
    ∷ (env, Call.fault_call 1)
    ∷ (env, Call.cancel_call 13 none (some 3))
    ∷ (
      env,
      Call.submit_call
          (record { user_id = some 4; charge_mode = fast; requested_amount = 20 * unit }) none,
    )
    ∷ []

perform_all-IsValid_example :
    IsValid (perform_all calls world).db
    × Evolves world.db.orders (perform_all calls world).db.orders
perform_all-IsValid_example = perform_all-IsValid calls world world-IsValid

perform_all-ended_example :
    (o' : Order ℕ) × (find_order 10 (perform_all calls world).db.orders ≡ some o')
    × (o'.status ≡ OrderStatus.aborted)
    × (o'.user_id ≡ 1)
    × (o'.submit_time ≡ 10)
    × (find_by (active_on 10) (perform_all calls world).db.sessions ≡ none)
perform_all-ended_example = perform_all-ended calls world 10 aborted_order world-IsValid refl refl

-- From noon to four o'clock, over the end of the peak hours at three.
abbrev noon : ℕ
noon = 12 * 3_600_000

abbrev zone : ℕ
zone = 0

calculate_charge_fee_slices_example :
    (ss : List (Slice ℕ)) × Tiles noon ss (noon + 14_400_000)
    × All (IsUniform zone default_rules) ss
    × (calculate_charge_fee zone noon (noon + 14_400_000) (30 * unit) default_rules
        ≡ round_to 100 (foldl (add_slice (30 * unit) 14_400_000) (nat 0) ss))
calculate_charge_fee_slices_example =
    calculate_charge_fee_slices zone noon (noon + 14_400_000) (30 * unit) default_rules
      (default_rules-InDay ℕ) (omega arith)

price_at_uniform_example :
    price_at zone (noon + 3_600_000) (default_rules {F = ℕ}) ≡ price_at zone noon default_rules
unfolding next_rule_boundary default_rules boundary_after
price_at_uniform_example =
    price_at_uniform zone noon (noon + 3_600_000) default_rules (default_rules-InDay ℕ)
      (omega arith) (omega arith)

next_queue_no_free_example : number_taken (next_queue_no fast world.db) world.db.orders ≡ false
next_queue_no_free_example = next_queue_no_free fast world.db (refl, (refl, (refl, (refl, tt))))

queue_number-decimal_example : queue_number (prefix_of slow ∷ decimal 120) ≡ 120
queue_number-decimal_example = queue_number-decimal slow 120

default_rules_cover_example : count_by (minute_in_rule 600) (default_rules {F = ℕ}) ≡ 1
default_rules_cover_example = default_rules_cover ℕ 600 (omega arith)

-- An answer that names the idle pile for a waiting order, and a finished order.
abbrev assignment : ℕ → ℕ → SchedulerAssignment ℕ
assignment order_id pile_id = record {
  order_id = some order_id;
  order_id_camel = none;
  queue_no = none;
  queue_no_camel = none;
  pile_id = some pile_id;
  pile_id_camel = none;
  projected_finish_time = none;
  projected_finish_time_camel = none;
}

abbrev answer : List (SchedulerAssignment ℕ)
answer = assignment 13 2 ∷ assignment 10 1 ∷ assignment 12 2 ∷ []

apply_assignments_fits_example :
    Distinct order_key (apply_assignments env (some fast) [] answer world).1.db.orders
    × (fixed_load [] 2 (apply_assignments env (some fast) [] answer world).1.db
        ≤ pile_queue_capacity env)
apply_assignments_fits_example =
    apply_assignments_fits env (some fast) [] answer world 2 (refl, (refl, (refl, (refl, tt))))
      (omega arith)

-- The bill of the order that charges, and the world once the charge is completed or aborted.
abbrev bill : Detail ℕ
bill =
    bill_for env.zone env.real_ms 1_800_000 world.db charging_order (new_session 21 11 1 0)
      busy_pile.power

abbrev after : Closing → World ℕ
after c = (close_and_bill env 11 c world).1

closed : (c : Closing) → close_and_bill env 11 c world ≡ (ok bill, after c)
unfolding close_and_bill bill_open_order order_sessions active_session refresh_mode refresh_pile
    close_rows
closed c = refl

-- An hour later, by both clocks.
abbrev later : Env ℕ
later = record env {
  real_ms = env.real_ms + 3_600_000;
  virtual_ms = env.virtual_ms + 3_600_000 * unit;
}

close_and_bill_once_example :
    close_and_bill later 11 stop_closing (after completion) ≡ (ok bill, after completion)
close_and_bill_once_example =
    close_and_bill_once env later 11 completion stop_closing world (after completion) bill
      (closed completion)

close_and_bill_closes_example :
    (d : Detail ℕ) × (w' : World ℕ) × (close_and_bill env 11 completion world ≡ (ok d, w'))
    × IsBilled env completion charging_order (new_session 21 11 1 0) busy_pile world.db w'.db d
close_and_bill_closes_example =
    close_and_bill_closes env completion world charging_order (new_session 21 11 1 0) busy_pile
      world-IsValid refl refl refl refl refl refl refl

abbrev started : Started
started = record { order_id = 12; session_id = 30; pile_id = 2 }

starts : start env 12 (some 2) ready_world ≡ (ok started, (start env 12 (some 2) ready_world).1)
unfolding start ensure_order_owner begin_charge refresh_pile
starts = refl

start_head_example : IsStarted env 12 ready_world started (start env 12 (some 2) ready_world).1
start_head_example =
    start_head env 12 (some 2) ready_world (start env 12 (some 2) ready_world).1 started starts

-- Order 11 of the first user has not ended.
abbrev second_request : SubmitChargingRequest ℕ
second_request = record { user_id = some 1; charge_mode = slow; requested_amount = 5 * unit }

submit_request_refused_example :
    (e : Error) × (submit_request env second_request none world ≡ (err e, world))
submit_request_refused_example =
    submit_request_refused env second_request none 1 world refl
      (inr (inl (11, charging_order, refl, refl, refl)))
