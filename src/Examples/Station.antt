-- ===== src/Examples/Station.antt =====
-- Two users, two fast piles and a slow one. Order 11 charges at pile 1 since time 0, order 12 is in the
-- queue of pile 1, and order 13 waits. Amounts are in tenths of thousandths.
use charging_station_system.Prelude.{ℕ, ◌*◌, refl, arith, true, none, some, [], ◌∷◌, codes}
use charging_station_system.Float.{fixed_float, unit}
use charging_station_system.Schema.{
  Codes, fast, OrderStatus, on, WorkingState, idle, busy, fault, user, User, Pile, Order,
}
use charging_station_system.Station.{World, Env}
use charging_station_system.Lifecycle.Valid.{IsValid}
use charging_station_system.Dispatch.Assign.{new_session}

abbrev pile_row : ℕ → WorkingState → Pile ℕ
pile_row i state = record {
  id = i;
  pile_type = fast;
  power = 30 * unit;
  physical_state = on;
  working_state = state;
  total_charge_count = 0;
  total_charge_duration = 0;
  total_charge_amount = 0;
}

abbrev order_row : ℕ → ℕ → Codes → Order ℕ
order_row i uid number = record {
  id = i;
  user_id = uid;
  charge_mode = fast;
  requested_amount = 30 * unit;
  queue_no = number;
  status = OrderStatus.waiting;
  assigned_pile_id = none;
  pile_queue_entered_at = none;
  submit_time = i;
  started_at = none;
  finished_at = none;
  created_at = i;
}

abbrev pub charging_order : Order ℕ
charging_order = record (order_row 11 1 (codes "F1")) {
  status = OrderStatus.charging;
  assigned_pile_id = some 1;
  pile_queue_entered_at = some 1;
  started_at = some 0;
}

abbrev pub queued_order : Order ℕ
queued_order = record (order_row 12 2 (codes "F2")) {
  status = OrderStatus.in_pile_queue;
  assigned_pile_id = some 1;
  pile_queue_entered_at = some 2;
}

abbrev pub waiting_order_row : Order ℕ
waiting_order_row = order_row 13 3 (codes "F3")

-- An order that was struck by a fault before, under the number of the order that charges.
abbrev pub aborted_order : Order ℕ
aborted_order = record (order_row 10 1 (codes "F1-A")) { status = OrderStatus.aborted }

abbrev user_row : ℕ → User ℕ
user_row i = record {
  id = i;
  username = codes "user";
  password_hash = [];
  role = user;
  battery_capacity = 60 * unit;
}

abbrev pub busy_pile : Pile ℕ
busy_pile = pile_row 1 busy

abbrev pub world : World ℕ
world = record {
  db = record {
    users = user_row 1 ∷ user_row 2 ∷ user_row 3 ∷ user_row 4 ∷ [];
    piles = busy_pile ∷ pile_row 2 idle ∷ pile_row 3 fault ∷ [];
    orders = aborted_order ∷ charging_order ∷ queued_order ∷ waiting_order_row ∷ [];
    sessions = new_session 21 11 1 0 ∷ [];
    details = [];
    rules = [];
    next_id = 30;
  };
  effects = [];
  clock = record { clock_speed = unit; base_real_ms = 0; base_virtual_ms = 0 };
}

-- Half an hour later. The scheduler service is down and every lock is free.
abbrev pub env : Env ℕ
env = record {
  virtual_ms = 1_800_000 * unit;
  real_ms = 1_800_000;
  zone = 28_800_000;
  charging_queue_len = none;
  waiting_area_size = none;
  schedule = λ request. none;
  lock = λ key. true;
}

-- The same station with order 12 at the head of the queue of the idle pile 2.
abbrev pub ready_order : Order ℕ
ready_order = record queued_order { assigned_pile_id = some 2 }

abbrev pub ready_world : World ℕ
ready_world = record world {
  db = record world.db {
    orders = aborted_order ∷ charging_order ∷ ready_order ∷ waiting_order_row ∷ [];
  };
}

pub world-IsValid : IsValid world.db
world-IsValid = record {
  orders_distinct = (refl, (refl, (refl, (refl, tt))));
  orders_below = omega arith;
  sessions_distinct = (refl, tt);
  sessions_below = omega arith;
  piles_distinct = (refl, (refl, (refl, tt)));
  linked = (refl, tt);
  single = (refl, tt);
}
