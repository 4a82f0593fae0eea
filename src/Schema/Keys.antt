-- ===== src/Schema/Keys.antt =====
-- Rows by key: the `findUnique` and `update` calls of the services, on each table that they use.
use charging_station_system.Prelude.{ℕ, Bool, Option, List, ◌==◌, find_by, update_first}
use charging_station_system.Schema.Tables.{User, Pile, Order, Session, Detail}

module _ {F : Type 0} where
  abbrev pub user_has : ℕ → User F → Bool
  user_has i u = u.id == i

  abbrev pub pile_has : ℕ → Pile F → Bool
  pile_has i p = p.id == i

  abbrev pub order_has : ℕ → Order F → Bool
  order_has i o = o.id == i

  abbrev pub session_has : ℕ → Session F → Bool
  session_has i s = s.id == i

  abbrev pub find_user : ℕ → List (User F) → Option (User F)
  find_user i = find_by (user_has i)

  abbrev pub find_pile : ℕ → List (Pile F) → Option (Pile F)
  find_pile i = find_by (pile_has i)

  abbrev pub find_order : ℕ → List (Order F) → Option (Order F)
  find_order i = find_by (order_has i)

  abbrev pub find_session : ℕ → List (Session F) → Option (Session F)
  find_session i = find_by (session_has i)

  -- The bill of an order: `orderId` is unique in its table.
  abbrev pub detail_of : ℕ → List (Detail F) → Option (Detail F)
  detail_of i = find_by (λ d. d.order_id == i)

  abbrev pub set_order : ℕ → (Order F → Order F) → List (Order F) → List (Order F)
  set_order i = update_first (order_has i)

  abbrev pub set_pile : ℕ → (Pile F → Pile F) → List (Pile F) → List (Pile F)
  set_pile i = update_first (pile_has i)

  abbrev pub set_session : ℕ → (Session F → Session F) → List (Session F) → List (Session F)
  set_session i = update_first (session_has i)
