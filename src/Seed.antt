-- ===== src/Seed.antt =====
-- The seed of the database, apps/server/prisma/seed.ts: two users, five piles and the tariff. The hashes of
-- the two passwords, the powers from the environment and the keys of the piles are parameters.
pub mod Ready
pub mod Start
use charging_station_system.Prelude.{
  ℕ, suc, ◌+◌, ◌*◌, ◌==◌, ◌&&◌, Bool, true, false, not, Option, none, some, List, [], ◌∷◌, ◌++◌,
  or_else, is_some, map, holds, if◌then◌else◌, find_by, filter_by, count_by, update_first, codes,
}
use charging_station_system.Float.{Float, nat, ◌⊘◌}
use charging_station_system.Schema.{
  Codes, ChargeMode, fast, slow, UserRole, user, admin, on, idle, User, Pile, Order, Session,
  BillingPeriod, peak, flat, valley, BillingRule, Db,
}
use charging_station_system.Schema.Keys.{pile_has, find_pile, set_pile}
use charging_station_system.Auth.{AccountLibrary, named, find_named}

-- The keys `F01`, `F02`, `T01`, `T02`, `T03`, and the older ones `F1`, …, `T3`.
pub record PileKeys : Type 0 where
  pub f01 : ℕ
  pub f02 : ℕ
  pub t01 : ℕ
  pub t02 : ℕ
  pub t03 : ℕ
  pub duplicates : List ℕ

abbrev pub seeded_piles : PileKeys → List (ℕ × ChargeMode)
seeded_piles k = (k.f01, fast) ∷ (k.f02, fast) ∷ (k.t01, slow) ∷ (k.t02, slow) ∷ (k.t03, slow) ∷ []

pub record SeedEnv (F : Type 0) : Type 0 where
  pub admin_hash : Codes
  pub demo_hash : Codes
  pub fast_pile_power : Option F
  pub slow_pile_power : Option F
  pub keys : PileKeys

-- A row of `billingRules`: its period, the hours of its minutes, and its price in tenths.
abbrev pub Row : Type 0
Row = BillingPeriod × ℕ × ℕ × ℕ

abbrev pub billing_rules : List Row
billing_rules =
    (flat, 7, 10, 7)
    ∷ (peak, 10, 15, 10)
    ∷ (flat, 15, 18, 7)
    ∷ (peak, 18, 21, 10)
    ∷ (flat, 21, 23, 7)
    ∷ (valley, 23, 7, 4)
    ∷ []

module _ {F : Type 0} where
  abbrev pub deactivate : BillingRule F → BillingRule F
  deactivate r = record r { active = false }

module _ {F : Type 0} ⦃fl : Float F⦄ where
  abbrev pub set_account : Codes → UserRole → ℕ → User F → User F
  set_account hash role capacity u = record u {
    password_hash = hash;
    role = role;
    battery_capacity = nat capacity;
  }

  abbrev pub new_account : ℕ → Codes → Codes → UserRole → ℕ → User F
  new_account id name hash role capacity = record {
    id = id;
    username = name;
    password_hash = hash;
    role = role;
    battery_capacity = nat capacity;
  }

module _ {F T : Type 0} ⦃fl : Float F⦄ (lib : AccountLibrary T) where
  -- `user.upsert`
  unfoldable pub upsert_user : Codes → Codes → UserRole → ℕ → Db F → Db F
  upsert_user name hash role capacity db =
      if is_some (find_named lib name db)
      then record db {
        users = update_first (named lib name) (set_account hash role capacity) db.users;
      }
      else record db {
        users = db.users ++ (new_account db.next_id name hash role capacity ∷ []);
        next_id = suc db.next_id;
      }

module _ {F : Type 0} ⦃fl : Float F⦄ where
  -- A pile without orders and sessions is deleted.
  unfoldable pub delete_duplicate : ℕ → Db F → Db F
  delete_duplicate i db =
      if count_by (λ o. holds o.assigned_pile_id i) db.orders == 0
        && count_by (λ s. s.pile_id == i) db.sessions == 0
      then record db { piles = filter_by (λ p. not (pile_has i p)) db.piles }
      else db

  unfoldable pub delete_duplicates : List ℕ → Db F → Db F
  unfolding delete_duplicate
  delete_duplicates [] db = db
  delete_duplicates (i ∷ is) db = delete_duplicates is (delete_duplicate i db)

  abbrev pub reset_pile : ChargeMode → F → Pile F → Pile F
  reset_pile mode power p = record p {
    pile_type = mode;
    power = power;
    physical_state = on;
    working_state = idle;
  }

  abbrev pub new_pile : ℕ → ChargeMode → F → Pile F
  new_pile i mode power = record {
    id = i;
    pile_type = mode;
    power = power;
    physical_state = on;
    working_state = idle;
    total_charge_count = 0;
    total_charge_duration = nat 0;
    total_charge_amount = nat 0;
  }

  -- `chargingPile.upsert`
  unfoldable pub upsert_pile : ℕ → ChargeMode → F → Db F → Db F
  upsert_pile i mode power db =
      if is_some (find_pile i db.piles)
      then record db { piles = set_pile i (reset_pile mode power) db.piles }
      else record db { piles = db.piles ++ (new_pile i mode power ∷ []) }

  -- `FAST_PILE_POWER ?? 30` and `SLOW_PILE_POWER ?? 10`
  abbrev pub power_for : SeedEnv F → ChargeMode → F
  power_for env fast = or_else env.fast_pile_power (nat 30)
  power_for env slow = or_else env.slow_pile_power (nat 10)

  unfoldable pub upsert_piles : SeedEnv F → List (ℕ × ChargeMode) → Db F → Db F
  unfolding upsert_pile
  upsert_piles env [] db = db
  upsert_piles env ((i, mode) ∷ piles) db =
      upsert_piles env piles (upsert_pile i mode (power_for env mode) db)

  -- The `INSERT` of a row: at a service fee of 0.8, active, in version 1.
  abbrev pub inserted : Row → BillingRule F
  inserted (period, start, end, tenths) = record {
    period = period;
    start_minute = start * 60;
    end_minute = end * 60;
    price = nat tenths ⊘ nat 10;
    service_fee_rate = nat 8 ⊘ nat 10;
    version = 1;
    active = true;
  }

  -- The `UPDATE` of the active rules and the `INSERT`s.
  unfoldable pub seed_rules : Db F → Db F
  seed_rules db = record db { rules = map deactivate db.rules ++ map inserted billing_rules }

  -- `main`
  unfoldable pub seed : {T : Type 0} → AccountLibrary T → SeedEnv F → Db F → Db F
  unfolding upsert_user delete_duplicates upsert_piles seed_rules
  seed lib env db =
      let with_admin = upsert_user lib (codes "admin") env.admin_hash admin 100 db in
      let with_demo = upsert_user lib (codes "user_01") env.demo_hash user 60 with_admin in
      seed_rules
        (upsert_piles env (seeded_piles env.keys) (delete_duplicates env.keys.duplicates with_demo))
