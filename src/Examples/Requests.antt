-- ===== src/Examples/Requests.antt =====
-- The theorems on accounts, requests, the seed and the client's router at inputs that meet their hypotheses. Passwords are their own
-- hashes, and a token is its payload.
use charging_station_system.Prelude.{
  false, subst, eq_codes_refl, eq_codes→≡, ℕ, ◌*◌, ◌≡◌, ◌⊎◌, refl, Bool, if◌then◌else◌, Option,
  true, none, some, List, [], ◌∷◌, codes, eq_codes,
}
use charging_station_system.Float.{fixed_float, unit}
use charging_station_system.Schema.{Codes, flat, user, admin, User, BillingRule, Db}
use charging_station_system.Station.{World, Env, ok, err, invalid_credentials}
use charging_station_system.Auth.{
  RegisterDto, LoginDto, JwtPayload, AccountLibrary, find_named, login_answer, login, admin_login,
  register,
}
use charging_station_system.Auth.Registered.{
  Holder, Stranger, register_all, login_cases, login-register, admin_login_before,
}
use charging_station_system.Http.Routes.{
  HttpLibrary, Request, bearer_of, is_valid_body, serve, caller_id, handle_request, register_route,
  cancel_route, queue_status_route, fault_route,
}
use charging_station_system.Http.Access.{
  IsRefusal, role_for, Allowed, seen_caller, handle_request_cases,
}
use charging_station_system.Http.Owners.{names_cancel, IsDenied, handle_request_foreign}
use charging_station_system.Http.Sequences.{handle_all, handle_all-IsValid}
use charging_station_system.Http.Anonymous.{IsSameStation, handle_all_anonymous}
use charging_station_system.Billing.Tariff.{default_rules}
use charging_station_system.Billing.Amounts.{active_rules}
use charging_station_system.Seed.{SeedEnv, seed}
use charging_station_system.Seed.Start.{empty_db, seed_then_requests-IsValid}
use charging_station_system.Client.Router.{
  Route, root_route, auth_route, admin_route, user_route, Location, RouterLibrary, TokenStore,
  navigate,
}
use charging_station_system.Client.Router.Settled.{IsRouting, IsOpen, navigate_settles}
use charging_station_system.Seed.Ready.{IsNaming, active_rules-seed, seed-logins}
use charging_station_system.Lifecycle.Statuses.{Evolves}
use charging_station_system.Lifecycle.Valid.{IsValid}
use charging_station_system.Examples.Station.{world, world-IsValid, env, waiting_order_row}

abbrev accounts : AccountLibrary JwtPayload
accounts = record { compares = eq_codes; same_name = eq_codes; signs = λ p. p }

abbrev library : HttpLibrary ℕ JwtPayload
library = record {
  accounts = accounts;
  verifies = λ now token. some token;
  hashes = λ password. password;
  is_number = λ x. true;
}

abbrev eve : RegisterDto ℕ
eve = record { username = codes "eve"; password = codes "1234"; battery_capacity = none }

abbrev mallory : RegisterDto ℕ
mallory = record { username = codes "eve"; password = codes "4321"; battery_capacity = none }

abbrev eve_login : LoginDto
eve_login = record { username = codes "eve"; password = codes "1234" }

abbrev eve_payload : JwtPayload
eve_payload = record { user_id = 30; username = codes "eve"; role = user }

login_cases_example :
    ((u : User ℕ) × Holder accounts eve_login world u
      × (login accounts eve_login world ≡ (ok (login_answer accounts u), world)))
    ⊎ (Stranger accounts eve_login world
        × (login accounts eve_login world ≡ (err invalid_credentials, world)))
login_cases_example = login_cases accounts eve_login world

login-register_example :
    login accounts eve_login (
      register_all accounts
        ((codes "4321", mallory) ∷ [])
        (register accounts (codes "1234") eve world).1)
    ≡ (
      ok (record { access_token = eve_payload; user = eve_payload }),
      register_all accounts
          ((codes "4321", mallory) ∷ [])
          (register accounts (codes "1234") eve world).1,
    )
unfolding register
login-register_example =
    login-register accounts (codes "1234") eve ((codes "4321", mallory) ∷ []) world eve_payload refl
      refl refl

abbrev root : User ℕ
root = record {
  id = 9;
  username = codes "root";
  password_hash = codes "secret";
  role = admin;
  battery_capacity = 60 * unit;
}

abbrev root_login : LoginDto
root_login = record { username = codes "root"; password = codes "secret" }

abbrev root_world : World ℕ
root_world = record world { db = record world.db { users = root ∷ [] } }

admin_login_before_example :
    (u : User ℕ) × (find_named accounts (codes "root") root_world.db ≡ some u)
    × (u.role ≡ admin)
    × (eq_codes (codes "secret") u.password_hash ≡ true)
    × (login_answer accounts root ≡ login_answer accounts u)
unfolding admin_login register_all
admin_login_before_example =
    admin_login_before accounts root_login ((codes "1234", eve) ∷ []) root_world
      (login_answer accounts root) refl

-- User 2 cancels the order of user 3.
abbrev cancel_of_another : Request ℕ JwtPayload
cancel_of_another = record {
  bearer = some (record { user_id = 2; username = codes "user"; role = user });
  route = cancel_route 13 none;
}

handle_request_cases_example :
    (Allowed (some user) (bearer_of library env cancel_of_another)
      × (is_valid_body library env cancel_of_another.route ≡ true)
      × (handle_request library env cancel_of_another world
          ≡ serve library env cancel_of_another.route
              (caller_id (seen_caller (some user) (bearer_of library env cancel_of_another)))
              world))
    ⊎ (IsRefusal (handle_request library env cancel_of_another world).0
        × ((handle_request library env cancel_of_another world).1 ≡ world))
unfolding role_for
handle_request_cases_example = handle_request_cases library env cancel_of_another world

handle_request_foreign_example :
    IsDenied library env (handle_request library env cancel_of_another world).0
    × ((handle_request library env cancel_of_another world).1 ≡ world)
handle_request_foreign_example =
    handle_request_foreign library env cancel_of_another world 13 waiting_order_row
      (names_cancel 13 none) refl refl

abbrev requests : List (Env ℕ × Request ℕ JwtPayload)
requests =
    (env, cancel_of_another)
    ∷ (env, record { bearer = none; route = fault_route 1 })
    ∷ (
      env,
      record {
        bearer = some (record { user_id = 9; username = codes "root"; role = admin });
        route = fault_route 1;
      },
    )
    ∷ []

handle_all-IsValid_example :
    IsValid (handle_all library requests world).db
    × Evolves world.db.orders (handle_all library requests world).db.orders
handle_all-IsValid_example = handle_all-IsValid library requests world world-IsValid

abbrev anonymous_requests : List (Env ℕ × Request ℕ JwtPayload)
anonymous_requests =
    (env, record { bearer = none; route = register_route eve })
    ∷ (env, record { bearer = none; route = fault_route 1 })
    ∷ (env, record { bearer = none; route = queue_status_route 11 })
    ∷ []

handle_all_anonymous_example : IsSameStation world (handle_all library anonymous_requests world)
handle_all_anonymous_example =
    handle_all_anonymous library anonymous_requests world (refl, (refl, (refl, tt)))

accounts-IsNaming : IsNaming accounts
accounts-IsNaming = record {
  reflexive = eq_codes_refl;
  joins = λ x a b h k. subst (λ y. eq_codes y b ≡ true) (eq_codes→≡ x a h) k;
}

abbrev seed_env : SeedEnv ℕ
seed_env = record {
  admin_hash = codes "admin123";
  demo_hash = codes "user123";
  fast_pile_power = none;
  slow_pile_power = some (7 * unit);
  keys = record { f01 = 1; f02 = 2; t01 = 4; t02 = 5; t03 = 6; duplicates = 3 ∷ [] };
}

-- A station with rules of later versions, one of them active.
abbrev older_rule : ℕ → Bool → BillingRule ℕ
older_rule version active = record {
  period = flat;
  start_minute = 0;
  end_minute = 1440;
  price = 2 * unit;
  service_fee_rate = unit;
  version = version;
  active = active;
}

abbrev db_with_rules : Db ℕ
db_with_rules = record world.db { rules = older_rule 2 false ∷ older_rule 3 true ∷ [] }

active_rules-seed_example :
    active_rules (seed accounts seed_env db_with_rules).rules ≡ default_rules
active_rules-seed_example = active_rules-seed accounts seed_env db_with_rules

abbrev seeded_world : World ℕ
seeded_world = record world { db = seed accounts seed_env world.db }

seed-logins_example :
    ((a : User ℕ) × (a.role ≡ admin)
      × (admin_login accounts
            (record { username = codes "admin"; password = codes "admin123" })
            seeded_world
          ≡ (ok (login_answer accounts a), seeded_world)))
    × ((u : User ℕ) × (u.role ≡ user)
        × (login accounts
              (record { username = codes "user_01"; password = codes "user123" })
              seeded_world
            ≡ (ok (login_answer accounts u), seeded_world)))
seed-logins_example =
    seed-logins accounts seed_env world (codes "admin123") (codes "user123") accounts-IsNaming refl
      refl refl

seed_then_requests-IsValid_example :
    IsValid
      (handle_all library requests
        (record { db = seed accounts seed_env empty_db; effects = []; clock = world.clock })).db
seed_then_requests-IsValid_example =
    seed_then_requests-IsValid library seed_env world.clock requests

-- A browser with an administrator's token only.
abbrev admin_store : TokenStore
admin_store = record { access_token = none; admin_access_token = some (codes "token") }

-- Paths are matched as they are written.
abbrev route_of : Codes → Option Route
route_of path =
    if eq_codes path (codes "/")
    then some root_route
    else if eq_codes path (codes "/auth")
    then some auth_route
    else if eq_codes path (codes "/admin")
    then some admin_route
    else if eq_codes path (codes "/user")
    then some user_route
    else none

abbrev router : RouterLibrary
router = record { matched = route_of; passed_on = λ mode. mode }

router-IsRouting : IsRouting router
router-IsRouting = record { matches_auth = refl; matches_admin = refl; matches_user = refl }

abbrev front : Location
front = record { path = codes "/"; mode = some (codes "admin") }

navigate_settles_example :
    (last : Location) × (navigate router 3 admin_store front ≡ some last)
    × IsOpen router false true last
navigate_settles_example = navigate_settles router router-IsRouting admin_store front
