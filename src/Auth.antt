-- ===== src/Auth.antt =====
-- The accounts: apps/server/src/modules/auth/auth.service.ts. The password hash (bcryptjs), the token
-- (JwtService) and the comparison of texts by the database's collation are parameters.
pub mod Registered
use charging_station_system.Prelude.{
  ℕ, suc, Bool, true, false, not, ◌||◌, Option, none, some, List, [], ◌∷◌, ◌++◌, or_else, is_some,
  find_by, if◌then◌else◌,
}
use charging_station_system.Float.{Float, nat}
use charging_station_system.Schema.{Codes, UserRole, user, admin, User, Db}
use charging_station_system.Station.{
  World, Action, pure, raise, raise_if, or_raise, gets, modify, ◌>>=◌, ◌>>◌, unique_violation,
  invalid_credentials,
}

pub record RegisterDto (F : Type 0) : Type 0 where
  pub username : Codes
  pub password : Codes
  pub battery_capacity : Option F

pub record LoginDto : Type 0 where
  pub username : Codes
  pub password : Codes

-- What a token says of its bearer.
pub record JwtPayload : Type 0 where
  pub user_id : ℕ
  pub username : Codes
  pub role : UserRole

pub record LoginAnswer (T : Type 0) : Type 0 where
  pub access_token : T
  pub user : JwtPayload

-- `compares p h` is `bcrypt.compare(p, h)`, `same_name` is equality in the database, `signs` is
-- `jwtService.sign`.
pub record AccountLibrary (T : Type 0) : Type 0 where
  pub compares : Codes → Codes → Bool
  pub same_name : Codes → Codes → Bool
  pub signs : JwtPayload → T

abbrev pub is_admin : UserRole → Bool
is_admin admin = true
is_admin user = false

module _ {F : Type 0} where
  abbrev pub payload_of : User F → JwtPayload
  payload_of u = record { user_id = u.id; username = u.username; role = u.role }

  -- `!user || user.role !== 'ADMIN'`
  abbrev pub only_admin : Option (User F) → Option (User F)
  only_admin none = none
  only_admin (some u) = if is_admin u.role then some u else none

module _ {F : Type 0} ⦃fl : Float F⦄ where
  abbrev pub user_row : ℕ → Codes → RegisterDto F → User F
  user_row id hash dto = record {
    id = id;
    username = dto.username;
    password_hash = hash;
    role = user;
    battery_capacity = or_else dto.battery_capacity (nat 60);
  }

module _ {F T : Type 0} (lib : AccountLibrary T) where
  -- `findUnique({ where: { username } })`
  abbrev pub named : Codes → User F → Bool
  named name u = lib.same_name u.username name

  abbrev pub find_named : Codes → Db F → Option (User F)
  find_named name db = find_by (named name) db.users

  abbrev pub login_answer : User F → LoginAnswer T
  login_answer u = record { access_token = lib.signs (payload_of u); user = payload_of u }

  unfoldable pub login : LoginDto → Action F (LoginAnswer T)
  login dto = do
    u ← or_raise (← gets (find_named dto.username)) invalid_credentials
    raise_if (not (lib.compares dto.password u.password_hash)) invalid_credentials
    pure (login_answer u)

  unfoldable pub admin_login : LoginDto → Action F (LoginAnswer T)
  admin_login dto = do
    u ← or_raise (only_admin (← gets (find_named dto.username))) invalid_credentials
    raise_if (not (lib.compares dto.password u.password_hash)) invalid_credentials
    pure (login_answer u)

  module _ ⦃fl : Float F⦄ where
    -- `user.create`, which throws if the name is in use. `hash` is what `bcrypt.hash` makes of the
    -- password in this call.
    unfoldable pub register : Codes → RegisterDto F → Action F JwtPayload
    register hash dto = do
      taken ← gets (find_named dto.username)
      raise_if (is_some taken) unique_violation
      id ← gets (λ db. db.next_id)
      modify (λ db. record db {
        users = db.users ++ (user_row id hash dto ∷ []);
        next_id = suc db.next_id;
      })
      pure (payload_of (user_row id hash dto))
