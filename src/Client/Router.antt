-- ===== src/Client/Router.antt =====
-- apps/client/src/router/index.ts: the routes and the guard that runs before each navigation. Which route
-- vue-router matches with a path, and the query that the redirect of a route passes on, are parameters. A
-- navigation goes on at the location that it is redirected to until it is not redirected.
pub mod Settled
use charging_station_system.Prelude.{
  ℕ, zero, suc, Bool, true, false, not, ◌&&◌, Option, none, some, List, [], ◌∷◌, if◌then◌else◌,
  codes, eq_codes,
}
use charging_station_system.Schema.{Codes}

-- The entries of `routes`.
pub data Route : Type 0 where
  root_route auth_route admin_route user_route : Route

-- The path of the address and the text of `query.mode`, if there is one.
pub record Location : Type 0 where
  pub path : Codes
  pub mode : Option Codes

-- `matched` gives the route of a path, if any; `passed_on` the mode in the query of a redirect.
pub record RouterLibrary : Type 0 where
  pub matched : Codes → Option Route
  pub passed_on : Option Codes → Option Codes

-- What `localStorage` has under the two keys.
pub record TokenStore : Type 0 where
  pub access_token : Option Codes
  pub admin_access_token : Option Codes

-- `Boolean(value)`
abbrev pub is_set : Option Codes → Bool
is_set none = false
is_set (some []) = false
is_set (some (c ∷ cs)) = true

-- `to.query.mode === 'admin'`
abbrev pub is_admin_mode : Option Codes → Bool
is_admin_mode none = false
is_admin_mode (some mode) = eq_codes mode (codes "admin")

abbrev pub auth_path : Codes
auth_path = codes "/auth"

abbrev pub auth_place : Option Codes → Location
auth_place mode = record { path = auth_path; mode = mode }

abbrev pub plain_place : Codes → Location
plain_place path = record { path = path; mode = none }

-- The last test of the guard, by the text of the path.
unfoldable pub redirect_from_auth : Bool → Bool → Location → Option Location
redirect_from_auth has_user has_admin to =
    if eq_codes to.path auth_path
    then if is_admin_mode to.mode && has_admin
      then some (plain_place (codes "/admin"))
      else if not (is_admin_mode to.mode) && has_user
      then some (plain_place (codes "/user"))
      else none
    else none

-- Where the route's own `redirect` or `beforeEach` sends to, if anywhere, by the route of the location.
unfoldable pub redirect_by_route :
    RouterLibrary → Option Route → Bool → Bool → Location → Option Location
unfolding redirect_from_auth
redirect_by_route lib (some root_route) has_user has_admin to =
    some (auth_place (lib.passed_on to.mode))
redirect_by_route lib (some user_route) has_user has_admin to =
    if not has_user
    then some (auth_place (some (codes "user")))
    else redirect_from_auth has_user has_admin to
redirect_by_route lib (some admin_route) has_user has_admin to =
    if not has_admin
    then some (auth_place (some (codes "admin")))
    else redirect_from_auth has_user has_admin to
redirect_by_route lib (some auth_route) has_user has_admin to =
    redirect_from_auth has_user has_admin to
redirect_by_route lib none has_user has_admin to = redirect_from_auth has_user has_admin to

unfoldable pub redirect_from : RouterLibrary → Bool → Bool → Location → Option Location
unfolding redirect_by_route
redirect_from lib has_user has_admin to =
    redirect_by_route lib (lib.matched to.path) has_user has_admin to

-- A navigation with at most as many locations as the fuel.
unfoldable pub navigate_from : RouterLibrary → ℕ → Bool → Bool → Location → Option Location
unfolding redirect_from
navigate_from lib zero has_user has_admin to = none
navigate_from lib (suc fuel) has_user has_admin to =
    elim (redirect_from lib has_user has_admin to) [
      | none ↦ some to
      | some next ↦ navigate_from lib fuel has_user has_admin next
    ]

unfoldable pub navigate : RouterLibrary → ℕ → TokenStore → Location → Option Location
unfolding navigate_from
navigate lib fuel store =
    navigate_from lib fuel (is_set store.access_token) (is_set store.admin_access_token)
