-- ===== src/Client/Router/Settled.antt =====
-- Where navigations end.
use charging_station_system.Prelude.{
  ℕ, suc, ◌≡◌, refl, sym, subst, Bool, true, false, not, ◌||◌, Option, none, some, codes, eq_codes,
  if◌then◌else◌, Bool-cases, inl, inr, eq_codes→≡,
}
use charging_station_system.Schema.{Codes}
use charging_station_system.Client.Router.{
  Route, root_route, auth_route, admin_route, user_route, Location, RouterLibrary, TokenStore,
  is_set, is_admin_mode, auth_path, auth_place, plain_place, redirect_by_route, redirect_from_auth,
  redirect_from, navigate_from, navigate,
}

-- vue-router finds the routes of the three pages by their paths.
pub record IsRouting (lib : RouterLibrary) : Type 0 where
  pub matches_auth : lib.matched (codes "/auth") ≡ some auth_route
  pub matches_admin : lib.matched (codes "/admin") ≡ some admin_route
  pub matches_user : lib.matched (codes "/user") ≡ some user_route

-- The tokens open a location of the route; a location with the path of the login is open without the
-- token of its mode.
abbrev pub opens_route : Bool → Bool → Option Route → Bool
opens_route has_user has_admin (some root_route) = false
opens_route has_user has_admin (some admin_route) = has_admin
opens_route has_user has_admin (some user_route) = has_user
opens_route has_user has_admin _ = true

abbrev pub opens_login : Bool → Bool → Location → Bool
opens_login has_user has_admin to =
    not (eq_codes to.path auth_path) || not (if is_admin_mode to.mode then has_admin else has_user)

module _ (lib : RouterLibrary) where
  abbrev pub IsOpen : Bool → Bool → Location → Type 0
  IsOpen u a to = (opens_route u a (lib.matched to.path) ≡ true) × (opens_login u a to ≡ true)

  abbrev Settles : ℕ → Bool → Bool → Location → Type 0
  Settles n u a to = (last : Location) × (navigate_from lib n u a to ≡ some last) × IsOpen u a last

  stays :
      (n : ℕ) (u a : Bool) (to : Location)
      → redirect_from lib u a to ≡ none
      → IsOpen u a to
      → Settles (suc n) u a to
  unfolding navigate_from
  stays n u a to e open_here = (to, rw (e, navigate_from) refl, open_here)

  goes_on :
      (n : ℕ) (u a : Bool) (to next : Location)
      → redirect_from lib u a to ≡ some next
      → Settles n u a next
      → Settles (suc n) u a to
  unfolding navigate_from
  goes_on n u a to next e (last, end, open_there) = (last, rw (e, navigate_from) end, open_there)

  module _ (laws : IsRouting lib) where
    at_admin : (n : ℕ) (u : Bool) → Settles (suc n) u true (plain_place (codes "/admin"))
    unfolding redirect_from redirect_by_route redirect_from_auth
    at_admin n u = stays n u true _ (rw laws.matches_admin refl) (rw laws.matches_admin refl, refl)

    at_user : (n : ℕ) (a : Bool) → Settles (suc n) true a (plain_place (codes "/user"))
    unfolding redirect_from redirect_by_route redirect_from_auth
    at_user n a = stays n true a _ (rw laws.matches_user refl) (rw laws.matches_user refl, refl)

    -- The redirect of the login, by the mode and the token of the mode.
    at_auth_mode :
        (n : ℕ) (u a : Bool) (mode : Option Codes) (b : Bool)
        → is_admin_mode mode ≡ b
        → Settles (suc (suc n)) u a (auth_place mode)
    unfolding redirect_from redirect_by_route redirect_from_auth
    at_auth_mode n u true mode true e =
        goes_on (suc n) u true _ _ (rw laws.matches_auth (rw e refl)) (at_admin n u)
    at_auth_mode n u false mode true e =
        stays (suc n) u false _ (rw laws.matches_auth (rw e refl))
          (rw laws.matches_auth refl, rw e refl)
    at_auth_mode n true a mode false e =
        goes_on (suc n) true a _ _ (rw laws.matches_auth (rw e refl)) (at_user n a)
    at_auth_mode n false a mode false e =
        stays (suc n) false a _ (rw laws.matches_auth (rw e refl))
          (rw laws.matches_auth refl, rw e refl)

    at_auth :
        (n : ℕ) (u a : Bool) (mode : Option Codes) → Settles (suc (suc n)) u a (auth_place mode)
    at_auth n u a mode = at_auth_mode n u a mode (is_admin_mode mode) refl

    elsewhere :
        (u a : Bool) (to : Location) (route : Option Route)
        → lib.matched to.path ≡ route
        → eq_codes to.path auth_path ≡ false
        → Settles 3 u a to
    unfolding redirect_from redirect_by_route redirect_from_auth
    elsewhere u a to (some root_route) e other =
        goes_on 2 u a to _ (rw e refl) (at_auth 0 u a (lib.passed_on to.mode))
    elsewhere true a to (some user_route) e other =
        stays 2 true a to (rw e (rw other refl)) (rw e refl, rw other refl)
    elsewhere false a to (some user_route) e other =
        goes_on 2 false a to _ (rw e refl) (at_auth 0 false a (some (codes "user")))
    elsewhere u true to (some admin_route) e other =
        stays 2 u true to (rw e (rw other refl)) (rw e refl, rw other refl)
    elsewhere u false to (some admin_route) e other =
        goes_on 2 u false to _ (rw e refl) (at_auth 0 u false (some (codes "admin")))
    elsewhere u a to (some auth_route) e other =
        stays 2 u a to (rw e (rw other refl)) (rw e refl, rw other refl)
    elsewhere u a to none e other = stays 2 u a to (rw e (rw other refl)) (rw e refl, rw other refl)

    settles : (u a : Bool) (to : Location) → Settles 3 u a to
    settles u a to = elim (Bool-cases (eq_codes to.path auth_path)) [
      | inl same ↦
          subst (λ p. Settles 3 u a (record { path = p; mode = to.mode }))
            (sym (eq_codes→≡ to.path auth_path same)) (at_auth 1 u a to.mode)
      | inr other ↦ elsewhere u a to (lib.matched to.path) refl other
    ]

    -- Every navigation, to whatever location and with any tokens, ends after at most two redirects, at a
    -- location that is not the root, is on an administrator's or a user's route only with that token,
    -- and has the path of the login only without the token that its mode is for, where the paths of
    -- the three pages have their routes.
    pub navigate_settles :
        (store : TokenStore) (to : Location)
        → (last : Location) × (navigate lib 3 store to ≡ some last)
          × IsOpen (is_set store.access_token) (is_set store.admin_access_token) last
    unfolding navigate
    navigate_settles store to =
        settles (is_set store.access_token) (is_set store.admin_access_token) to
