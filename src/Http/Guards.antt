-- ===== src/Http/Guards.antt =====
-- jwt-auth.guard.ts, roles.guard.ts and jwt.strategy.ts: who may call a route. The verification of a
-- token is passport's, a parameter.
use charging_station_system.Prelude.{
  Bool, true, false, ◌||◌, Option, none, some, List, [], ◌∷◌, if◌then◌else◌,
}
use charging_station_system.Schema.{UserRole, user, admin}
use charging_station_system.Auth.{JwtPayload}

-- What `getAllAndOverride` finds at a route: `@Public()` and `@Roles(…)`.
pub record Marks : Type 0 where
  pub is_public : Bool
  pub required_roles : List UserRole

-- A route that is let through has the bearer of the token as `request.user`, if the token was read.
pub data Passage : Type 0 where
  unauthorized forbidden : Passage
  passed : Option JwtPayload → Passage

abbrev pub eq_role : UserRole → UserRole → Bool
eq_role user user = true
eq_role admin admin = true
eq_role _ _ = false

-- `requiredRoles.includes(role)`
abbrev pub includes_role : List UserRole → UserRole → Bool
includes_role [] r = false
includes_role (x ∷ xs) r = eq_role x r || includes_role xs r

-- `canActivate` of JwtAuthGuard, with what the strategy makes of the request's token.
unfoldable pub jwt_guard : Marks → Option JwtPayload → Passage
jwt_guard marks bearer =
    if marks.is_public
    then passed none
    else elim bearer [ none ↦ unauthorized | some p ↦ passed (some p) ]

abbrev pub has_role : List UserRole → Option JwtPayload → Bool
has_role roles none = false
has_role roles (some p) = includes_role roles p.role

-- `canActivate` of RolesGuard.
abbrev pub roles_allow : List UserRole → Option JwtPayload → Bool
roles_allow [] caller = true
roles_allow (r ∷ rs) caller = has_role (r ∷ rs) caller

abbrev pub after_jwt : Marks → Passage → Passage
after_jwt marks unauthorized = unauthorized
after_jwt marks forbidden = forbidden
after_jwt marks (passed caller) =
    if roles_allow marks.required_roles caller then passed caller else forbidden

-- The global guards, one after the other. The guard that some controllers add is the second again.
unfoldable pub guards : Marks → Option JwtPayload → Passage
unfolding jwt_guard
guards marks bearer = after_jwt marks (jwt_guard marks bearer)
