-- ===== src/Auth/Registered.antt =====
-- Who can log in after registrations.
use charging_station_system.Prelude.{
  suc, ◌≡◌, ◌⊎◌, refl, subst, ◌∙◌, true, false, not, Option, none, some, List, [], ◌∷◌, ◌++◌, arith,
  inl, inr, Bool-cases, Option-cases, find_by, find_by-append, find_by-append_some,
}
use charging_station_system.Float.{Float}
use charging_station_system.Schema.{Codes, UserRole, user, admin, User}
use charging_station_system.Station.{
  World, ok, err, invalid_credentials, unique_violation, and_then, or_raise, raise_if, pure, ◌>>◌,
}
use charging_station_system.Auth.{
  RegisterDto, LoginDto, JwtPayload, LoginAnswer, AccountLibrary, is_admin, payload_of, find_named,
  named, login_answer, login, only_admin, admin_login, user_row, register,
}

is_admin→≡ : (r : UserRole) → is_admin r ≡ true → r ≡ admin
is_admin→≡ admin e = refl
is_admin→≡ user e = cc

module _ {F T : Type 0} (lib : AccountLibrary T) where
  -- The user that the name and the password belong to.
  abbrev pub Holder : LoginDto → World F → User F → Type 0
  Holder dto w u =
      (find_named lib dto.username w.db ≡ some u)
      × (lib.compares dto.password u.password_hash ≡ true)

  pub login_found :
      (dto : LoginDto) (w : World F) (u : User F)
      → Holder dto w u
      → login lib dto w ≡ (ok (login_answer lib u), w)
  unfolding login
  login_found dto w u (found, same) = rw found (rw same refl)

  -- The name is of no user, or the password is not that user's.
  abbrev pub Stranger : LoginDto → World F → Type 0
  Stranger dto w =
      (find_named lib dto.username w.db ≡ none)
      ⊎ ((u : User F) × (find_named lib dto.username w.db ≡ some u)
          × (lib.compares dto.password u.password_hash ≡ false))

  -- A login changes nothing. It answers with a token for the user of that name if the password is the
  -- user's, and else, whether the name is unknown or the password is wrong, with one and the same error.
  pub login_cases :
      (dto : LoginDto) (w : World F)
      → ((u : User F) × Holder dto w u × (login lib dto w ≡ (ok (login_answer lib u), w)))
        ⊎ (Stranger dto w × (login lib dto w ≡ (err invalid_credentials, w)))
  unfolding login
  login_cases dto w = elim (Option-cases (find_named lib dto.username w.db)) [
    | inl unknown ↦ inr (inl unknown, rw unknown refl)
    | inr (u, found) ↦ elim (Bool-cases (lib.compares dto.password u.password_hash)) [
      | inl right ↦ inl (u, (found, right), login_found dto w u (found, right))
      | inr wrong ↦ inr (inr (u, found, wrong), rw found (rw wrong refl))
    ]
  ]

  granted_admin :
      (dto : LoginDto) (w : World F) (a : LoginAnswer T) (o : Option (User F))
      → (and_then (or_raise (only_admin o) invalid_credentials w) (λ u.
          raise_if (not (lib.compares dto.password u.password_hash)) invalid_credentials
          >> pure (login_answer lib u))).0
        ≡ ok a
      → (u : User F) × ((o ≡ some u) × (lib.compares dto.password u.password_hash ≡ true))
        × (u.role ≡ admin)
        × (a ≡ login_answer lib u)
  granted_admin dto w a none e = cc
  granted_admin dto w a (some u) e = elim (Bool-cases (is_admin u.role)) [
    | inl is ↦ elim (Bool-cases (lib.compares dto.password u.password_hash)) [
      | inl right ↦ (u, (refl, right), is_admin→≡ u.role is, ground arith)
      | inr wrong ↦ ground arith
    ]
    | inr other ↦ ground arith
  ]

  admin_found :
      (dto : LoginDto) (w : World F) (a : LoginAnswer T)
      → (admin_login lib dto w).0 ≡ ok a
      → (u : User F) × Holder dto w u × (u.role ≡ admin) × (a ≡ login_answer lib u)
  unfolding admin_login
  admin_found dto w a e = granted_admin dto w a (find_named lib dto.username w.db) e

  module _ ⦃fl : Float F⦄ where
    unfoldable pub register_all : List (Codes × RegisterDto F) → World F → World F
    unfolding register
    register_all [] w = w
    register_all ((hash, dto) ∷ dtos) w = register_all dtos (register lib hash dto w).1

    pub register_free :
        (hash : Codes) (dto : RegisterDto F) (w : World F)
        → find_named lib dto.username w.db ≡ none
        → register lib hash dto w ≡ (
          ok (payload_of (user_row w.db.next_id hash dto)),
          record w {
            db = record w.db {
              users = w.db.users ++ (user_row w.db.next_id hash dto ∷ []);
              next_id = suc w.db.next_id;
            };
          },
        )
    unfolding register
    register_free hash dto w free = rw free refl

    pub register_taken :
        (hash : Codes) (dto : RegisterDto F) (w : World F) (u : User F)
        → find_named lib dto.username w.db ≡ some u
        → register lib hash dto w ≡ (err unique_violation, w)
    unfolding register
    register_taken hash dto w u taken = rw taken refl

    register_keeps :
        (name hash : Codes) (dto : RegisterDto F) (w : World F) (u : User F)
        → find_named lib name w.db ≡ some u
        → find_named lib name (register lib hash dto w).1.db ≡ some u
    register_keeps name hash dto w u found =
        elim (Option-cases (find_named lib dto.username w.db)) [
          | inl free ↦ rw (register_free hash dto w free) (
              find_by-append_some (named lib name) w.db.users (user_row w.db.next_id hash dto ∷ [])
                u found)
          | inr (v, taken) ↦ rw (register_taken hash dto w v taken) found
        ]

    register_all_keeps :
        (name : Codes) (dtos : List (Codes × RegisterDto F)) (w : World F) (u : User F)
        → find_named lib name w.db ≡ some u
        → find_named lib name (register_all dtos w).db ≡ some u
    unfolding register_all
    register_all_keeps name [] w u found = found
    register_all_keeps name ((hash, dto) ∷ dtos) w u found =
        register_all_keeps name dtos (register lib hash dto w).1 u
          (register_keeps name hash dto w u found)

    -- Whoever has registered can log in with that name and password, whatever others register
    -- afterwards, and is given a token for the account that the registration made, where the comparison
    -- of passwords accepts the hash of the password and names are equal to themselves.
    pub login-register :
        (hash : Codes) (dto : RegisterDto F) (later : List (Codes × RegisterDto F)) (w : World F)
        (p : JwtPayload)
        → lib.compares dto.password hash ≡ true
        → lib.same_name dto.username dto.username ≡ true
        → (register lib hash dto w).0 ≡ ok p
        → login lib
            (record { username = dto.username; password = dto.password })
            (register_all later (register lib hash dto w).1)
          ≡ (
            ok (record { access_token = lib.signs p; user = p }),
            register_all later (register lib hash dto w).1,
          )
    login-register hash dto later w p right same e =
        elim (Option-cases (find_named lib dto.username w.db)) [
          | inl free ↦
              let row = user_row w.db.next_id hash dto in
              let made = register_free hash dto w free in
              let there : find_named lib dto.username (register lib hash dto w).1.db ≡ some row =
                rw made (
                  find_by-append (named lib dto.username) w.db.users (row ∷ []) free
                  ∙ rw same refl) in
              let kept =
                register_all_keeps dto.username later (register lib hash dto w).1 row there in
              let issued : payload_of row ≡ p = ground (arith, made) in
              subst
                (λ q.
                  login lib (record { username = dto.username; password = dto.password })
                    (register_all later (register lib hash dto w).1)
                  ≡ (
                    ok (record { access_token = lib.signs q; user = q }),
                    register_all later (register lib hash dto w).1,
                  ))
                issued
                (login_found (record { username = dto.username; password = dto.password })
                  (register_all later (register lib hash dto w).1) row (kept, right))
          | inr (u, taken) ↦ let e' = rw (register_taken hash dto w u taken) at e in cc
        ]

    appended_user :
        (name : Codes) (us : List (User F)) (v u : User F)
        → find_by (named lib name) (us ++ (v ∷ [])) ≡ some u
        → v.role ≡ user
        → u.role ≡ admin
        → find_by (named lib name) us ≡ some u
    appended_user name [] v u e plain is = ground arith
    appended_user name (x ∷ us) v u e plain is = elim (Bool-cases (named lib name x)) [
      | inl yes_here ↦ rw yes_here (rw yes_here at e)
      | inr other ↦ rw other (appended_user name us v u (rw other at e) plain is)
    ]

    register_all_admin :
        (name : Codes) (dtos : List (Codes × RegisterDto F)) (w : World F) (u : User F)
        → find_named lib name (register_all dtos w).db ≡ some u
        → u.role ≡ admin
        → find_named lib name w.db ≡ some u
    unfolding register_all
    register_all_admin name [] w u found is = found
    register_all_admin name ((hash, dto) ∷ dtos) w u found is =
        let before = register_all_admin name dtos (register lib hash dto w).1 u found is in
        elim (Option-cases (find_named lib dto.username w.db)) [
          | inl free ↦
              appended_user name w.db.users (user_row w.db.next_id hash dto) u
                (rw (register_free hash dto w free) at before) refl is
          | inr (v, taken) ↦ rw (register_taken hash dto w v taken) at before
        ]

    -- Nobody becomes an administrator by registering: a login as administrator that succeeds after any
    -- registrations is that of a user who was there before them as an administrator, with that user's
    -- password, and the token is for that user.
    pub admin_login_before :
        (dto : LoginDto) (dtos : List (Codes × RegisterDto F)) (w : World F) (a : LoginAnswer T)
        → (admin_login lib dto (register_all dtos w)).0 ≡ ok a
        → (u : User F) × (find_named lib dto.username w.db ≡ some u)
          × (u.role ≡ admin)
          × (lib.compares dto.password u.password_hash ≡ true)
          × (a ≡ login_answer lib u)
    admin_login_before dto dtos w a e =
        let (u, (found, right), is, same) = admin_found dto (register_all dtos w) a e in
        (u, register_all_admin dto.username dtos w u found is, is, right, same)
