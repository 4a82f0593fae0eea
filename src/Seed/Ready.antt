-- ===== src/Seed/Ready.antt =====
-- What the station has after the seed.
use charging_station_system.Prelude.{
  ℕ, ◌≡◌, refl, ap, ◌∙◌, Bool, true, false, some, List, [], ◌∷◌, ◌++◌, map, codes, find_by,
  find_by-append, find_by-append_some, filter_by, update_first, if◌then◌else◌, Bool-cases,
  Option-cases, inl, inr,
}
use charging_station_system.Float.{Float}
use charging_station_system.Schema.{Codes, ChargeMode, UserRole, user, admin, User, BillingRule, Db}
use charging_station_system.Station.{World, ok}
use charging_station_system.Billing.Tariff.{default_rules}
use charging_station_system.Billing.Amounts.{is_live, of_version, active_rules}
use charging_station_system.Auth.{
  AccountLibrary, LoginDto, named, find_named, login_answer, login, admin_login, is_admin,
}
use charging_station_system.Auth.Registered.{login_found}
use charging_station_system.Seed.{
  SeedEnv, set_account, new_account, upsert_user, delete_duplicate, delete_duplicates, upsert_pile,
  upsert_piles, deactivate, billing_rules, inserted, seed_rules, seeded_piles, seed,
}

some-same : {A : Type 0} {a b : A} → some a ≡ some b → a ≡ b
some-same e = cc

module _ {F : Type 0} where
  only_new :
      (p : BillingRule F → Bool)
      → ((r : BillingRule F) → p (deactivate r) ≡ false)
      → (rs new : List (BillingRule F)) → filter_by p (map deactivate rs ++ new) ≡ filter_by p new
  only_new p h [] new = refl
  only_new p h (r ∷ rs) new = rw (h r) (only_new p h rs new)

module _ {F : Type 0} ⦃fl : Float F⦄ where
  only_default :
      (rs : List (BillingRule F))
      → active_rules (map deactivate rs ++ map inserted billing_rules) ≡ default_rules
  unfolding active_rules default_rules
  only_default rs =
      rw (only_new is_live (λ r. refl) rs (map inserted billing_rules), active_rules)
        (rw (only_new (of_version 1) (λ r. refl) rs (map inserted billing_rules)) refl)

  if_users :
      (b : Bool) (x y : Db F) (us : List (User F))
      → x.users ≡ us
      → y.users ≡ us
      → (if b then x else y).users ≡ us
  if_users true x y us h k = h
  if_users false x y us h k = k

  delete_users : (is : List ℕ) (db : Db F) → (delete_duplicates is db).users ≡ db.users
  unfolding delete_duplicates delete_duplicate
  delete_users [] db = refl
  delete_users (i ∷ is) db =
      delete_users is (delete_duplicate i db) ∙ if_users _ _ db db.users refl refl

  piles_users :
      (env : SeedEnv F) (ps : List (ℕ × ChargeMode)) (db : Db F)
      → (upsert_piles env ps db).users ≡ db.users
  unfolding upsert_piles upsert_pile
  piles_users env [] db = refl
  piles_users env ((i, mode) ∷ ps) db = piles_users env ps _ ∙ if_users _ _ _ db.users refl refl

-- Equality of names in the database is an equivalence.
pub record IsNaming {T : Type 0} (lib : AccountLibrary T) : Type 0 where
  pub reflexive : (a : Codes) → lib.same_name a a ≡ true
  pub joins :
      (x a b : Codes)
      → lib.same_name x a ≡ true
      → lib.same_name x b ≡ true
      → lib.same_name a b ≡ true

module _ {F T : Type 0} ⦃fl : Float F⦄ (lib : AccountLibrary T) where
  module _ (laws : IsNaming lib) (name hash : Codes) (role : UserRole) (capacity : ℕ) where
    -- The account of the name, with this password and role.
    abbrev HasAccount : Db F → Type 0
    HasAccount db =
        (u : User F) × (find_named lib name db ≡ some u)
        × (u.password_hash ≡ hash)
        × (u.role ≡ role)

    updated :
        (us : List (User F)) (u : User F)
        → find_by (named lib name) us ≡ some u
        → find_by
            (named lib name)
            (update_first (named lib name) (set_account hash role capacity) us)
          ≡ some (set_account hash role capacity u)
    updated [] u e = cc
    updated (x ∷ us) u e = elim (Bool-cases (named lib name x)) [
      | inl here ↦
          let same : x ≡ u = some-same (rw here at e) in
          rw here (rw here (ap (λ v. some (set_account hash role capacity v)) same))
      | inr other ↦ rw other (rw other (updated us u (rw other at e)))
    ]

    upsert_user-HasAccount : (db : Db F) → HasAccount (upsert_user lib name hash role capacity db)
    unfolding upsert_user
    upsert_user-HasAccount db = elim (Option-cases (find_named lib name db)) [
      | inl none_there ↦ rw none_there (
        new_account db.next_id name hash role capacity,
        find_by-append (named lib name) db.users _ none_there ∙ rw (laws.reflexive name) refl,
        refl,
        refl,
      )
      | inr (u, there) ↦
          rw there (set_account hash role capacity u, updated db.users u there, refl, refl)
    ]

    other_rows :
        (other : Codes) (us : List (User F)) (u : User F)
        → lib.same_name other name ≡ false
        → find_by (named lib other) us ≡ some u
        → find_by
            (named lib other)
            (update_first (named lib name) (set_account hash role capacity) us)
          ≡ some u
    other_rows other [] u apart e = cc
    other_rows other (x ∷ us) u apart e = elim (Bool-cases (named lib name x)) [
      | inl this ↦ elim (Bool-cases (named lib other x)) [
        | inl that ↦ let both = laws.joins x.username other name that this in cc
        | inr distinct ↦ rw this (rw distinct (rw distinct at e))
      ]
      | inr another ↦ elim (Bool-cases (named lib other x)) [
        | inl that ↦ rw another (rw that (rw that at e))
        | inr distinct ↦ rw another (rw distinct (other_rows other us u apart (rw distinct at e)))
      ]
    ]

    -- Another name's user stays as it was.
    upsert_user-keeps :
        (other : Codes) (db : Db F) (u : User F)
        → lib.same_name other name ≡ false
        → find_named lib other db ≡ some u
        → find_named lib other (upsert_user lib name hash role capacity db) ≡ some u
    unfolding upsert_user
    upsert_user-keeps other db u apart found = elim (Option-cases (find_named lib name db)) [
      | inl none_there ↦ rw none_there (find_by-append_some (named lib other) db.users _ u found)
      | inr (v, there) ↦ rw there (other_rows other db.users u apart found)
    ]

module _ {F T : Type 0} ⦃fl : Float F⦄ (lib : AccountLibrary T) (env : SeedEnv F) where
  -- After the seed, whatever rules there were, the rules that bills are made by are those that the
  -- billing service falls back on without any: the table of the seed and that of the service agree.
  pub active_rules-seed : (db : Db F) → active_rules (seed lib env db).rules ≡ default_rules
  unfolding seed seed_rules
  active_rules-seed db = only_default _

  seeded_users :
      (db : Db F)
      → (upsert_piles env (seeded_piles env.keys) (delete_duplicates env.keys.duplicates db)).users
        ≡ db.users
  seeded_users db = piles_users env (seeded_piles env.keys) _ ∙ delete_users env.keys.duplicates db

  admin_login_found :
      (dto : LoginDto) (w : World F) (a : User F)
      → find_named lib dto.username w.db ≡ some a
      → a.role ≡ admin
      → lib.compares dto.password a.password_hash ≡ true
      → admin_login lib dto w ≡ (ok (login_answer lib a), w)
  unfolding admin_login
  admin_login_found dto w a found role right = rw found (rw (ap is_admin role) (rw right refl))

  -- After the seed the administrator can log in as one with the seeded password, and the demonstration
  -- user as a user, whatever users there were before, where names are compared by an equivalence that
  -- tells the two names apart and the hashes are of the passwords.
  pub seed-logins :
      (w : World F) (secret pass : Codes)
      → IsNaming lib
      → lib.same_name (codes "admin") (codes "user_01") ≡ false
      → lib.compares secret env.admin_hash ≡ true
      → lib.compares pass env.demo_hash ≡ true
      → let w' = record w { db = seed lib env w.db } in
        ((a : User F) × (a.role ≡ admin)
          × (admin_login lib (record { username = codes "admin"; password = secret }) w'
              ≡ (ok (login_answer lib a), w')))
        × ((u : User F) × (u.role ≡ user)
            × (login lib (record { username = codes "user_01"; password = pass }) w'
                ≡ (ok (login_answer lib u), w')))
  unfolding seed seed_rules
  seed-logins w secret pass laws apart is_secret is_pass =
      let db₁ = upsert_user lib (codes "admin") env.admin_hash admin 100 w.db in
      let db₂ = upsert_user lib (codes "user_01") env.demo_hash user 60 db₁ in
      let (a, found, hash, role) =
        upsert_user-HasAccount lib laws (codes "admin") env.admin_hash admin 100 w.db in
      let still =
        upsert_user-keeps lib laws (codes "user_01") env.demo_hash user 60 (codes "admin") db₁ a
          apart found in
      let (u, found', hash', role') =
        upsert_user-HasAccount lib laws (codes "user_01") env.demo_hash user 60 db₁ in
      (
        (
          a,
          role,
          admin_login_found _ _ a
              (ap (find_by (named lib (codes "admin"))) (seeded_users db₂) ∙ still) role
              (ap (lib.compares secret) hash ∙ is_secret),
        ),
        (
          u,
          role',
          login_found lib _ _ u (
            ap (find_by (named lib (codes "user_01"))) (seeded_users db₂) ∙ found',
            ap (lib.compares pass) hash' ∙ is_pass,
          ),
        ),
      )
