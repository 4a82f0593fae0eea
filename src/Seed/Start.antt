-- ===== src/Seed/Start.antt =====
-- The tables after the seed, and after any requests to a server that was started on them.
use charging_station_system.Prelude.{
  ℕ, ◌≡◌, refl, Bool, true, false, not, none, List, [], ◌∷◌, arith, codes, find_by, filter_by,
  if◌then◌else◌, Distinct, Distinct-add, Option-cases, Bool-cases, inl, inr,
}
use charging_station_system.Clock.{ClockState}
use charging_station_system.Float.{Float}
use charging_station_system.Schema.{
  Codes, ChargeMode, UserRole, user, admin, User, Pile, BillingRule, Db,
}
use charging_station_system.Schema.Keys.{find_pile, pile_has}
use charging_station_system.Station.{Env}
use charging_station_system.Auth.{AccountLibrary}
use charging_station_system.Http.Routes.{HttpLibrary, Request}
use charging_station_system.Http.Sequences.{add_user-Advances, handle_all, handle_all-IsValid}
use charging_station_system.Lifecycle.Statuses.{Evolves-refl}
use charging_station_system.Lifecycle.Valid.{IsValid, pile_id, Advances, Advances-IsPreorder}
use charging_station_system.Lifecycle.Writes.{write_pile}
use charging_station_system.Seed.{
  SeedEnv, upsert_user, delete_duplicate, delete_duplicates, reset_pile, new_pile, upsert_pile,
  upsert_piles, power_for, seeded_piles, seed_rules, seed,
}

none-filter_by :
    {A : Type 0} (t p : A → Bool) (xs : List A)
    → find_by t xs ≡ none
    → find_by t (filter_by p xs) ≡ none
none-filter_by t p [] h = refl
none-filter_by t p (x ∷ xs) h = ground (arith, none-filter_by t p xs)

Distinct-filter_by :
    {A : Type 0} (key : A → ℕ) (p : A → Bool) (xs : List A)
    → Distinct key xs
    → Distinct key (filter_by p xs)
Distinct-filter_by key p [] d = tt
Distinct-filter_by key p (x ∷ xs) (free, d) = elim (Bool-cases (p x)) [
  | inl keep ↦ rw keep (none-filter_by _ p xs free, Distinct-filter_by key p xs d)
  | inr drop ↦ rw drop (Distinct-filter_by key p xs d)
]

module _ {F : Type 0} where
  -- The orders and sessions are as they were.
  same_orders :
      (us : List (User F)) (ps : List (Pile F)) (rs : List (BillingRule F)) (db : Db F)
      → (Distinct pile_id db.piles → Distinct pile_id ps)
      → Advances db (record db { users = us; piles = ps; rules = rs })
  same_orders us ps rs db h v = (
    record {
      orders_distinct = v.orders_distinct;
      orders_below = v.orders_below;
      sessions_distinct = v.sessions_distinct;
      sessions_below = v.sessions_below;
      piles_distinct = h v.piles_distinct;
      linked = v.linked;
      single = v.single;
    },
    Evolves-refl db.orders,
  )

  if-Advances :
      (b : Bool) (db x y : Db F) → Advances db x → Advances db y → Advances db (if b then x else y)
  if-Advances true db x y h k = h
  if-Advances false db x y h k = k

  -- A database with no rows.
  abbrev pub empty_db : Db F
  empty_db = record {
    users = [];
    piles = [];
    orders = [];
    sessions = [];
    details = [];
    rules = [];
    next_id = 0;
  }

  empty-IsValid : IsValid empty_db
  empty-IsValid = record {
    orders_distinct = tt;
    orders_below = tt;
    sessions_distinct = tt;
    sessions_below = tt;
    piles_distinct = tt;
    linked = tt;
    single = tt;
  }

module _ {F : Type 0} ⦃fl : Float F⦄ where
  delete-Advances : (is : List ℕ) (db : Db F) → Advances db (delete_duplicates is db)
  unfolding delete_duplicates delete_duplicate
  delete-Advances [] db = Advances-IsPreorder.reflexive db
  delete-Advances (i ∷ is) db =
      Advances-IsPreorder.transitive db (delete_duplicate i db) _
        (if-Advances _ db _ _
          (same_orders db.users _ db.rules db
            (Distinct-filter_by pile_id (λ p. not (pile_has i p)) db.piles))
          (Advances-IsPreorder.reflexive db))
        (delete-Advances is (delete_duplicate i db))

  upsert_pile-Advances :
      (i : ℕ) (mode : ChargeMode) (power : F) (db : Db F)
      → Advances db (upsert_pile i mode power db)
  unfolding upsert_pile
  upsert_pile-Advances i mode power db = elim (Option-cases (find_pile i db.piles)) [
    | inl free ↦ rw free (
        same_orders db.users _ db.rules db
          (λ d. Distinct-add pile_id db.piles (new_pile i mode power) d free))
    | inr (p, found) ↦ rw found (write_pile i (reset_pile mode power) db (λ x. refl))
  ]

  upsert_piles-Advances :
      (env : SeedEnv F) (ps : List (ℕ × ChargeMode)) (db : Db F)
      → Advances db (upsert_piles env ps db)
  unfolding upsert_piles
  upsert_piles-Advances env [] db = Advances-IsPreorder.reflexive db
  upsert_piles-Advances env ((i, mode) ∷ ps) db =
      Advances-IsPreorder.transitive db (upsert_pile i mode (power_for env mode) db) _
        (upsert_pile-Advances i mode (power_for env mode) db) (upsert_piles-Advances env ps _)

module _ {F T : Type 0} ⦃fl : Float F⦄ (lib : AccountLibrary T) where
  upsert_user-Advances :
      (name hash : Codes) (role : UserRole) (capacity : ℕ) (db : Db F)
      → Advances db (upsert_user lib name hash role capacity db)
  unfolding upsert_user
  upsert_user-Advances name hash role capacity db =
      if-Advances _ db _ _ (same_orders _ db.piles db.rules db (λ d. d))
        (add_user-Advances lib _ db)

  seed-Advances : (env : SeedEnv F) (db : Db F) → Advances db (seed lib env db)
  unfolding seed seed_rules
  seed-Advances env db =
      let db₁ = upsert_user lib (codes "admin") env.admin_hash admin 100 db in
      let db₂ = upsert_user lib (codes "user_01") env.demo_hash user 60 db₁ in
      let db₃ = delete_duplicates env.keys.duplicates db₂ in
      let db₄ = upsert_piles env (seeded_piles env.keys) db₃ in
      Advances-IsPreorder.transitive db db₁ _ (upsert_user-Advances _ _ _ _ db) (
        Advances-IsPreorder.transitive db₁ db₂ _ (upsert_user-Advances _ _ _ _ db₁) (
          Advances-IsPreorder.transitive db₂ db₃ _ (delete-Advances env.keys.duplicates db₂) (
            Advances-IsPreorder.transitive db₃ db₄ _
              (upsert_piles-Advances env (seeded_piles env.keys) db₃)
              (same_orders db₄.users db₄.piles _ db₄ (λ d. d)))))

-- A server that starts on an empty database with the seed keeps the invariant of the tables, whatever
-- requests are sent to it.
pub seed_then_requests-IsValid :
    {F T : Type 0} ⦃fl : Float F⦄ (lib : HttpLibrary F T) (env : SeedEnv F) (clock : ClockState F)
    (rs : List (Env F × Request F T))
    → IsValid
        (handle_all lib rs
          (record { db = seed lib.accounts env empty_db; effects = []; clock = clock })).db
seed_then_requests-IsValid lib env clock rs =
    (handle_all-IsValid lib rs _ (seed-Advances lib.accounts env empty_db empty-IsValid).0).0
