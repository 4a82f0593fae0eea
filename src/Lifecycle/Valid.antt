-- ===== src/Lifecycle/Valid.antt =====
-- The invariant of the tables: keys are distinct and below the next fresh key, an active session
-- belongs to an order that charges, and no order has two active sessions.
use charging_station_system.Prelude.{
  ℕ, ◌≡◌, ◌≢◌, refl, sym, subst, Bool, true, false, not, ◌&&◌, ◌||◌, ◌==◌, Option, none, some, List,
  [], ◌∷◌, ◌++◌, arith, All, find_by, is_some, Distinct, Below, find_by-append, Bool-cases,
  Option-cases, inl, inr, ==→≡,
}
use charging_station_system.Schema.{is_charging, is_active, Order, Session, Pile, Db}
use charging_station_system.Schema.Keys.{find_order}
use charging_station_system.Schema.Queries.{active_on}
use charging_station_system.Station.Rules.{IsPreorder}
use charging_station_system.Lifecycle.Statuses.{Evolves, Evolves-refl, Evolves-trans}

module _ {F : Type 0} where
  abbrev pub order_id : Order F → ℕ
  order_id o = o.id

  abbrev pub session_id : Session F → ℕ
  session_id s = s.id

  abbrev pub pile_id : Pile F → ℕ
  pile_id p = p.id

  abbrev pub charges : Option (Order F) → Bool
  charges none = false
  charges (some o) = is_charging o.status

  -- The order with the key charges.
  abbrev pub charging_in : List (Order F) → ℕ → Bool
  charging_in os i = charges (find_order i os)

  abbrev pub is_linked : List (Order F) → Session F → Bool
  is_linked os s = not (is_active s.session_status) || charging_in os s.order_id

  abbrev pub AllLinked : List (Order F) → List (Session F) → Type 0
  AllLinked os = All (λ s. is_linked os s ≡ true)

  -- No order has two active sessions.
  abbrev pub IsSingle : List (Session F) → Type 0
  IsSingle [] = Unit
  IsSingle (s ∷ ss) =
      ((is_active s.session_status && is_some (find_by (active_on s.order_id) ss)) ≡ false)
      × IsSingle ss

  pub record IsValid (db : Db F) : Type 0 where
    pub orders_distinct : Distinct order_id db.orders
    pub orders_below : Below order_id db.next_id db.orders
    pub sessions_distinct : Distinct session_id db.sessions
    pub sessions_below : Below session_id db.next_id db.sessions
    pub piles_distinct : Distinct pile_id db.piles
    pub linked : AllLinked db.orders db.sessions
    pub single : IsSingle db.sessions

  -- From valid tables valid ones come about, in which the orders have moved forward.
  abbrev pub Advances : Db F → Db F → Type 0
  Advances db db' = IsValid db → IsValid db' × Evolves db.orders db'.orders

  pub Advances-IsPreorder : IsPreorder Advances
  Advances-IsPreorder = record {
    reflexive = λ a v. (v, Evolves-refl a.orders);
    transitive = λ a b c h k v.
        let (v', e) = h v in
        let (v'', e') = k v' in (v'', Evolves-trans a.orders b.orders c.orders e e');
  }

  -- Sessions stay linked if the orders that charge go on charging.
  pub AllLinked-mono :
      (os os' : List (Order F))
      → ((i : ℕ) → charging_in os i ≡ true → charging_in os' i ≡ true)
      → (ss : List (Session F)) → AllLinked os ss
      → AllLinked os' ss
  AllLinked-mono os os' h [] l = tt
  AllLinked-mono os os' h (s ∷ ss) (l, ls) =
      (ground (arith, h s.order_id), AllLinked-mono os os' h ss ls)

  -- The same if one order stops, of which no session is active.
  pub AllLinked-cleared :
      (os os' : List (Order F)) (i : ℕ)
      → ((j : ℕ) → j ≢ i → charging_in os j ≡ true → charging_in os' j ≡ true)
      → (ss : List (Session F)) → find_by (active_on i) ss ≡ none
      → AllLinked os ss
      → AllLinked os' ss
  AllLinked-cleared os os' i h [] e l = tt
  AllLinked-cleared os os' i h (s ∷ ss) e (l, ls) =
      (ground (arith, h s.order_id), AllLinked-cleared os os' i h ss (ground arith) ls)

  -- An order that does not charge has no active session.
  pub no_session :
      (os : List (Order F)) (i : ℕ) (ss : List (Session F))
      → AllLinked os ss
      → charging_in os i ≡ false
      → find_by (active_on i) ss ≡ none
  no_session os i [] l e = refl
  no_session os i (s ∷ ss) (l, ls) e = elim (Bool-cases (s.order_id == i)) [
    | inl same ↦
        let off = subst (λ k. charging_in os k ≡ false) (sym (==→≡ s.order_id i same)) e in
        ground (arith, no_session os i ss ls e)
    | inr other ↦ ground (arith, no_session os i ss ls e)
  ]

  pub IsSingle-add :
      (ss : List (Session F)) (s : Session F)
      → IsSingle ss
      → find_by (active_on s.order_id) ss ≡ none
      → IsSingle (ss ++ (s ∷ []))
  IsSingle-add [] s h e = ground arith
  IsSingle-add (x ∷ xs) s (h, hs) e = elim (Option-cases (find_by (active_on x.order_id) xs)) [
    | inl free ↦ (
      ground (arith, find_by-append (active_on x.order_id) xs (s ∷ []) free),
      IsSingle-add xs s hs (ground arith),
    )
    | inr (y, found) ↦ (ground arith, IsSingle-add xs s hs (ground arith))
  ]
