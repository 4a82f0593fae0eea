-- ===== src/Lifecycle/Closing.antt =====
-- Closing and billing an order keeps the invariant: the order's session is the only active one that it
-- has, so none is left when it is closed.
use charging_station_system.Prelude.{
  ℕ, ◌≡◌, refl, sym, subst, true, false, ◌&&◌, ◌==◌, none, some, List, [], ◌∷◌, arith, All, find_by,
  filter_by, sort_by, is_some, Distinct, Ordering, Bool-cases, Option-cases, inl, inr,
  find_by_holds, ==→≡, ==_refl, Distinct-update_first, All-find_by, All-update_first,
  Distinct-found, Below-suc, filter_by-All, All-filter_by-passes, All-insert_by,
}
use mathlib.Core.Option.{some-injective}
use charging_station_system.Schema.{OrderStatus, is_charging, is_active, Order, Session, Detail, Db}
use charging_station_system.Schema.Keys.{find_order, order_has, session_has, set_order, set_session}
use charging_station_system.Schema.Queries.{active_on}
use charging_station_system.Float.{Float}
use charging_station_system.Billing.Close.{
  Closing, order_sessions, active_session, close_rows, close_session, close_order, closed_status,
}
use charging_station_system.Lifecycle.Writes.{charging_in_others}
use charging_station_system.Lifecycle.Statuses.{may_become, Evolves-update_first}
use charging_station_system.Lifecycle.Valid.{
  order_id, session_id, pile_id, charging_in, is_linked, AllLinked, IsSingle, Advances,
  AllLinked-cleared,
}

-- The status that a charge can be closed with.
abbrev pub Ends : OrderStatus → Type 0
Ends t = (may_become OrderStatus.charging t ≡ true) × (is_charging t ≡ false)

-- A sort keeps what holds of all rows.
All-sort_by :
    {A : Type 0} (P : A → Type 0) (c : A → A → Ordering) (xs : List A)
    → All P xs
    → All P (sort_by c xs)
All-sort_by P c [] h = tt
All-sort_by P c (x ∷ xs) (h, hs) = All-insert_by P c x (sort_by c xs) h (All-sort_by P c xs hs)

module _ {F : Type 0} where
  -- An active session is one of its order's active sessions.
  pub found_active :
      (k : ℕ) (ss : List (Session F)) (s : Session F)
      → find_by (session_has k) ss ≡ some s
      → is_active s.session_status ≡ true
      → is_some (find_by (active_on s.order_id) ss) ≡ true
  found_active k [] s e a = ground arith
  found_active k (x ∷ xs) s e a = elim (Bool-cases (x.id == k)) [
    | inl here ↦
        let same = some-injective x s (rw here at e) in
        subst (λ y. is_some (find_by (active_on y.order_id) (x ∷ xs)) ≡ true) same
          (ground (
            arith,
            ==_refl x.order_id,
            subst (λ y. is_active y.session_status ≡ true) (sym same) a,
          ))
    | inr there ↦ let rest = found_active k xs s (rw there at e) a in ground arith
  ]

  module _ (f : Session F → Session F) (same_id : (s : Session F) → (f s).id ≡ s.id)
      (same_order : (s : Session F) → (f s).order_id ≡ s.order_id)
      (off : (s : Session F) → is_active (f s).session_status ≡ false) (k : ℕ) where
    -- Closing a session leaves no session active that was not.
    still_free :
        (i : ℕ) (ss : List (Session F))
        → find_by (active_on i) ss ≡ none
        → find_by (active_on i) (set_session k f ss) ≡ none
    still_free i [] e = refl
    still_free i (s ∷ ss) e = ground (arith, off s, still_free i ss)

    IsSingle-set_session : (ss : List (Session F)) → IsSingle ss → IsSingle (set_session k f ss)
    IsSingle-set_session [] h = tt
    IsSingle-set_session (s ∷ ss) (h, hs) =
        elim (Option-cases (find_by (active_on s.order_id) ss)) [
          | inl e ↦ ground (arith, off s, still_free s.order_id ss e, IsSingle-set_session ss hs)
          | inr (x, e) ↦ ground (arith, off s, IsSingle-set_session ss hs)
        ]

    -- Closing the active session of an order leaves it none.
    pub cleared :
        (ss : List (Session F)) (s : Session F)
        → IsSingle ss
        → find_by (session_has k) ss ≡ some s
        → is_active s.session_status ≡ true
        → find_by (active_on s.order_id) (set_session k f ss) ≡ none
    cleared [] s h e a = ground arith
    cleared (x ∷ xs) s (h, hs) e a = elim (Bool-cases (x.id == k)) [
      | inl here ↦
          let same = some-injective x s (rw here at e) in
          let on = subst (λ y. is_active y.session_status ≡ true) (sym same) a in
          subst (λ y. find_by (active_on y.order_id) (set_session k f (x ∷ xs)) ≡ none) same
            (ground (arith, off x))
      | inr there ↦
          let found : find_by (session_has k) xs ≡ some s = rw there at e in
          let rest = cleared xs s hs found a in
          let other = found_active k xs s found a in
          elim (Bool-cases (x.order_id == s.order_id)) [
            | inl eq ↦
                let h' =
                  subst
                    (λ j.
                      (is_active x.session_status && is_some (find_by (active_on j) xs)) ≡ false)
                    (==→≡ _ _ eq) h in
                ground arith
            | inr ne ↦ ground arith
          ]
    ]

    AllLinked-set_session :
        (os : List (Order F)) (ss : List (Session F))
        → AllLinked os ss
        → AllLinked os (set_session k f ss)
    AllLinked-set_session os ss l =
        All-update_first (λ s. is_linked os s ≡ true) (session_has k) f (λ s h. rw (off s) refl) ss
          l

  -- What `closeAndBill` finds is an active session of the order.
  pub found_session :
      (db : Db F) (o : Order F) (s : Session F)
      → Distinct session_id db.sessions
      → active_session (order_sessions o.id db.sessions) ≡ some s
      → (find_by (session_has s.id) db.sessions ≡ some s)
        × (s.order_id ≡ o.id)
        × (is_active s.session_status ≡ true)
  unfolding order_sessions active_session
  found_session db o s d e =
      let own = λ (x : Session F). x.order_id == o.id in
      let rows = filter_by own db.sessions in
      let sorted = order_sessions o.id db.sessions in
      let by_key =
        All-sort_by _ _ rows
          (filter_by-All own _ db.sessions (Distinct-found session_id db.sessions d)) in
      let by_order = All-sort_by _ _ rows (All-filter_by-passes own db.sessions) in
      (
        All-find_by (λ x. find_by (session_has x.id) db.sessions ≡ some x) _ sorted s by_key e,
        ==→≡ _ _ (All-find_by (λ x. own x ≡ true) _ sorted s by_order e),
        find_by_holds (λ x. is_active x.session_status) sorted s e,
      )

  -- So the order charges.
  charges_of :
      (db : Db F) (o : Order F) (s : Session F)
      → AllLinked db.orders db.sessions
      → find_order o.id db.orders ≡ some o
      → find_by (session_has s.id) db.sessions ≡ some s
      → s.order_id ≡ o.id
      → is_active s.session_status ≡ true
      → is_charging o.status ≡ true
  charges_of db o s l found key own on =
      let linked = All-find_by (λ x. is_linked db.orders x ≡ true) _ db.sessions s l key in
      let here : charging_in db.orders s.order_id ≡ true = rw on at linked in
      let there = subst (λ k. charging_in db.orders k ≡ true) own here in rw found at there

pub closed_is_not_active : (t : OrderStatus) → is_active (closed_status t) ≡ false
closed_is_not_active t = ground arith

becomes :
    (s t : OrderStatus)
    → is_charging s ≡ true
    → may_become OrderStatus.charging t ≡ true
    → may_become s t ≡ true
becomes s t c h = ground arith

module _ {F : Type 0} ⦃fl : Float F⦄ where
  pub close_rows-Advances :
      (c : Closing) (stop : ℕ) (bill : Detail F) (duration amount : F) (o : Order F) (s : Session F)
      (db : Db F)
      → Ends c.target_status
      → find_order o.id db.orders ≡ some o
      → active_session (order_sessions o.id db.sessions) ≡ some s
      → Advances db (close_rows c stop bill duration amount o s db)
  unfolding close_rows
  close_rows-Advances c stop bill duration amount o s db (forward, off) found e v =
      let (key, own, on) = found_session db o s v.sessions_distinct e in
      let charging = charges_of db o s v.linked found key own on in
      let f = close_session c stop amount in
      let g = close_order c stop in
      let ends = closed_is_not_active c.target_status in
      let free : find_by (active_on o.id) (set_session s.id f db.sessions) ≡ none =
        subst (λ k. find_by (active_on k) (set_session s.id f db.sessions) ≡ none) own
          (cleared f (λ x. refl) (λ x. refl) (λ x. ends) s.id db.sessions s v.single key on) in
      (
        record {
          orders_distinct =
              Distinct-update_first order_id o.id g (λ x. refl) db.orders v.orders_distinct;
          orders_below =
              All-update_first _ _ g (λ x h. h) db.orders
                (Below-suc order_id db.next_id db.orders v.orders_below);
          sessions_distinct =
              Distinct-update_first session_id s.id f (λ x. refl) db.sessions v.sessions_distinct;
          sessions_below =
              All-update_first _ _ f (λ x h. h) db.sessions
                (Below-suc session_id db.next_id db.sessions v.sessions_below);
          piles_distinct =
              Distinct-update_first pile_id s.pile_id _ (λ x. refl) db.piles v.piles_distinct;
          linked =
              AllLinked-cleared db.orders (set_order o.id g db.orders) o.id
                (charging_in_others o.id g (λ x. refl) db.orders o found)
                (set_session s.id f db.sessions) free
                (AllLinked-set_session f (λ x. refl) (λ x. refl) (λ x. ends) s.id db.orders
                  db.sessions v.linked);
          single =
              IsSingle-set_session f (λ x. refl) (λ x. refl) (λ x. ends) s.id db.sessions v.single;
        },
        Evolves-update_first (order_has o.id) g db.orders o found (record {
          same_id = refl;
          same_user = refl;
          same_submit_time = refl;
          forward = becomes o.status c.target_status charging forward;
        }),
      )
