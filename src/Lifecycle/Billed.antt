-- ===== src/Lifecycle/Billed.antt =====
-- `closeAndBill` on an order that charges, from its rows before the call to its rows after it.
use charging_station_system.Prelude.{
  ℕ, ◌+◌, ◌≡◌, refl, sym, subst, ap, ◌∙◌, Bool, true, false, not, ◌&&◌, ◌==◌, none, some, List, [],
  ◌∷◌, ◌++◌, arith, Ordering, find_by, filter_by, sort_by, update_first, keyed, insert_by, is_some,
  Bool-cases, Option-cases, inl, inr, find_by_holds, ==→≡, ==_refl, find_by-append,
  find_by-update_first_self, find_by-update_first_ne,
}
use charging_station_system.Float.{Float, nat, ◌⊕◌, round_to}
use charging_station_system.Schema.{
  OrderStatus, SessionStatus, is_active, Order, Session, Pile, Detail, Db,
}
use charging_station_system.Schema.Keys.{
  find_order, find_session, find_pile, detail_of, pile_has, set_session, set_pile,
}
use charging_station_system.Schema.Queries.{active_on}
use charging_station_system.Station.{World, Env, ok}
use charging_station_system.Billing.Amounts.{actual_amount, session_duration}
use charging_station_system.Billing.Close.{
  Closing, order_sessions, active_session, bill_for, close_rows, close_session, close_order,
  close_pile, closed_status, close_and_bill,
}
use charging_station_system.Billing.Close.Once.{closes_with, unbilled_goes_on}
use mathlib.Core.Option.{some-injective}
use charging_station_system.Lifecycle.Valid.{IsValid, IsSingle, order_id, session_id, pile_id}
use charging_station_system.Lifecycle.Closing.{
  found_active, cleared, found_session, closed_is_not_active,
}

module _ {A : Type 0} (t : A → Bool) where
  find_by-insert_by :
      (c : A → A → Ordering) (x : A) (xs : List A)
      → is_some (find_by t (insert_by c x xs)) ≡ is_some (find_by t (x ∷ xs))
  find_by-insert_by c x [] = refl
  find_by-insert_by c x (y ∷ ys) = ground (arith, find_by-insert_by c x ys)

  find_by-sort_by :
      (c : A → A → Ordering) (xs : List A)
      → is_some (find_by t (sort_by c xs)) ≡ is_some (find_by t xs)
  find_by-sort_by c [] = refl
  find_by-sort_by c (x ∷ xs) =
      find_by-insert_by c x (sort_by c xs) ∙ ground (arith, find_by-sort_by c xs)

  find_by-filter_by :
      (own : A → Bool) (xs : List A) → find_by t (filter_by own xs) ≡ find_by (λ x. own x && t x) xs
  find_by-filter_by own [] = refl
  find_by-filter_by own (x ∷ xs) = ground (arith, find_by-filter_by own xs)

-- What closing makes of the status of a session.
abbrev pub session_end : OrderStatus → SessionStatus
session_end OrderStatus.aborted = SessionStatus.aborted
session_end OrderStatus.finished = SessionStatus.closed
session_end OrderStatus.canceled = SessionStatus.closed
session_end OrderStatus.waiting = SessionStatus.closed
session_end OrderStatus.in_pile_queue = SessionStatus.closed
session_end OrderStatus.charging = SessionStatus.closed

closed_status_lem : (t : OrderStatus) → closed_status t ≡ session_end t
closed_status_lem t = ground arith

other_rows :
    {A : Type 0} (key : A → ℕ) (i : ℕ) (f : A → A) (same : (x : A) → key (f x) ≡ key x)
    (xs : List A)
    → filter_by (λ x. not (key x == i)) (update_first (keyed key i) f xs)
      ≡ filter_by (λ x. not (key x == i)) xs
other_rows key i f same [] = refl
other_rows key i f same (x ∷ xs) = ground (arith, same x, other_rows key i f same xs)

module _ {F : Type 0} where
  -- An order with an active session has no other active session.
  only_active :
      (ss : List (Session F)) (s s' : Session F) (f : Session F → Session F)
      → ((x : Session F) → (f x).id ≡ x.id)
      → ((x : Session F) → (f x).order_id ≡ x.order_id)
      → ((x : Session F) → is_active (f x).session_status ≡ false)
      → IsSingle ss
      → find_session s.id ss ≡ some s
      → is_active s.session_status ≡ true
      → find_session s'.id ss ≡ some s'
      → is_active s'.session_status ≡ true
      → s'.order_id ≡ s.order_id
      → s' ≡ s
  only_active ss s s' f same_id same_order off single e on e' on' same =
      elim (Bool-cases (s'.id == s.id)) [
        | inl eq ↦
            some-injective s' s
              (sym e' ∙ subst (λ k. find_session k ss ≡ some s) (sym (==→≡ _ _ eq)) e)
        | inr ne ↦
            let gone = cleared f same_id same_order off s.id ss s single e on in
            let apart =
              find_by-update_first_ne session_id s.id f same_id s'.id ss (ground arith) ∙ e' in
            let there = found_active s'.id (set_session s.id f ss) s' apart on' in
            let there' =
              subst (λ j. is_some (find_by (active_on j) (set_session s.id f ss)) ≡ true) same
                there in
            let impossible = sym there' ∙ ap is_some gone in cc
      ]

  -- So it is the one that `closeAndBill` finds.
  finds_active :
      (ss : List (Session F)) (s : Session F)
      → find_session s.id ss ≡ some s
      → is_active s.session_status ≡ true
      → is_some (active_session (order_sessions s.order_id ss)) ≡ true
  unfolding order_sessions active_session
  finds_active ss s e on =
      find_by-sort_by (λ x. is_active x.session_status) _
        (filter_by (λ x. x.order_id == s.order_id) ss)
      ∙ ap is_some
          (find_by-filter_by (λ x. is_active x.session_status) (λ x. x.order_id == s.order_id) ss)
      ∙ found_active s.id ss s e on

module _ {F : Type 0} ⦃fl : Float F⦄ where
  -- The rows after a charge was closed and billed.
  pub record IsBilled (env : Env F) (c : Closing) (o : Order F) (s : Session F) (p : Pile F)
      (db db' : Db F) (d : Detail F) : Type 0 where
    pub order_after :
        find_order o.id db'.orders
        ≡ some (record o { status = c.target_status; finished_at = some (fl.clip env.virtual_ms) })
    pub other_orders :
        filter_by (λ x. not (x.id == o.id)) db'.orders
        ≡ filter_by (λ x. not (x.id == o.id)) db.orders
    pub session_after :
        find_session s.id db'.sessions
        ≡ some (record s {
          stop_time = some (fl.clip env.virtual_ms);
          actual_amount =
              some (actual_amount o.requested_amount p.power s (fl.clip env.virtual_ms));
          stop_reason = some c.stop_reason;
          session_status = session_end c.target_status;
        })
    pub other_sessions :
        filter_by (λ x. not (x.id == s.id)) db'.sessions
        ≡ filter_by (λ x. not (x.id == s.id)) db.sessions
    pub none_active : find_by (active_on o.id) db'.sessions ≡ none
    pub pile_after :
        find_pile p.id db'.piles
        ≡ some (record p {
          working_state = c.pile_working_state;
          total_charge_count = p.total_charge_count + 1;
          total_charge_duration =
              p.total_charge_duration ⊕ session_duration s.start_time (fl.clip env.virtual_ms);
          total_charge_amount =
              p.total_charge_amount
              ⊕ actual_amount o.requested_amount p.power s (fl.clip env.virtual_ms);
        })
    pub other_piles :
        filter_by (λ x. not (x.id == p.id)) db'.piles ≡ filter_by (λ x. not (x.id == p.id)) db.piles
    pub bill_of_order : detail_of o.id db'.details ≡ some d
    pub bills_after : db'.details ≡ db.details ++ (d ∷ [])
    pub bill_session : d.session_id ≡ s.id
    pub bill_total : d.total_fee ≡ round_to 100 (d.charge_fee ⊕ d.service_fee)

  found_one :
      (c : Closing) (w : World F) (o : Order F) (s : Session F)
      → IsValid w.db
      → find_session s.id w.db.sessions ≡ some s
      → s.order_id ≡ o.id
      → is_active s.session_status ≡ true
      → active_session (order_sessions o.id w.db.sessions) ≡ some s
  found_one c w o s v es own on =
      let off = λ (x : Session F). closed_is_not_active c.target_status in
      let some_active =
        subst (λ k. is_some (active_session (order_sessions k w.db.sessions)) ≡ true) own
          (finds_active w.db.sessions s es on) in
      elim (Option-cases (active_session (order_sessions o.id w.db.sessions))) [
        | inl e ↦ let impossible = sym some_active ∙ ap is_some e in cc
        | inr (s', e) ↦
            let (key, owner, on') = found_session w.db o s' v.sessions_distinct e in
            let same =
              only_active w.db.sessions s s' (close_session c 0 (nat 0)) (λ x. refl) (λ x. refl) off
                v.single es on key on' (owner ∙ sym own) in
            e ∙ ap some same
      ]

  -- With valid tables, an order that has no bill, and an active session at a pile that is not billed,
  -- can be closed: the call returns the one new bill, of that session and for the sum of its fees; the
  -- order, the session and the pile have what the closing says, no session of the order is active any
  -- more, and all other orders, sessions, piles and bills are as they were.
  pub close_and_bill_closes :
      (env : Env F) (c : Closing) (w : World F) (o : Order F) (s : Session F) (p : Pile F)
      → IsValid w.db
      → find_order o.id w.db.orders ≡ some o
      → detail_of o.id w.db.details ≡ none
      → find_session s.id w.db.sessions ≡ some s
      → s.order_id ≡ o.id
      → is_active s.session_status ≡ true
      → find_pile s.pile_id w.db.piles ≡ some p
      → find_by (λ d. d.session_id == s.id) w.db.details ≡ none
      → (d : Detail F) × (w' : World F) × (close_and_bill env o.id c w ≡ (ok d, w'))
        × IsBilled env c o s p w.db w'.db d
  unfolding close_rows bill_for
  close_and_bill_closes env c w o s p v eo unbilled es own on ep free =
      let stop = fl.clip env.virtual_ms in
      let amount = actual_amount o.requested_amount p.power s stop in
      let f = close_session c stop amount in
      let g = close_order c stop in
      let h = close_pile c (session_duration s.start_time stop) amount in
      let off = λ (x : Session F). closed_is_not_active c.target_status in
      let bill = bill_for env.zone env.real_ms stop w.db o s p.power in
      let active = found_one c w o s v es own on in
      let (sent, done) = closes_with env c o w s p active ep (ap is_some free) in
      let at_pile = find_by_holds (pile_has s.pile_id) w.db.piles p ep in
      let key : s.pile_id ≡ p.id = sym (==→≡ p.id s.pile_id at_pile) in
      (
        bill,
        record w {
          db = close_rows c stop bill (session_duration s.start_time stop) amount o s w.db;
          effects = sent;
        },
        unbilled_goes_on env o.id c w o eo unbilled ∙ done,
        record {
          order_after = find_by-update_first_self order_id o.id g (λ x. refl) w.db.orders o eo;
          other_orders = other_rows order_id o.id g (λ x. refl) w.db.orders;
          session_after =
              find_by-update_first_self session_id s.id f (λ x. refl) w.db.sessions s es
              ∙ ap (λ t. some (record (f s) { session_status = t }))
                  (closed_status_lem c.target_status);
          other_sessions = other_rows session_id s.id f (λ x. refl) w.db.sessions;
          none_active =
              subst (λ k. find_by (active_on k) (set_session s.id f w.db.sessions) ≡ none) own
                (cleared f (λ x. refl) (λ x. refl) off s.id w.db.sessions s v.single es on);
          pile_after =
              subst (λ k. find_pile k (set_pile s.pile_id h w.db.piles) ≡ some (h p)) key
                (find_by-update_first_self pile_id s.pile_id h (λ x. refl) w.db.piles p ep);
          other_piles =
              subst
                (λ k.
                  filter_by (λ x. not (x.id == k)) (set_pile s.pile_id h w.db.piles)
                  ≡ filter_by (λ x. not (x.id == k)) w.db.piles)
                key (other_rows pile_id s.pile_id h (λ x. refl) w.db.piles);
          bill_of_order =
              find_by-append _ w.db.details (bill ∷ []) unbilled ∙ rw (==_refl o.id) refl;
          bills_after = refl;
          bill_session = refl;
          bill_total = refl;
        },
      )
