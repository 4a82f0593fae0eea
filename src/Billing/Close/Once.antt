-- ===== src/Billing/Close/Once.antt =====
-- What a call of `closeAndBill` does as a whole, and what a second call does.
use charging_station_system.Prelude.{
  ℕ, ◌≡◌, refl, sym, ◌∙◌, ◌⊎◌, inl, inr, true, false, none, some, List, Bool-cases, Option-cases,
  ==→≡, ==_refl, find_by-append, find_by_holds, find_by-update_first_self, subst,
}
use charging_station_system.Float.{Float}
use charging_station_system.Schema.{Order, Session, Pile, Detail}
use charging_station_system.Schema.Keys.{find_order, find_pile, detail_of, order_has, set_order}
use charging_station_system.Station.{
  Env, World, Error, Result, ok, err, Effect, missing_row, unique_violation, no_active_session,
  not_found,
}
use charging_station_system.QueueCache.Views.{refresh_mode_lem, refresh_pile_lem}
use charging_station_system.Billing.Amounts.{actual_amount, session_duration}
use charging_station_system.Billing.Close.{
  Closing, order_sessions, active_session, bill_for, close_rows, session_billed, virtual_date,
  bill_open_order, close_and_bill, close_order,
}

module _ {F : Type 0} ⦃fl : Float F⦄ (env : Env F) where
  -- What a successful call has done for an order.
  pub record IsClosed (c : Closing) (o : Order F) (w : World F) (r : Result (Detail F) × World F)
      : Type 0 where
    pub session : Session F
    pub pile : Pile F
    pub sent : List (Effect F)
    pub found_session : active_session (order_sessions o.id w.db.sessions) ≡ some session
    pub found_pile : find_pile session.pile_id w.db.piles ≡ some pile
    pub not_billed : session_billed session.id w.db.details ≡ false
    pub result :
        let bill = bill_for env.zone env.real_ms (virtual_date env) w.db o session pile.power in
        r ≡ (
          ok bill,
          record w {
            db =
                close_rows c
                  (virtual_date env)
                  bill
                  (session_duration session.start_time (virtual_date env))
                  (actual_amount o.requested_amount pile.power session (virtual_date env))
                  o
                  session
                  w.db;
            effects = sent;
          },
        )

  abbrev pub Refused : World F → Result (Detail F) × World F → Type 0
  Refused w r = (e : Error) × (r ≡ (err e, w))

  -- With an active session at a pile, and no bill for the session, the order is closed.
  pub closes_with :
      (c : Closing) (o : Order F) (w : World F) (s : Session F) (p : Pile F)
      → active_session (order_sessions o.id w.db.sessions) ≡ some s
      → find_pile s.pile_id w.db.piles ≡ some p
      → session_billed s.id w.db.details ≡ false
      → let bill = bill_for env.zone env.real_ms (virtual_date env) w.db o s p.power in
        (sent : List (Effect F)) × (bill_open_order env c o w ≡ (
          ok bill,
          record w {
            db =
                close_rows c
                  (virtual_date env)
                  bill
                  (session_duration s.start_time (virtual_date env))
                  (actual_amount o.requested_amount p.power s (virtual_date env))
                  o
                  s
                  w.db;
            effects = sent;
          },
        ))
  unfolding bill_open_order
  closes_with c o w s p es ep e =
      let bill = bill_for env.zone env.real_ms (virtual_date env) w.db o s p.power in
      let db =
        close_rows c (virtual_date env) bill (session_duration s.start_time (virtual_date env))
          (actual_amount o.requested_amount p.power s (virtual_date env)) o s w.db in
      let (sent, em) = refresh_mode_lem o.charge_mode true (record w { db = db }) in
      let (v, sent', eq) =
        refresh_pile_lem env.virtual_ms s.pile_id true (record w { db = db; effects = sent }) in
      (sent', rw es (rw ep (rw e (rw em (rw eq refl)))))

  bill_open_order_lem :
      (c : Closing) (o : Order F) (w : World F)
      → Refused w (bill_open_order env c o w) ⊎ IsClosed c o w (bill_open_order env c o w)
  unfolding bill_open_order
  bill_open_order_lem c o w =
      elim (Option-cases (active_session (order_sessions o.id w.db.sessions))) [
        | inl e ↦ inl (no_active_session, rw e refl)
        | inr (s, es) ↦ elim (Option-cases (find_pile s.pile_id w.db.piles)) [
          | inl e ↦ inl (missing_row, rw es (rw e refl))
          | inr (p, ep) ↦ elim (Bool-cases (session_billed s.id w.db.details)) [
            | inl e ↦ inl (unique_violation, rw es (rw ep (rw e refl)))
            | inr e ↦
                let (sent, done) = closes_with c o w s p es ep e in
                inr (record {
                  session = s;
                  pile = p;
                  sent = sent;
                  found_session = es;
                  found_pile = ep;
                  not_billed = e;
                  result = done;
                })
          ]
        ]
      ]

  -- A call on an order that exists refuses and changes nothing, returns the bill that is there and
  -- changes nothing, or closes the order.
  pub close_and_bill_cases :
      (i : ℕ) (c : Closing) (w : World F)
      → Refused w (close_and_bill env i c w)
        ⊎ ((o : Order F) × (find_order i w.db.orders ≡ some o)
            × (((d : Detail F) × (detail_of o.id w.db.details ≡ some d)
                  × (close_and_bill env i c w ≡ (ok d, w)))
                ⊎ ((detail_of o.id w.db.details ≡ none)
                    × IsClosed c o w (close_and_bill env i c w))))
  unfolding close_and_bill
  close_and_bill_cases i c w = elim (Option-cases (find_order i w.db.orders)) [
    | inl e ↦ inl (not_found, rw e refl)
    | inr (o, eo) ↦ elim (Option-cases (detail_of o.id w.db.details)) [
      | inr (d, ed) ↦ inr (o, eo, inl (d, ed, rw eo (rw ed refl)))
      | inl ed ↦
          let goes_on : close_and_bill env i c w ≡ bill_open_order env c o w = rw eo (rw ed refl) in
          elim (bill_open_order_lem c o w) [
            | inl (e, refused) ↦ inl (e, goes_on ∙ refused)
            | inr closed ↦ inr (o, eo, inr (ed, subst (IsClosed c o w) (sym goes_on) closed))
          ]
    ]
  ]

module _ {F : Type 0} ⦃fl : Float F⦄ where
  -- An order without a bill goes on to be billed.
  pub unbilled_goes_on :
      (env : Env F) (i : ℕ) (c : Closing) (w : World F) (o : Order F)
      → find_order i w.db.orders ≡ some o
      → detail_of o.id w.db.details ≡ none
      → close_and_bill env i c w ≡ bill_open_order env c o w
  unfolding close_and_bill
  unbilled_goes_on env i c w o eo ed = rw eo (rw ed refl)

  -- A billed order gives its bill.
  already_billed :
      (env : Env F) (i : ℕ) (c : Closing) (w : World F) (o : Order F) (d : Detail F)
      → find_order i w.db.orders ≡ some o
      → detail_of o.id w.db.details ≡ some d
      → close_and_bill env i c w ≡ (ok d, w)
  unfolding close_and_bill
  already_billed env i c w o d eo ed = rw eo (rw ed refl)

  module _ (env env' : Env F) (i : ℕ) (c c' : Closing) where
    abbrev Again : Result (Detail F) × World F → Type 0
    Again (ok d, w) = close_and_bill env' i c' w ≡ (ok d, w)
    Again (err e, w) = Unit

    closed-Again :
        (o : Order F) (w : World F)
        → find_order i w.db.orders ≡ some o
        → detail_of o.id w.db.details ≡ none
        → IsClosed env c o w (close_and_bill env i c w)
        → Again (close_and_bill env i c w)
    unfolding close_rows bill_for
    closed-Again o w eo ed closed =
        let key = ==→≡ o.id i (find_by_holds (order_has i) w.db.orders o eo) in
        let found = subst (λ k. find_order k w.db.orders ≡ some o) (sym key) eo in
        let f = close_order c (virtual_date env) in
        let os = set_order o.id f w.db.orders in
        let updated : find_order o.id os ≡ some (f o) =
          find_by-update_first_self (λ x. x.id) o.id f (λ x. refl) w.db.orders o found in
        subst Again (sym closed.result) (
          already_billed env' i c' _ (f o) _ (subst (λ k. find_order k os ≡ some (f o)) key updated)
            (find_by-append _ w.db.details _ ed ∙ rw (==_refl o.id) refl))

    Again_lem : (w : World F) → Again (close_and_bill env i c w)
    Again_lem w = elim (close_and_bill_cases env i c w) [
      | inl (e, refused) ↦ subst Again (sym refused) tt
      | inr (o, eo, inl (d, ed, same)) ↦
          subst Again (sym same) (already_billed env' i c' w o d eo ed)
      | inr (o, eo, inr (ed, closed)) ↦ closed-Again o w eo ed closed
    ]

  -- An order is billed once: after a successful call a second one, at whatever time and for whatever
  -- reason, returns the same bill and changes nothing.
  pub close_and_bill_once :
      (env env' : Env F) (i : ℕ) (c c' : Closing) (w w' : World F) (d : Detail F)
      → close_and_bill env i c w ≡ (ok d, w')
      → close_and_bill env' i c' w' ≡ (ok d, w')
  close_and_bill_once env env' i c c' w w' d e =
      subst (Again env env' i c c') e (Again_lem env env' i c c' w)
