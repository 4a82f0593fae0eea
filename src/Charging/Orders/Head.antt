-- ===== src/Charging/Orders/Head.antt =====
-- Which orders `start` starts.
use charging_station_system.Prelude.{
  ℕ, ◌≤◌, ◌≢◌, ◌≡◌, refl, subst, Bool, true, false, not, Option, none, some, List, [], ◌∷◌, arith,
  All, or_else, is_some, find_by, Bool-cases, Option-cases, inl, inr,
}
use charging_station_system.Float.{Float}
use charging_station_system.Schema.{is_on, is_idle, is_queued, Order, Pile}
use charging_station_system.Schema.Keys.{find_order}
use charging_station_system.Schema.Queries.{queued_on}
use charging_station_system.Station.{
  World, Env, Result, ok, err, Error, Action, and_then, or_raise, raise_if,
}
use charging_station_system.QueueCache.Views.{refresh_pile_lem}
use charging_station_system.Billing.Close.{is_stranger}
use charging_station_system.Dispatch.Assign.{begin_charge}
use charging_station_system.Charging.Status.{ensure_order_owner}
use charging_station_system.Charging.Orders.{
  Started, is_earlier, can_start_on, start_on, assigned_pile_of, start,
}

-- What holds of a call that returns.
abbrev OnOk : {F A : Type 0} → (A → World F → Type 0) → Result A × World F → Type 0
OnOk P (ok a, w) = P a w
OnOk P (err e, w) = Unit

module _ {F : Type 0} where
  found_ok :
      {A B : Type 0} (P : B → World F → Type 0) (w : World F) (o : Option A) (e : Error)
      (f : A → Action F B)
      → ((a : A) → o ≡ some a → OnOk P (f a w))
      → OnOk P (and_then (or_raise o e w) f)
  found_ok P w none e f h = tt
  found_ok P w (some a) e f h = h a refl

  unless_ok :
      {B : Type 0} (P : B → World F → Type 0) (w : World F) (c : Bool) (e : Error)
      (f : Unit {0} → Action F B)
      → (c ≡ false → OnOk P (f tt w))
      → OnOk P (and_then (raise_if c e w) f)
  unless_ok P w true e f h = tt
  unless_ok P w false e f h = h refl

  -- Another order of the pile's queue does not come before this one: it did not enter before it, or it
  -- has no time of entry and was not submitted before it.
  abbrev pub NotBefore : Order F → Order F → Type 0
  NotBefore o x = elim x.pile_queue_entered_at [
    | some t ↦ or_else o.pile_queue_entered_at o.submit_time ≤ t
    | none ↦ o.submit_time ≤ x.submit_time
  ]

  not_earlier :
      (i : ℕ) (o x : Order F)
      → is_earlier i o x ≡ false
      → queued_on i x ≡ true
      → x.id ≢ o.id
      → NotBefore o x
  not_earlier i o x e q ne = elim (Option-cases x.pile_queue_entered_at) [
    | inl none_given ↦ rw none_given (ground arith)
    | inr (t, given) ↦ rw given (ground arith)
  ]

  none_earlier :
      (i : ℕ) (o : Order F) (os : List (Order F))
      → is_some (find_by (is_earlier i o) os) ≡ false
      → All (λ x. queued_on i x ≡ true → x.id ≢ o.id → NotBefore o x) os
  none_earlier i o [] h = tt
  none_earlier i o (x ∷ xs) h = elim (Bool-cases (is_earlier i o x)) [
    | inl e ↦ let off : true ≡ false = rw e at h in cc
    | inr e ↦ (not_earlier i o x e, none_earlier i o xs (rw e at h))
  ]

module _ {F : Type 0} ⦃fl : Float F⦄ (env : Env F) where
  -- The start of a charge: the order was in the queue of a pile that has power and is idle, nobody in
  -- that queue came before it, and the database is as the start of the charge at the pile leaves it.
  pub record IsStarted (i : ℕ) (w : World F) (s : Started) (w' : World F) : Type 0 where
    pub order : Order F
    pub pile : Pile F
    pub found_order : find_order i w.db.orders ≡ some order
    pub queued : is_queued order.status ≡ true
    pub assigned : assigned_pile_of env order w.db ≡ some pile
    pub powered : is_on pile.physical_state ≡ true
    pub idle_pile : is_idle pile.working_state ≡ true
    pub first :
        All (λ x. queued_on pile.id x ≡ true → x.id ≢ order.id → NotBefore order x) w.db.orders
    pub named : s.order_id ≡ order.id
    pub at_named : s.pile_id ≡ pile.id
    pub written : w'.db ≡ begin_charge order.id pile.id (fl.clip env.virtual_ms) w.db

  start_on_ok :
      (i : ℕ) (o : Order F) (p : Option (Pile F)) (w : World F)
      → find_order i w.db.orders ≡ some o
      → is_queued o.status ≡ true
      → assigned_pile_of env o w.db ≡ p
      → OnOk (IsStarted i w) (start_on env o p w)
  start_on_ok i o none w e q a = tt
  start_on_ok i o (some p) w e q a = unless_ok (IsStarted i w) w (not (can_start_on p)) _ _ λ ready.
      unless_ok (IsStarted i w) w (is_some (find_by (is_earlier p.id o) w.db.orders)) _ _ λ head.
        let db = begin_charge o.id p.id (fl.clip env.virtual_ms) w.db in
        let (v, es, sent) = refresh_pile_lem env.virtual_ms p.id true (record w { db = db }) in
        rw sent (record {
          order = o;
          pile = p;
          found_order = e;
          queued = q;
          assigned = a;
          powered = ground arith;
          idle_pile = ground arith;
          first = none_earlier p.id o w.db.orders head;
          named = refl;
          at_named = refl;
          written = refl;
        })

  owned_ok :
      {B : Type 0} (P : B → World F → Type 0) (w : World F) (i : ℕ) (user : Option ℕ)
      (f : Unit {0} → Action F B)
      → OnOk P (f tt w)
      → OnOk P (and_then (ensure_order_owner i user w) f)
  unfolding ensure_order_owner
  owned_ok P w i none f h = h
  owned_ok P w i (some u) f h = elim (Option-cases (find_order i w.db.orders)) [
    | inl e ↦ rw e tt
    | inr (o, e) ↦ rw e (unless_ok P w (is_stranger (some u) o.user_id) _ _ λ c. h)
  ]

  start_ok : (i : ℕ) (user : Option ℕ) (w : World F) → OnOk (IsStarted i w) (start env i user w)
  unfolding start
  start_ok i user w = owned_ok (IsStarted i w) w i user _ (
      found_ok (IsStarted i w) w (find_order i w.db.orders) _ _ λ o e.
        unless_ok (IsStarted i w) w (not (is_queued o.status)) _ _
          λ queued. start_on_ok i o (assigned_pile_of env o w.db) w e (ground arith) refl)

  -- A call of `start` that returns has started the order that it names: the order was in the queue of a
  -- pile that has power and is idle, no other order in that queue entered it before (or, without a time
  -- of entry, was submitted before), and the database is the old one with the start of the charge.
  pub start_head :
      (i : ℕ) (user : Option ℕ) (w w' : World F) (s : Started)
      → start env i user w ≡ (ok s, w')
      → IsStarted i w s w'
  start_head i user w w' s e = subst (OnOk (IsStarted i w)) e (start_ok i user w)
