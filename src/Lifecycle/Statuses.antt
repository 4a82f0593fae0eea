-- ===== src/Lifecycle/Statuses.antt =====
-- How the orders of one database come about from those of an earlier one: no order is lost, its key,
-- its user and the time of its submission stay, and its status has moved forward.
use charging_station_system.Prelude.{
  ℕ, ◌≡◌, refl, Bool, true, false, some, List, [], ◌∷◌, ◌++◌, arith, find_by, update_first,
  if◌then◌else◌, sym, subst, ◌==◌, Bool-cases, inl, inr,
}
use mathlib.Core.Option.{some-injective}
use charging_station_system.Schema.{OrderStatus, Order}
use charging_station_system.Schema.Keys.{find_order}

-- What an order can become: a waiting order anything, a queued one anything but waiting, a charging
-- one finished or aborted, and nothing an order that has ended.
abbrev pub may_become : OrderStatus → OrderStatus → Bool
may_become OrderStatus.waiting s = true
may_become OrderStatus.in_pile_queue OrderStatus.waiting = false
may_become OrderStatus.in_pile_queue s = true
may_become OrderStatus.charging OrderStatus.charging = true
may_become OrderStatus.charging OrderStatus.finished = true
may_become OrderStatus.charging OrderStatus.aborted = true
may_become OrderStatus.charging s = false
may_become OrderStatus.finished OrderStatus.finished = true
may_become OrderStatus.finished s = false
may_become OrderStatus.canceled OrderStatus.canceled = true
may_become OrderStatus.canceled s = false
may_become OrderStatus.aborted OrderStatus.aborted = true
may_become OrderStatus.aborted s = false

pub may_become_refl : (s : OrderStatus) → may_become s s ≡ true
may_become_refl OrderStatus.waiting = refl
may_become_refl OrderStatus.in_pile_queue = refl
may_become_refl OrderStatus.charging = refl
may_become_refl OrderStatus.finished = refl
may_become_refl OrderStatus.canceled = refl
may_become_refl OrderStatus.aborted = refl

pub may_become_trans :
    (a b c : OrderStatus) → may_become a b ≡ true → may_become b c ≡ true → may_become a c ≡ true
may_become_trans a b c h k = ground arith

module _ {F : Type 0} where
  pub record Later (o o' : Order F) : Type 0 where
    pub same_id : o'.id ≡ o.id
    pub same_user : o'.user_id ≡ o.user_id
    pub same_submit_time : o'.submit_time ≡ o.submit_time
    pub forward : may_become o.status o'.status ≡ true

  -- Row by row; rows may be added at the end.
  abbrev pub Evolves : List (Order F) → List (Order F) → Type 0
  Evolves [] os' = Unit
  Evolves (o ∷ os) [] = ⊥
  Evolves (o ∷ os) (o' ∷ os') = Later o o' × Evolves os os'

  pub Later-refl : (o : Order F) → Later o o
  Later-refl o = record {
    same_id = refl;
    same_user = refl;
    same_submit_time = refl;
    forward = may_become_refl o.status;
  }

  pub Later-trans : (a b c : Order F) → Later a b → Later b c → Later a c
  Later-trans a b c h k = record {
    same_id = cc;
    same_user = cc;
    same_submit_time = cc;
    forward = may_become_trans a.status b.status c.status h.forward k.forward;
  }

  pub Evolves-refl : (os : List (Order F)) → Evolves os os
  Evolves-refl [] = tt
  Evolves-refl (o ∷ os) = (Later-refl o, Evolves-refl os)

  pub Evolves-trans : (as' bs cs : List (Order F)) → Evolves as' bs → Evolves bs cs → Evolves as' cs
  Evolves-trans [] bs cs h k = tt
  Evolves-trans (a ∷ as') [] cs h k = absurd h
  Evolves-trans (a ∷ as') (b ∷ bs) [] h k = absurd k
  Evolves-trans (a ∷ as') (b ∷ bs) (c ∷ cs) (h, hs) (k, ks) =
      (Later-trans a b c h k, Evolves-trans as' bs cs hs ks)

  pub Evolves-append : (os more : List (Order F)) → Evolves os (os ++ more)
  Evolves-append [] more = tt
  Evolves-append (o ∷ os) more = (Later-refl o, Evolves-append os more)

  -- An update of the row that is found, if that row moves forward.
  pub Evolves-update_first :
      (t : Order F → Bool) (f : Order F → Order F) (os : List (Order F)) (o : Order F)
      → find_by t os ≡ some o
      → Later o (f o)
      → Evolves os (update_first t f os)
  Evolves-update_first t f [] o e h = tt
  Evolves-update_first t f (x ∷ xs) o e h = go (t x) e (Evolves-update_first t f xs o)
    where
      go :
          (b : Bool)
          → (if b then some x else find_by t xs) ≡ some o
          → (find_by t xs ≡ some o → Later o (f o) → Evolves xs (update_first t f xs))
          → Evolves (x ∷ xs) (if b then f x ∷ xs else x ∷ update_first t f xs)
      go true e' rest =
          (subst (λ y. Later y (f y)) (sym (some-injective _ _ e')) h, Evolves-refl xs)
      go false e' rest = (Later-refl x, rest e' h)

  -- An order that is found is found later on.
  pub found-Later :
      (i : ℕ) (os os' : List (Order F)) (o : Order F)
      → Evolves os os'
      → find_order i os ≡ some o
      → (o' : Order F) × (find_order i os' ≡ some o') × Later o o'
  found-Later i [] os' o h e = cc
  found-Later i (x ∷ xs) [] o h e = absurd h
  found-Later i (x ∷ xs) (y ∷ ys) o (h, hs) e = elim (Bool-cases (x.id == i)) [
    | inl here ↦
        let is = some-injective x o (rw here at e) in
        let there : (y.id == i) ≡ true = rw h.same_id here in
        (y, rw there refl, subst (λ z. Later z y) is h)
    | inr other ↦
        let there : (y.id == i) ≡ false = rw h.same_id other in
        let (o', e', later) = found-Later i xs ys o hs (rw other at e) in (o', rw there e', later)
  ]
