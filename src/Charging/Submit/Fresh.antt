-- ===== src/Charging/Submit/Fresh.antt =====
-- The number that `nextQueueNo` of charging.service.ts gives, against the numbers in use.
use charging_station_system.Prelude.{
  eq_codes→≡, ◌≡◌, ◌<◌, refl, Bool, true, false, ◌&&◌, none, List, [], ◌∷◌, arith, All, find_by,
  inl, inr, Bool-cases, ap, subst, eq_codes,
}
use charging_station_system.Schema.{ChargeMode, fast, slow, eq_mode, Codes, Order, Db}
use charging_station_system.QueueNumber.{queue_number, prefix_of, starts_with, next_number}
use charging_station_system.QueueNumber.Decimal.{next_number_above}
use charging_station_system.Charging.Submit.{numbers_in_use, next_queue_no, number_taken}

next_number_own :
    (mode : ChargeMode) (used : List Codes)
    → starts_with (prefix_of mode) (next_number mode used) ≡ true
unfolding next_number
next_number_own fast used = refl
next_number_own slow used = refl

same_prefix :
    (m m' : ChargeMode) (t : Codes)
    → starts_with (prefix_of m) t ≡ true
    → starts_with (prefix_of m') t ≡ true
    → eq_mode m m' ≡ true
same_prefix fast fast t h k = refl
same_prefix slow slow t h k = refl
same_prefix fast slow [] h k = ground arith
same_prefix fast slow (c ∷ t) h k = ground arith
same_prefix slow fast [] h k = ground arith
same_prefix slow fast (c ∷ t) h k = ground arith

counts_own :
    (mode m : ChargeMode) (t : Codes)
    → starts_with (prefix_of m) t ≡ true
    → eq_mode m mode ≡ true
    → starts_with (prefix_of mode) t ≡ true
counts_own fast fast t h k = h
counts_own slow slow t h k = h
counts_own fast slow t h k = ground arith
counts_own slow fast t h k = ground arith

module _ {F : Type 0} where
  -- The queue number of an order begins with the prefix of its mode.
  abbrev pub IsNumbered : Order F → Type 0
  IsNumbered o = starts_with (prefix_of o.charge_mode) o.queue_no ≡ true

  abbrev counts : ChargeMode → Order F → Bool
  counts mode o = eq_mode o.charge_mode mode && starts_with (prefix_of mode) o.queue_no

  module _ (mode : ChargeMode) (number : Codes)
      (own : starts_with (prefix_of mode) number ≡ true) where
    free_of :
        (o : Order F)
        → IsNumbered o
        → (counts mode o ≡ true → queue_number o.queue_no < queue_number number)
        → eq_codes o.queue_no number ≡ false
    free_of o p h = elim (Bool-cases (eq_codes o.queue_no number)) [
      | inr different ↦ different
      | inl equal ↦
          let same = eq_codes→≡ o.queue_no number equal in
          let m =
            same_prefix o.charge_mode mode number
              (subst (λ t. starts_with (prefix_of o.charge_mode) t ≡ true) same p) own in
          let below = h (rw m (counts_own mode o.charge_mode o.queue_no p m)) in
          absurd (omega (arith, below, ap queue_number same))
    ]

    All-free :
        (os : List (Order F))
        → All IsNumbered os
        → All (λ t. queue_number t < queue_number number) (numbers_in_use mode os)
        → find_by (λ o. eq_codes o.queue_no number) os ≡ none
    All-free [] p h = refl
    All-free (o ∷ os) (p, ps) h = elim (Bool-cases (counts mode o)) [
      | inl c ↦ let k = rw c at h in rw (free_of o p (λ _. k.0)) (All-free os ps k.1)
      | inr c ↦ let k = rw c at h in rw (free_of o p (λ e. cc)) (All-free os ps k)
    ]

  -- Where the number of every order begins with the prefix of its mode, no order has the number that
  -- is given out next.
  pub next_queue_no_free :
      (mode : ChargeMode) (db : Db F)
      → All IsNumbered db.orders
      → number_taken (next_queue_no mode db) db.orders ≡ false
  unfolding next_queue_no
  next_queue_no_free mode db p =
      let used = numbers_in_use mode db.orders in
      rw
        (All-free mode (next_number mode used) (next_number_own mode used) db.orders p
          (next_number_above mode used))
        refl
