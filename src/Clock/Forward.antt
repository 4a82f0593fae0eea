-- ===== src/Clock/Forward.antt =====
-- The virtual time goes forward, whatever the speed is set to.
use charging_station_system.Prelude.{
  ℕ, ◌-◌, ◌*◌, ltb, ◌/◌, ◌≤◌, ◌≡◌, ◌⊎◌, inl, inr, sym, subst, refl, true, false, List, [], ◌∷◌,
  arith, Bool-cases,
}
use native.Mathlib.Nat.{mul-le-mul_right, le_trans}
use charging_station_system.Float.{
  Float, nat, less, at_least, ◌⊕◌, ◌⊖◌, ◌⊗◌, ◌⊘◌, fixed_float, unit,
}
use charging_station_system.Clock.{
  ClockState, virtual_now_ms, clamped, or_one, set_clock_speed, set_clock_speed_handler, change_all,
}

-- A moment that a `Date` can hold.
abbrev pub IsMoment : ℕ → Type 0
IsMoment t = t ≤ 8_640_000_000_000_000

module _ {F : Type 0} ⦃fl : Float F⦄ where
  -- Not NaN, which is not `>=` itself.
  abbrev pub IsNumber : F → Type 0
  IsNumber x = at_least x x ≡ true

  -- The number is not below 0.1 and not above 100.
  abbrev pub IsSpeed : F → Type 0
  IsSpeed s = IsNumber s × (less s (nat 1 ⊘ nat 10) ≡ false) × (less (nat 100) s ≡ false)

-- What the theorem assumes of the arithmetic on doubles, NaN included: only numbers compare as less, and
-- "not less" is transitive through a number; moments and 0.1 are numbers; the least and the greatest
-- of two numbers is one of them, and not above, or below, the first; differences of moments, products with
-- a speed and sums keep the order; and no time passed does not put back a number, which time passed
-- at a speed keeps a number.
pub record IsClockArithmetic (F : Type 0) ⦃fl : Float F⦄ : Type 0 where
  pub less_numbers : (a b : F) → less a b ≡ true → IsNumber a × IsNumber b
  pub not_less_trans :
      (a b c : F) → IsNumber b → less c b ≡ false → less b a ≡ false → less c a ≡ false
  pub moments : (t : ℕ) → IsMoment t → IsNumber {F = F} (nat t)
  pub tenth : IsNumber {F = F} (nat 1 ⊘ nat 10)
  pub tenth_below : fl.less (nat 100) (nat 1 ⊘ nat 10) ≡ false
  pub least_one :
      (a b : F) → IsNumber a → IsNumber b → (fl.math_min a b ≡ a) ⊎ (fl.math_min a b ≡ b)
  pub least : (a b : F) → IsNumber a → IsNumber b → less a (fl.math_min a b) ≡ false
  pub greatest_one :
      (a b : F) → IsNumber a → IsNumber b → (fl.math_max a b ≡ a) ⊎ (fl.math_max a b ≡ b)
  pub greatest : (a b : F) → IsNumber a → IsNumber b → less (fl.math_max a b) a ≡ false
  pub minus_mono :
      (base t t' : ℕ)
      → base ≤ t
      → t ≤ t'
      → IsMoment t'
      → fl.less (nat t' ⊖ nat base) (nat t ⊖ nat base) ≡ false
  pub times_mono :
      (a b speed : F) → IsSpeed speed → less b a ≡ false → less (b ⊗ speed) (a ⊗ speed) ≡ false
  pub plus_mono : (x a b : F) → less b a ≡ false → less (x ⊕ b) (x ⊕ a) ≡ false
  pub stands :
      (x speed : F) (t : ℕ)
      → IsSpeed speed
      → IsMoment t
      → less (x ⊕ (nat t ⊖ nat t) ⊗ speed) x ≡ false
  pub keeps_number :
      (x speed : F) (base t : ℕ)
      → IsNumber x
      → IsSpeed speed
      → base ≤ t
      → IsMoment t
      → IsNumber (x ⊕ (nat t ⊖ nat base) ⊗ speed)

-- The times follow one another from the first time to the last.
abbrev pub Between : {F : Type 0} → ℕ → List (ℕ × F) → ℕ → Type 0
Between t [] last = t ≤ last
Between t ((now, speed) ∷ changes) last = (t ≤ now) × Between now changes last

Between-≤ :
    {F : Type 0} (t : ℕ) (changes : List (ℕ × F)) (last : ℕ) → Between t changes last → t ≤ last
Between-≤ t [] last h = h
Between-≤ t ((now, speed) ∷ changes) last (h, hs) = le_trans h (Between-≤ now changes last hs)

module _ {F : Type 0} ⦃fl : Float F⦄ (laws : IsClockArithmetic F) where
  one_of : (P : F → Type 0) (a b c : F) → (c ≡ a) ⊎ (c ≡ b) → P a → P b → P c
  one_of P a b c (inl e) h k = subst P (sym e) h
  one_of P a b c (inr e) h k = subst P (sym e) k

  or_one-IsNumber : (speed : F) → IsNumber (or_one speed)
  or_one-IsNumber speed = elim (Bool-cases (less (nat 0) speed)) [
    | inl above ↦ rw above (laws.less_numbers (nat 0) speed above).1
    | inr e ↦ elim (Bool-cases (less speed (nat 0))) [
      | inl below ↦ rw e (rw below (laws.less_numbers speed (nat 0) below).0)
      | inr e' ↦ rw e (rw e' (laws.moments 1 (omega arith)))
    ]
  ]

  clamped-IsSpeed : (speed : F) → IsNumber speed → IsSpeed (clamped speed)
  clamped-IsSpeed speed h =
      let hundred = laws.moments 100 (omega arith) in
      let m = fl.math_min (nat 100) speed in
      let number : IsNumber m =
        one_of IsNumber (nat 100) speed m (laws.least_one (nat 100) speed hundred h) hundred h in
      let which = laws.greatest_one (nat 1 ⊘ nat 10) m laws.tenth number in
      (
        one_of IsNumber _ m _ which laws.tenth number,
        laws.greatest (nat 1 ⊘ nat 10) m laws.tenth number,
        one_of (λ r. less (nat 100) r ≡ false) _ m _ which laws.tenth_below
            (laws.least (nat 100) speed hundred h),
      )

  -- The clock has run since its last change: at a speed between 0.1 and 100, from a number.
  abbrev pub IsRunning : ℕ → ClockState F → Type 0
  IsRunning t c = (c.base_real_ms ≤ t) × IsNumber c.base_virtual_ms × IsSpeed c.clock_speed

  forward :
      (t t' : ℕ) (c : ClockState F)
      → IsRunning t c
      → t ≤ t'
      → IsMoment t'
      → less (virtual_now_ms t' c) (virtual_now_ms t c) ≡ false
  unfolding virtual_now_ms
  forward t t' c (since, number, speed) order moment = laws.plus_mono c.base_virtual_ms _ _ (
      laws.times_mono _ _ c.clock_speed speed
        (laws.minus_mono c.base_real_ms t t' since order moment))

  now-IsNumber :
      (t : ℕ) (c : ClockState F) → IsRunning t c → IsMoment t → IsNumber (virtual_now_ms t c)
  unfolding virtual_now_ms
  now-IsNumber t c (since, number, speed) moment =
      laws.keeps_number c.base_virtual_ms c.clock_speed c.base_real_ms t number speed since moment

  -- A request for a new speed leaves the clock running, and does not put it back.
  change_lem :
      (now : ℕ) (speed : F) (c : ClockState F)
      → IsRunning now c
      → IsMoment now
      → let c' = (set_clock_speed_handler now speed c).1 in
        IsRunning now c' × (less (virtual_now_ms now c') (virtual_now_ms now c) ≡ false)
  unfolding virtual_now_ms set_clock_speed_handler set_clock_speed
  change_lem now speed c running moment =
      let asked = clamped-IsSpeed (or_one speed) (or_one-IsNumber speed) in
      let set = clamped-IsSpeed (clamped (or_one speed)) asked.0 in
      (
        (omega arith, now-IsNumber now c running moment, set),
        laws.stands _ (clamped (clamped (or_one speed))) now set moment,
      )

  -- For times that follow one another up to the last that a `Date` can hold, and a clock that runs from
  -- a number at a speed between 0.1 and 100: however often and to whatever the speed is changed by
  -- requests, NaN included, the virtual time that is read afterwards is not less than one read before,
  -- and the clock goes on running so.
  pub change_all-forward :
      (changes : List (ℕ × F)) (t last : ℕ) (c : ClockState F)
      → IsRunning t c
      → Between t changes last
      → IsMoment last
      → (less (virtual_now_ms last (change_all changes c)) (virtual_now_ms t c) ≡ false)
        × IsRunning last (change_all changes c)
  unfolding change_all
  change_all-forward [] t last c running order moment =
      (forward t last c running order moment, (le_trans running.0 order, running.1, running.2))
  change_all-forward ((now, speed) ∷ changes) t last c running (order, rest) moment =
      let c' = (set_clock_speed_handler now speed c).1 in
      let present : IsMoment now = le_trans (Between-≤ now changes last rest) moment in
      let at_now : IsRunning now c = (le_trans running.0 order, running.1, running.2) in
      let (running', kept) = change_lem now speed c at_now present in
      let (later, going) = change_all-forward changes now last c' running' rest moment in
      let since = forward t now c running order present in
      let to_new =
        laws.not_less_trans _ _ (virtual_now_ms now c') (now-IsNumber now c at_now present) kept
          since in
      (laws.not_less_trans _ _ _ (now-IsNumber now c' running' present) later to_new, going)

no_time : (t : ℕ) → t * unit - t * unit ≡ 0
no_time t = omega arith

no_less_product :
    (a b speed : ℕ) → ltb b a ≡ false → ltb (b * speed / unit) (a * speed / unit) ≡ false
no_less_product a b speed h =
    let order : a * speed ≤ b * speed = mul-le-mul_right speed (ground arith) in ground arith

pub fixed-IsClockArithmetic : IsClockArithmetic ℕ
fixed-IsClockArithmetic = record {
  less_numbers = λ a b h. ground arith;
  not_less_trans = λ a b c number h k. ground arith;
  moments = λ t h. ground arith;
  tenth = refl;
  tenth_below = refl;
  least_one = λ a b h k. ground arith;
  least = λ a b h k. ground arith;
  greatest_one = λ a b h k. ground arith;
  greatest = λ a b h k. ground arith;
  minus_mono = λ base t t' since order moment. ground arith;
  times_mono = λ a b speed h order. no_less_product a b speed order;
  plus_mono = λ x a b order. ground arith;
  stands = λ x speed t h moment. rw (no_time t) (ground arith);
  keeps_number = λ x speed base t number h since moment. ground arith;
}
