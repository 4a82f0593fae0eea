-- ===== src/QueueNumber/Decimal.antt =====
-- The decimal text of a queue number, as it is printed and read.
use charging_station_system.Prelude.{
  ℕ, zero, suc, ◌+◌, ◌-◌, ◌*◌, ◌/◌, ◌%◌, ◌≤◌, ◌<◌, ◌≡◌, true, List, [], ◌∷◌, arith, All, foldl,
  filter_by, ltb, inl, inr, Bool-cases, ap, ◌∙◌, max,
}
use charging_station_system.Schema.{ChargeMode, fast, slow, Codes}
use charging_station_system.QueueNumber.{
  is_digit, push_digit, queue_number, digits_before, decimal, prefix_of, greatest_number,
  next_number,
}

abbrev value : ℕ → Codes → ℕ
value acc text = foldl push_digit acc (filter_by is_digit text)

value_digit :
    (acc d : ℕ) (rest : Codes) → d < 10 → value acc ((b'0' + d) ∷ rest) ≡ value (acc * 10 + d) rest
value_digit acc d rest small =
    let digit : is_digit (b'0' + d) ≡ true = ground arith in
    let back : acc * 10 + (b'0' + d - b'0') ≡ acc * 10 + d = omega arith in
    rw digit (ap (λ k. value k rest) back)

value-digits_before :
    (fuel n : ℕ) (rest : Codes) → n < fuel → value 0 (digits_before fuel n rest) ≡ value n rest
unfolding digits_before
value-digits_before zero n rest h = absurd (omega arith)
value-digits_before (suc fuel) n rest h = elim (Bool-cases (ltb n 10)) [
  | inl small ↦
      let alone : 0 * 10 + n ≡ n = omega arith in
      rw small (value_digit 0 n rest (ground arith) ∙ ap (λ k. value k rest) alone)
  | inr more ↦
      let shorter = value-digits_before fuel (n / 10) ((b'0' + n % 10) ∷ rest) (ground arith) in
      let last = value_digit (n / 10) (n % 10) rest (omega arith) in
      let whole : n / 10 * 10 + n % 10 ≡ n = omega arith in
      rw more (shorter ∙ last ∙ ap (λ k. value k rest) whole)
]

-- Reading a number that was printed behind a mode's prefix gives the number back.
pub queue_number-decimal :
    (mode : ChargeMode) (n : ℕ) → queue_number (prefix_of mode ∷ decimal n) ≡ n
unfolding queue_number decimal
queue_number-decimal fast n = value-digits_before (suc n) n [] (omega arith)
queue_number-decimal slow n = value-digits_before (suc n) n [] (omega arith)

abbrev greatest_from : ℕ → List Codes → ℕ
greatest_from = foldl (λ current text. max current (queue_number text))

greatest_from-le : (k : ℕ) (used : List Codes) → k ≤ greatest_from k used
greatest_from-le k [] = omega arith
greatest_from-le k (t ∷ ts) = omega (arith, greatest_from-le (max k (queue_number t)) ts)

le-greatest_from :
    (k : ℕ) (used : List Codes) → All (λ t. queue_number t ≤ greatest_from k used) used
le-greatest_from k [] = tt
le-greatest_from k (t ∷ ts) = (
  omega (arith, greatest_from-le (max k (queue_number t)) ts),
  le-greatest_from (max k (queue_number t)) ts,
)

All-below :
    (n : ℕ) (used : List Codes)
    → All (λ t. queue_number t ≤ n) used
    → All (λ t. queue_number t < n + 1) used
All-below n [] h = tt
All-below n (t ∷ ts) (h, hs) = (omega arith, All-below n ts hs)

-- The next queue number reads as more than every number in use.
pub next_number_above :
    (mode : ChargeMode) (used : List Codes)
    → All (λ t. queue_number t < queue_number (next_number mode used)) used
unfolding next_number greatest_number
next_number_above mode used =
    rw (queue_number-decimal mode (greatest_from 0 used + 1))
      (All-below (greatest_from 0 used) used (le-greatest_from 0 used))
