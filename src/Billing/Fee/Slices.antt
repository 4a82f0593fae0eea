-- ===== src/Billing/Fee/Slices.antt =====
-- The slices into which `calculateChargeFee` of billing.service.ts cuts the charged interval.
use charging_station_system.Prelude.{
  ℕ, zero, suc, ◌+◌, ◌-◌, ◌≤◌, ◌<◌, ◌≡◌, refl, true, false, List, [], ◌∷◌, ltb, ◌==◌, inl, inr, max,
  min, arith, foldl, All, Bool-cases,
}
use charging_station_system.Float.{Float, nat, ◌⊕◌, ◌⊗◌, round_to}
use charging_station_system.Schema.{BillingRule}
use charging_station_system.Billing.Tariff.{next_rule_boundary, price_at}
use charging_station_system.Billing.Tariff.Boundary.{next_rule_boundary_later}
use charging_station_system.Billing.Tariff.Uniform.{InDay, price_at_uniform}
use charging_station_system.Billing.Fee.{slice_fee, charge_loop, calculate_charge_fee}

pub record Slice (F : Type 0) : Type 0 where
  pub begin : ℕ
  pub end : ℕ
  pub price : F

-- The slices follow one another without gap or overlap, none is empty, and they end at `stop`.
abbrev pub Tiles : {F : Type 0} → ℕ → List (Slice F) → ℕ → Type 0
Tiles start [] stop = start ≡ stop
Tiles start (s ∷ ss) stop = (s.begin ≡ start) × (s.begin < s.end) × Tiles s.end ss stop

module _ {F : Type 0} ⦃fl : Float F⦄ where
  -- At every moment of the slice the tariff has the slice's price.
  abbrev pub IsUniform : ℕ → List (BillingRule F) → Slice F → Type 0
  IsUniform zone rules s = (t : ℕ) → s.begin ≤ t → t < s.end → price_at zone t rules ≡ s.price

  abbrev pub add_slice : F → ℕ → F → Slice F → F
  add_slice amount duration_ms fee s = fee ⊕ slice_fee amount duration_ms s.begin s.end s.price

  module _ (zone : ℕ) (amount : F) (rules : List (BillingRule F)) (duration_ms stop : ℕ) where
    abbrev Billed : ℕ → F → ℕ → Type 0
    Billed fuel fee cursor =
        (ss : List (Slice F)) × Tiles cursor ss stop
        × All (IsUniform zone rules) ss
        × (charge_loop zone amount rules duration_ms stop fuel cursor fee
            ≡ (stop, foldl (add_slice amount duration_ms) fee ss))

    charge_loop-Billed :
        All InDay rules
        → (fuel cursor : ℕ) (fee : F) → cursor ≤ stop
        → stop ≤ cursor + fuel
        → Billed fuel fee cursor
    unfolding charge_loop
    charge_loop-Billed d zero cursor fee le enough =
        let done : cursor ≡ stop = omega arith in ([], done, tt, rw done)
    charge_loop-Billed d (suc fuel) cursor fee le enough = elim (Bool-cases (ltb cursor stop)) [
      | inl more ↦
          let later = next_rule_boundary_later zone cursor rules in
          let next = min stop (next_rule_boundary zone cursor rules) in
          let slice : Slice F = record {
            begin = cursor;
            end = next;
            price = price_at zone cursor rules;
          } in
          let (ss, tiles, uniform, e) =
            charge_loop-Billed d fuel next (add_slice amount duration_ms fee slice) (omega arith)
              (ground arith) in
          (
            slice ∷ ss,
            (refl, ground arith, tiles),
            ((λ t from below. price_at_uniform zone cursor t rules d from (omega arith)), uniform),
            rw (more, charge_loop) e,
          )
      | inr done ↦ ([], ground arith, tt, rw (done, charge_loop) (ground arith))
    ]

  -- With well-formed rules, the fee of a charge that ends after it starts is a sum over slices that
  -- tile the charged interval: each slice contributes its share of the energy at its price, the
  -- tariff has that price at every moment of the slice, and only the sum is rounded. The loop has
  -- run to the end of the interval.
  pub calculate_charge_fee_slices :
      (zone start stop : ℕ) (amount : F) (rules : List (BillingRule F))
      → All InDay rules
      → start < stop
      → (ss : List (Slice F)) × Tiles start ss stop
        × All (IsUniform zone rules) ss
        × (calculate_charge_fee zone start stop amount rules
            ≡ round_to 100 (foldl (add_slice amount (stop - start)) (nat 0) ss))
  unfolding calculate_charge_fee
  calculate_charge_fee_slices zone start stop amount rules d lt =
      let (ss, tiles, uniform, e) =
        charge_loop-Billed zone amount rules (stop - start) stop d (stop - start) start (nat 0)
          (omega arith) (omega arith) in
      let whole : max 1 (stop - start) ≡ stop - start = omega arith in
      let moved : (stop == start) ≡ false = ground arith in
      (ss, tiles, uniform, rw (whole, e, moved) refl)

  -- A charge that ends when it starts, or before, is billed as a whole at the price of its start.
  pub calculate_charge_fee_instant :
      (zone start stop : ℕ) (amount : F) (rules : List (BillingRule F))
      → stop ≤ start
      → calculate_charge_fee zone start stop amount rules
        ≡ round_to 100 (amount ⊗ price_at zone start rules)
  unfolding calculate_charge_fee charge_loop
  calculate_charge_fee_instant zone start stop amount rules le =
      let none_left : stop - start ≡ 0 = omega arith in
      let same : (start == start) ≡ true = ground arith in rw (none_left, same) refl
