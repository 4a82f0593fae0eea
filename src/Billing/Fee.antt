-- ===== src/Billing/Fee.antt =====
-- `calculateChargeFee` of billing.service.ts: the charged interval is cut at the rule boundaries,
-- and each slice is billed at the price of its first moment.
pub mod Slices
use charging_station_system.Prelude.{
  ℕ, zero, suc, ◌+◌, ◌-◌, Bool, true, false, List, ltb, ◌==◌, if◌then◌else◌, max, min,
}
use charging_station_system.Float.{Float, nat, ◌⊕◌, ◌⊗◌, ◌⊘◌, round_to}
use charging_station_system.Schema.{BillingRule}
use charging_station_system.Billing.Tariff.{next_rule_boundary, price_at}

module _ {F : Type 0} ⦃fl : Float F⦄ where
  -- What the slice from `cursor` to `next` adds.
  unfoldable pub slice_fee : F → ℕ → ℕ → ℕ → F → F
  slice_fee amount duration_ms cursor next price =
      (amount ⊗ (nat (next - cursor) ⊘ nat duration_ms)) ⊗ price

  module _ (zone : ℕ) (amount : F) (rules : List (BillingRule F)) (duration_ms stop : ℕ) where
    -- The `while` loop, on fuel; the result is the cursor and the fee.
    unfoldable pub charge_loop : ℕ → ℕ → F → ℕ × F
    charge_loop zero cursor fee = (cursor, fee)
    charge_loop (suc fuel) cursor fee = elim (ltb cursor stop) [
      | true ↦
          let next = min stop (next_rule_boundary zone cursor rules) in
          charge_loop fuel next
            (fee ⊕ slice_fee amount duration_ms cursor next (price_at zone cursor rules))
      | false ↦ (cursor, fee)
    ]

  unfoldable pub calculate_charge_fee : ℕ → ℕ → ℕ → F → List (BillingRule F) → F
  calculate_charge_fee zone start stop amount rules =
      let (cursor, fee) =
        charge_loop zone amount rules (max 1 (stop - start)) stop (stop - start) start (nat 0) in
      round_to 100 (if cursor == start then amount ⊗ price_at zone start rules else fee)
