-- ===== src/Billing/Tariff/Uniform.antt =====
-- The tariff of billing.service.ts between a moment and the next rule boundary.
use charging_station_system.Prelude.{
  ℕ, ◌+◌, ◌/◌, ◌≤◌, ◌<◌, ◌≡◌, refl, ◌⊎◌, inl, inr, List, [], ◌∷◌, arith, All, find_by,
}
use charging_station_system.Float.{Float}
use charging_station_system.Schema.{BillingRule}
use charging_station_system.Billing.Tariff.{
  day_ms, minute_of_day, boundary_after, boundaries, next_rule_boundary, minute_in_rule, price_at,
}
use charging_station_system.Billing.Tariff.Boundary.{next_rule_boundary-le}

-- Both minutes of the rule lie in a day: 1440 is midnight at its end.
pub record InDay {F : Type 0} (r : BillingRule F) : Type 0 where
  pub starts : r.start_minute ≤ 1440
  pub ends : r.end_minute ≤ 1440

-- What two minutes are to a boundary that does not fall between their moments: they are on the same
-- side, or midnight lies between and the minute went from above the boundary to below it.
abbrev SameSide : ℕ → ℕ → ℕ → Type 0
SameSide m m' b = ((b ≤ m) × (b ≤ m')) ⊎ ((m < b) × (m' < b))

abbrev Wraps : ℕ → ℕ → ℕ → Type 0
Wraps m m' b = (b ≤ m) × (m' < b)

module _ (zone t t' : ℕ) (le : t ≤ t') where
  same_day :
      (b : ℕ)
      → (t + zone) / day_ms ≡ (t' + zone) / day_ms
      → t' < boundary_after zone t b
      → SameSide (minute_of_day zone t) (minute_of_day zone t') b
  unfolding boundary_after minute_of_day
  same_day b same lt = ground arith

  next_day :
      (b : ℕ)
      → b ≤ 1440
      → (t + zone) / day_ms < (t' + zone) / day_ms
      → t' < boundary_after zone t b
      → Wraps (minute_of_day zone t) (minute_of_day zone t') b
  unfolding boundary_after minute_of_day
  next_day b small later lt = ground arith

le_cases : (a b : ℕ) → a ≤ b → (a ≡ b) ⊎ (a < b)
le_cases a b h = ground arith

module _ {F : Type 0} where
  SameSide-rule :
      (m m' : ℕ) (r : BillingRule F)
      → SameSide m m' r.start_minute
      → SameSide m m' r.end_minute
      → minute_in_rule m' r ≡ minute_in_rule m r
  unfolding minute_in_rule
  SameSide-rule m m' r s e = ground arith

  Wraps-rule :
      (m m' : ℕ) (r : BillingRule F)
      → Wraps m m' r.start_minute
      → Wraps m m' r.end_minute
      → minute_in_rule m' r ≡ minute_in_rule m r
  unfolding minute_in_rule
  Wraps-rule m m' r s e = ground arith

  module _ (zone t t' : ℕ) (le : t ≤ t') where
    same_rule :
        (r : BillingRule F)
        → InDay r
        → t' < boundary_after zone t r.start_minute
        → t' < boundary_after zone t r.end_minute
        → minute_in_rule (minute_of_day zone t') r ≡ minute_in_rule (minute_of_day zone t) r
    same_rule r d s e = elim (le_cases ((t + zone) / day_ms) ((t' + zone) / day_ms) (omega arith)) [
      | inl same ↦
          SameSide-rule _ _ r (same_day zone t t' le _ same s) (same_day zone t t' le _ same e)
      | inr later ↦
          Wraps-rule _ _ r (next_day zone t t' le _ d.starts later s)
            (next_day zone t t' le _ d.ends later e)
    ]

    same_find :
        (rules : List (BillingRule F))
        → All InDay rules
        → All (λ b. t' < boundary_after zone t b) (boundaries rules)
        → find_by (minute_in_rule (minute_of_day zone t')) rules
          ≡ find_by (minute_in_rule (minute_of_day zone t)) rules
    same_find [] d h = refl
    same_find (r ∷ rs) (d, ds) (s, (e, h)) = rw (same_rule r d s e, same_find rs ds h) refl

lt-All :
    {k : ℕ} (n : ℕ) (f : ℕ → ℕ) (xs : List ℕ)
    → k < n
    → All (λ b. n ≤ f b) xs
    → All (λ b. k < f b) xs
lt-All n f [] lt h = tt
lt-All n f (x ∷ xs) lt (h, hs) = (omega arith, lt-All n f xs lt hs)

-- The price stays the same from a moment to the next rule boundary.
pub price_at_uniform :
    {F : Type 0} ⦃fl : Float F⦄ (zone t t' : ℕ) (rules : List (BillingRule F))
    → All InDay rules
    → t ≤ t'
    → t' < next_rule_boundary zone t rules
    → price_at zone t' rules ≡ price_at zone t rules
unfolding price_at
price_at_uniform zone t t' rules d le lt =
    let h =
      lt-All _ (boundary_after zone t) (boundaries rules) lt (next_rule_boundary-le zone t rules) in
    rw (same_find zone t t' le rules d h, price_at) refl
