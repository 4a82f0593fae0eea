-- ===== src/Billing/Tariff/Boundary.antt =====
-- The next rule boundary as the least of the boundaries after a moment.
use charging_station_system.Prelude.{
  ℕ, suc, ◌+◌, ◌≤◌, ◌<◌, ◌≡◌, Option, none, some, List, [], ◌∷◌, map, arith, compare, least, lesser,
  head?-sort_by, or_else, All, ap,
}
use charging_station_system.Schema.{BillingRule}
use charging_station_system.Billing.Tariff.{boundary_after, boundaries, next_rule_boundary}

-- A boundary after a moment is later, by at most a day unless it is past midnight already.
pub boundary_after_later : (zone t b : ℕ) → t < boundary_after zone t b
unfolding boundary_after
boundary_after_later zone t b = ground arith

-- Every number in the option is at least `m`.
abbrev AtLeast : ℕ → Option ℕ → Type 0
AtLeast m none = Unit
AtLeast m (some y) = m ≤ y

AtLeast-lesser : (m x : ℕ) (o : Option ℕ) → m ≤ lesser compare x o → (m ≤ x) × AtLeast m o
AtLeast-lesser m x none h = (h, tt)
AtLeast-lesser m x (some y) h = ground arith

lesser-AtLeast : (m x : ℕ) (o : Option ℕ) → m ≤ x → AtLeast m o → m ≤ lesser compare x o
lesser-AtLeast m x none h k = h
lesser-AtLeast m x (some y) h k = ground arith

least-le : (m : ℕ) (xs : List ℕ) → AtLeast m (least compare xs) → All (λ x. m ≤ x) xs
least-le m [] h = tt
least-le m (x ∷ xs) h =
    let (first, rest) = AtLeast-lesser m x (least compare xs) h in (first, least-le m xs rest)

le-least : (m : ℕ) (xs : List ℕ) → All (λ x. m ≤ x) xs → AtLeast m (least compare xs)
le-least m [] h = tt
le-least m (x ∷ xs) (first, rest) = lesser-AtLeast m x (least compare xs) first (le-least m xs rest)

All-map : (P : ℕ → Type 0) (f : ℕ → ℕ) (xs : List ℕ) → All P (map f xs) → All (λ x. P (f x)) xs
All-map P f [] h = tt
All-map P f (x ∷ xs) (first, rest) = (first, All-map P f xs rest)

map-le : (t : ℕ) (f : ℕ → ℕ) → ((x : ℕ) → t < f x) → (xs : List ℕ) → All (λ x. t < x) (map f xs)
map-le t f h [] = tt
map-le t f h (x ∷ xs) = (h x, map-le t f h xs)

module _ {F : Type 0} where
  abbrev candidates : ℕ → ℕ → List (BillingRule F) → List ℕ
  candidates zone t rules = map (boundary_after zone t) (boundaries rules)

  next_rule_boundary-least :
      (zone t : ℕ) (rules : List (BillingRule F))
      → next_rule_boundary zone t rules
        ≡ or_else (least compare (candidates zone t rules)) (t + 3_600_000)
  unfolding next_rule_boundary
  next_rule_boundary-least zone t rules =
      ap (λ o. or_else o (t + 3_600_000)) (head?-sort_by compare (candidates zone t rules))

  -- No boundary after `t` comes before the next one.
  pub next_rule_boundary-le :
      (zone t : ℕ) (rules : List (BillingRule F))
      → All (λ b. next_rule_boundary zone t rules ≤ boundary_after zone t b) (boundaries rules)
  next_rule_boundary-le zone t [] = tt
  next_rule_boundary-le zone t (r ∷ rs) =
      let next = next_rule_boundary zone t (r ∷ rs) in
      All-map (λ x. next ≤ x) _ (boundaries (r ∷ rs))
        (least-le next (candidates zone t (r ∷ rs))
          (omega (arith, next_rule_boundary-least zone t (r ∷ rs))))

  pub next_rule_boundary_later :
      (zone t : ℕ) (rules : List (BillingRule F)) → t < next_rule_boundary zone t rules
  next_rule_boundary_later zone t [] = omega (arith, next_rule_boundary-least zone t [])
  next_rule_boundary_later zone t (r ∷ rs) =
      let bs = boundaries (r ∷ rs) in
      let later =
        le-least (suc t) (candidates zone t (r ∷ rs))
          (map-le t _ (boundary_after_later zone t) bs) in
      omega (arith, next_rule_boundary-least zone t (r ∷ rs), later)
