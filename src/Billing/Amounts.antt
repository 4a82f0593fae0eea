-- ===== src/Billing/Amounts.antt =====
-- The quantities of a bill in billing.service.ts: what a session delivered, how long it lasted, and
-- what the earlier sessions of the order add.
use charging_station_system.Prelude.{
  ℕ, Bool, ◌&&◌, ◌==◌, Option, none, some, List, [], ◌∷◌, foldl, if◌then◌else◌, head?, filter_by,
  sort_by, compare,
}
use charging_station_system.Float.{Float, nat, ◌⊕◌, ◌⊖◌, ◌⊗◌, positive, round_to, hours_of}
use charging_station_system.Schema.{Session, BillingRule}
use charging_station_system.Billing.Tariff.{default_rules}
use charging_station_system.Billing.Fee.{calculate_charge_fee}

-- An earlier session that counts: it has a stop time and a positive amount.
pub record Past (F : Type 0) : Type 0 where
  pub begin : ℕ
  pub end : ℕ
  pub amount : F

module _ {F : Type 0} ⦃fl : Float F⦄ where
  abbrev delivered_by : F → ℕ → ℕ → F
  delivered_by power start stop = fl.math_max (nat 0) (hours_of (nat stop ⊖ nat start)) ⊗ power

  -- `actualAmount`: what the session recorded, else what it can have delivered, at most the request.
  unfoldable pub actual_amount : F → F → Session F → ℕ → F
  actual_amount requested power session stop =
      let computed =
        round_to 10_000 (fl.math_min requested (delivered_by power session.start_time stop)) in
      elim session.actual_amount [ none ↦ computed | some a ↦ if positive a then a else computed ]

  unfoldable pub session_duration : ℕ → ℕ → F
  session_duration start stop = round_to 10_000 (hours_of (nat stop ⊖ nat start))

  past_of : Session F → Option (Past F)
  past_of s = elim s.stop_time [
    | none ↦ none
    | some stop ↦ elim s.actual_amount [
      | none ↦ none
      | some a ↦
          if positive a
          then some (record { begin = s.start_time; end = stop; amount = a })
          else none
    ]
  ]

  abbrev cons_past : Option (Past F) → List (Past F) → List (Past F)
  cons_past none ps = ps
  cons_past (some p) ps = p ∷ ps

  -- `previousSessions`
  unfoldable pub previous_sessions : ℕ → List (Session F) → List (Past F)
  unfolding past_of
  previous_sessions current [] = []
  previous_sessions current (s ∷ ss) =
      let rest = previous_sessions current ss in
      if s.id == current then rest else cons_past (past_of s) rest

  unfoldable pub previous_amount : List (Past F) → F
  previous_amount = foldl (λ total p. total ⊕ p.amount) (nat 0)

  unfoldable pub previous_duration : List (Past F) → F
  unfolding session_duration
  previous_duration = foldl (λ total p. total ⊕ session_duration p.begin p.end) (nat 0)

  unfoldable pub previous_charge_fee : ℕ → List (BillingRule F) → List (Past F) → F
  previous_charge_fee zone rules =
      foldl (λ total p. total ⊕ calculate_charge_fee zone p.begin p.end p.amount rules) (nat 0)

-- `activeRules`: the active rules of the latest active version, by their first minute.
module _ {F : Type 0} where
  abbrev pub is_live : BillingRule F → Bool
  is_live r = r.active

  abbrev pub latest_rule : List (BillingRule F) → Option (BillingRule F)
  latest_rule rules = head? (sort_by (λ a b. compare b.version a.version) (filter_by is_live rules))

  abbrev pub of_version : ℕ → BillingRule F → Bool
  of_version v r = r.active && r.version == v

  abbrev pub non_empty_or : List (BillingRule F) → List (BillingRule F) → List (BillingRule F)
  non_empty_or other [] = other
  non_empty_or other (r ∷ rs) = r ∷ rs

module _ {F : Type 0} ⦃fl : Float F⦄ where
  unfoldable pub active_rules : List (BillingRule F) → List (BillingRule F)
  active_rules rules = elim (latest_rule rules) [
    | none ↦ default_rules
    | some latest ↦ non_empty_or default_rules (
        sort_by (λ a b. compare a.start_minute b.start_minute)
          (filter_by (of_version latest.version) rules))
  ]
