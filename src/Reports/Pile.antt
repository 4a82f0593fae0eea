-- ===== src/Reports/Pile.antt =====
-- `list` of report.service.ts: the bills of a range, added up for each pile. `byPile` is a list of
-- piles with their totals, in the order of the first additions.
pub mod Totals
use charging_station_system.Prelude.{
  ℕ, ◌+◌, Bool, Option, none, some, List, [], ◌∷◌, map, foldl, leb, ◌==◌, if◌then◌else◌, or_else,
  compare, filter_by, sort_by,
}
use charging_station_system.Float.{Float, nat, ◌⊕◌, round_to}
use charging_station_system.Schema.{Session, Detail, Pile, Db}
use charging_station_system.Schema.Keys.{find_session}
use charging_station_system.Station.{Env, Action, gets}
use charging_station_system.Reports.Range.{TimeType, range_start_for}

pub record PileTotals (F : Type 0) : Type 0 where
  pub charge_count : ℕ
  pub charge_duration : F
  pub charge_amount : F
  pub charge_fee : F
  pub service_fee : F
  pub all_fees : F

pub record PileReport (F : Type 0) : Type 0 where
  pub time_type : TimeType
  pub pile_id : ℕ
  pub totals : PileTotals F

module _ {F : Type 0} where
  unfoldable pub by_pile_get : ℕ → List (ℕ × PileTotals F) → Option (PileTotals F)
  by_pile_get i [] = none
  by_pile_get i ((j, t) ∷ m) = if j == i then some t else by_pile_get i m

  unfoldable pub by_pile_set : ℕ → PileTotals F → List (ℕ × PileTotals F) → List (ℕ × PileTotals F)
  by_pile_set i t [] = (i, t) ∷ []
  by_pile_set i t ((j, u) ∷ m) = if j == i then (i, t) ∷ m else (j, u) ∷ by_pile_set i t m

  -- A bill with the pile of its session; the database has a session for every bill.
  abbrev pub pile_of_detail : List (Session F) → Detail F → Option ℕ
  pile_of_detail sessions d = elim (find_session d.session_id sessions) [
    | none ↦ none
    | some s ↦ some s.pile_id
  ]

module _ {F : Type 0} ⦃fl : Float F⦄ where
  abbrev pub no_totals : PileTotals F
  no_totals = record {
    charge_count = 0;
    charge_duration = nat 0;
    charge_amount = nat 0;
    charge_fee = nat 0;
    service_fee = nat 0;
    all_fees = nat 0;
  }

  abbrev pub add_detail : PileTotals F → Detail F → PileTotals F
  add_detail t d = record {
    charge_count = t.charge_count + 1;
    charge_duration = t.charge_duration ⊕ d.duration;
    charge_amount = t.charge_amount ⊕ d.actual_amount;
    charge_fee = t.charge_fee ⊕ d.charge_fee;
    service_fee = t.service_fee ⊕ d.service_fee;
    all_fees = t.all_fees ⊕ d.total_fee;
  }

  abbrev pub add_to : Option ℕ → Detail F → List (ℕ × PileTotals F) → List (ℕ × PileTotals F)
  add_to none d m = m
  add_to (some i) d m = by_pile_set i (add_detail (or_else (by_pile_get i m) no_totals) d) m

  -- The loop over the bills.
  unfoldable pub add_details :
      List (Session F) → List (Detail F) → List (ℕ × PileTotals F) → List (ℕ × PileTotals F)
  unfolding by_pile_get by_pile_set
  add_details sessions [] m = m
  add_details sessions (d ∷ ds) m = add_details sessions ds (add_to (pile_of_detail sessions d) d m)

  abbrev pub rounded : PileTotals F → PileTotals F
  rounded t = record {
    charge_count = t.charge_count;
    charge_duration = round_to 100 t.charge_duration;
    charge_amount = round_to 100 t.charge_amount;
    charge_fee = round_to 100 t.charge_fee;
    service_fee = round_to 100 t.service_fee;
    all_fees = round_to 100 t.all_fees;
  }

  abbrev pub in_range : ℕ → Detail F → Bool
  in_range start d = leb start d.generated_at

  abbrev pub pile_report : TimeType → List (ℕ × PileTotals F) → Pile F → PileReport F
  pile_report time_type m p = record {
    time_type = time_type;
    pile_id = p.id;
    totals = rounded (or_else (by_pile_get p.id m) no_totals);
  }

  unfoldable pub report_of : Env F → TimeType → Db F → List (PileReport F)
  unfolding add_details range_start_for
  report_of env time_type db =
      let start = range_start_for env.zone env.real_ms time_type in
      let m = add_details db.sessions (filter_by (in_range start) db.details) [] in
      map (pile_report time_type m) (sort_by (λ a b. compare a.id b.id) db.piles)

  unfoldable pub list_report : Env F → TimeType → Action F (List (PileReport F))
  unfolding report_of
  list_report env time_type = gets (report_of env time_type)
