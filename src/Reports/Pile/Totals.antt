-- ===== src/Reports/Pile/Totals.antt =====
-- The sums of the report, against sums over the bills of one pile.
use charging_station_system.Prelude.{
  ℕ, ◌+◌, ltb, not, length, ◌≡◌, refl, ap, sym, ◌∙◌, Bool, true, false, Option, none, some, List,
  [], ◌∷◌, arith, map, foldl, holds, ◌==◌, if◌then◌else◌, or_else, compare, filter_by, sort_by,
  Bool-cases, inl, inr, ==→≡,
}
use charging_station_system.Float.{Float, nat, ◌⊕◌, ◌⊗◌, ◌⊘◌, round_to}
use charging_station_system.Schema.{Session, Detail, Pile, Db}
use charging_station_system.Station.{Env}
use charging_station_system.Reports.Range.{TimeType, range_start_for}
use charging_station_system.Reports.Pile.{
  PileTotals, PileReport, by_pile_get, by_pile_set, pile_of_detail, no_totals, add_detail, add_to,
  add_details, rounded, in_range, pile_report, report_of,
}

map-≡ : {A B : Type 0} (f g : A → B) → ((a : A) → f a ≡ g a) → (xs : List A) → map f xs ≡ map g xs
map-≡ f g same [] = refl
map-≡ f g same (x ∷ xs) = cc (same x, map-≡ f g same xs)

filter_by-≡ :
    {A : Type 0} (f g : A → Bool)
    → ((a : A) → f a ≡ g a)
    → (xs : List A) → filter_by f xs ≡ filter_by g xs
filter_by-≡ f g same [] = refl
filter_by-≡ f g same (x ∷ xs) =
    ap (λ b. if b then x ∷ filter_by f xs else filter_by f xs) (same x)
    ∙ ap (λ ys. if g x then x ∷ ys else ys) (filter_by-≡ f g same xs)

add-zero : (n : ℕ) → n + 0 ≡ n
add-zero n = omega arith

zero-add : (n : ℕ) → 0 + n ≡ n
zero-add n = omega arith

module _ {F : Type 0} where
  by_pile_get-by_pile_set :
      (i j : ℕ) (t : PileTotals F) (m : List (ℕ × PileTotals F))
      → by_pile_get i (by_pile_set j t m) ≡ (if j == i then some t else by_pile_get i m)
  unfolding by_pile_get by_pile_set
  by_pile_get-by_pile_set i j t [] = refl
  by_pile_get-by_pile_set i j t ((k, u) ∷ m) = ground (arith, by_pile_get-by_pile_set i j t m)

module _ {F : Type 0} ⦃fl : Float F⦄ where
  foldl-if :
      (b : Bool) (t : PileTotals F) (d : Detail F) (ds : List (Detail F))
      → foldl add_detail (if b then add_detail t d else t) ds
        ≡ foldl add_detail t (if b then d ∷ ds else ds)
  foldl-if true t d ds = refl
  foldl-if false t d ds = refl

module _ {F : Type 0} ⦃fl : Float F⦄ (sessions : List (Session F)) (i : ℕ) where
  -- The bill's session was at the pile.
  abbrev pub is_of_pile : Detail F → Bool
  is_of_pile d = holds (pile_of_detail sessions d) i

  abbrev totals_in : List (ℕ × PileTotals F) → PileTotals F
  totals_in m = or_else (by_pile_get i m) no_totals

  totals_in-add_to :
      (o : Option ℕ) (d : Detail F) (m : List (ℕ × PileTotals F))
      → totals_in (add_to o d m) ≡ (if holds o i then add_detail (totals_in m) d else totals_in m)
  totals_in-add_to none d m = refl
  totals_in-add_to (some j) d m = elim (Bool-cases (j == i)) [
    | inl same ↦ ground (
      arith,
      by_pile_get-by_pile_set i j (add_detail (or_else (by_pile_get j m) no_totals) d) m,
      ==→≡ j i same,
    )
    | inr other ↦
        ground (
          arith,
          by_pile_get-by_pile_set i j (add_detail (or_else (by_pile_get j m) no_totals) d) m,
        )
  ]

  totals_in-add_details :
      (ds : List (Detail F)) (m : List (ℕ × PileTotals F))
      → totals_in (add_details sessions ds m)
        ≡ foldl add_detail (totals_in m) (filter_by is_of_pile ds)
  unfolding add_details
  totals_in-add_details [] m = refl
  totals_in-add_details (d ∷ ds) m =
      totals_in-add_details ds (add_to (pile_of_detail sessions d) d m)
      ∙ ap (λ t. foldl add_detail t (filter_by is_of_pile ds))
          (totals_in-add_to (pile_of_detail sessions d) d m)
      ∙ foldl-if (is_of_pile d) (totals_in m) d (filter_by is_of_pile ds)

module _ {F : Type 0} ⦃fl : Float F⦄ where
  -- The bills that were issued since the start of the range for sessions at the pile.
  abbrev pub bills_of : ℕ → Db F → ℕ → List (Detail F)
  bills_of start db i =
      filter_by (is_of_pile db.sessions i)
        (filter_by (λ d. not (ltb d.generated_at start)) db.details)

  -- The sum of one field, to two decimals.
  abbrev pub sum_of : (Detail F → F) → List (Detail F) → F
  sum_of field ds = fl.math_round (foldl (λ x d. x ⊕ field d) (nat 0) ds ⊗ nat 100) ⊘ nat 100

  -- What the report says of a pile, from the bills of the range and of the pile alone.
  abbrev pub entry_of : ℕ → TimeType → Db F → Pile F → PileReport F
  entry_of start time_type db p =
      let bills = bills_of start db p.id in
      record {
        time_type = time_type;
        pile_id = p.id;
        totals = record {
          charge_count = length bills;
          charge_duration = sum_of (λ d. d.duration) bills;
          charge_amount = sum_of (λ d. d.actual_amount) bills;
          charge_fee = sum_of (λ d. d.charge_fee) bills;
          service_fee = sum_of (λ d. d.service_fee) bills;
          all_fees = sum_of (λ d. d.total_fee) bills;
        };
      }

  -- The totals, field by field.
  added : PileTotals F → List (Detail F) → PileTotals F
  added t ds = record {
    charge_count = t.charge_count + length ds;
    charge_duration = foldl (λ x d. x ⊕ d.duration) t.charge_duration ds;
    charge_amount = foldl (λ x d. x ⊕ d.actual_amount) t.charge_amount ds;
    charge_fee = foldl (λ x d. x ⊕ d.charge_fee) t.charge_fee ds;
    service_fee = foldl (λ x d. x ⊕ d.service_fee) t.service_fee ds;
    all_fees = foldl (λ x d. x ⊕ d.total_fee) t.all_fees ds;
  }

  foldl-added : (ds : List (Detail F)) (t : PileTotals F) → foldl add_detail t ds ≡ added t ds
  unfolding added
  foldl-added [] t = ap (λ n. record t { charge_count = n }) (sym (add-zero t.charge_count))
  foldl-added (d ∷ ds) t =
      foldl-added ds (add_detail t d)
      ∙ ap (λ n. record (added t (d ∷ ds)) { charge_count = n }) (omega arith)

  in_range_lem : (start : ℕ) (d : Detail F) → in_range start d ≡ not (ltb d.generated_at start)
  in_range_lem start d = ground arith

  totals_lem :
      (start : ℕ) (db : Db F) (i : ℕ)
      → rounded (
          foldl add_detail no_totals
            (filter_by (is_of_pile db.sessions i) (filter_by (in_range start) db.details)))
        ≡ rounded (added no_totals (bills_of start db i))
  totals_lem start db i = ap rounded (
      foldl-added _ no_totals
      ∙ ap (λ ds. added no_totals (filter_by (is_of_pile db.sessions i) ds))
          (filter_by-≡ _ _ (in_range_lem start) db.details))

  entry_lem :
      (start : ℕ) (time_type : TimeType) (db : Db F) (p : Pile F)
      → pile_report time_type (add_details db.sessions (filter_by (in_range start) db.details) []) p
        ≡ entry_of start time_type db p
  unfolding by_pile_get added round_to
  entry_lem start time_type db p =
      ap (λ t. record { time_type = time_type; pile_id = p.id; totals = t })
        (ap rounded
            (totals_in-add_details db.sessions p.id (filter_by (in_range start) db.details) [])
          ∙ totals_lem start db p.id
          ∙ ap
              (λ n. record (rounded (added no_totals (bills_of start db p.id))) {
                charge_count = n;
              })
              (zero-add (length (bills_of start db p.id))))

  -- The report has, for each pile by key, the number of the bills that were issued not before the start
  -- of the range for sessions at that pile, and the sum of each of their amounts, to two decimals.
  pub report_of_sums :
      (env : Env F) (time_type : TimeType) (db : Db F)
      → report_of env time_type db
        ≡ map
            (entry_of (range_start_for env.zone env.real_ms time_type) time_type db)
            (sort_by (λ a b. compare a.id b.id) db.piles)
  unfolding report_of
  report_of_sums env time_type db =
      map-≡ _ _ (entry_lem (range_start_for env.zone env.real_ms time_type) time_type db)
        (sort_by (λ a b. compare a.id b.id) db.piles)
