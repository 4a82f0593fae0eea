-- ===== src/Prelude/Least.antt =====
-- The first row of a stable sort is the least row: `sort(...)[0]`.
use Prim.Native.Nat.{Ordering}
use mathlib.Core.Path.{◌≡◌, refl, ◌∙◌, ap}
use mathlib.Core.Bool.{Bool, true, false}
use mathlib.Core.Option.{Option, none, some}
use mathlib.Core.List.{List, [], ◌∷◌}
use native.Mathlib.Omega.{arith}
use charging_station_system.Prelude.Tests.{if◌then◌else◌, is_gt, is_some}
use charging_station_system.Prelude.Rows.{head?, insert_by, sort_by, filter_by, find_by, All}

abbrev pub OnSome : {A : Type 0} → (A → Type 0) → Option A → Type 0
OnSome P none = Unit
OnSome P (some x) = P x

module _ {A : Type 0} (c : A → A → Ordering) where
  abbrev pub lesser : A → Option A → A
  lesser x none = x
  lesser x (some y) = if is_gt (c x y) then y else x

  abbrev pub least : List A → Option A
  least [] = none
  least (x ∷ xs) = some (lesser x (least xs))

  head?-insert_by : (x : A) (ys : List A) → head? (insert_by c x ys) ≡ some (lesser x (head? ys))
  head?-insert_by x [] = refl
  head?-insert_by x (y ∷ ys) = ground arith

  pub head?-sort_by : (xs : List A) → head? (sort_by c xs) ≡ least xs
  head?-sort_by [] = refl
  head?-sort_by (x ∷ xs) =
      head?-insert_by x (sort_by c xs) ∙ ap (λ o. some (lesser x o)) (head?-sort_by xs)

  -- A sort of the rows that pass a test has a first row exactly if some row passes.
  pub is_some-least-filter_by :
      (t : A → Bool) (xs : List A) → is_some (least (filter_by t xs)) ≡ is_some (find_by t xs)
  is_some-least-filter_by t [] = refl
  is_some-least-filter_by t (x ∷ xs) = ground (arith, is_some-least-filter_by t xs)

  OnSome-lesser : (P : A → Type 0) (x : A) (o : Option A) → P x → OnSome P o → P (lesser x o)
  OnSome-lesser P x none h k = h
  OnSome-lesser P x (some y) h k = elim (is_gt (c x y)) as (λ b. P (if b then y else x)) [
    | true ↦ k
    | false ↦ h
  ]

  -- The least row is a row.
  pub least-All : (P : A → Type 0) (xs : List A) → All P xs → OnSome P (least xs)
  least-All P [] h = tt
  least-All P (x ∷ xs) (h, hs) = OnSome-lesser P x (least xs) h (least-All P xs hs)

module _ {A : Type 0} (t : A → Bool) where
  pub All-filter_by-passes : (xs : List A) → All (λ x. t x ≡ true) (filter_by t xs)
  All-filter_by-passes [] = tt
  All-filter_by-passes (x ∷ xs) = ground (arith, All-filter_by-passes xs)

  pub filter_by-All : (P : A → Type 0) (xs : List A) → All P xs → All P (filter_by t xs)
  filter_by-All P [] h = tt
  filter_by-All P (x ∷ xs) (h, hs) =
      elim (t x) as (λ b. All P (if b then x ∷ filter_by t xs else filter_by t xs)) [
        | true ↦ (h, filter_by-All P xs hs)
        | false ↦ filter_by-All P xs hs
      ]

  pub All-of-filter_by :
      (P : A → Type 0) (xs : List A) → All P (filter_by t xs) → All (λ x. t x ≡ true → P x) xs
  All-of-filter_by P [] h = tt
  All-of-filter_by P (x ∷ xs) h = go (t x) refl h (All-of-filter_by P xs)
    where
      go :
          (b : Bool)
          → t x ≡ b
          → All P (if b then x ∷ filter_by t xs else filter_by t xs)
          → (All P (filter_by t xs) → All (λ y. t y ≡ true → P y) xs)
          → All (λ y. t y ≡ true → P y) (x ∷ xs)
      go true e k rest = ((λ _. k.0), rest k.1)
      go false e k rest = ((λ e'. cc), rest k)
