-- ===== src/Prelude/Added.antt =====
-- What an added row and an updated row do to a property of all rows and to distinct keys.
use Prim.Native.Nat.{ℕ, suc, ◌<◌}
use mathlib.Core.Path.{◌≡◌, refl, subst}
use mathlib.Core.Bool.{Bool, true, false}
use mathlib.Core.Option.{none, some, some-injective}
use mathlib.Core.List.{List, [], ◌∷◌, ◌++◌}
use native.Mathlib.Omega.{arith}
use charging_station_system.Prelude.Tests.{if◌then◌else◌}
use charging_station_system.Prelude.Rows.{find_by, filter_by, update_first, All}
use charging_station_system.Prelude.Keyed.{keyed, Distinct, find_by-append}

module _ {A : Type 0} where
  pub All-add : (P : A → Type 0) (xs : List A) (y : A) → All P xs → P y → All P (xs ++ (y ∷ []))
  All-add P [] y h k = (k, tt)
  All-add P (x ∷ xs) y (h, hs) k = (h, All-add P xs y hs k)

  pub All-map : (P Q : A → Type 0) → ((x : A) → P x → Q x) → (xs : List A) → All P xs → All Q xs
  All-map P Q f [] h = tt
  All-map P Q f (x ∷ xs) (h, hs) = (f x h, All-map P Q f xs hs)

  pub All-update_first :
      (P : A → Type 0) (t : A → Bool) (f : A → A)
      → ((x : A) → P x → P (f x))
      → (xs : List A) → All P xs
      → All P (update_first t f xs)
  All-update_first P t f g [] h = tt
  All-update_first P t f g (x ∷ xs) (h, hs) =
      elim (t x) as (λ b. All P (if b then f x ∷ xs else x ∷ update_first t f xs)) [
        | true ↦ (g x h, hs)
        | false ↦ (h, All-update_first P t f g xs hs)
      ]

  -- What holds of all rows holds of the row that is found.
  pub All-find_by :
      (P : A → Type 0) (t : A → Bool) (xs : List A) (x : A) → All P xs → find_by t xs ≡ some x → P x
  All-find_by P t [] x h e = cc
  All-find_by P t (y ∷ ys) x (h, hs) e = go (t y) e (All-find_by P t ys x hs)
    where
      go :
          (b : Bool)
          → (if b then some y else find_by t ys) ≡ some x
          → (find_by t ys ≡ some x → P x)
          → P x
      go true e' rest = subst P (some-injective _ _ e') h
      go false e' rest = rest e'

module _ {A : Type 0} (key : A → ℕ) where
  abbrev pub Below : ℕ → List A → Type 0
  Below n = All (λ x. key x < n)

  -- A key that is not in use yet.
  pub find_by-Below : (n : ℕ) (xs : List A) → Below n xs → find_by (keyed key n) xs ≡ none
  find_by-Below n [] h = refl
  find_by-Below n (x ∷ xs) (h, hs) = ground (arith, find_by-Below n xs hs)

  pub Below-suc : (n : ℕ) (xs : List A) → Below n xs → Below (suc n) xs
  Below-suc n [] h = tt
  Below-suc n (x ∷ xs) (h, hs) = (omega arith, Below-suc n xs hs)

  pub Distinct-add :
      (xs : List A) (y : A)
      → Distinct key xs
      → find_by (keyed key (key y)) xs ≡ none
      → Distinct key (xs ++ (y ∷ []))
  Distinct-add [] y d e = (refl, tt)
  Distinct-add (x ∷ xs) y d e =
      ground (arith, find_by-append (keyed key (key x)) xs (y ∷ []) d.0, Distinct-add xs y d.1)

  -- With distinct keys every row is found by its key.
  pub Distinct-found :
      (xs : List A) → Distinct key xs → All (λ x. find_by (keyed key (key x)) xs ≡ some x) xs
  Distinct-found [] d = tt
  Distinct-found (x ∷ xs) (d, ds) = (ground arith, found_behind xs (Distinct-found xs ds) d)
    where
      found_behind :
          (ys : List A)
          → All (λ y. find_by (keyed key (key y)) xs ≡ some y) ys
          → find_by (keyed key (key x)) ys ≡ none
          → All (λ y. find_by (keyed key (key y)) (x ∷ xs) ≡ some y) ys
      found_behind [] h e = tt
      found_behind (y ∷ ys) (h, hs) e = (ground arith, found_behind ys hs (ground arith))

  filter_by-absent :
      (t : A → Bool) (i : ℕ) (xs : List A)
      → find_by (keyed key i) xs ≡ none
      → find_by (keyed key i) (filter_by t xs) ≡ none
  filter_by-absent t i [] e = refl
  filter_by-absent t i (x ∷ xs) e = ground (arith, filter_by-absent t i xs)

  pub Distinct-filter_by :
      (t : A → Bool) (xs : List A) → Distinct key xs → Distinct key (filter_by t xs)
  Distinct-filter_by t [] d = tt
  Distinct-filter_by t (x ∷ xs) d =
      ground (arith, filter_by-absent t (key x) xs d.0, Distinct-filter_by t xs d.1)
