-- ===== src/Prelude/Keyed.antt =====
-- Rows with keys: what an update of the row with a key does to searches, to the distinctness of the
-- keys, and to counts.
use Prim.Native.Nat.{ℕ, ◌+◌, ◌≤◌}
use mathlib.Core.Path.{◌≡◌, refl}
use mathlib.Core.Logic.{◌≢◌}
use mathlib.Core.Bool.{Bool, true, false, not, ◌&&◌}
use mathlib.Core.Option.{none, some}
use mathlib.Core.List.{List, [], ◌∷◌, ◌++◌}
use native.Mathlib.Omega.{arith}
use charging_station_system.Prelude.Tests.{◌==◌}
use charging_station_system.Prelude.Rows.{find_by, update_first, count_by}

module _ {A : Type 0} where
  abbrev pub keyed : (A → ℕ) → ℕ → A → Bool
  keyed key i x = key x == i

  -- No two rows have the same key.
  abbrev pub Distinct : (A → ℕ) → List A → Type 0
  Distinct key [] = Unit
  Distinct key (x ∷ xs) = (find_by (keyed key (key x)) xs ≡ none) × Distinct key xs

  pub count_by-congr :
      (p q : A → Bool) → ((x : A) → p x ≡ q x) → (xs : List A) → count_by p xs ≡ count_by q xs
  count_by-congr p q h [] = refl
  count_by-congr p q h (x ∷ xs) = rw (h x, count_by-congr p q h xs) refl

  -- An update that takes rows out of a count does not raise it.
  pub count_by-update_first-le :
      (p t : A → Bool) (f : A → A) (xs : List A)
      → ((x : A) → t x ≡ true → p (f x) ≡ false)
      → count_by p (update_first t f xs) ≤ count_by p xs
  count_by-update_first-le p t f [] h = omega arith
  count_by-update_first-le p t f (x ∷ xs) h =
      ground (arith, h x, count_by-update_first-le p t f xs h)

  pub update_first-update_first :
      (t : A → Bool) (f g : A → A) (xs : List A)
      → ((x : A) → t (f x) ≡ t x)
      → update_first t g (update_first t f xs) ≡ update_first t (λ x. g (f x)) xs
  update_first-update_first t f g [] h = refl
  update_first-update_first t f g (x ∷ xs) h =
      ground (arith, h x, update_first-update_first t f g xs h)

  -- An update with nothing to update.
  pub update_first-none :
      (t : A → Bool) (f : A → A) (xs : List A) → find_by t xs ≡ none → update_first t f xs ≡ xs
  update_first-none t f [] h = refl
  update_first-none t f (x ∷ xs) h = ground (arith, update_first-none t f xs)

  pub find_by-append :
      (t : A → Bool) (xs ys : List A) → find_by t xs ≡ none → find_by t (xs ++ ys) ≡ find_by t ys
  find_by-append t [] ys h = refl
  find_by-append t (x ∷ xs) ys h = ground (arith, find_by-append t xs ys)

  pub find_by-append_some :
      (t : A → Bool) (xs ys : List A) (x : A)
      → find_by t xs ≡ some x
      → find_by t (xs ++ ys) ≡ some x
  find_by-append_some t [] ys y h = ground arith
  find_by-append_some t (x ∷ xs) ys y h = ground (arith, find_by-append_some t xs ys y)

  -- What is found passes the test.
  pub find_by_holds : (t : A → Bool) (xs : List A) (x : A) → find_by t xs ≡ some x → t x ≡ true
  find_by_holds t [] x h = ground arith
  find_by_holds t (y ∷ ys) x h = ground (arith, find_by_holds t ys x)

module _ {A : Type 0} (key : A → ℕ) where
  count_absent :
      (p : A → Bool) (i : ℕ) (xs : List A)
      → find_by (keyed key i) xs ≡ none
      → count_by p xs ≡ count_by (λ x. p x && not (key x == i)) xs
  count_absent p i [] h = refl
  count_absent p i (x ∷ xs) h = ground (arith, count_absent p i xs)

  -- The count after an update of one row, by the count of the other rows.
  pub count_by-update_first :
      (p : A → Bool) (i : ℕ) (f : A → A) (xs : List A)
      → Distinct key xs
      → count_by p (update_first (keyed key i) f xs)
        ≤ count_by (λ x. p x && not (key x == i)) xs + 1
  count_by-update_first p i f [] d = omega arith
  count_by-update_first p i f (x ∷ xs) d =
      ground (arith, count_absent p i xs, count_by-update_first p i f xs d.1)

  module _ (i : ℕ) (f : A → A) (same : (x : A) → key (f x) ≡ key x) where
    pub find_by-update_first_ne :
        (j : ℕ) (xs : List A)
        → j ≢ i
        → find_by (keyed key j) (update_first (keyed key i) f xs) ≡ find_by (keyed key j) xs
    find_by-update_first_ne j [] ne = refl
    find_by-update_first_ne j (x ∷ xs) ne = ground (arith, same x, find_by-update_first_ne j xs ne)

    pub find_by-update_first_self :
        (xs : List A) (x : A)
        → find_by (keyed key i) xs ≡ some x
        → find_by (keyed key i) (update_first (keyed key i) f xs) ≡ some (f x)
    find_by-update_first_self [] x e = ground arith
    find_by-update_first_self (y ∷ ys) x e = ground (arith, same y, find_by-update_first_self ys x)

    pub find_by-update_first-none :
        (j : ℕ) (xs : List A)
        → find_by (keyed key j) xs ≡ none
        → find_by (keyed key j) (update_first (keyed key i) f xs) ≡ none
    find_by-update_first-none j [] e = refl
    find_by-update_first-none j (x ∷ xs) e = ground (arith, same x, find_by-update_first-none j xs)

    pub Distinct-update_first :
        (xs : List A) → Distinct key xs → Distinct key (update_first (keyed key i) f xs)
    Distinct-update_first [] d = tt
    Distinct-update_first (x ∷ xs) d =
        ground
          (arith, same x, find_by-update_first-none (key x) xs d.0, Distinct-update_first xs d.1)
