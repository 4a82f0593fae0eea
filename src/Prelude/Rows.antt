-- ===== src/Prelude/Rows.antt =====
-- Lists of rows: the tests, counts, updates and stable sorts by which the tables are read and
-- written, and what an update by key does to the rows.
use Prim.Native.Nat.{ℕ, zero, suc, ◌+◌, Ordering}
use mathlib.Core.Path.{◌≡◌, refl}
use mathlib.Core.Bool.{Bool, true, false}
use mathlib.Core.Option.{Option, none, some}
use mathlib.Core.List.{List, [], ◌∷◌, ◌++◌}
use native.Mathlib.Omega.{arith}
use charging_station_system.Prelude.Tests.{if◌then◌else◌, is_gt, ◌==◌}

module _ {ℓ} {A : Type ℓ} where
  abbrev pub length : List A → ℕ
  length [] = 0
  length (x ∷ xs) = suc (length xs)

  abbrev pub head? : List A → Option A
  head? [] = none
  head? (x ∷ xs) = some x

  abbrev pub filter_by : (A → Bool) → List A → List A
  filter_by p [] = []
  filter_by p (x ∷ xs) = if p x then x ∷ filter_by p xs else filter_by p xs

  abbrev pub find_by : (A → Bool) → List A → Option A
  find_by p [] = none
  find_by p (x ∷ xs) = if p x then some x else find_by p xs

  abbrev pub count_by : (A → Bool) → List A → ℕ
  count_by p [] = 0
  count_by p (x ∷ xs) = (if p x then 1 else 0) + count_by p xs

  -- `slice(0, n)`
  abbrev pub take : ℕ → List A → List A
  take zero xs = []
  take (suc n) [] = []
  take (suc n) (x ∷ xs) = x ∷ take n xs

  -- Rewrites the first row that passes the test: a key names one row.
  abbrev pub update_first : (A → Bool) → (A → A) → List A → List A
  update_first p f [] = []
  update_first p f (x ∷ xs) = if p x then f x ∷ xs else x ∷ update_first p f xs

  -- A stable sort, which is what `orderBy` and `Array.prototype.sort` promise.
  abbrev pub insert_by : (A → A → Ordering) → A → List A → List A
  insert_by c x [] = x ∷ []
  insert_by c x (y ∷ ys) = if is_gt (c x y) then y ∷ insert_by c x ys else x ∷ y ∷ ys

  abbrev pub sort_by : (A → A → Ordering) → List A → List A
  sort_by c [] = []
  sort_by c (x ∷ xs) = insert_by c x (sort_by c xs)

  abbrev pub All {κ} : (A → Type κ) → List A → Type κ
  All P [] = Unit
  All P (x ∷ xs) = P x × All P xs

  pub length-append : (xs ys : List A) → length (xs ++ ys) ≡ length xs + length ys
  length-append [] ys = omega arith
  length-append (x ∷ xs) ys = omega (arith, length-append xs ys)

  pub length-insert_by :
      (c : A → A → Ordering) (x : A) (xs : List A) → length (insert_by c x xs) ≡ suc (length xs)
  length-insert_by c x [] = refl
  length-insert_by c x (y ∷ ys) = ground (arith, length-insert_by c x ys)

  -- A sort neither drops nor repeats a row.
  pub length-sort_by : (c : A → A → Ordering) (xs : List A) → length (sort_by c xs) ≡ length xs
  length-sort_by c [] = refl
  length-sort_by c (x ∷ xs) =
      omega (arith, length-insert_by c x (sort_by c xs), length-sort_by c xs)

  pub All-insert_by {κ} :
      (P : A → Type κ) (c : A → A → Ordering) (x : A) (xs : List A)
      → P x
      → All P xs
      → All P (insert_by c x xs)
  All-insert_by P c x [] h hs = (h, tt)
  All-insert_by P c x (y ∷ ys) h hs = ground (arith, All-insert_by P c x ys h hs.1)

-- `array.includes(n)`
abbrev pub includes : List ℕ → ℕ → Bool
includes [] n = false
includes (m ∷ ms) n = if m == n then true else includes ms n
