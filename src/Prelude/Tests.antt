-- ===== src/Prelude/Tests.antt =====
-- Boolean tests on numbers, the conditional, and comparators that are tried one after another, as
-- in an `orderBy` list or a chain of `||` in a sort callback.
use Prim.Native.Nat.{ℕ, ◌<◌, compare, Ordering}
use mathlib.Core.Path.{◌≡◌, refl}
use mathlib.Core.Logic.{◌⊎◌, inl, inr}
use mathlib.Core.Bool.{Bool, true, false}
use mathlib.Core.Option.{Option, none, some}
use mathlib.Core.List.{List, [], ◌∷◌}
use native.Mathlib.Omega.{arith}

abbrev pub ltb : ℕ → ℕ → Bool
ltb a b = elim (compare a b) [ Ordering.lt ↦ true | _ ↦ false ]

abbrev pub leb : ℕ → ℕ → Bool
leb a b = elim (compare a b) [ Ordering.gt ↦ false | _ ↦ true ]

infix 50 ◌==◌
abbrev pub ◌==◌ : ℕ → ℕ → Bool
a == b = elim (compare a b) [ Ordering.eq ↦ true | _ ↦ false ]

infix 1 if◌then◌else◌
abbrev pub if◌then◌else◌ {ℓ} : {A : Type ℓ} → Bool → A → A → A
if true then x else _ = x
if false then _ else y = y

pub ltb→lt : (a b : ℕ) → ltb a b ≡ true → a < b
ltb→lt a b h = ground arith

pub lt→ltb : (a b : ℕ) → a < b → ltb a b ≡ true
lt→ltb a b h = ground arith

pub Bool-cases : (b : Bool) → (b ≡ true) ⊎ (b ≡ false)
Bool-cases true = inl refl
Bool-cases false = inr refl

pub Option-cases {ℓ} : {A : Type ℓ} (o : Option A) → (o ≡ none) ⊎ ((a : A) × (o ≡ some a))
Option-cases none = inl refl
Option-cases (some a) = inr (a, refl)

-- `value ?? other`
abbrev pub or_else {ℓ} : {A : Type ℓ} → Option A → A → A
or_else none other = other
or_else (some a) other = a

-- `first ?? second` where the second may be missing too.
abbrev pub first_some {ℓ} : {A : Type ℓ} → Option A → Option A → Option A
first_some none other = other
first_some (some a) other = some a

abbrev pub is_some {ℓ} : {A : Type ℓ} → Option A → Bool
is_some none = false
is_some (some a) = true

-- `option === some value`, on numbers.
abbrev pub holds : Option ℕ → ℕ → Bool
holds none n = false
holds (some m) n = m == n

-- Comparators. `then_by` decides ties by its second argument.
abbrev pub then_by : Ordering → Ordering → Ordering
then_by Ordering.lt other = Ordering.lt
then_by Ordering.eq other = other
then_by Ordering.gt other = Ordering.gt

abbrev pub reversed : Ordering → Ordering
reversed Ordering.lt = Ordering.gt
reversed Ordering.eq = Ordering.eq
reversed Ordering.gt = Ordering.lt

-- MySQL puts NULL first in ascending order.
abbrev pub compare_nullable : Option ℕ → Option ℕ → Ordering
compare_nullable none none = Ordering.eq
compare_nullable none (some b) = Ordering.lt
compare_nullable (some a) none = Ordering.gt
compare_nullable (some a) (some b) = compare a b

-- The order of strings, by their codes.
abbrev pub compare_codes : List ℕ → List ℕ → Ordering
compare_codes [] [] = Ordering.eq
compare_codes [] (b ∷ bs) = Ordering.lt
compare_codes (a ∷ as') [] = Ordering.gt
compare_codes (a ∷ as') (b ∷ bs) = then_by (compare a b) (compare_codes as' bs)

abbrev pub is_gt : Ordering → Bool
is_gt Ordering.gt = true
is_gt _ = false

abbrev pub eq_codes : List ℕ → List ℕ → Bool
eq_codes a b = elim (compare_codes a b) [ Ordering.eq ↦ true | _ ↦ false ]

pub ==→≡ : (a b : ℕ) → (a == b) ≡ true → a ≡ b
==→≡ a b h = ground arith

pub ==_refl : (a : ℕ) → (a == a) ≡ true
==_refl a = ground arith

pub eq_codes_refl : (k : List ℕ) → eq_codes k k ≡ true
eq_codes_refl [] = refl
eq_codes_refl (c ∷ cs) = ground (arith, eq_codes_refl cs)

pub eq_codes→≡ : (a b : List ℕ) → eq_codes a b ≡ true → a ≡ b
eq_codes→≡ [] [] h = refl
eq_codes→≡ [] (b ∷ bs) h = ground arith
eq_codes→≡ (a ∷ as') [] h = ground arith
eq_codes→≡ (a ∷ as') (b ∷ bs) h = ground (arith, eq_codes→≡ as' bs)
