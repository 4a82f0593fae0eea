-- ===== src/Security/Parts.antt =====
-- `text.split(separator)` with a separator of one character, and the texts that it takes apart again.
use charging_station_system.Prelude.{
  ℕ, ◌≡◌, refl, false, List, [], ◌∷◌, ◌++◌, ◌==◌, ==_refl, if◌then◌else◌, includes, Bool-cases, inl,
  inr,
}
use charging_station_system.Schema.{Codes}

abbrev pub starts_with_code : ℕ → List Codes → List Codes
starts_with_code c [] = (c ∷ []) ∷ []
starts_with_code c (p ∷ ps) = (c ∷ p) ∷ ps

unfoldable pub split_at : ℕ → Codes → List Codes
split_at separator [] = [] ∷ []
split_at separator (c ∷ cs) =
    let rest = split_at separator cs in
    if c == separator then [] ∷ rest else starts_with_code c rest

-- Nothing is split off a text without the separator, and up to the separator it is the first part.
pub split_at-whole :
    (separator : ℕ) (text : Codes)
    → includes text separator ≡ false
    → split_at separator text ≡ text ∷ []
unfolding split_at
split_at-whole separator [] h = refl
split_at-whole separator (c ∷ cs) h = elim (Bool-cases (c == separator)) [
  | inl same ↦ let e = rw same at h in cc
  | inr other ↦ rw other (rw (split_at-whole separator cs (rw other at h)) refl)
]

pub split_at-first :
    (separator : ℕ) (text rest : Codes)
    → includes text separator ≡ false
    → split_at separator (text ++ (separator ∷ rest)) ≡ text ∷ split_at separator rest
unfolding split_at
split_at-first separator [] rest h = rw (==_refl separator) refl
split_at-first separator (c ∷ cs) rest h = elim (Bool-cases (c == separator)) [
  | inl same ↦ let e = rw same at h in cc
  | inr other ↦ rw other (rw (split_at-first separator cs rest (rw other at h)) refl)
]
