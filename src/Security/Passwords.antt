-- ===== src/Security/Passwords.antt =====
-- `hashPassword` and `verifyPassword`. The key derivation, the encodings and the comparison of bytes
-- are those of the platform, parameters here.
pub mod Verified
use charging_station_system.Prelude.{
  ℕ, Bool, true, false, ◌&&◌, ◌==◌, Option, none, some, List, [], ◌∷◌, ◌++◌, if◌then◌else◌, codes,
  eq_codes, length,
}
use charging_station_system.Float.{Float, nat}
use charging_station_system.Schema.{Codes}
use charging_station_system.Security.Parts.{split_at}

-- `pbkdf2` throws on an unknown algorithm and on numbers that it does not take. `number` is `Number(text)`,
-- `utf8` is `Buffer.from(text)` and `base64url` is `toString('base64url')`.
pub record PasswordLibrary (F : Type 0) : Type 0 where
  pub pbkdf2 : Codes → Codes → F → ℕ → Codes → Option (List ℕ)
  pub base64url : List ℕ → Codes
  pub utf8 : Codes → List ℕ
  pub number : Codes → F
  pub timing_safe_equal : List ℕ → List ℕ → Bool

abbrev pub dollar : ℕ
dollar = b'$'

abbrev pub scheme : Codes
scheme = codes "pbkdf2"

abbrev pub hash_algorithm : Codes
hash_algorithm = codes "sha256"

abbrev pub hash_iterations : ℕ
hash_iterations = 120_000

-- `${HASH_ITERATIONS}`
abbrev pub iterations_text : Codes
iterations_text = codes "120000"

abbrev pub hash_key_length : ℕ
hash_key_length = 32

-- `!text` is false.
abbrev pub is_present : Codes → Bool
is_present [] = false
is_present (c ∷ cs) = true

module _ {F : Type 0} ⦃fl : Float F⦄ (lib : PasswordLibrary F) where
  abbrev pub derived : Codes → Codes → Option (List ℕ)
  derived password salt =
      lib.pbkdf2 password salt (nat hash_iterations) hash_key_length hash_algorithm

  -- `pbkdf2$${HASH_ALGORITHM}$${HASH_ITERATIONS}$${salt}$${hash}`
  abbrev pub hash_text : Codes → List ℕ → Codes
  hash_text salt key =
      scheme
      ++ (dollar
          ∷ (hash_algorithm
              ++ (dollar ∷ (iterations_text ++ (dollar ∷ (salt ++ (dollar ∷ lib.base64url key)))))))

  -- `random` is what `randomBytes(16)` returns.
  unfoldable pub hash_password : List ℕ → Codes → Option Codes
  hash_password random password =
      let salt = lib.base64url random in
      elim (derived password salt) [ none ↦ none | some key ↦ some (hash_text salt key) ]

  abbrev pub same_bytes : Codes → Codes → Bool
  same_bytes a b =
      length (lib.utf8 a) == length (lib.utf8 b) && lib.timing_safe_equal (lib.utf8 a) (lib.utf8 b)

  abbrev pub compare_key : Option (List ℕ) → Codes → Option Bool
  compare_key none expected = none
  compare_key (some key) expected = some (same_bytes (lib.base64url key) expected)

  abbrev pub verify_parts : Codes → Codes → List Codes → Option Bool
  verify_parts password stored (name ∷ algorithm ∷ iterations ∷ salt ∷ expected ∷ more) =
      if eq_codes name scheme
        && (is_present algorithm
            && (is_present iterations && (is_present salt && is_present expected)))
      then compare_key (lib.pbkdf2 password salt (lib.number iterations) hash_key_length algorithm)
          expected
      else some (eq_codes password stored)
  verify_parts password stored parts = some (eq_codes password stored)

  -- `none` where it throws.
  unfoldable pub verify_password : Codes → Codes → Option Bool
  unfolding split_at
  verify_password password stored = verify_parts password stored (split_at dollar stored)
