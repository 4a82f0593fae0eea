-- ===== src/Security/Passwords/Verified.antt =====
-- Which passwords a hash accepts.
use charging_station_system.Prelude.{
  ℕ, ◌≡◌, ◌↔◌, refl, sym, ap, ◌∙◌, Bool, true, false, Option, some, List, [], ◌∷◌, ◌++◌, includes,
  length, ◌==◌, ==_refl, Bool-cases, inl, inr,
}
use charging_station_system.Float.{Float, nat}
use charging_station_system.Schema.{Codes}
use charging_station_system.Security.Parts.{split_at, split_at-whole, split_at-first}
use charging_station_system.Security.Passwords.{
  PasswordLibrary, dollar, scheme, hash_algorithm, hash_iterations, iterations_text, is_present,
  derived, hash_text, hash_password, same_bytes, verify_password,
}

-- What the platform documents: the number in the text is read as such, a base64url text has no dollar
-- sign and is empty only for no bytes, and timingSafeEqual is equality.
pub record IsPasswordLibrary {F : Type 0} ⦃fl : Float F⦄ (lib : PasswordLibrary F) : Type 0 where
  pub reads : lib.number iterations_text ≡ nat hash_iterations
  pub no_dollar : (bytes : List ℕ) → includes (lib.base64url bytes) dollar ≡ false
  pub not_empty : (b : ℕ) (bytes : List ℕ) → is_present (lib.base64url (b ∷ bytes)) ≡ true
  pub equal_self : (bytes : List ℕ) → lib.timing_safe_equal bytes bytes ≡ true
  pub equal_only : (a b : List ℕ) → lib.timing_safe_equal a b ≡ true → a ≡ b

some-injective : {a b : Bool} → Option.some a ≡ some b → a ≡ b
some-injective e = cc

module _ {F : Type 0} ⦃fl : Float F⦄ (lib : PasswordLibrary F) (laws : IsPasswordLibrary lib) where
  open laws use {reads, no_dollar, not_empty, equal_self, equal_only}

  split_hash :
      (salt key : Codes)
      → includes salt dollar ≡ false
      → includes key dollar ≡ false
      → split_at dollar (
          scheme
          ++ (dollar
              ∷ (hash_algorithm
                  ++ (dollar ∷ (iterations_text ++ (dollar ∷ (salt ++ (dollar ∷ key))))))))
        ≡ scheme ∷ hash_algorithm ∷ iterations_text ∷ salt ∷ key ∷ []
  split_hash salt key h k =
      split_at-first dollar scheme _ refl
      ∙ ap (λ x. scheme ∷ x)
          (split_at-first dollar hash_algorithm _ refl
            ∙ ap (λ x. hash_algorithm ∷ x)
                (split_at-first dollar iterations_text _ refl
                  ∙ ap (λ x. iterations_text ∷ x)
                      (split_at-first dollar salt key h
                        ∙ ap (λ x. salt ∷ x) (split_at-whole dollar key k))))

  same_bytes_of : (a b : Codes) → lib.utf8 a ≡ lib.utf8 b → same_bytes lib a b ≡ true
  same_bytes_of a b h = rw h (rw (==_refl (length (lib.utf8 b))) (equal_self (lib.utf8 b)))

  same_bytes_only : (a b : Codes) → same_bytes lib a b ≡ true → lib.utf8 a ≡ lib.utf8 b
  same_bytes_only a b h = elim (Bool-cases (length (lib.utf8 a) == length (lib.utf8 b))) [
    | inl same ↦ equal_only (lib.utf8 a) (lib.utf8 b) (rw same at h)
    | inr other ↦ let e = rw other at h in cc
  ]

  verify_hash :
      (password salt : Codes) (key key' : List ℕ)
      → includes salt dollar ≡ false
      → is_present salt ≡ true
      → is_present (lib.base64url key) ≡ true
      → derived lib password salt ≡ some key'
      → verify_password lib password (hash_text lib salt key)
        ≡ some (same_bytes lib (lib.base64url key') (lib.base64url key))
  unfolding verify_password
  verify_hash password salt key key' clean salted keyed made =
      rw (split_hash salt (lib.base64url key) clean (no_dollar key))
        (rw salted (rw keyed (rw reads (rw made refl))))

  -- The hash of a password, made with some random bytes, accepts the password, and another password
  -- only if it has the same key under that salt, byte by byte in the text.
  pub verify_password-hash_password :
      (r : ℕ) (random : List ℕ) (password other : Codes) (k k' : ℕ) (key key' : List ℕ)
      → derived lib password (lib.base64url (r ∷ random)) ≡ some (k ∷ key)
      → derived lib other (lib.base64url (r ∷ random)) ≡ some (k' ∷ key')
      → (stored : Codes) × (hash_password lib (r ∷ random) password ≡ some stored)
        × (verify_password lib password stored ≡ some true)
        × ((verify_password lib other stored ≡ some true)
            ↔ (lib.utf8 (lib.base64url (k' ∷ key')) ≡ lib.utf8 (lib.base64url (k ∷ key))))
  unfolding hash_password
  verify_password-hash_password r random password other k k' key key' made made' =
      let salt = lib.base64url (r ∷ random) in
      let check = λ (p : Codes) (n : List ℕ) (e : derived lib p salt ≡ some n).
        verify_hash p salt (k ∷ key) n (no_dollar (r ∷ random)) (not_empty r random)
          (not_empty k key) e in
      (
        hash_text lib salt (k ∷ key),
        rw (made, hash_password) refl,
        check password (k ∷ key) made ∙ ap some (same_bytes_of _ _ refl),
        (
          λ e. same_bytes_only _ _ (some-injective (sym (check other (k' ∷ key') made') ∙ e)),
          λ e. check other (k' ∷ key') made' ∙ ap some (same_bytes_of _ _ e),
        ),
      )
