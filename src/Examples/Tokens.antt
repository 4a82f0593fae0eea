-- ===== src/Examples/Tokens.antt =====
-- The theorems on passwords, tokens and the virtual clock at inputs that meet their hypotheses, with
-- simple encodings: a text is shifted past the separators.
use charging_station_system.Prelude.{
  eq_codes_refl, eq_codes→≡, ℕ, ◌+◌, ◌-◌, ◌*◌, ◌/◌, ◌≡◌, ◌↔◌, refl, Bool, true, false, Option, none,
  some, List, [], ◌∷◌, ◌++◌, arith, map, ltb, if◌then◌else◌, codes, eq_codes, includes,
}
use charging_station_system.Float.{fixed_float, unit, nat}
use charging_station_system.Schema.{Codes}
use charging_station_system.Security.Parts.{split_at}
use charging_station_system.Security.Passwords.{
  PasswordLibrary, dollar, hash_iterations, hash_password, verify_password,
}
use charging_station_system.Security.Passwords.Verified.{
  IsPasswordLibrary, verify_password-hash_password,
}
use charging_station_system.Security.Tokens.{
  TokenLibrary, dot, token_ttl_seconds, no_token, token_payload, signed_text, sign_token,
  verify_token,
}
use charging_station_system.Security.Tokens.Accepted.{
  IsTokenLibrary, verify_token-sign_token, verify_token-accepted,
}
use charging_station_system.Clock.{ClockState, virtual_now_ms, change_all}
use charging_station_system.Clock.Forward.{IsRunning, change_all-forward, fixed-IsClockArithmetic}

abbrev shifted : Codes → Codes
shifted = map (λ c. c + 47)

abbrev shifted_back : Codes → Codes
shifted_back = map (λ c. c - 47)

shifted-clean :
    (separator : ℕ) (text : Codes)
    → ltb separator 47 ≡ true
    → includes (shifted text) separator ≡ false
shifted-clean separator [] h = refl
shifted-clean separator (c ∷ cs) h = ground (arith, shifted-clean separator cs h)

shifted_back-shifted : (text : Codes) → shifted_back (shifted text) ≡ text
shifted_back-shifted [] = refl
shifted_back-shifted (c ∷ cs) = ground (arith, shifted_back-shifted cs)

abbrev passwords : PasswordLibrary ℕ
passwords = record {
  pbkdf2 = λ password salt iterations size algorithm. some (1 ∷ (password ++ salt));
  base64url = shifted;
  utf8 = λ text. text;
  number = λ text. nat hash_iterations;
  timing_safe_equal = eq_codes;
}

passwords-IsPasswordLibrary : IsPasswordLibrary passwords
passwords-IsPasswordLibrary = record {
  reads = refl;
  no_dollar = λ bytes. shifted-clean dollar bytes refl;
  not_empty = λ b bytes. refl;
  equal_self = eq_codes_refl;
  equal_only = eq_codes→≡;
}

abbrev salt : Codes
salt = shifted (7 ∷ 8 ∷ [])

verify_password-hash_password_example :
    (stored : Codes) × (hash_password passwords (7 ∷ 8 ∷ []) (codes "1234") ≡ some stored)
    × (verify_password passwords (codes "1234") stored ≡ some true)
    × ((verify_password passwords (codes "4321") stored ≡ some true)
        ↔ (shifted (1 ∷ (codes "4321" ++ salt)) ≡ shifted (1 ∷ (codes "1234" ++ salt))))
verify_password-hash_password_example =
    verify_password-hash_password passwords passwords-IsPasswordLibrary 7 (8 ∷ []) (codes "1234")
      (codes "4321") 1 1 (codes "1234" ++ salt) (codes "4321" ++ salt) refl refl

-- A value is its expiry, if it has one, before its other numbers.
abbrev read_value : Codes → Option (List ℕ)
read_value [] = none
read_value (c ∷ value) = some value

abbrev is_before : List ℕ → ℕ → Option Bool
is_before [] now = none
is_before (t ∷ value) now = some (ltb t now)

abbrev tokens : TokenLibrary (List ℕ)
tokens = record {
  encode = shifted;
  decode = shifted_back;
  utf8 = λ text. text;
  stringify = λ value. b'{' ∷ value;
  parse = read_value;
  hmac = λ secret text. shifted (1 ∷ (secret ++ text));
  timing_safe_equal = eq_codes;
  header_value = 256 ∷ [];
  with_exp = λ value t. t ∷ value;
  exp_before = is_before;
}

tokens-IsTokenLibrary : IsTokenLibrary tokens
tokens-IsTokenLibrary = record {
  no_dot = λ text. shifted-clean dot text refl;
  digest_no_dot = λ secret text. shifted-clean dot (1 ∷ (secret ++ text)) refl;
  json_present = λ value. refl;
  digest_present = λ secret text. refl;
  decodes = shifted_back-shifted;
  parses = λ value. refl;
  expires = λ value t now. refl;
  equal_self = eq_codes_refl;
}

abbrev secret : Codes
secret = codes "key"

verify_token-sign_token_example :
    verify_token tokens 9_000_000 secret (sign_token tokens 5_000 secret (42 ∷ [])) ≡ (
      if ltb (5_000 / 1000 + token_ttl_seconds) (9_000_000 / 1000)
      then no_token
      else token_payload ((5_000 / 1000 + token_ttl_seconds) ∷ 42 ∷ []))
verify_token-sign_token_example =
    verify_token-sign_token tokens tokens-IsTokenLibrary 5_000 9_000_000 secret (42 ∷ [])

-- The token signed at second 5 for the payload 42.
abbrev token : Codes
token =
    shifted (b'{' ∷ 256 ∷ [])
    ++ (dot
        ∷ (shifted (b'{' ∷ 28_805 ∷ 42 ∷ [])
            ++ (dot
                ∷ shifted (
                    1
                    ∷ (secret
                        ++ signed_text tokens (shifted (b'{' ∷ 256 ∷ []))
                            (shifted (b'{' ∷ 28_805 ∷ 42 ∷ [])))))))

verify_token-accepted_example :
    (header : Codes) × (body : Codes) × (signature : Codes) × (more : List Codes) × (split_at dot
        token
      ≡ header ∷ body ∷ signature ∷ more)
    × (signature ≡ shifted (1 ∷ (secret ++ signed_text tokens header body)))
    × (read_value (shifted_back body) ≡ some (28_805 ∷ 42 ∷ []))
    × (is_before (28_805 ∷ 42 ∷ []) (9_000_000 / 1000) ≡ some false)
unfolding verify_token split_at
verify_token-accepted_example =
    verify_token-accepted tokens 9_000_000 secret token (28_805 ∷ 42 ∷ []) eq_codes→≡ refl

abbrev slow_clock : ClockState ℕ
slow_clock = record { clock_speed = unit; base_real_ms = 0; base_virtual_ms = 0 }

-- Faster at 1000 ms, and at 2000 ms as slow as it can be.
abbrev speed_changes : List (ℕ × ℕ)
speed_changes = (1_000, 60 * unit) ∷ (2_000, 1) ∷ []

change_all-forward_example :
    (fixed_float.less
        (virtual_now_ms 3_000 (change_all speed_changes slow_clock))
        (virtual_now_ms 500 slow_clock)
      ≡ false)
    × IsRunning fixed-IsClockArithmetic 3_000 (change_all speed_changes slow_clock)
change_all-forward_example =
    change_all-forward fixed-IsClockArithmetic speed_changes 500 3_000 slow_clock
      (omega arith, refl, (refl, refl, refl)) (omega arith, (omega arith, omega arith))
      (omega arith)
