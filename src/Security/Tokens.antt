-- ===== src/Security/Tokens.antt =====
-- `signToken` and `verifyToken`. JSON, the encodings and the keyed digest are those of the platform,
-- parameters here; `J` is the type of JSON values.
pub mod Accepted
use charging_station_system.Prelude.{
  ℕ, ◌+◌, ◌*◌, ◌/◌, Bool, true, false, not, ◌&&◌, ◌||◌, ◌==◌, Option, none, some, List, [], ◌∷◌,
  ◌++◌, if◌then◌else◌, codes, length,
}
use charging_station_system.Schema.{Codes}
use charging_station_system.Security.Parts.{split_at}
use charging_station_system.Security.Passwords.{is_present}

-- `encode` is `base64UrlEncode` of a text, `decode` what `Buffer.from(text, 'base64url').toString('utf8')`
-- reads, `hmac` the digest in base64url. `parse` throws on what is no JSON, and `exp_before`, the test
-- `payload.exp < seconds`, on null. `with_exp` adds the field `exp`.
pub record TokenLibrary (J : Type 0) : Type 0 where
  pub encode : Codes → Codes
  pub decode : Codes → Codes
  pub utf8 : Codes → List ℕ
  pub stringify : J → Codes
  pub parse : Codes → Option J
  pub hmac : Codes → Codes → Codes
  pub timing_safe_equal : List ℕ → List ℕ → Bool
  pub header_value : J
  pub with_exp : J → ℕ → J
  pub exp_before : J → ℕ → Option Bool

abbrev pub dot : ℕ
dot = b'.'

abbrev pub token_ttl_seconds : ℕ
token_ttl_seconds = 60 * 60 * 8

-- What `verifyToken` returns or throws.
pub data TokenAnswer (J : Type 0) : Type 0 where
  no_token token_failed : TokenAnswer J
  token_payload : J → TokenAnswer J

module _ {J : Type 0} (lib : TokenLibrary J) where
  -- `base64UrlJson`
  abbrev pub encode_json : J → Codes
  encode_json value = lib.encode (lib.stringify value)

  abbrev pub signed_text : Codes → Codes → Codes
  signed_text header body = header ++ (dot ∷ body)

  -- `now` is `Date.now()`.
  unfoldable pub sign_token : ℕ → Codes → J → Codes
  sign_token now secret payload =
      let header = encode_json lib.header_value in
      let body = encode_json (lib.with_exp payload (now / 1000 + token_ttl_seconds)) in
      header ++ (dot ∷ (body ++ (dot ∷ lib.hmac secret (signed_text header body))))

  abbrev pub same_signature : Codes → Codes → Bool
  same_signature a b =
      length (lib.utf8 a) == length (lib.utf8 b) && lib.timing_safe_equal (lib.utf8 a) (lib.utf8 b)

  abbrev pub unless_expired : J → Option Bool → TokenAnswer J
  unless_expired payload none = token_failed
  unless_expired payload (some true) = no_token
  unless_expired payload (some false) = token_payload payload

  abbrev pub read_payload : ℕ → Option J → TokenAnswer J
  read_payload now none = token_failed
  read_payload now (some payload) = unless_expired payload (lib.exp_before payload (now / 1000))

  abbrev pub check_parts : ℕ → Codes → List Codes → TokenAnswer J
  check_parts now secret (header ∷ body ∷ signature ∷ more) =
      if is_present header && (is_present body && is_present signature)
      then if same_signature signature (lib.hmac secret (signed_text header body))
        then read_payload now (lib.parse (lib.decode body))
        else no_token
      else no_token
  check_parts now secret parts = no_token

  unfoldable pub verify_token : ℕ → Codes → Codes → TokenAnswer J
  unfolding split_at
  verify_token now secret token = check_parts now secret (split_at dot token)
