-- ===== src/Security/Tokens/Accepted.antt =====
-- Which tokens are accepted, and when.
use charging_station_system.Prelude.{
  ℕ, ◌+◌, ◌/◌, ◌≡◌, refl, ap, ◌∙◌, Bool, true, false, ◌&&◌, ◌==◌, ==_refl, Option, none, some, List,
  [], ◌∷◌, ◌++◌, if◌then◌else◌, includes, length, ltb, Bool-cases, inl, inr,
}
use charging_station_system.Schema.{Codes}
use charging_station_system.Security.Parts.{split_at, split_at-whole, split_at-first}
use charging_station_system.Security.Passwords.{is_present}
use charging_station_system.Security.Tokens.{
  TokenLibrary, dot, token_ttl_seconds, no_token, token_payload, encode_json, signed_text,
  sign_token, same_signature, unless_expired, read_payload, check_parts, verify_token,
}

-- What the platform documents: base64url texts have no dot, those of a JSON text and of a digest are not
-- empty, what was encoded and printed is read again, an expiry that was added is the one compared, and
-- timingSafeEqual accepts equal bytes.
pub record IsTokenLibrary {J : Type 0} (lib : TokenLibrary J) : Type 0 where
  pub no_dot : (text : Codes) → includes (lib.encode text) dot ≡ false
  pub digest_no_dot : (secret text : Codes) → includes (lib.hmac secret text) dot ≡ false
  pub json_present : (value : J) → is_present (lib.encode (lib.stringify value)) ≡ true
  pub digest_present : (secret text : Codes) → is_present (lib.hmac secret text) ≡ true
  pub decodes : (text : Codes) → lib.decode (lib.encode text) ≡ text
  pub parses : (value : J) → lib.parse (lib.stringify value) ≡ some value
  pub expires :
      (value : J) (t now : ℕ) → lib.exp_before (lib.with_exp value t) now ≡ some (ltb t now)
  pub equal_self : (bytes : List ℕ) → lib.timing_safe_equal bytes bytes ≡ true

module _ {J : Type 0} (lib : TokenLibrary J) where
  unless_expired-some :
      (payload : J) (b : Bool)
      → unless_expired lib payload (some b) ≡ (if b then no_token else token_payload payload)
  unless_expired-some payload true = refl
  unless_expired-some payload false = refl

  same_signature_only :
      (a b : Codes)
      → ((x y : List ℕ) → lib.timing_safe_equal x y ≡ true → x ≡ y)
      → same_signature lib a b ≡ true
      → lib.utf8 a ≡ lib.utf8 b
  same_signature_only a b equal h = elim (Bool-cases (length (lib.utf8 a) == length (lib.utf8 b))) [
    | inl same ↦ equal (lib.utf8 a) (lib.utf8 b) (rw same at h)
    | inr other ↦ let e = rw other at h in cc
  ]

  module _ (laws : IsTokenLibrary lib) where
    open laws use {
      no_dot, digest_no_dot, json_present, digest_present, decodes, parses, expires, equal_self,
    }

    same_signature_self : (a : Codes) → same_signature lib a a ≡ true
    same_signature_self a = rw (==_refl (length (lib.utf8 a))) (equal_self (lib.utf8 a))

    -- A token that was signed is accepted under the same secret, with its payload and expiry, up to the
    -- second in which eight hours have passed, and refused afterwards.
    pub verify_token-sign_token :
        (now later : ℕ) (secret : Codes) (payload : J)
        → verify_token lib later secret (sign_token lib now secret payload) ≡ (
            if ltb (now / 1000 + token_ttl_seconds) (later / 1000)
            then no_token
            else token_payload (lib.with_exp payload (now / 1000 + token_ttl_seconds)))
    unfolding verify_token sign_token
    verify_token-sign_token now later secret payload =
        let header = encode_json lib lib.header_value in
        let value = lib.with_exp payload (now / 1000 + token_ttl_seconds) in
        let body = encode_json lib value in
        let signature = lib.hmac secret (signed_text lib header body) in
        let parts : split_at dot (header ++ (dot ∷ (body ++ (dot ∷ signature))))
            ≡ header ∷ body ∷ signature ∷ [] =
          split_at-first dot header _ (no_dot _)
          ∙ ap (λ x. header ∷ x)
              (split_at-first dot body _ (no_dot _)
                ∙ ap (λ x. body ∷ x) (split_at-whole dot signature (digest_no_dot _ _))) in
        rw parts (
          rw (json_present lib.header_value) (
            rw (json_present value) (
              rw (digest_present secret (signed_text lib header body)) (
                rw (same_signature_self signature) (
                  rw (decodes (lib.stringify value)) (
                    rw (parses value) (
                      rw (expires payload (now / 1000 + token_ttl_seconds) (later / 1000))
                        (unless_expired-some value _))))))))

  accepted_payload :
      (now : ℕ) (payload : J) (o : Option J)
      → read_payload lib now o ≡ token_payload payload
      → (o ≡ some payload) × (lib.exp_before payload (now / 1000) ≡ some false)
  accepted_payload now payload none e = cc
  accepted_payload now payload (some value) e = go (lib.exp_before value (now / 1000)) refl e
    where
      go :
          (o : Option Bool)
          → lib.exp_before value (now / 1000) ≡ o
          → unless_expired lib value o ≡ token_payload payload
          → (Option.some value ≡ some payload) × (lib.exp_before payload (now / 1000) ≡ some false)
      go none h e = cc
      go (some true) h e = cc
      go (some false) h e = let same : value ≡ payload = cc in (ap some same, rw (← same) h)

  accepted_parts :
      (now : ℕ) (secret : Codes) (payload : J) (parts : List Codes)
      → ((a b : List ℕ) → lib.timing_safe_equal a b ≡ true → a ≡ b)
      → check_parts lib now secret parts ≡ token_payload payload
      → (header : Codes) × (body : Codes) × (signature : Codes) × (more : List Codes) × (parts
          ≡ header ∷ body ∷ signature ∷ more)
        × (lib.utf8 signature ≡ lib.utf8 (lib.hmac secret (signed_text lib header body)))
        × (lib.parse (lib.decode body) ≡ some payload)
        × (lib.exp_before payload (now / 1000) ≡ some false)
  accepted_parts now secret payload [] equal e = cc
  accepted_parts now secret payload (h ∷ []) equal e = cc
  accepted_parts now secret payload (h ∷ b ∷ []) equal e = cc
  accepted_parts now secret payload (h ∷ b ∷ s ∷ more) equal e =
      elim (Bool-cases (is_present h && (is_present b && is_present s))) [
        | inl present ↦
            elim (Bool-cases (same_signature lib s (lib.hmac secret (signed_text lib h b)))) [
              | inl signed ↦
                  let read = rw signed at (rw present at e) in
                  let (found, fresh) =
                    accepted_payload now payload (lib.parse (lib.decode b)) read in
                  (h, b, s, more, refl, same_signature_only _ _ equal signed, found, fresh)
              | inr forged ↦ let none_made = rw forged at (rw present at e) in cc
            ]
        | inr absent ↦ let none_made = rw absent at e in cc
      ]

  -- A token is accepted only if it has a signature under the secret, by the bytes of the text, of its first
  -- two parts, and a payload that is the JSON of its second part and has not expired.
  pub verify_token-accepted :
      (now : ℕ) (secret token : Codes) (payload : J)
      → ((a b : List ℕ) → lib.timing_safe_equal a b ≡ true → a ≡ b)
      → verify_token lib now secret token ≡ token_payload payload
      → (header : Codes) × (body : Codes) × (signature : Codes) × (more : List Codes) × (split_at
            dot token
          ≡ header ∷ body ∷ signature ∷ more)
        × (lib.utf8 signature ≡ lib.utf8 (lib.hmac secret (signed_text lib header body)))
        × (lib.parse (lib.decode body) ≡ some payload)
        × (lib.exp_before payload (now / 1000) ≡ some false)
  unfolding verify_token
  verify_token-accepted now secret token payload equal e =
      let (header, body, signature, more, parts, genuine, found, fresh) =
        accepted_parts now secret payload (split_at dot token) equal e in
      (header, body, signature, more, parts, genuine, found, fresh)
