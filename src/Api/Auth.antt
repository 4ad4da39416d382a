-- ===== src/Api/Auth.antt =====
-- apps/api/src/auth.ts: signing in by a wallet's signature, and the nonces that were used. Moments
-- are milliseconds; the check of the signature over the message's text is a parameter.
pub mod Once
use cancel_chain.Common.{
  ℕ, ◌+◌, ◌-◌, ◌*◌, ◌/◌, String, Bool, true, false, not, Option, none, some, List, [], ◌∷◌, ltb,
  leb, str_eq, if◌then◌else◌, is_some,
}
use cancel_chain.Common.Dict.{get, set, delete, has}

abbrev pub sign_in_max_age_seconds : ℕ
sign_in_max_age_seconds = 120

abbrev pub merchant_jwt_ttl_seconds : ℕ
merchant_jwt_ttl_seconds = 900

pub record MerchantClaims : Type 0 where
  pub sub : String
  pub iat : ℕ
  pub exp : ℕ

-- The claims that `issueMerchantToken` signs, and `expiresAt` as a moment.
unfoldable pub merchant_claims : String → ℕ → MerchantClaims × ℕ
merchant_claims address now =
    let issued_at = now / 1000 in
    let expires_at = issued_at + merchant_jwt_ttl_seconds in
    (record { sub = address; iat = issued_at; exp = expires_at }, expires_at * 1000)

-- `NonceLog.seen`: when each nonce stops being remembered.
abbrev pub NonceLog : Type 0
NonceLog = List (String × ℕ)

abbrev pub nonces_of : NonceLog → List String
nonces_of [] = []
nonces_of ((nonce, expires_at) ∷ seen) = nonce ∷ nonces_of seen

abbrev pub is_expired : ℕ → Option ℕ → Bool
is_expired now none = false
is_expired now (some expires_at) = leb expires_at now

-- One pass over the map; an entry's moment is what the map has for its key.
unfoldable pub forget : ℕ → List String → NonceLog → NonceLog
forget now [] seen = seen
forget now (nonce ∷ rest) seen =
    forget now rest (if is_expired now (get nonce seen) then delete nonce seen else seen)

-- `claim`: the log after it, and whether the nonce is new.
unfoldable pub claim : ℕ → NonceLog → String → ℕ → NonceLog × Bool
claim ttl_seconds seen nonce now =
    let kept = forget now (nonces_of seen) seen in
    if has nonce kept then (kept, false) else (set nonce (now + ttl_seconds * 1000) kept, true)

pub data SignInRejection : Type 0 where
  wrong_domain stale replay signature : SignInRejection

pub record SignInMessage : Type 0 where
  pub domain : String
  pub address : String
  pub nonce : String
  pub issued_at : ℕ

-- `Math.abs(ageSeconds) > SIGN_IN_MAX_AGE_SECONDS`
abbrev pub is_stale : ℕ → ℕ → Bool
is_stale now issued_at =
    if leb issued_at now
    then ltb (sign_in_max_age_seconds * 1000) (now - issued_at)
    else ltb (sign_in_max_age_seconds * 1000) (issued_at - now)

module _ (verify : SignInMessage → String → Bool) (domain : String) where
  abbrev pub checked : NonceLog × Bool → SignInMessage → String → NonceLog × Option SignInRejection
  checked (seen, false) message by = (seen, some replay)
  checked (seen, true) message by = (seen, (if verify message by then none else some signature))

  -- `verifySignIn`: the log after it, and the rejection or none.
  unfoldable pub verify_sign_in :
      NonceLog → SignInMessage → String → ℕ → NonceLog × Option SignInRejection
  verify_sign_in seen message by now =
      if not (str_eq message.domain domain)
      then (seen, some wrong_domain)
      else if is_stale now message.issued_at
      then (seen, some stale)
      else checked (claim sign_in_max_age_seconds seen message.nonce now) message by

  pub record Attempt : Type 0 where
    pub message : SignInMessage
    pub by : String
    pub at : ℕ

  -- Attempts one after another.
  unfoldable pub attempts : NonceLog → List Attempt → NonceLog
  attempts seen [] = seen
  attempts seen (a ∷ rest) = attempts (verify_sign_in seen a.message a.by a.at).0 rest
