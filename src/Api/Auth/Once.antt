-- ===== src/Api/Auth/Once.antt =====
-- apps/api/src/auth.ts: how often one signature signs in.
use cancel_chain.Common.{
  ℕ, ◌+◌, ◌*◌, ◌≤◌, ◌<◌, ◌≡◌, ◌≢◌, inl, inr, refl, String, Bool, true, false, none, some, List, [],
  ◌∷◌, arith, leb, str_eq, eq_iff, All, Bool-cases,
}
use cancel_chain.Common.Dict.{get, set, delete, has, get-set, get-delete}
use cancel_chain.Api.Auth.{
  NonceLog, nonces_of, forget, claim, SignInMessage, is_stale, checked, verify_sign_in, Attempt,
  attempts, sign_in_max_age_seconds,
}

-- A nonce that is remembered until a moment yet to come.
abbrev IsRemembered : String → ℕ → NonceLog → Type 0
IsRemembered nonce until seen = get nonce seen ≡ some until

forget-IsRemembered :
    (nonce : String) (until now : ℕ) (names : List String) (seen : NonceLog)
    → now < until
    → IsRemembered nonce until seen
    → IsRemembered nonce until (forget now names seen)
unfolding forget
forget-IsRemembered nonce until now [] seen p h = h
forget-IsRemembered nonce until now (other ∷ names) seen p h =
    forget-IsRemembered nonce until now names _ p
      (ground (arith, h, eq_iff other nonce, get-delete other nonce seen))

claim-IsRemembered :
    (ttl : ℕ) (nonce other : String) (until now : ℕ) (seen : NonceLog)
    → now < until
    → IsRemembered nonce until seen
    → IsRemembered nonce until (claim ttl seen other now).0
unfolding claim
claim-IsRemembered ttl nonce other until now seen p h =
    let kept = forget now (nonces_of seen) seen in
    let remembered = forget-IsRemembered nonce until now (nonces_of seen) seen p h in
    elim (Bool-cases (has other kept)) [
      | inl known ↦ rw known remembered
      | inr unknown ↦ rw unknown (
          ground (
            arith,
            remembered,
            unknown,
            eq_iff other nonce,
            get-set other nonce (now + ttl * 1000) kept,
          ))
    ]

claim-refused :
    (ttl : ℕ) (nonce : String) (until now : ℕ) (seen : NonceLog)
    → now < until
    → IsRemembered nonce until seen
    → (claim ttl seen nonce now).1 ≡ false
unfolding claim
claim-refused ttl nonce until now seen p h =
    let remembered = forget-IsRemembered nonce until now (nonces_of seen) seen p h in
    rw remembered refl

claim-new :
    (ttl : ℕ) (nonce : String) (now : ℕ) (seen : NonceLog)
    → (claim ttl seen nonce now).1 ≡ true
    → IsRemembered nonce (now + ttl * 1000) (claim ttl seen nonce now).0
unfolding claim
claim-new ttl nonce now seen h = elim (Bool-cases (has nonce (forget now (nonces_of seen) seen))) [
  | inl known ↦ absurd (ground (arith, h, known))
  | inr unknown ↦ rw unknown (
      ground (
        arith,
        eq_iff nonce nonce,
        get-set nonce nonce (now + ttl * 1000) (forget now (nonces_of seen) seen),
      ))
]

module _ (verify : SignInMessage → String → Bool) (domain : String) where
  checked-log :
      (p : NonceLog × Bool) (message : SignInMessage) (by : String)
      → (checked verify domain p message by).0 ≡ p.0
  checked-log (seen, false) message by = refl
  checked-log (seen, true) message by = refl

  checked-accepts :
      (p : NonceLog × Bool) (message : SignInMessage) (by : String)
      → (checked verify domain p message by).1 ≡ none
      → (p.1 ≡ true) × (verify message by ≡ true)
  checked-accepts (seen, false) message by h = absurd (ground arith)
  checked-accepts (seen, true) message by h = ground arith

  -- What an attempt does to a nonce that is remembered.
  attempt-IsRemembered :
      (nonce : String) (until : ℕ) (seen : NonceLog) (message : SignInMessage) (by : String)
      (now : ℕ)
      → now < until
      → IsRemembered nonce until seen
      → IsRemembered nonce until (verify_sign_in verify domain seen message by now).0
  unfolding verify_sign_in
  attempt-IsRemembered nonce until seen message by now p h =
      elim (Bool-cases (str_eq message.domain domain)) [
        | inr other ↦ rw other h
        | inl ours ↦ elim (Bool-cases (is_stale now message.issued_at)) [
          | inl old ↦ rw (ours, old) h
          | inr young ↦
              rw
                (
                  ours,
                  young,
                  checked-log (claim sign_in_max_age_seconds seen message.nonce now) message by,
                )
                (claim-IsRemembered sign_in_max_age_seconds nonce message.nonce until now seen p h)
        ]
      ]

  attempts-IsRemembered :
      (nonce : String) (until now : ℕ) (seen : NonceLog) (between : List (Attempt verify domain))
      → now < until
      → All (λ a. a.at ≤ now) between
      → IsRemembered nonce until seen
      → IsRemembered nonce until (attempts verify domain seen between)
  unfolding attempts
  attempts-IsRemembered nonce until now seen [] p _ h = h
  attempts-IsRemembered nonce until now seen (a ∷ between) p (before, rest) h =
      attempts-IsRemembered nonce until now
        (verify_sign_in verify domain seen a.message a.by a.at).0 between p rest
        (attempt-IsRemembered nonce until seen a.message a.by a.at (omega arith) h)

  -- What an accepted attempt shows.
  accepted_lem :
      (seen : NonceLog) (message : SignInMessage) (by : String) (now : ℕ)
      → (verify_sign_in verify domain seen message by now).1 ≡ none
      → (is_stale now message.issued_at ≡ false)
        × ((claim sign_in_max_age_seconds seen message.nonce now).1 ≡ true)
        × ((verify_sign_in verify domain seen message by now).0
            ≡ (claim sign_in_max_age_seconds seen message.nonce now).0)
        × (verify message by ≡ true)
        × (message.domain ≡ domain)
  unfolding verify_sign_in
  accepted_lem seen message by now h =
      let c = claim sign_in_max_age_seconds seen message.nonce now in
      elim (Bool-cases (str_eq message.domain domain)) [
        | inr other ↦ absurd (ground (arith, h, other))
        | inl ours ↦ elim (Bool-cases (is_stale now message.issued_at)) [
          | inl old ↦ absurd (ground (arith, h, ours, old))
          | inr young ↦
              let (new, signed) = checked-accepts c message by (rw (ours, young) at h) in
              (
                young,
                new,
                rw (ours, young) (checked-log c message by),
                signed,
                ground (arith, eq_iff message.domain domain),
              )
        ]
      ]

  -- A message that was signed before it was first accepted is never accepted again, at any later
  -- moment and whatever attempts come in between.
  pub verify_sign_in-once :
      (seen : NonceLog) (message : SignInMessage) (by by' : String) (now later : ℕ)
      (between : List (Attempt verify domain))
      → (verify_sign_in verify domain seen message by now).1 ≡ none
      → message.issued_at < now
      → All (λ a. a.at ≤ later) between
      → (verify_sign_in verify domain
          (attempts verify domain (verify_sign_in verify domain seen message by now).0 between)
          message
          by'
          later).1
        ≢ none
  verify_sign_in-once seen message by by' now later between first signed_before before again =
      let (_, new, log_is, _, _) = accepted_lem seen message by now first in
      let after =
        attempts verify domain (verify_sign_in verify domain seen message by now).0 between in
      let (young, new', _, _, _) = accepted_lem after message by' later again in
      let until = now + sign_in_max_age_seconds * 1000 in
      let remembered : IsRemembered message.nonce until
          (verify_sign_in verify domain seen message by now).0 =
        rw log_is (claim-new sign_in_max_age_seconds message.nonce now seen new) in
      let in_time : later < until = ground (arith, young) in
      let kept =
        attempts-IsRemembered message.nonce until later _ between in_time before remembered in
      let refused =
        claim-refused sign_in_max_age_seconds message.nonce until later after in_time kept in
      ground (arith, refused, new')

  claim-first :
      (nonce : String) (now : ℕ)
      → claim sign_in_max_age_seconds [] nonce now
        ≡ ((nonce, now + sign_in_max_age_seconds * 1000) ∷ [], true)
  unfolding claim forget get set
  claim-first nonce now = refl

  claim-second :
      (nonce : String) (now : ℕ)
      → claim sign_in_max_age_seconds ((nonce, now) ∷ []) nonce now
        ≡ ((nonce, now + sign_in_max_age_seconds * 1000) ∷ [], true)
  unfolding claim forget get set delete
  claim-second nonce now =
      let same : str_eq nonce nonce ≡ true = ground (arith, eq_iff nonce nonce) in
      let gone : leb now now ≡ true = ground arith in rw (same, gone) refl

  -- A message for this domain with a right signature that bears a moment at or after its first
  -- acceptance, as far as the check of its age lets through, is accepted a second time once its
  -- nonce is forgotten.
  pub verify_sign_in-twice :
      (message : SignInMessage) (by : String) (now : ℕ)
      → message.domain ≡ domain
      → verify message by ≡ true
      → now ≤ message.issued_at
      → message.issued_at ≤ now + 120_000
      → ((verify_sign_in verify domain [] message by now).1 ≡ none)
        × ((verify_sign_in verify domain
              (verify_sign_in verify domain [] message by now).0
              message
              by
              (now + 120_000)).1
            ≡ none)
  unfolding verify_sign_in
  verify_sign_in-twice message by now ours signed late soon =
      let same : str_eq message.domain domain ≡ true =
        ground (arith, eq_iff message.domain domain) in
      let young : is_stale now message.issued_at ≡ false = ground arith in
      let young' : is_stale (now + 120_000) message.issued_at ≡ false = ground arith in
      rw
        (
          same,
          young,
          young',
          claim-first message.nonce now,
          claim-second message.nonce (now + 120_000),
        )
        (ground (arith, signed), ground (arith, signed))
