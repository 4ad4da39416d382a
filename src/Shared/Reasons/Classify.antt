-- ===== src/Shared/Reasons/Classify.antt =====
-- packages/shared/src/reasons.ts: which refusals get which category.
use cancel_chain.Common.{
  ℕ, String, ◌≡◌, ◌≢◌, ◌↔◌, ◌⊎◌, inl, inr, refl, Bool, true, false, Option, none, some, arith,
  eq_iff, Option-cases,
}
use cancel_chain.Shared.Reasons.{
  RejectReason, paused, merchant_account_missing, Failure, custom, runtime, unrecognised, Existed,
  AuthorityFacts, RejectionFacts, known, subscriptions_program, token_program, token_2022_program,
  by_subscriptions, by_token, by_program_and_code, missing_account, dead_authority, classify_code,
  classify_failure, classify_rejection,
}

-- No table row names a pause or a merchant's missing account: they come from the special codes.
table-ne-paused : (by : String) (code : ℕ) → by_program_and_code by code ≢ some paused
unfolding by_program_and_code by_subscriptions by_token
table-ne-paused by code h = ground arith

table-ne-missing :
    (by : String) (code : ℕ) → by_program_and_code by code ≢ some merchant_account_missing
unfolding by_program_and_code by_subscriptions by_token
table-ne-missing by code h = ground arith

missing-ne-paused :
    (code : ℕ) (by : String) (e : Option Existed) → missing_account code by e ≢ known paused
unfolding missing_account
missing-ne-paused code by e h = ground arith

dead-ne-paused :
    (code : ℕ) (by : String) (a : Option AuthorityFacts) → dead_authority code by a ≢ known paused
unfolding dead_authority
dead-ne-paused code by a h = ground arith

classify_code-paused :
    (facts : RejectionFacts) (label : Bool) (by : String) (code : ℕ)
    → classify_code facts label by code ≡ known paused
    → (by ≡ subscriptions_program) × (code ≡ 508) × (label ≡ true)
unfolding classify_code
classify_code-paused facts label by code h = ground (
  arith,
  eq_iff by subscriptions_program,
  table-ne-paused by code,
  missing-ne-paused code by facts.token_accounts_existed,
  dead-ne-paused code by facts.authority,
)

classify_failure-paused :
    (facts : RejectionFacts) (label : Bool) (by : String) (failure : Failure)
    → classify_failure facts label by failure ≡ known paused
    → (by ≡ subscriptions_program) × (failure ≡ custom 508) × (label ≡ true)
unfolding classify_failure
classify_failure-paused facts label by (custom code) h =
    ground (arith, classify_code-paused facts label by code h)
classify_failure-paused facts label by _ h = ground arith

classify_code-508 :
    (facts : RejectionFacts) → classify_code facts true subscriptions_program 508 ≡ known paused
unfolding classify_code
classify_code-508 facts = refl

-- A refusal is put down to a pause exactly when the subscriptions program itself raised code 508
-- and the permission carries the pause label.
pub classify-paused_iff :
    (facts : RejectionFacts) (label : Bool)
    → (classify_rejection facts label ≡ known paused) ↔ (
        (facts.raised_by ≡ some subscriptions_program)
        × (facts.failure ≡ custom 508)
        × (label ≡ true))
unfolding classify_rejection classify_failure
classify-paused_iff facts label = (to, from)
  where
    to :
        classify_rejection facts label ≡ known paused
        → (facts.raised_by ≡ some subscriptions_program)
          × (facts.failure ≡ custom 508)
          × (label ≡ true)
    to h = elim (Option-cases facts.raised_by) [
      | inl nobody ↦ absurd (ground arith)
      | inr (by, raised) ↦
          ground (arith, classify_failure-paused facts label by facts.failure (rw raised at h))
    ]

    from :
        (facts.raised_by ≡ some subscriptions_program)
          × (facts.failure ≡ custom 508)
          × (label ≡ true)
        → classify_rejection facts label ≡ known paused
    from (raised, failed, labelled) = rw (raised, failed, labelled) (classify_code-508 facts)

-- The pause label matters to no other refusal.
pub classify-label :
    (facts : RejectionFacts)
    → facts.failure ≢ custom 508
    → classify_rejection facts true ≡ classify_rejection facts false
unfolding classify_rejection classify_failure classify_code
classify-label facts h = ground arith

by_program-foreign :
    (by : String) (code : ℕ)
    → by ≢ subscriptions_program
    → by ≢ token_program
    → by ≢ token_2022_program
    → by_program_and_code by code ≡ none
unfolding by_program_and_code
by_program-foreign by code p q r =
    ground (
      arith,
      eq_iff by subscriptions_program,
      eq_iff by token_program,
      eq_iff by token_2022_program,
    )

abbrev pub IsForeign : String → Type 0
IsForeign by = (by ≢ subscriptions_program) × (by ≢ token_program) × (by ≢ token_2022_program)

classify_failure-foreign :
    (facts : RejectionFacts) (label : Bool) (by : String) (r : RejectReason) (failure : Failure)
    → IsForeign by
    → classify_failure facts label by failure ≢ known r
unfolding classify_failure classify_code
classify_failure-foreign facts label by r (custom code) (p, q, s) h =
    ground (arith, eq_iff by subscriptions_program, by_program-foreign by code p q s)
classify_failure-foreign facts label by r (runtime name) (p, q, s) h =
    ground (arith, eq_iff by subscriptions_program)
classify_failure-foreign facts label by r unrecognised f h = cc

-- An error that another program raised is never given a category, whatever its code: a code means
-- nothing without the program that raised it.
pub classify-foreign :
    (facts : RejectionFacts) (label : Bool) (by : String) (r : RejectReason)
    → facts.raised_by ≡ some by
    → IsForeign by
    → classify_rejection facts label ≢ known r
unfolding classify_rejection
classify-foreign facts label by r raised foreign h =
    classify_failure-foreign facts label by r facts.failure foreign (rw raised at h)

missing_account-missing :
    (code : ℕ) (by : String) (e : Option Existed)
    → missing_account code by e ≡ known merchant_account_missing
    → e ≡ some (record { source = true; destination = false })
unfolding missing_account
missing_account-missing code by none h = cc
missing_account-missing code by (some e) h = ground arith

dead-ne-missing :
    (code : ℕ) (by : String) (a : Option AuthorityFacts)
    → dead_authority code by a ≢ known merchant_account_missing
unfolding dead_authority
dead-ne-missing code by a h = ground arith

classify_code-missing :
    (facts : RejectionFacts) (label : Bool) (by : String) (code : ℕ)
    → classify_code facts label by code ≡ known merchant_account_missing
    → (by ≡ subscriptions_program)
      × (facts.token_accounts_existed ≡ some (record { source = true; destination = false }))
      × ((code ≡ 110) ⊎ (code ≡ 107))
unfolding classify_code
classify_code-missing facts label by code h = ground (
  arith,
  eq_iff by subscriptions_program,
  table-ne-missing by code,
  missing_account-missing code by facts.token_accounts_existed,
  dead-ne-missing code by facts.authority,
)

classify_failure-missing :
    (facts : RejectionFacts) (label : Bool) (by : String) (failure : Failure)
    → classify_failure facts label by failure ≡ known merchant_account_missing
    → (by ≡ subscriptions_program)
      × (facts.token_accounts_existed ≡ some (record { source = true; destination = false }))
      × ((failure ≡ custom 110) ⊎ (failure ≡ custom 107))
unfolding classify_failure
classify_failure-missing facts label by (custom code) h =
    ground (arith, classify_code-missing facts label by code h)
classify_failure-missing facts label by (runtime name) h = absurd (ground arith)
classify_failure-missing facts label by unrecognised h = absurd (ground arith)

-- The merchant is named as the side without an account only when the transaction shows it: the
-- subscriber's token account existed before, the merchant's did not.
pub classify-missing :
    (facts : RejectionFacts) (label : Bool)
    → classify_rejection facts label ≡ known merchant_account_missing
    → (facts.raised_by ≡ some subscriptions_program)
      × (facts.token_accounts_existed ≡ some (record { source = true; destination = false }))
      × ((facts.failure ≡ custom 110) ⊎ (facts.failure ≡ custom 107))
unfolding classify_rejection
classify-missing facts label h = elim (Option-cases facts.raised_by) [
  | inl nobody ↦ absurd (ground arith)
  | inr (by, raised) ↦
      ground (arith, classify_failure-missing facts label by facts.failure (rw raised at h))
]
