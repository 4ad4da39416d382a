-- ===== src/Chain/Grant/Accepted.antt =====
-- packages/chain/src/grant.ts: which permissions can be given, and what the instruction says.
use cancel_chain.Common.{
  ℕ, ◌+◌, ◌*◌, ◌/◌, ◌≡◌, ◌≢◌, ◌⊎◌, refl, ◌<◌, ◌≤◌, Option, none, some, String, Bool, true, arith,
  ok, Result-cases, inl, inr, or_else,
}
use cancel_chain.Common.Int.{pos, negsuc, ◌≤ℤ◌}
use cancel_chain.Shared.Primitives.{u64_max}
use cancel_chain.Chain.Instructions.{SubscriptionsSdk, CommonArgs, IsoText}
use cancel_chain.Chain.Grant.{
  AuthorityInitId, known, same_transaction, GrantInput, GrantBounds, fixed, recurring,
  RecurringBounds, timestamp_to_chain, cap_of, expires_of, delegatee_of, assert_recurring,
  assert_kind, assert_bounds, build_grant_instruction, init_id_for, create,
}

-- The whole seconds that the program keeps of a moment; 0 stands for no moment and is none itself.
abbrev pub IsMoment : Option IsoText → ℕ → Type 0
IsMoment none seconds = seconds ≡ 0
IsMoment (some none) seconds = ⊥
IsMoment (some (some millis)) seconds =
    (ms : ℕ) × (millis ≡ pos ms)
    × (seconds ≢ 0)
    × (seconds * 1000 ≤ ms)
    × (ms < seconds * 1000 + 1000)

IsMoment-sound :
    (t : Option IsoText) (seconds : ℕ) → timestamp_to_chain t ≡ ok seconds → IsMoment t seconds
unfolding timestamp_to_chain
IsMoment-sound none seconds h = ground (arith, h)
IsMoment-sound (some none) seconds h = absurd (ground (arith, h))
IsMoment-sound (some (some (negsuc n))) seconds h = absurd (ground (arith, h))
IsMoment-sound (some (some (pos ms))) seconds h =
    (ms, refl, ground (arith, h), ground (arith, h), ground (arith, h))

moment_total :
    (t : Option IsoText) (seconds : ℕ) → IsMoment t seconds → timestamp_to_chain t ≡ ok seconds
unfolding timestamp_to_chain
moment_total none seconds h = ground (arith, h)
moment_total (some none) seconds h = absurd h
moment_total (some (some millis)) seconds (ms, same, some_second, low, high) =
    let whole : ms / 1000 ≡ seconds = omega (arith, low, high) in
    rw same (ground (arith, whole, some_second))

-- The number of the authority that the program is told to expect: the one that was read, or the
-- program's number for one that is not known yet.
abbrev pub IsGuard : (unknown_id : ℕ) → AuthorityInitId → ℕ → Type 0
IsGuard unknown_id (known id) guard = guard ≡ id
IsGuard unknown_id same_transaction guard = guard ≡ unknown_id

init_id_for-IsGuard :
    {I : Type 0} (sdk : SubscriptionsSdk I) (id : AuthorityInitId)
    → IsGuard sdk.unknown_init_id id (init_id_for sdk id)
unfolding init_id_for
init_id_for-IsGuard sdk (known id) = refl
init_id_for-IsGuard sdk same_transaction = refl

-- What the program asks of the moments of a recurring permission, where 0 is no moment.
pub record StartFits (start expiry : ℕ) : Type 0 where
  pub bounded : (start ≢ 0) ⊎ (expiry ≢ 0)
  pub ordered : (start ≡ 0) ⊎ ((expiry ≡ 0) ⊎ (start < expiry))

abbrev pub KindFits : GrantBounds → ℕ → Type 0
KindFits (fixed b) expiry = Unit
KindFits (recurring b) expiry =
    (pos 1 ≤ℤ b.period_seconds) × (start : ℕ) × IsMoment b.starts_at start × StartFits start expiry

pub record BoundsFit (bounds : GrantBounds) (now : ℕ) : Type 0 where
  pub expiry : ℕ
  pub reads : IsMoment (expires_of bounds) expiry
  pub positive : pos 1 ≤ℤ cap_of bounds
  pub small : cap_of bounds ≤ℤ pos u64_max
  pub later : (expiry ≡ 0) ⊎ (now / 1000 < expiry)
  pub kind : KindFits bounds expiry

module _ (b : RecurringBounds) (expiry : ℕ) where
  assert_recurring_sound : assert_recurring b expiry ≡ ok tt → KindFits (recurring b) expiry
  unfolding assert_recurring
  assert_recurring_sound h = elim (Result-cases (timestamp_to_chain b.starts_at)) [
    | inl (start, reads) ↦ (
      ground arith,
      start,
      IsMoment-sound b.starts_at start reads,
      record { bounded = ground arith; ordered = ground arith },
    )
    | inr (e, fails) ↦ absurd (ground arith)
  ]

kind_sound :
    (bounds : GrantBounds) (expiry : ℕ) → assert_kind bounds expiry ≡ ok tt → KindFits bounds expiry
kind_sound (fixed b) expiry h = tt
kind_sound (recurring b) expiry h = assert_recurring_sound b expiry h

module _ (bounds : GrantBounds) (now : ℕ) where
  assert_bounds_sound : assert_bounds bounds now ≡ ok tt → BoundsFit bounds now
  unfolding assert_bounds
  assert_bounds_sound h = elim (Result-cases (timestamp_to_chain (expires_of bounds))) [
    | inl (expiry, reads) ↦ record {
      expiry = expiry;
      reads = IsMoment-sound (expires_of bounds) expiry reads;
      positive = ground arith;
      small = ground arith;
      later = ground arith;
      kind = kind_sound bounds expiry (ground arith);
    }
    | inr (e, fails) ↦ absurd (ground arith)
  ]

module _ {I : Type 0} (sdk : SubscriptionsSdk I) (valid : String → Bool) (input : GrantInput) where
  -- What a permission must be to be given.
  pub record IsGrantable : Type 0 where
    pub fits : BoundsFit input.bounds input.now
    pub nonce_positive : pos 0 ≤ℤ input.nonce
    pub nonce_small : input.nonce ≤ℤ pos u64_max
    pub delegatee_ok : valid (delegatee_of input.bounds) ≡ true
    pub mint_ok : valid input.token_mint ≡ true

  -- The call that stands for the permission that was asked for, no argument changed.
  abbrev pub CallOf : GrantBounds → CommonArgs → I → Type 0
  CallOf (fixed b) common i = i ≡ sdk.create_fixed common b.cap_amount
  CallOf (recurring b) common i =
      (start : ℕ) × IsMoment b.starts_at start
      × (i
          ≡ sdk.create_recurring (record {
            common = common;
            amount_per_period = b.cap_amount;
            period_length_s = b.period_seconds;
            start_ts = start;
          }))

  abbrev pub common_args : (guard expiry : ℕ) → CommonArgs
  common_args guard expiry = record {
    delegatee = delegatee_of input.bounds;
    delegator = input.delegator;
    expected_init_id = guard;
    expiry_ts = expiry;
    nonce = input.nonce;
    program_address = or_else input.program_address sdk.default_program;
    token_mint = input.token_mint;
    payer = input.payer;
  }

  create_call :
      (bounds : GrantBounds) (common : CommonArgs) (i : I)
      → create sdk valid bounds common ≡ ok i
      → CallOf bounds common i
  create_call (fixed b) common i h = ground arith
  create_call (recurring b) common i h = elim (Result-cases (timestamp_to_chain b.starts_at)) [
    | inl (start, reads) ↦ (start, IsMoment-sound b.starts_at start reads, ground arith)
    | inr (e, fails) ↦ absurd (ground arith)
  ]

  passes_bounds :
      (i : I)
      → build_grant_instruction sdk valid input ≡ ok i
      → assert_bounds input.bounds input.now ≡ ok tt
  unfolding build_grant_instruction
  passes_bounds i h = elim (Result-cases (assert_bounds input.bounds input.now)) [
    | inl (_, passes) ↦ passes
    | inr (e, fails) ↦ absurd (ground arith)
  ]

  -- A grant is built only where the permission can be given, and it is the call of the program's
  -- own instruction with exactly the ceiling, the period, the nonce and the parties that were asked
  -- for, the moments in whole seconds, and the number of the authority that was read, or the
  -- program's number for an authority of the same transaction.
  pub build_grant_sound :
      (i : I)
      → build_grant_instruction sdk valid input ≡ ok i
      → IsGrantable
        × (guard : ℕ) × IsGuard sdk.unknown_init_id input.authority_init_id guard
        × (expiry : ℕ) × IsMoment (expires_of input.bounds) expiry
        × CallOf input.bounds (common_args guard expiry) i
  unfolding build_grant_instruction
  build_grant_sound i h =
      let passes : assert_bounds input.bounds input.now ≡ ok tt = passes_bounds i h in
      let fits = assert_bounds_sound input.bounds input.now passes in
      let guard = init_id_for sdk input.authority_init_id in
      let reads = moment_total (expires_of input.bounds) fits.expiry fits.reads in
      (
        record {
          fits = fits;
          nonce_positive = ground arith;
          nonce_small = ground arith;
          delegatee_ok = ground arith;
          mint_ok = ground arith;
        },
        guard,
        init_id_for-IsGuard sdk input.authority_init_id,
        fits.expiry,
        fits.reads,
        create_call input.bounds (common_args guard fits.expiry) i (ground (arith, reads)),
      )
