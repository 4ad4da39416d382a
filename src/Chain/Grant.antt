-- ===== src/Chain/Grant.antt =====
-- packages/chain/src/grant.ts and pda.ts: the instruction that gives a permission. `valid` is the
-- SDK's check of an address; a moment in bounds is an ISO text, in the instruction it is seconds.
pub mod Accepted
pub mod Bundle
use cancel_chain.Common.{
  ℕ, ◌+◌, ◌*◌, ◌/◌, String, Bool, true, false, not, ◌&&◌, ◌||◌, Option, none, some, List, [], ◌∷◌,
  ◌++◌, ltb, leb, ◌==◌, if◌then◌else◌, is_some, or_else, Result, ok, throw, throw_if, ◌>>=◌, ◌>>◌,
}
use cancel_chain.Common.Int.{ℤ, pos, negsuc, leb_ℤ, ltb_ℤ}
use cancel_chain.Shared.Primitives.{u64_max}
use cancel_chain.Chain.Instructions.{
  IsoText, CommonArgs, RecurringArgs, InitArgs, SubscriptionsSdk, TransactionMessage,
}

pub data GrantError : Type 0 where
  not_a_timestamp predates_epoch lands_on_epoch : GrantError
  bad_amount bad_period bad_nonce bad_address expired : GrantError
  open_ended starts_after_expiry : GrantError
  init_bundled init_missing : GrantError

abbrev no_timestamp : ℕ
no_timestamp = 0

abbrev seconds_of_parsed : IsoText → Result GrantError ℕ
seconds_of_parsed none = throw not_a_timestamp
seconds_of_parsed (some (negsuc n)) = throw predates_epoch
seconds_of_parsed (some (pos millis)) =
    if millis / 1000 == 0 then throw lands_on_epoch else ok (millis / 1000)

unfoldable pub timestamp_to_chain : Option IsoText → Result GrantError ℕ
timestamp_to_chain none = ok no_timestamp
timestamp_to_chain (some iso) = seconds_of_parsed iso

pub record FixedBounds : Type 0 where
  pub delegatee : String
  pub cap_amount : ℤ
  pub expires_at : Option IsoText

pub record RecurringBounds : Type 0 where
  pub delegatee : String
  pub cap_amount : ℤ
  pub period_seconds : ℤ
  pub starts_at : Option IsoText
  pub expires_at : Option IsoText

pub data GrantBounds : Type 0 where
  fixed : FixedBounds → GrantBounds
  recurring : RecurringBounds → GrantBounds

abbrev pub cap_of : GrantBounds → ℤ
cap_of (fixed b) = b.cap_amount
cap_of (recurring b) = b.cap_amount

abbrev pub expires_of : GrantBounds → Option IsoText
expires_of (fixed b) = b.expires_at
expires_of (recurring b) = b.expires_at

abbrev pub delegatee_of : GrantBounds → String
delegatee_of (fixed b) = b.delegatee
delegatee_of (recurring b) = b.delegatee

pub data AuthorityInitId : Type 0 where
  known : ℕ → AuthorityInitId
  same_transaction : AuthorityInitId

abbrev pub is_same_transaction : AuthorityInitId → Bool
is_same_transaction (known id) = false
is_same_transaction same_transaction = true

pub record GrantInput : Type 0 where
  pub bounds : GrantBounds
  pub delegator : String
  pub token_mint : String
  pub nonce : ℤ
  pub authority_init_id : AuthorityInitId
  pub payer : Option String
  pub now : ℕ
  pub program_address : Option String

-- `value < 0n || value > U64_MAX`
abbrev pub misses_u64 : ℤ → Bool
misses_u64 value = ltb_ℤ value (pos 0) || ltb_ℤ (pos u64_max) value

-- The checks of a recurring permission, once its end is read.
unfoldable pub assert_recurring : RecurringBounds → ℕ → Result GrantError (Unit {0})
assert_recurring b expiry = do
  throw_if (leb_ℤ b.period_seconds (pos 0)) bad_period
  start ← timestamp_to_chain b.starts_at
  throw_if (start == no_timestamp && expiry == no_timestamp) open_ended
  throw_if (not (start == no_timestamp) && not (expiry == no_timestamp) && leb expiry start)
      starts_after_expiry

abbrev pub assert_kind : GrantBounds → ℕ → Result GrantError (Unit {0})
assert_kind (fixed b) expiry = ok tt
assert_kind (recurring b) expiry = assert_recurring b expiry

unfoldable pub assert_bounds : GrantBounds → ℕ → Result GrantError (Unit {0})
assert_bounds bounds now = do
  throw_if (leb_ℤ (cap_of bounds) (pos 0) || ltb_ℤ (pos u64_max) (cap_of bounds)) bad_amount
  expiry ← timestamp_to_chain (expires_of bounds)
  throw_if (not (expiry == no_timestamp) && leb expiry (now / 1000)) expired
  assert_kind bounds expiry

unfoldable pub init_id_for : {I : Type 0} → SubscriptionsSdk I → AuthorityInitId → ℕ
init_id_for sdk (known id) = id
init_id_for sdk same_transaction = sdk.unknown_init_id

module _ {I : Type 0} (sdk : SubscriptionsSdk I) (valid : String → Bool) where
  abbrev pub to_address : String → Result GrantError String
  to_address a = if valid a then ok a else throw bad_address

  abbrev pub create : GrantBounds → CommonArgs → Result GrantError I
  create (fixed b) common = ok (sdk.create_fixed common b.cap_amount)
  create (recurring b) common = do
    start ← timestamp_to_chain b.starts_at
    ok (
        sdk.create_recurring (record {
          common = common;
          amount_per_period = b.cap_amount;
          period_length_s = b.period_seconds;
          start_ts = start;
        }))

  unfoldable pub build_grant_instruction : GrantInput → Result GrantError I
  build_grant_instruction input = do
    assert_bounds input.bounds input.now
    throw_if (misses_u64 input.nonce) bad_nonce
    delegatee ← to_address (delegatee_of input.bounds)
    expiry ← timestamp_to_chain (expires_of input.bounds)
    token_mint ← to_address input.token_mint
    create input.bounds (record {
      delegatee = delegatee;
      delegator = input.delegator;
      expected_init_id = init_id_for sdk input.authority_init_id;
      expiry_ts = expiry;
      nonce = input.nonce;
      program_address = or_else input.program_address sdk.default_program;
      token_mint = token_mint;
      payer = input.payer;
    })

  unfoldable pub build_init_authority_instruction :
      (owner token_mint token_program user_ata : String) (payer program_address : Option String)
      → Result GrantError I
  build_init_authority_instruction owner token_mint token_program user_ata payer program_address =
      do
        mint ← to_address token_mint
        program ← to_address token_program
        ata ← to_address user_ata
        ok (
            sdk.init_authority (record {
              owner = owner;
              program_address = or_else program_address sdk.default_program;
              token_mint = mint;
              token_program = program;
              user_ata = ata;
              payer = payer;
            }))

  -- `findAuthority` and `findDelegation`, with `assertU64` of pda.ts.
  unfoldable pub find_granted_allowance :
      (delegator delegatee token_mint : String) (nonce : ℤ) → Result GrantError String
  find_granted_allowance delegator delegatee token_mint nonce = do
    mint ← to_address token_mint
    user ← to_address delegator
    to ← to_address delegatee
    throw_if (misses_u64 nonce) bad_nonce
    ok (sdk.find_delegation_pda (sdk.find_authority_pda user mint) user to nonce)

-- The two addresses of a bundled `initSubscriptionAuthority` that the grant does not know.
pub record InitAuthority : Type 0 where
  pub token_program : String
  pub user_ata : String

module _ {I : Type 0} (sdk : SubscriptionsSdk I) (valid : String → Bool) where
  unfoldable pub init_instructions :
      Option InitAuthority
      → (owner token_mint : String) (payer program_address : Option String)
      → Result GrantError (List I)
  init_instructions none owner token_mint payer program_address = ok []
  init_instructions (some init) owner token_mint payer program_address = do
    i ←
        build_init_authority_instruction sdk valid owner token_mint init.token_program init.user_ata
          payer program_address
    ok (i ∷ [])

  -- The authority is bundled exactly where its `initId` is that of the same transaction.
  unfoldable pub assert_init_agrees :
      Option InitAuthority → AuthorityInitId → Result GrantError (Unit {0})
  assert_init_agrees init id = do
    throw_if (is_some init && not (is_same_transaction id)) init_bundled
    throw_if (not (is_some init) && is_same_transaction id) init_missing

  unfoldable pub build_grant_transaction :
      GrantInput → Option InitAuthority → String → Result GrantError (TransactionMessage I)
  build_grant_transaction input init lifetime = do
    assert_init_agrees init input.authority_init_id
    first ←
        init_instructions init input.delegator input.token_mint input.payer input.program_address
    grant ← build_grant_instruction sdk valid input
    ok (record {
      fee_payer = or_else input.payer input.delegator;
      lifetime = lifetime;
      instructions = first ++ (grant ∷ []);
    })
