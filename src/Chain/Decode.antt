-- ===== src/Chain/Decode.antt =====
-- packages/chain/src/decode.ts: a permission's account, and its conversion to the shared shape.
-- The decoders, the sizes and the discriminators are those of @solana/subscriptions: a parameter.
pub mod Status
pub mod Convert
pub mod Total
use cancel_chain.Common.{
  ℕ, suc, ◌+◌, ◌*◌, ◌/◌, String, Bool, true, false, not, ◌&&◌, ◌||◌, Option, none, some, List, [],
  ◌∷◌, ltb, leb, ◌==◌, if◌then◌else◌, length, Result, ok, throw, throw_if, ◌>>=◌, ◌>>◌,
}
use cancel_chain.Common.Int.{ℤ, pos, negsuc, leb_ℤ, is_zero}
use cancel_chain.Shared.Primitives.{u64_max, max_safe_integer}
use cancel_chain.Shared.Period.{PeriodError, period_seconds_from_hours}
use cancel_chain.Shared.Allowance.{
  AllowanceKind, AllowanceStatus, active, exhausted, Allowance, SchemaError, allowance_schema,
}

pub record Header : Type 0 where
  pub version : ℕ
  pub delegator : String
  pub delegatee : String
  pub init_id : ℕ

pub record FixedDelegation : Type 0 where
  pub header : Header
  pub mint : String
  pub amount : ℕ
  pub expiry_ts : ℤ
  pub subscription_authority : String

pub record RecurringDelegation : Type 0 where
  pub header : Header
  pub mint : String
  pub amount_per_period : ℕ
  pub amount_pulled_in_period : ℕ
  pub current_period_start_ts : ℤ
  pub expiry_ts : ℤ
  pub period_length_s : ℕ
  pub subscription_authority : String

pub record SubscriptionTerms : Type 0 where
  pub amount : ℕ
  pub period_hours : ℕ

pub record SubscriptionDelegation : Type 0 where
  pub header : Header
  pub amount_pulled_in_period : ℕ
  pub current_period_start_ts : ℤ
  pub expires_at_ts : ℤ
  pub terms : SubscriptionTerms

pub data UndecodableReason : Type 0 where
  empty discriminator length_differs : UndecodableReason

pub data DecodedDelegation : Type 0 where
  fixed : String → FixedDelegation → DecodedDelegation
  recurring : String → RecurringDelegation → DecodedDelegation
  subscription : String → SubscriptionDelegation → DecodedDelegation
  unknown : String → Option ℕ → UndecodableReason → DecodedDelegation

-- The address of the account.
abbrev pub address_of : DecodedDelegation → String
address_of (fixed address d) = address
address_of (recurring address d) = address
address_of (subscription address d) = address
address_of (unknown address d reason) = address

-- `getFixedDelegationDecoder().decode` and its like, with the fixed sizes and first bytes.
pub record Codecs : Type 0 where
  pub fixed_discriminator : ℕ
  pub recurring_discriminator : ℕ
  pub subscription_discriminator : ℕ
  pub fixed_size : ℕ
  pub recurring_size : ℕ
  pub subscription_size : ℕ
  pub decode_fixed : List ℕ → FixedDelegation
  pub decode_recurring : List ℕ → RecurringDelegation
  pub decode_subscription : List ℕ → SubscriptionDelegation
  pub current_version : ℕ

module _ (sdk : Codecs) where
  unfoldable pub expected_size_for : ℕ → Option ℕ
  expected_size_for d =
      if d == sdk.fixed_discriminator
      then some sdk.fixed_size
      else if d == sdk.recurring_discriminator
      then some sdk.recurring_size
      else if d == sdk.subscription_discriminator
      then some sdk.subscription_size
      else none

  unfoldable pub decode_sized : String → List ℕ → ℕ → Option ℕ → DecodedDelegation
  decode_sized address bytes d none = unknown address (some d) discriminator
  decode_sized address bytes d (some expected) =
      if not (length bytes == expected)
      then unknown address (some d) length_differs
      else if d == sdk.fixed_discriminator
      then fixed address (sdk.decode_fixed bytes)
      else if d == sdk.recurring_discriminator
      then recurring address (sdk.decode_recurring bytes)
      else subscription address (sdk.decode_subscription bytes)

  unfoldable pub decode_delegation : String → List ℕ → DecodedDelegation
  unfolding expected_size_for decode_sized
  decode_delegation address [] = unknown address none empty
  decode_delegation address (d ∷ bytes) = decode_sized address (d ∷ bytes) d (expected_size_for d)

pub data DecodeError : Type 0 where
  undecodable : String → UndecodableReason → DecodeError
  unsupported_version : String → ℕ → DecodeError
  missing_plan : String → DecodeError
  out_of_range : DecodeError
  bad_period : PeriodError → DecodeError
  bad_shape : SchemaError → DecodeError

-- The last moment of a JavaScript `Date`, beyond which `toISOString` throws.
abbrev pub max_date : ℕ
max_date = 8_640_000_000_000_000

unfoldable pub timestamp_from_chain : ℤ → Result DecodeError (Option ℕ)
timestamp_from_chain (negsuc n) = throw out_of_range
timestamp_from_chain (pos seconds) =
    if seconds == 0
    then ok none
    else if ltb max_safe_integer (seconds * 1000)
    then throw out_of_range
    else if ltb max_date (seconds * 1000)
    then throw out_of_range
    else ok (some (seconds * 1000))

unfoldable pub positive_u64_to_number : ℕ → Result DecodeError ℕ
positive_u64_to_number value =
    if value == 0 || ltb max_safe_integer value then throw out_of_range else ok value

unfoldable pub period_seconds_from_chain : ℕ → Result DecodeError ℕ
unfolding positive_u64_to_number
period_seconds_from_chain seconds = positive_u64_to_number seconds

abbrev pub lift_period : Result PeriodError ℕ → Result DecodeError ℕ
lift_period (ok s) = ok s
lift_period (throw e) = throw (bad_period e)

unfoldable pub period_seconds_from_chain_hours : ℕ → Result DecodeError ℕ
unfolding positive_u64_to_number
period_seconds_from_chain_hours hours = do
  whole ← positive_u64_to_number hours
  lift_period (period_seconds_from_hours whole)

-- `fromU64`: the amount as its text, which stands for the number.
unfoldable pub amount_of : ℕ → Result DecodeError ℕ
amount_of n = if ltb u64_max n then throw out_of_range else ok n

-- `ts !== NO_TIMESTAMP && ts <= seconds`
abbrev pub has_passed : ℤ → ℕ → Bool
has_passed ts now = not (is_zero ts) && leb_ℤ ts (pos (now / 1000))

abbrev pub exhausted_if : Bool → AllowanceStatus
exhausted_if b = if b then exhausted else active

unfoldable pub derive_status : DecodedDelegation → ℕ → Result DecodeError AllowanceStatus
derive_status (fixed address d) now =
    ok (exhausted_if (d.amount == 0 || has_passed d.expiry_ts now))
derive_status (recurring address d) now = ok (exhausted_if (has_passed d.expiry_ts now))
derive_status (subscription address d) now = ok (exhausted_if (has_passed d.expires_at_ts now))
derive_status (unknown address d reason) now = throw (undecodable address reason)

pub record PlanRef : Type 0 where
  pub pda : String
  pub mint : String

pub record AllowanceContext : Type 0 where
  pub slot : ℕ
  pub synced_at : ℕ
  pub plan : Option PlanRef
  pub now : ℕ

abbrev pub parse : Allowance → Result DecodeError Allowance
parse a = elim (allowance_schema a) [ ok b ↦ ok b | throw e ↦ throw (bad_shape e) ]

module _ (context : AllowanceContext) where
  abbrev pub card_fixed :
      (address : String) (d : FixedDelegation) (status : AllowanceStatus) (cap : ℕ)
      (expires_at : Option ℕ)
      → Allowance
  card_fixed address d status cap expires_at = record {
    pda = address;
    owner = d.header.delegator;
    delegate = d.header.delegatee;
    mint = d.mint;
    kind = AllowanceKind.fixed;
    cap_amount = cap;
    period_seconds = none;
    spent_in_period = 0;
    period_started_at = none;
    expires_at = expires_at;
    paused_at = none;
    ends_at = none;
    status = status;
    plan_pda = none;
    last_slot = context.slot;
    synced_at = context.synced_at;
  }

  abbrev pub card_recurring :
      (address : String) (d : RecurringDelegation) (status : AllowanceStatus) (cap spent period : ℕ)
      (started expires_at : Option ℕ)
      → Allowance
  card_recurring address d status cap spent period started expires_at = record {
    pda = address;
    owner = d.header.delegator;
    delegate = d.header.delegatee;
    mint = d.mint;
    kind = AllowanceKind.recurring;
    cap_amount = cap;
    period_seconds = some period;
    spent_in_period = spent;
    period_started_at = started;
    expires_at = expires_at;
    paused_at = none;
    ends_at = none;
    status = status;
    plan_pda = none;
    last_slot = context.slot;
    synced_at = context.synced_at;
  }

  abbrev pub card_subscription :
      (address : String) (d : SubscriptionDelegation) (status : AllowanceStatus) (plan : PlanRef)
      (cap spent period : ℕ) (started ends_at : Option ℕ)
      → Allowance
  card_subscription address d status plan cap spent period started ends_at = record {
    pda = address;
    owner = d.header.delegator;
    delegate = d.header.delegatee;
    mint = plan.mint;
    kind = AllowanceKind.subscription;
    cap_amount = cap;
    period_seconds = some period;
    spent_in_period = spent;
    period_started_at = started;
    expires_at = none;
    paused_at = none;
    ends_at = ends_at;
    status = status;
    plan_pda = some plan.pda;
    last_slot = context.slot;
    synced_at = context.synced_at;
  }

module _ (sdk : Codecs) (context : AllowanceContext) where
  -- `decoded.version !== CURRENT_PROGRAM_VERSION`
  abbrev pub check_version : String → ℕ → Result DecodeError (Unit {0})
  check_version address version =
      throw_if (not (version == sdk.current_version)) (unsupported_version address version)

  unfoldable pub to_allowance_fixed : String → FixedDelegation → Result DecodeError Allowance
  to_allowance_fixed address d = do
    check_version address d.header.version
    status ← derive_status (fixed address d) context.now
    cap ← amount_of d.amount
    expires_at ← timestamp_from_chain d.expiry_ts
    parse (card_fixed context address d status cap expires_at)

  unfoldable pub to_allowance_recurring :
      String → RecurringDelegation → Result DecodeError Allowance
  to_allowance_recurring address d = do
    check_version address d.header.version
    status ← derive_status (recurring address d) context.now
    cap ← amount_of d.amount_per_period
    spent ← amount_of d.amount_pulled_in_period
    period ← period_seconds_from_chain d.period_length_s
    started ← timestamp_from_chain d.current_period_start_ts
    expires_at ← timestamp_from_chain d.expiry_ts
    parse (card_recurring context address d status cap spent period started expires_at)

  abbrev pub required_plan : String → Option PlanRef → Result DecodeError PlanRef
  required_plan address none = throw (missing_plan address)
  required_plan address (some plan) = ok plan

  unfoldable pub to_allowance_subscription :
      String → SubscriptionDelegation → Result DecodeError Allowance
  to_allowance_subscription address d = do
    check_version address d.header.version
    status ← derive_status (subscription address d) context.now
    plan ← required_plan address context.plan
    cap ← amount_of d.terms.amount
    spent ← amount_of d.amount_pulled_in_period
    period ← period_seconds_from_chain_hours d.terms.period_hours
    started ← timestamp_from_chain d.current_period_start_ts
    ends_at ← timestamp_from_chain d.expires_at_ts
    parse (card_subscription context address d status plan cap spent period started ends_at)

  unfoldable pub to_allowance : DecodedDelegation → Result DecodeError Allowance
  to_allowance (unknown address d reason) = throw (undecodable address reason)
  to_allowance (fixed address d) = to_allowance_fixed address d
  to_allowance (recurring address d) = to_allowance_recurring address d
  to_allowance (subscription address d) = to_allowance_subscription address d
