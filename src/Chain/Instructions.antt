-- ===== src/Chain/Instructions.antt =====
-- packages/chain/src: what @solana/subscriptions gives the builders. Its instructions, derivations
-- and decoders are a parameter; `I` is its type of an instruction.
use cancel_chain.Common.{ℕ, String, Bool, Option, List}
use cancel_chain.Common.Int.{ℤ}

-- An ISO text stands for the milliseconds that `Date.parse` reads of it: `none` is its NaN.
abbrev pub IsoText : Type 0
IsoText = Option ℤ

-- `getCreateFixedDelegationOverlayInstructionAsync` and the recurring one.
pub record CommonArgs : Type 0 where
  pub delegatee : String
  pub delegator : String
  pub expected_init_id : ℕ
  pub expiry_ts : ℕ
  pub nonce : ℤ
  pub program_address : String
  pub token_mint : String
  pub payer : Option String

pub record RecurringArgs : Type 0 where
  pub common : CommonArgs
  pub amount_per_period : ℤ
  pub period_length_s : ℤ
  pub start_ts : ℕ

-- `getInitSubscriptionAuthorityOverlayInstructionAsync`
pub record InitArgs : Type 0 where
  pub owner : String
  pub program_address : String
  pub token_mint : String
  pub token_program : String
  pub user_ata : String
  pub payer : Option String

-- `getSubscribeOverlayInstructionAsync`
pub record SubscribeArgs : Type 0 where
  pub merchant : String
  pub plan_id : ℕ
  pub subscriber : String
  pub token_mint : String
  pub expected_amount : ℕ
  pub expected_period_hours : ℕ
  pub expected_created_at : ℤ
  pub expected_init_id : ℕ
  pub program_address : String
  pub payer : Option String

pub data SubscriptionsInstruction : Type 0 where
  init_subscription_authority subscribe : SubscriptionsInstruction
  other : ℕ → SubscriptionsInstruction

-- What `parseSubscribeInstruction` reads.
pub record ParsedSubscribe : Type 0 where
  pub plan_pda : String
  pub merchant : String
  pub subscriber : String
  pub subscription_pda : String
  pub plan_id : ℕ
  pub expected_mint : String
  pub expected_amount : ℕ
  pub expected_period_hours : ℕ
  pub expected_created_at : ℤ
  pub expected_init_id : ℕ

-- `identify` and `parse_subscribe` throw where they answer `none`.
pub record SubscriptionsSdk (I : Type 0) : Type 0 where
  pub default_program : String
  pub unknown_init_id : ℕ
  pub create_fixed : CommonArgs → ℤ → I
  pub create_recurring : RecurringArgs → I
  pub init_authority : InitArgs → I
  pub subscribe_ix : SubscribeArgs → I
  pub program_of : I → String
  pub has_accounts_and_data : I → Bool
  pub identify : I → Option SubscriptionsInstruction
  pub parse_subscribe : I → Option ParsedSubscribe
  pub find_authority_pda : String → String → String
  pub find_plan_pda : String → ℕ → String
  pub find_subscription_pda : String → String → String
  pub find_delegation_pda : String → String → String → ℤ → String

-- A message with the transaction compiled from it.
pub record TransactionMessage (I : Type 0) : Type 0 where
  pub fee_payer : String
  pub lifetime : String
  pub instructions : List I
