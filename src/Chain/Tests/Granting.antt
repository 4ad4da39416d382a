-- ===== src/Chain/Tests/Granting.antt =====
-- Giving a permission.
use cancel_chain.Common.{ℕ, ◌≡◌, refl, String, Bool, true, Option, none, some, [], ◌∷◌, ok}
use cancel_chain.Common.Int.{ℤ, pos}
use cancel_chain.Chain.Instructions.{
  CommonArgs, RecurringArgs, InitArgs, SubscribeArgs, SubscriptionsInstruction,
  init_subscription_authority, subscribe, other, ParsedSubscribe, SubscriptionsSdk,
  TransactionMessage,
}
use cancel_chain.Chain.Grant.{
  GrantInput, recurring, known, same_transaction, InitAuthority, timestamp_to_chain,
  build_grant_instruction, build_grant_transaction, assert_bounds, assert_recurring, expires_of,
  init_instructions, assert_init_agrees, init_id_for, build_init_authority_instruction,
}
use cancel_chain.Chain.Grant.Accepted.{
  IsMoment, IsGrantable, CallOf, common_args, build_grant_sound,
}
use cancel_chain.Chain.Grant.Bundle.{Bundles, build_grant_transaction-Bundles}

-- An instruction that keeps what it was built of.
pub data Built : Type 0 where
  a_fixed : CommonArgs → ℤ → Built
  a_recurring : RecurringArgs → Built
  an_init : InitArgs → Built
  a_subscribe : SubscribeArgs → Built

abbrev program_of : Built → String
program_of (a_fixed c amount) = c.program_address
program_of (a_recurring r) = r.common.program_address
program_of (an_init a) = a.program_address
program_of (a_subscribe a) = a.program_address

abbrev identify : Built → Option SubscriptionsInstruction
identify (a_fixed c amount) = some (other 1)
identify (a_recurring r) = some (other 2)
identify (an_init a) = some init_subscription_authority
identify (a_subscribe a) = some subscribe

abbrev parsed : Built → Option ParsedSubscribe
parsed (a_subscribe a) = some (record {
  plan_pda = "plan";
  merchant = a.merchant;
  subscriber = a.subscriber;
  subscription_pda = "subscription";
  plan_id = a.plan_id;
  expected_mint = a.token_mint;
  expected_amount = a.expected_amount;
  expected_period_hours = a.expected_period_hours;
  expected_created_at = a.expected_created_at;
  expected_init_id = a.expected_init_id;
})
parsed _ = none

abbrev pub sdk : SubscriptionsSdk Built
sdk = record {
  default_program = "program";
  unknown_init_id = 0;
  create_fixed = a_fixed;
  create_recurring = a_recurring;
  init_authority = an_init;
  subscribe_ix = a_subscribe;
  program_of = program_of;
  has_accounts_and_data = λ i. true;
  identify = identify;
  parse_subscribe = parsed;
  find_authority_pda = λ user mint. "authority";
  find_plan_pda = λ owner id. "plan";
  find_subscription_pda = λ plan user. "subscription";
  find_delegation_pda = λ authority user to nonce. "permission";
}

abbrev pub valid : String → Bool
valid key = true

-- A hundred a month, from the landing of the transaction until a later day.
abbrev monthly : GrantInput
monthly = record {
  bounds = recurring (record {
    delegatee = "merchant";
    cap_amount = pos 100_000_000;
    period_seconds = pos 2_592_000;
    starts_at = none;
    expires_at = some (some (pos 1_900_000_000_000));
  });
  delegator = "wallet";
  token_mint = "mint";
  nonce = pos 7;
  authority_init_id = known 3;
  payer = none;
  now = 1_790_000_000_000;
  program_address = none;
}

abbrev monthly_call : Built
monthly_call = a_recurring (record {
  common = common_args sdk valid monthly 3 1_900_000_000;
  amount_per_period = pos 100_000_000;
  period_length_s = pos 2_592_000;
  start_ts = 0;
})

monthly-built : build_grant_instruction sdk valid monthly ≡ ok monthly_call
unfolding build_grant_instruction assert_bounds assert_recurring timestamp_to_chain init_id_for
monthly-built = refl

build_grant_sound_example :
    IsGrantable sdk valid monthly
    × (guard : ℕ) × (guard ≡ 3)
    × (expiry : ℕ) × IsMoment (expires_of monthly.bounds) expiry
    × CallOf sdk valid monthly monthly.bounds
        (common_args sdk valid monthly guard expiry)
        monthly_call
build_grant_sound_example = build_grant_sound sdk valid monthly monthly_call monthly-built

abbrev first_grant : GrantInput
first_grant = record monthly { authority_init_id = same_transaction }

abbrev pub authority : InitAuthority
authority = record { token_program = "tokens"; user_ata = "account" }

abbrev first_message : TransactionMessage Built
first_message = record {
  fee_payer = "wallet";
  lifetime = "blockhash";
  instructions =
      an_init (record {
        owner = "wallet";
        program_address = "program";
        token_mint = "mint";
        token_program = "tokens";
        user_ata = "account";
        payer = none;
      })
      ∷ a_recurring (record {
        common = common_args sdk valid first_grant 0 1_900_000_000;
        amount_per_period = pos 100_000_000;
        period_length_s = pos 2_592_000;
        start_ts = 0;
      })
      ∷ [];
}

first-built :
    build_grant_transaction sdk valid first_grant (some authority) "blockhash" ≡ ok first_message
unfolding build_grant_transaction init_instructions assert_init_agrees
    build_init_authority_instruction build_grant_instruction assert_bounds assert_recurring
    timestamp_to_chain init_id_for
first-built = refl

build_grant_transaction-Bundles_example :
    Bundles sdk valid first_grant (some authority) first_message.instructions
    × (first_message.fee_payer ≡ "wallet")
build_grant_transaction-Bundles_example =
    build_grant_transaction-Bundles sdk valid first_grant (some authority) "blockhash" first_message
      first-built
