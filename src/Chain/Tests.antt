-- ===== src/Chain/Tests.antt =====
-- Runs of the network's code on a small network of one wallet.
mod Decoding
pub mod Eventful
mod Layouts
mod Reading
mod Revoking
pub mod Granting
mod Subscribing
use cancel_chain.Common.{
  ℕ, ◌≤◌, ◌<◌, ◌≡◌, refl, String, Bool, true, false, Option, none, some, List, [], ◌∷◌, ok, map,
  str_eq, if◌then◌else◌,
}
use cancel_chain.Common.Int.{pos}
use cancel_chain.Chain.Decode.{
  Codecs, Header, FixedDelegation, RecurringDelegation, SubscriptionDelegation, DecodedDelegation,
  AllowanceContext,
}
use cancel_chain.Chain.Read.{Account, RawProgramAccount, AllowanceReader, Response}

abbrev pub wallet : String
wallet = "11111111111111111111111111111112"

abbrev pub merchant : String
merchant = "11111111111111111111111111111113"

abbrev pub permission : String
permission = "11111111111111111111111111111114"

abbrev pub header : Header
header = record { version = 1; delegator = wallet; delegatee = merchant; init_id = 7 }

abbrev pub fixed_account : FixedDelegation
fixed_account = record {
  header = header;
  mint = wallet;
  amount = 5_000_000;
  expiry_ts = pos 1_800_000_000;
  subscription_authority = "11111111111111111111111111111115";
}

abbrev pub recurring_account : RecurringDelegation
recurring_account = record {
  header = header;
  mint = wallet;
  amount_per_period = 5_000_000;
  amount_pulled_in_period = 1_000_000;
  current_period_start_ts = pos 1_790_000_000;
  expiry_ts = pos 0;
  period_length_s = 86_400;
  subscription_authority = "11111111111111111111111111111115";
}

abbrev pub subscription_account : SubscriptionDelegation
subscription_account = record {
  header = header;
  amount_pulled_in_period = 0;
  current_period_start_ts = pos 1_790_000_000;
  expires_at_ts = pos 0;
  terms = record { amount = 5_000_000; period_hours = 720 };
}

-- Accounts of two bytes, the first of which says what they are.
abbrev pub sdk : Codecs
sdk = record {
  fixed_discriminator = 1;
  recurring_discriminator = 2;
  subscription_discriminator = 3;
  fixed_size = 2;
  recurring_size = 2;
  subscription_size = 2;
  decode_fixed = λ b. fixed_account;
  decode_recurring = λ b. recurring_account;
  decode_subscription = λ b. subscription_account;
  current_version = 1;
}

abbrev pub context : AllowanceContext
context = record {
  slot = 414_000_000;
  synced_at = 1_790_001_000_000;
  plan = none;
  now = 1_790_001_000_000;
}

abbrev pub fixed_raw : RawProgramAccount
fixed_raw = record {
  pubkey = permission;
  account = record { account_owner = "program"; bytes = 1 ∷ 0 ∷ [] };
}

abbrev pub subscription_raw : RawProgramAccount
subscription_raw = record {
  pubkey = "subscription";
  account = record { account_owner = "program"; bytes = 3 ∷ 0 ∷ [] };
}

-- The merchant's address holds a plan; the authority is gone.
abbrev pub view : String → Option Account
view key =
    if str_eq key merchant
    then some (record { account_owner = "program"; bytes = 9 ∷ 0 ∷ [] })
    else if str_eq key permission
    then some fixed_raw.account
    else none

abbrev pub reader : AllowanceReader
reader = record {
  program_address = "program";
  usdc_mint = wallet;
  accounts_of_owner =
      λ owner. ok (record { slot = 500; value = fixed_raw ∷ subscription_raw ∷ [] });
  all_plan_accounts = ok (record { slot = 500; value = [] });
  get_multiple_accounts = λ step keys. ok (record { slot = 501; value = map view keys });
  plan_discriminator = 9;
  plan_size = 2;
  plan_mint = λ b. wallet;
  authority_discriminator = 8;
  authority_init_id = λ b. 7;
  find_subscription = λ plan subscriber. "subscription";
  find_subscription_authority = λ user mint. "authority";
  sdk = sdk;
}
