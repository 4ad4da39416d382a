-- ===== src/Chain/Tests/Reading.antt =====
-- A wallet with a one-off permission and a subscription, whose authorities are gone.
use cancel_chain.Common.{
  includes, add_to, ℕ, ◌≡◌, refl, String, true, none, some, List, [], ◌∷◌, All, ok, map, get_elem?,
}
use cancel_chain.Common.Dict.{get, set}
use cancel_chain.Shared.Allowance.{
  bad_field, AllowanceKind, revoked, allowance_schema, fields_ok, check_allowance,
}
use cancel_chain.Shared.Primitives.{is_address, is_base58}
use cancel_chain.Shared.Period.{assert_whole_positive, period_seconds_from_hours}
use cancel_chain.Chain.Decode.{
  DecodedDelegation, fixed, PlanRef, bad_shape, decode_sized, expected_size_for,
  to_allowance_subscription, period_seconds_from_chain_hours, positive_u64_to_number,
  decode_delegation, to_allowance, to_allowance_fixed, derive_status, amount_of,
  timestamp_from_chain,
}
use cancel_chain.Chain.Read.{
  RawProgramAccount, Response, chunk_from, chunk, read_accounts, read_batches, ensure_floor, found,
  max_accounts_per_request, slot_to_number,
}
use cancel_chain.Chain.Read.Batches.{
  seen, IsSteady, read_accounts-seen, IsFreshBatch, read_accounts-fresh,
}
use cancel_chain.Chain.Read.Plans.{
  SubscriptionAccount, AuthorityState, closed, resolve_plan_refs, read_plans_by_address, distinct,
  index_plan, index_plans, to_plans, to_plan_account, authority_states, states_of,
  authority_address, authority_addresses, init_ids, set_state, set_states,
}
use cancel_chain.Chain.Read.Plans.Derived.{IsDerived, resolve_plan_refs-AreDerived}
use cancel_chain.Chain.Read.Cards.{ReadAllowance, fields, reason_for, convert_one, convert}
use cancel_chain.Chain.Read.Cards.Kept.{count, count_shown, IsEntryOf, convert_one-IsEntryOf}
use cancel_chain.Chain.Read.Wallet.{
  sort, insert, cards_of, subscription_accounts, read_found, read_owned, AllowanceReadResult,
  AllowanceReadOne, read_allowances, read_allowance,
}
use cancel_chain.Chain.Read.Wallet.Complete.{read_allowances_complete}
use cancel_chain.Chain.Read.Wallet.One.{IsAnswer, read_allowance-IsAnswer}
use cancel_chain.Chain.Tests.{wallet, merchant, permission, fixed_account, view, reader}

abbrev three : List ℕ
three = 1 ∷ 2 ∷ 3 ∷ []

steady : IsSteady view reader 0 501
steady batch h = refl

fresh : ensure_floor 501 (some 500) ≡ ok tt
unfolding ensure_floor
fresh = refl

abbrev keys : List String
keys = permission ∷ []

read_accounts-seen_example : read_accounts reader 0 (some 500) keys ≡ ok (501, seen view keys)
read_accounts-seen_example =
    read_accounts-seen view reader 0 501 (some 500) fresh steady permission []

answered : read_accounts reader 0 (some 500) keys ≡ ok (501, seen view keys)
unfolding read_accounts read_batches chunk chunk_from ensure_floor found
answered = refl

read_accounts-fresh_example : All (IsFreshBatch reader 0 500) (chunk keys max_accounts_per_request)
read_accounts-fresh_example = read_accounts-fresh reader 0 500 keys (501, seen view keys) answered

abbrev subscribed : List SubscriptionAccount
subscribed = record { address = "subscription"; subscriber = wallet; delegatee = merchant } ∷ []

abbrev plan : PlanRef
plan = record { pda = merchant; mint = wallet }

abbrev plans : List (String × PlanRef)
plans = ("subscription", plan) ∷ []

resolved : resolve_plan_refs reader (some 500) true subscribed ≡ ok plans
unfolding resolve_plan_refs read_plans_by_address read_accounts read_batches chunk chunk_from
    distinct add_to includes ensure_floor get index_plans to_plans found to_plan_account index_plan
    set
resolved = refl

known_plan : get "subscription" plans ≡ some plan
unfolding get
known_plan = refl

resolve_plan_refs-AreDerived_example :
    IsDerived reader
      (some 500)
      (distinct [] (map (λ e. e.delegatee) subscribed))
      (wallet ∷ [])
      "subscription"
      plan
resolve_plan_refs-AreDerived_example =
    resolve_plan_refs-AreDerived reader (some 500) true subscribed plans "subscription" plan
      resolved known_plan

abbrev authorities : List (String × AuthorityState)
authorities = (permission, closed) ∷ []

convert_one-IsEntryOf_example :
    IsEntryOf reader plans authorities 500 1_790_001_000_000 1_790_001_000_000
      (fixed permission fixed_account)
      (convert_one reader plans authorities 500 1_790_001_000_000 1_790_001_000_000
        (fixed permission fixed_account))
convert_one-IsEntryOf_example =
    convert_one-IsEntryOf reader plans authorities 500 1_790_001_000_000 1_790_001_000_000
      (fixed permission fixed_account)

abbrev listed : List DecodedDelegation
listed = fixed permission fixed_account ∷ []

abbrev card : ReadAllowance
card = record {
  allowance = record {
    pda = permission;
    owner = wallet;
    delegate = merchant;
    mint = wallet;
    kind = AllowanceKind.fixed;
    cap_amount = 5_000_000;
    period_seconds = none;
    spent_in_period = 0;
    period_started_at = none;
    expires_at = some 1_800_000_000_000;
    paused_at = none;
    ends_at = none;
    status = revoked;
    plan_pda = none;
    last_slot = 501;
    synced_at = 1_790_001_000_000;
  };
  asset_supported = true;
}

abbrev one_answer : AllowanceReadOne
one_answer = record {
  slot = 501;
  synced_at = 1_790_001_000_000;
  allowance = some card;
  unreadable = none;
}

one_read :
    read_allowance reader (some 500) true 1_790_001_000_000 1_790_001_000_000 permission
    ≡ ok one_answer
unfolding read_allowance read_found read_owned resolve_plan_refs read_plans_by_address read_accounts
    read_batches chunk chunk_from distinct add_to includes ensure_floor get index_plans to_plans
    found to_plan_account index_plan set slot_to_number cards_of subscription_accounts
    decode_delegation decode_sized expected_size_for authority_states states_of authority_addresses
    authority_address init_ids set_states set_state convert convert_one to_allowance
    to_allowance_fixed derive_status amount_of timestamp_from_chain allowance_schema fields_ok
    check_allowance is_address is_base58
one_read = refl

read_allowance-IsAnswer_example :
    (raw_slot : ℕ) × (accounts : List RawProgramAccount) × (read_accounts reader 0 (some 500) keys
      ≡ ok (raw_slot, accounts))
    × IsAnswer reader
        (some 500)
        true
        1_790_001_000_000
        1_790_001_000_000
        permission
        (get_elem? accounts 0)
        one_answer
read_allowance-IsAnswer_example =
    read_allowance-IsAnswer reader (some 500) true 1_790_001_000_000 1_790_001_000_000 permission
      one_answer one_read

abbrev list_answer : AllowanceReadResult
list_answer = record {
  slot = 500;
  synced_at = 1_790_001_000_000;
  allowances = record card { allowance = record card.allowance { last_slot = 500 } } ∷ [];
  unreadable =
      record { address = "subscription"; reason = fields; error = bad_shape bad_field } ∷ [];
}

list_read :
    read_allowances reader (some 500) true 1_790_001_000_000 1_790_001_000_000 wallet
    ≡ ok list_answer
unfolding read_allowances sort insert reason_for to_allowance_subscription
    period_seconds_from_chain_hours positive_u64_to_number period_seconds_from_hours
    assert_whole_positive resolve_plan_refs read_plans_by_address read_accounts read_batches chunk
    chunk_from distinct add_to includes ensure_floor get index_plans to_plans found to_plan_account
    index_plan set slot_to_number cards_of subscription_accounts decode_delegation decode_sized
    expected_size_for authority_states states_of authority_addresses authority_address init_ids
    set_states set_state convert convert_one to_allowance to_allowance_fixed derive_status amount_of
    timestamp_from_chain allowance_schema fields_ok check_allowance is_address is_base58
list_read = refl

read_allowances_complete_example :
    (response : Response (List RawProgramAccount)) × (reader.accounts_of_owner wallet ≡ ok response)
    × (list_answer.slot ≡ response.slot)
    × ((x : String)
        → count_shown x (list_answer.allowances, list_answer.unreadable)
          ≡ count x (map (λ raw. raw.pubkey) response.value))
read_allowances_complete_example =
    read_allowances_complete reader (some 500) true 1_790_001_000_000 1_790_001_000_000 wallet
      list_answer list_read
