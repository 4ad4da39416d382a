-- ===== src/Chain/Tests/Subscribing.antt =====
-- Subscribing to a plan that was read from its account, and the history of an address.
use cancel_chain.Common.{
  ℕ, ◌≡◌, ◌↔◌, ◌<◌, refl, arith, String, Bool, true, false, none, some, List, [], ◌∷◌, map, take,
  ok,
}
use cancel_chain.Common.Int.{pos}
use cancel_chain.Chain.Read.{Account}
use cancel_chain.Chain.Instructions.{SubscribeArgs}
use cancel_chain.Chain.Grant.{
  same_transaction, timestamp_to_chain, init_instructions, init_id_for,
  build_init_authority_instruction,
}
use cancel_chain.Chain.Plan.{
  DecodedPlan, PlanReader, PlanSnapshot, active, read_plan, snapshot, plan_status,
  period_hours_from_chain,
}
use cancel_chain.Chain.Decode.{timestamp_from_chain}
use cancel_chain.Chain.Subscribe.{
  SubscribeInput, build_subscribe_instructions, build_subscribe_instruction, assert_subscribable,
  find_plan, subscribe_terms_from,
}
use cancel_chain.Chain.Subscribe.Bounds.{
  SubscribeBounds, bounds_of, read_subscribe_bounds, see_all, see_one, see, conclude,
}
use cancel_chain.Chain.Subscribe.Shape.{IsSubscription, read_subscribe_bounds-IsSubscription}
use cancel_chain.Chain.Subscribe.Trip.{ReadsBack, parsed_back}
use cancel_chain.Chain.Subscribe.Terms.{terms_of, read_plan-signed}
use cancel_chain.Chain.History.{
  RawAddressSignature, AddressHistory, read_address_history, to_transactions, to_transaction,
  slot_to_number, block_time_to_iso, told, answered, read_history_head,
}
use cancel_chain.Chain.Tests.Granting.{Built, a_subscribe, an_init, sdk, valid, authority}

abbrev decoded : DecodedPlan
decoded = record {
  owner = "merchant";
  status = 1;
  plan_id = 9;
  mint = "mint";
  amount = 5_000_000;
  period_hours = 720;
  created_at = pos 1_780_000_000;
  end_ts = pos 0;
  destinations = "" ∷ [];
  pullers = "puller" ∷ "" ∷ [];
  metadata_uri = "https://merchant.example/plan";
}

abbrev reader : PlanReader
reader = record {
  program_address = "program";
  get_account_info = λ pda. ok (some (record { account_owner = "program"; bytes = 3 ∷ 1 ∷ [] }));
  plan_size = 2;
  plan_discriminator = 3;
  sunset_status = 2;
  zero_address = "";
  decode_plan = λ bytes. decoded;
}

abbrev plan : PlanSnapshot
plan = record {
  pda = "plan";
  owner = "merchant";
  status = active;
  plan_id = 9;
  mint = "mint";
  amount = 5_000_000;
  period_hours = 720;
  created_at = some (some (pos 1_780_000_000_000));
  ends_at = none;
  destinations = [];
  pullers = "puller" ∷ [];
  metadata_uri = "https://merchant.example/plan";
}

abbrev joining : SubscribeInput
joining = record {
  plan = plan;
  subscriber = "wallet";
  authority_init_id = same_transaction;
  payer = none;
  now = 1_790_000_000_000;
  program_address = none;
}

plan-read : read_plan reader "plan" ≡ ok plan
unfolding read_plan snapshot plan_status period_hours_from_chain timestamp_from_chain
plan-read = refl

abbrev joining_args : SubscribeArgs
joining_args = record {
  merchant = "merchant";
  plan_id = 9;
  subscriber = "wallet";
  token_mint = "mint";
  expected_amount = 5_000_000;
  expected_period_hours = 720;
  expected_created_at = pos 1_780_000_000;
  expected_init_id = 0;
  program_address = "program";
  payer = none;
}

abbrev joining_ixs : List Built
joining_ixs =
    an_init (record {
      owner = "wallet";
      program_address = "program";
      token_mint = "mint";
      token_program = "tokens";
      user_ata = "account";
      payer = none;
    })
    ∷ a_subscribe joining_args
    ∷ []

joining-built : build_subscribe_instructions sdk valid joining (some authority) ≡ ok joining_ixs
unfolding build_subscribe_instructions init_instructions build_init_authority_instruction
    build_subscribe_instruction assert_subscribable find_plan subscribe_terms_from
    timestamp_to_chain init_id_for
joining-built = refl

reads : ReadsBack sdk
reads = record {
  subscribe_program = λ a. refl;
  subscribe_full = λ a. refl;
  subscribe_kind = λ a. refl;
  subscribe_parsed = λ a. refl;
  init_program = λ a. refl;
  init_full = λ a. refl;
  init_kind = λ a. refl;
}

read_plan-signed_example :
    (a : Account) × (reader.get_account_info "plan" ≡ ok (some a))
    × (b : SubscribeBounds) × (read_subscribe_bounds sdk joining_ixs "program" ≡ ok b)
    × (b.plan ≡ "plan")
    × (b.terms ≡ terms_of decoded)
read_plan-signed_example =
    read_plan-signed reader "plan" sdk reads valid joining (some authority) joining_ixs plan-read
      joining-built (λ id e. absurd (ground arith))

abbrev joining_bounds : SubscribeBounds
joining_bounds = bounds_of true (parsed_back sdk joining_args)

joining-read : read_subscribe_bounds sdk joining_ixs "program" ≡ ok joining_bounds
unfolding read_subscribe_bounds see_all see_one see conclude
joining-read = refl

read_subscribe_bounds-IsSubscription_example :
    IsSubscription sdk "program" joining_ixs joining_bounds
read_subscribe_bounds-IsSubscription_example =
    read_subscribe_bounds-IsSubscription sdk "program" joining_ixs joining_bounds joining-read

abbrev signed : String → ℕ → Bool → RawAddressSignature
signed signature slot err = record {
  signature = signature;
  slot = slot;
  block_time = some (pos slot);
  err = err;
}

abbrev newest_first : List RawAddressSignature
newest_first = signed "third" 30 false ∷ signed "second" 20 true ∷ signed "first" 10 false ∷ []

abbrev page : AddressHistory
page = record {
  items =
      record { signature = "third"; slot = 30; block_time = some (pos 30_000); failed = false }
      ∷ record { signature = "second"; slot = 20; block_time = some (pos 20_000); failed = true }
      ∷ [];
  synced_at = 40_000;
  more = true;
}

page-read : read_address_history (λ n. ok (take n newest_first)) 2 40_000 ≡ ok page
unfolding read_address_history to_transactions to_transaction slot_to_number block_time_to_iso
page-read = refl

read_history_head_example :
    (map told page.items ≡ map answered (take 2 newest_first)) × ((true ≡ true) ↔ (2 < 3))
read_history_head_example =
    read_history_head newest_first (λ n. ok (take n newest_first)) 2 40_000 page (λ n. refl)
      page-read
