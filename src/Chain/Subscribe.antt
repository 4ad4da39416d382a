-- ===== src/Chain/Subscribe.antt =====
-- packages/chain/src/subscribe.ts: subscribing to a plan. The terms the program pins are built from
-- the plan's snapshot, and read back from the instructions before anything is signed.
pub mod Bounds
pub mod Wallet
pub mod Shape
pub mod Trip
pub mod Terms
use cancel_chain.Common.{
  ℕ, String, Bool, true, false, not, ◌&&◌, ◌||◌, Option, none, some, List, [], ◌∷◌, ◌++◌, ltb,
  str_eq, if◌then◌else◌, is_some, or_else, Result, ok, throw, throw_if, ◌>>=◌, ◌>>◌,
}
use cancel_chain.Common.Int.{ℤ, pos, leb_ℤ}
use cancel_chain.Shared.Primitives.{u64_max}
use cancel_chain.Chain.Decode.{DecodeError}
use cancel_chain.Chain.Instructions.{IsoText, SubscriptionsSdk, SubscribeArgs}
use cancel_chain.Chain.Grant.{
  GrantError, timestamp_to_chain, AuthorityInitId, is_same_transaction, init_id_for, InitAuthority,
  init_instructions,
}
use cancel_chain.Chain.Plan.{PlanSnapshot, SnapshotStatus, active, sunset}

pub data SubscribeError : Type 0 where
  plan_id_too_big wrong_plan_address plan_winding_down plan_ended missing_created_at :
      SubscribeError
  init_bundled init_missing : SubscribeError
  of_grant : GrantError → SubscribeError
  of_decode : DecodeError → SubscribeError
  foreign_program no_accounts_or_data unreadable initialised_twice : SubscribeError
  unexpected_instruction no_subscribe init_disagrees no_creation_time : SubscribeError
  rpc_failed bad_address mint_not_found not_an_authority : SubscribeError

pub record SubscribeTerms : Type 0 where
  pub mint : String
  pub amount : ℕ
  pub period_hours : ℕ
  pub created_at : ℤ

pub record SubscribeInput : Type 0 where
  pub plan : PlanSnapshot
  pub subscriber : String
  pub authority_init_id : AuthorityInitId
  pub payer : Option String
  pub now : ℕ
  pub program_address : Option String

abbrev pub lift_grant : {A : Type 0} → Result GrantError A → Result SubscribeError A
lift_grant (ok a) = ok a
lift_grant (throw e) = throw (of_grant e)

abbrev pub created_seconds : Option IsoText → Result SubscribeError ℕ
created_seconds none = throw missing_created_at
created_seconds (some iso) = lift_grant (timestamp_to_chain (some iso))

unfoldable pub subscribe_terms_from : PlanSnapshot → Result SubscribeError SubscribeTerms
subscribe_terms_from plan = do
  created ← created_seconds plan.created_at
  ok (record {
    mint = plan.mint;
    amount = plan.amount;
    period_hours = plan.period_hours;
    created_at = pos created;
  })

abbrev pub is_sunset : SnapshotStatus → Bool
is_sunset active = false
is_sunset sunset = true

-- `plan.endsAt !== null && Date.parse(plan.endsAt) <= now.getTime()`
abbrev pub has_ended : Option IsoText → ℕ → Bool
has_ended none now = false
has_ended (some none) now = false
has_ended (some (some millis)) now = leb_ℤ millis (pos now)

module _ {I : Type 0} (sdk : SubscriptionsSdk I) where
  -- `findPlan`, with `assertU64` of pda.ts.
  unfoldable pub find_plan : String → ℕ → Result SubscribeError String
  find_plan owner plan_id =
      if ltb u64_max plan_id then throw plan_id_too_big else ok (sdk.find_plan_pda owner plan_id)

  unfoldable pub assert_subscribable : PlanSnapshot → ℕ → Result SubscribeError (Unit {0})
  assert_subscribable plan now = do
    derived ← find_plan plan.owner plan.plan_id
    throw_if (not (str_eq derived plan.pda)) wrong_plan_address
    throw_if (is_sunset plan.status) plan_winding_down
    throw_if (has_ended plan.ends_at now) plan_ended

  unfoldable pub build_subscribe_instruction : SubscribeInput → Result SubscribeError I
  build_subscribe_instruction input = do
    assert_subscribable input.plan input.now
    terms ← subscribe_terms_from input.plan
    ok (
        sdk.subscribe_ix (record {
          merchant = input.plan.owner;
          plan_id = input.plan.plan_id;
          subscriber = input.subscriber;
          token_mint = terms.mint;
          expected_amount = terms.amount;
          expected_period_hours = terms.period_hours;
          expected_created_at = terms.created_at;
          expected_init_id = init_id_for sdk input.authority_init_id;
          program_address = or_else input.program_address sdk.default_program;
          payer = input.payer;
        }))

  -- `valid` is the check of an address that the bundled instruction makes.
  unfoldable pub build_subscribe_instructions :
      (String → Bool) → SubscribeInput → Option InitAuthority → Result SubscribeError (List I)
  build_subscribe_instructions valid input init = do
    throw_if (is_some init && not (is_same_transaction input.authority_init_id)) init_bundled
    throw_if (not (is_some init) && is_same_transaction input.authority_init_id) init_missing
    first ← lift_grant (
        init_instructions sdk valid init input.subscriber input.plan.mint input.payer
          input.program_address)
    subscribe ← build_subscribe_instruction input
    ok (first ++ (subscribe ∷ []))
