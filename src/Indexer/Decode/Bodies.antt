-- ===== src/Indexer/Decode/Bodies.antt =====
-- apps/indexer/src/decode.ts: what one instruction or one of the program's events comes to.
use cancel_chain.Common.{
  ℕ, String, Bool, Option, none, some, List, str_eq, includes, Result, ok, ◌>>=◌,
}
use cancel_chain.Common.Int.{ℤ}
use cancel_chain.Common.Dict.{get, has}
use cancel_chain.Shared.Allowance.{AllowanceKind, fixed, recurring, subscription}
use cancel_chain.Shared.Reasons.{Failure, Existed, AuthorityFacts}
use cancel_chain.Chain.Events as Events
use cancel_chain.Chain.Events.{ProgramEvent}
use cancel_chain.Indexer.Decode.{
  Parsed, TransferInstruction, transfer_subscription, transfer_recurring, transfer_fixed,
  create_fixed_delegation, create_recurring_delegation, revoke_delegation,
  revoke_abandoned_delegation, revoke_abandoned_subscription, close_subscription_authority,
  revoke_subscription_authority, Sdk, DecodeFault, to_address,
}

pub record Rejection : Type 0 where
  pub failure : Failure
  pub raised_by : Option String
  pub token_accounts_existed : Option Existed
  pub authority : AuthorityFacts

-- `IndexedEvent` without the fields that all kinds share.
pub data Body : Type 0 where
  created : String → AllowanceKind → String → Body
  charged : String → AllowanceKind → ℕ → String → Body
  rejected : String → AllowanceKind → ℕ → Rejection → Body
  cancelled : String → ℤ → Body
  resumed revoked : String → Body
  plan_updated : String → ℕ → ℤ → List String → Body
  authority_closed : String → String → Body

pub record ChargeAttempt : Type 0 where
  pub allowance_kind : AllowanceKind
  pub transfer : TransferInstruction

unfoldable pub charge_attempt : Parsed → Option ChargeAttempt
charge_attempt (transfer_subscription t) =
    some (record { allowance_kind = subscription; transfer = t })
charge_attempt (transfer_recurring t) = some (record { allowance_kind = recurring; transfer = t })
charge_attempt (transfer_fixed t) = some (record { allowance_kind = fixed; transfer = t })
charge_attempt _ = none

unfoldable pub from_instruction : Parsed → Option Body
from_instruction (create_fixed_delegation permission owner) = some (created permission fixed owner)
from_instruction (create_recurring_delegation permission owner) =
    some (created permission recurring owner)
from_instruction (revoke_delegation permission) = some (revoked permission)
from_instruction (revoke_abandoned_delegation permission) = some (revoked permission)
from_instruction (revoke_abandoned_subscription permission) = some (revoked permission)
from_instruction (close_subscription_authority user authority) =
    some (authority_closed user authority)
from_instruction (revoke_subscription_authority user authority) =
    some (authority_closed user authority)
from_instruction _ = none

module _ (sdk : Sdk) where
  unfoldable pub from_event : ProgramEvent → Body
  from_event (Events.created e) =
      created (sdk.find_subscription e.plan e.subscriber) subscription e.subscriber
  from_event (Events.cancelled e) =
      cancelled (sdk.find_subscription e.plan e.subscriber) e.expires_at_ts
  from_event (Events.resumed e) = resumed (sdk.find_subscription e.plan e.subscriber)
  from_event (Events.subscription_charged e) =
      charged e.subscription subscription e.amount e.receiver
  from_event (Events.recurring_charged e) = charged e.delegation recurring e.amount e.receiver
  from_event (Events.fixed_charged e) = charged e.delegation fixed e.amount e.receiver
  from_event (Events.updated e) = plan_updated e.plan e.status e.end_ts e.pullers

  -- `tokenAccounts?.get(source) ?? null`
  abbrev pub owner_of : Option (List (String × Option String)) → String → Option String
  owner_of none source = none
  owner_of (some accounts) source = elim (get source accounts) [ none ↦ none | some owner ↦ owner ]

  unfoldable pub derived_authority : Option String → String → Result DecodeFault (Option String)
  derived_authority none mint = ok none
  derived_authority (some subscriber) mint = do
    user ← to_address sdk subscriber
    ok (some (sdk.find_subscription_authority user mint))

  abbrev pub holds : Option (List String) → String → Option Bool
  holds none key = none
  holds (some funded) key = some (includes funded key)

  abbrev pub equals : Option String → String → Option Bool
  equals none key = none
  equals (some derived) key = some (str_eq derived key)

  unfoldable pub authority_facts :
      TransferInstruction
      → Option (List (String × Option String))
      → Option (List String)
      → Result DecodeFault AuthorityFacts
  authority_facts t token_accounts funded = do
    derived ← derived_authority (owner_of token_accounts t.delegator_ata) t.token_mint
    ok (record {
      existed = holds funded t.subscription_authority;
      is_subscribers = equals derived t.subscription_authority;
    })

abbrev pub existed_of :
    Option (List (String × Option String)) → TransferInstruction → Option Existed
existed_of none t = none
existed_of (some accounts) t =
    some
      (record { source = has t.delegator_ata accounts; destination = has t.receiver_ata accounts })
