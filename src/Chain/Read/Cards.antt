-- ===== src/Chain/Read/Cards.antt =====
-- packages/chain/src/read.ts: accounts to cards and named refusals.
pub mod Kept
use cancel_chain.Common.{
  ℕ, String, Bool, true, false, not, Option, none, some, List, [], ◌∷◌, str_eq, if◌then◌else◌,
  or_else, Result, ok, throw,
}
use cancel_chain.Common.Dict.{get}
use cancel_chain.Shared.Allowance.{Allowance, AllowanceStatus, revoked}
use cancel_chain.Chain.Decode.{
  DecodedDelegation, address_of, fixed, recurring, subscription, unknown, UndecodableReason,
  DecodeError, undecodable, unsupported_version, missing_plan, PlanRef, AllowanceContext,
  to_allowance,
}
use cancel_chain.Chain.Read.{AllowanceReader}
use cancel_chain.Chain.Read.Plans.{AuthorityState, live, closed, rotated}

pub data UnreadableReason : Type 0 where
  empty discriminator length_differs version plan fields : UnreadableReason

pub record UnreadableAllowance : Type 0 where
  pub address : String
  pub reason : UnreadableReason
  pub error : DecodeError

pub record ReadAllowance : Type 0 where
  pub allowance : Allowance
  pub asset_supported : Bool

abbrev pub undecodable_reason : UndecodableReason → UnreadableReason
undecodable_reason UndecodableReason.empty = empty
undecodable_reason UndecodableReason.discriminator = discriminator
undecodable_reason UndecodableReason.length_differs = length_differs

unfoldable pub reason_for : DecodeError → UnreadableReason
reason_for (unsupported_version address v) = version
reason_for (missing_plan address) = plan
reason_for (undecodable address reason) = undecodable_reason reason
reason_for _ = fields

abbrev pub is_live : AuthorityState → Bool
is_live live = true
is_live _ = false

-- `{ ...allowance, status: 'revoked', pausedAt: null }` where the authority is dead.
abbrev pub overrule : Option AuthorityState → Allowance → Allowance
overrule state a =
    if is_live (or_else state live) then a else record a { status = revoked; paused_at = none }

-- One entry of either list of the answer.
pub data Entry : Type 0 where
  shown : ReadAllowance → Entry
  refused : UnreadableAllowance → Entry

abbrev pub put :
    Entry
    → List ReadAllowance × List UnreadableAllowance
    → List ReadAllowance × List UnreadableAllowance
put (shown c) (cards, refusals) = (c ∷ cards, refusals)
put (refused u) (cards, refusals) = (cards, u ∷ refusals)

module _ (reader : AllowanceReader) (refs : List (String × PlanRef))
    (authorities : List (String × AuthorityState)) (slot synced_at now : ℕ) where
  abbrev pub plan_for : DecodedDelegation → Option PlanRef
  plan_for (subscription address d) = get address refs
  plan_for _ = none

  abbrev pub context_for : DecodedDelegation → AllowanceContext
  context_for d = record { slot = slot; synced_at = synced_at; plan = plan_for d; now = now }

  abbrev pub card : String → Allowance → ReadAllowance
  card address a = record {
    allowance = overrule (get address authorities) a;
    asset_supported = str_eq a.mint reader.usdc_mint;
  }

  abbrev pub entry_of : String → Result DecodeError Allowance → Entry
  entry_of address (ok a) = shown (card address a)
  entry_of address (throw e) =
      refused (record { address = address; reason = reason_for e; error = e })

  unfoldable pub convert_one : DecodedDelegation → Entry
  convert_one d = entry_of (address_of d) (to_allowance reader.sdk (context_for d) d)

  unfoldable pub convert : List DecodedDelegation → List ReadAllowance × List UnreadableAllowance
  convert [] = ([], [])
  convert (d ∷ ds) = put (convert_one d) (convert ds)
