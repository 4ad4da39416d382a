-- ===== src/Chain/Plan.antt =====
-- packages/chain/src/plan.ts: a merchant's plan, read from its account. The node's answer and the
-- decoder of @solana/subscriptions are a parameter.
pub mod Snapshot
use cancel_chain.Common.{
  ℕ, String, Bool, true, false, not, ◌||◌, Option, none, some, List, ltb, ◌==◌, str_eq,
  if◌then◌else◌, length, filter, Result, ok, throw, throw_if, ◌>>=◌, ◌>>◌,
}
use cancel_chain.Common.Int.{ℤ, pos}
use cancel_chain.Shared.Primitives.{max_safe_integer}
use cancel_chain.Chain.Decode.{DecodeError, timestamp_from_chain}
use cancel_chain.Chain.Read.{Account}
use cancel_chain.Chain.Read.Plans.{starts_with}
use cancel_chain.Chain.Instructions.{IsoText}

-- `getPlanDecoder().decode(bytes)`
pub record DecodedPlan : Type 0 where
  pub owner : String
  pub status : ℕ
  pub plan_id : ℕ
  pub mint : String
  pub amount : ℕ
  pub period_hours : ℕ
  pub created_at : ℤ
  pub end_ts : ℤ
  pub destinations : List String
  pub pullers : List String
  pub metadata_uri : String

pub data SnapshotStatus : Type 0 where
  active sunset : SnapshotStatus

pub record PlanSnapshot : Type 0 where
  pub pda : String
  pub owner : String
  pub status : SnapshotStatus
  pub plan_id : ℕ
  pub mint : String
  pub amount : ℕ
  pub period_hours : ℕ
  pub created_at : Option IsoText
  pub ends_at : Option IsoText
  pub destinations : List String
  pub pullers : List String
  pub metadata_uri : String

pub data PlanFault : Type 0 where
  other_owner other_size other_discriminator : PlanFault

pub data PlanError : Type 0 where
  rpc_failed : PlanError
  plan_not_found : String → PlanError
  not_a_plan : String → PlanFault → PlanError
  period_out_of_range : ℕ → PlanError
  bad_timestamp : DecodeError → PlanError

pub record PlanReader : Type 0 where
  pub program_address : String
  pub get_account_info : String → Result PlanError (Option Account)
  pub plan_size : ℕ
  pub plan_discriminator : ℕ
  pub sunset_status : ℕ
  pub zero_address : String
  pub decode_plan : List ℕ → DecodedPlan

-- The text that `toISOString` writes of a moment.
abbrev pub iso : Option ℕ → Option IsoText
iso none = none
iso (some millis) = some (some (pos millis))

abbrev lift_moment : Result DecodeError (Option ℕ) → Result PlanError (Option IsoText)
lift_moment (ok moment) = ok (iso moment)
lift_moment (throw e) = throw (bad_timestamp e)

abbrev pub moment : ℤ → Result PlanError (Option IsoText)
moment ts = lift_moment (timestamp_from_chain ts)

unfoldable pub period_hours_from_chain : ℕ → Result PlanError ℕ
period_hours_from_chain hours =
    if hours == 0 || ltb max_safe_integer hours then throw (period_out_of_range hours) else ok hours

abbrev pub there : String → Option Account → Result PlanError Account
there pda none = throw (plan_not_found pda)
there pda (some account) = ok account

module _ (reader : PlanReader) where
  unfoldable pub plan_status : ℕ → SnapshotStatus
  plan_status raw = if raw == reader.sunset_status then sunset else active

  abbrev pub present : List String → List String
  present = filter (λ wallet. not (str_eq wallet reader.zero_address))

  -- The snapshot of a decoded account.
  unfoldable pub snapshot : String → DecodedPlan → Result PlanError PlanSnapshot
  snapshot pda d = do
    hours ← period_hours_from_chain d.period_hours
    created ← moment d.created_at
    ends ← moment d.end_ts
    ok (record {
      pda = pda;
      owner = d.owner;
      status = plan_status d.status;
      plan_id = d.plan_id;
      mint = d.mint;
      amount = d.amount;
      period_hours = hours;
      created_at = created;
      ends_at = ends;
      destinations = present d.destinations;
      pullers = present d.pullers;
      metadata_uri = d.metadata_uri;
    })

  unfoldable pub read_plan : String → Result PlanError PlanSnapshot
  read_plan pda = do
    value ← reader.get_account_info pda
    account ← there pda value
    throw_if (not (str_eq account.account_owner reader.program_address))
        (not_a_plan pda other_owner)
    throw_if (not (length account.bytes == reader.plan_size)) (not_a_plan pda other_size)
    throw_if (not (starts_with account.bytes reader.plan_discriminator))
        (not_a_plan pda other_discriminator)
    snapshot pda (reader.decode_plan account.bytes)
