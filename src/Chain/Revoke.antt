-- ===== src/Chain/Revoke.antt =====
-- packages/chain/src/revoke.ts: what cancelling a permission means right now, and the checks before
-- an instruction is built. An instruction is the call of the SDK's builder with its arguments;
-- `valid` is the SDK's check of an address.
pub mod Window
pub mod Actions
use cancel_chain.Common.{
  ℕ, ◌+◌, ◌-◌, ◌*◌, ◌/◌, String, Bool, true, false, not, ◌||◌, Option, none, some, ltb, leb, ◌==◌,
  str_eq, if◌then◌else◌, Result, ok, throw, throw_if, ◌>>=◌, ◌>>◌,
}
use cancel_chain.Shared.Allowance.{AllowanceKind, fixed, recurring, subscription, is_subscription}

pub data RevokeAction : Type 0 where
  close cancel_subscription : RevokeAction
  wait : ℕ → RevokeAction

abbrev pub subscription_action : Option ℕ → ℕ → RevokeAction
subscription_action none now = cancel_subscription
subscription_action (some until) now = if leb until now then close else wait until

-- `revokeActionFor`; moments are milliseconds.
unfoldable pub revoke_action_for : AllowanceKind → Option ℕ → ℕ → RevokeAction
revoke_action_for kind ends_at now =
    if not (is_subscription kind) then close else subscription_action ends_at now

pub record SubscriptionCancelWindow : Type 0 where
  pub ends_no_later_than : ℕ
  pub current_period_started_at : ℕ
  pub charged_this_period : ℕ
  pub still_chargeable : ℕ

pub record Subscription : Type 0 where
  pub period_seconds : ℕ
  pub period_started_at : ℕ
  pub cap : ℕ
  pub spent_in_period : ℕ

pub data RevokeError : Type 0 where
  bad_period bad_address authority_mismatch missing_plan plan_not_applicable : RevokeError
  not_ended : Option ℕ → RevokeError
  not_a_subscription : RevokeError
  already_cancelled : ℕ → RevokeError

-- `Math.max(0, current - start)` is the difference of natural numbers.
unfoldable pub periods_elapsed : Subscription → ℕ → ℕ
periods_elapsed s now = (now / 1000 - s.period_started_at / 1000) / s.period_seconds

unfoldable pub window_at : Subscription → ℕ → ℕ → SubscriptionCancelWindow
window_at s now elapsed =
    let current_start = s.period_started_at / 1000 + elapsed * s.period_seconds in
    let charged : ℕ = if elapsed == 0 then s.spent_in_period else 0 in
    record {
      ends_no_later_than = (current_start + s.period_seconds) * 1000;
      current_period_started_at = current_start * 1000;
      charged_this_period = charged;
      still_chargeable = s.cap - charged;
    }

unfoldable pub subscription_cancel_window :
    Subscription → ℕ → Result RevokeError SubscriptionCancelWindow
unfolding window_at periods_elapsed
subscription_cancel_window s now = do
  throw_if (s.period_seconds == 0) bad_period
  ok (window_at s now (periods_elapsed s now))

pub record RevokeTarget : Type 0 where
  pub kind : AllowanceKind
  pub owner : String
  pub pda : String
  pub plan_pda : Option String
  pub ends_at : Option ℕ

-- `getRevokeSubscriptionOverlayInstruction`, `getRevokeDelegationOverlayInstruction` and
-- `getCancelSubscriptionOverlayInstructionAsync` with their arguments.
pub data Instruction : Type 0 where
  revoke_subscription : String → String → String → Option String → Instruction
  revoke_delegation : String → String → Option String → Instruction
  cancel_subscription_ix : String → String → String → Instruction

module _ (valid : String → Bool) where
  abbrev pub to_address : String → Result RevokeError String
  to_address a = if valid a then ok a else throw bad_address

  abbrev pub to_address_opt : Option String → Result RevokeError (Option String)
  to_address_opt none = ok none
  to_address_opt (some a) = if valid a then ok (some a) else throw bad_address

  abbrev pub close_now : RevokeAction → Result RevokeError (Unit {0})
  close_now close = ok tt
  close_now cancel_subscription = throw (not_ended none)
  close_now (wait until) = throw (not_ended (some until))

  abbrev pub planned : Option String → Result RevokeError String
  planned none = throw missing_plan
  planned (some plan) = ok plan

  unfoldable pub close_of_subscription :
      RevokeTarget → String → Option String → ℕ → Result RevokeError Instruction
  close_of_subscription a signer receiver now = do
    plan ← planned a.plan_pda
    _ ← close_now (revoke_action_for a.kind a.ends_at now)
    plan_address ← to_address plan
    ok (revoke_subscription signer plan_address a.pda receiver)

  unfoldable pub close_of_delegation :
      RevokeTarget → String → Option String → Result RevokeError Instruction
  close_of_delegation a signer receiver = elim a.plan_pda [
    | some plan ↦ throw plan_not_applicable
    | none ↦ ok (revoke_delegation signer a.pda receiver)
  ]

  unfoldable pub build_revoke_instruction :
      RevokeTarget → String → Option String → ℕ → Result RevokeError Instruction
  build_revoke_instruction a authority receiver now = do
    _ ← to_address a.pda
    owner ← to_address a.owner
    signer ← to_address authority
    throw_if (not (str_eq signer owner)) authority_mismatch
    rent_to ← to_address_opt receiver
    if is_subscription a.kind
        then close_of_subscription a signer rent_to now
        else close_of_delegation a signer rent_to

  abbrev pub not_cancelled : Option ℕ → Result RevokeError (Unit {0})
  not_cancelled none = ok tt
  not_cancelled (some at) = throw (already_cancelled at)

  unfoldable pub build_cancel_subscription_instruction :
      RevokeTarget → String → Result RevokeError Instruction
  build_cancel_subscription_instruction a authority = do
    _ ← to_address a.pda
    throw_if (not (is_subscription a.kind)) not_a_subscription
    owner ← to_address a.owner
    signer ← to_address authority
    throw_if (not (str_eq signer owner)) authority_mismatch
    plan ← planned a.plan_pda
    _ ← not_cancelled a.ends_at
    plan_address ← to_address plan
    ok (cancel_subscription_ix signer plan_address a.pda)
