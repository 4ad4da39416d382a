-- ===== src/Api/Card.antt =====
-- apps/api/src/routes/allowances.ts: a permission's card, made of the stored copy and of the network,
-- and the read that waits for a node that is behind. Text of amounts and dates is canonical, so it is
-- compared as the number it stands for.
pub mod Reconcile
pub mod Behind
use cancel_chain.Common.{
  ℕ, zero, suc, ◌+◌, ◌-◌, String, Bool, true, false, not, ◌&&◌, ◌||◌, Option, none, some, ◌==◌,
  str_eq, if◌then◌else◌, is_some, is_none,
}
use cancel_chain.Shared.Allowance.{
  Allowance, AllowanceStatus, active, paused, revoked, exhausted, is_active, is_subscription,
  is_revoked,
}
use cancel_chain.Chain.Read.Cards.{ReadAllowance}

unfoldable pub comparable_status : AllowanceStatus → AllowanceStatus
comparable_status paused = active
comparable_status status = status

abbrev pub same_status : AllowanceStatus → AllowanceStatus → Bool
same_status active active = true
same_status paused paused = true
same_status revoked revoked = true
same_status exhausted exhausted = true
same_status _ _ = false

abbrev pub same_moment : Option ℕ → Option ℕ → Bool
same_moment none none = true
same_moment (some a) (some b) = a == b
same_moment _ _ = false

-- The fields of `NETWORK_OWNED`, one after another.
unfoldable pub diverges : Allowance → Allowance → Bool
diverges cached chain =
    not (same_status (comparable_status cached.status) (comparable_status chain.status))
    || not (cached.cap_amount == chain.cap_amount)
    || not (cached.spent_in_period == chain.spent_in_period)
    || not (same_moment cached.period_started_at chain.period_started_at)
    || not (same_moment cached.expires_at chain.expires_at)
    || not (same_moment cached.ends_at chain.ends_at)

pub record ChainState : Type 0 where
  pub status : AllowanceStatus
  pub cap_amount : ℕ
  pub spent_in_period : ℕ
  pub period_started_at : Option ℕ
  pub paused_at : Option ℕ
  pub ends_at : Option ℕ
  pub slot : ℕ

unfoldable pub chain_state_of : Allowance → ℕ → ChainState
chain_state_of chain slot = record {
  status = chain.status;
  cap_amount = chain.cap_amount;
  spent_in_period = chain.spent_in_period;
  period_started_at = chain.period_started_at;
  paused_at = none;
  ends_at = chain.ends_at;
  slot = slot;
}

pub record AllowanceCard : Type 0 where
  pub allowance : Allowance
  pub chain_state : Option ChainState
  pub diverged : Bool
  pub asset_supported : Bool

abbrev pub label_of : Option Allowance → Option ℕ
label_of none = none
label_of (some cached) = cached.paused_at

-- The pause of ours that the network cannot say.
abbrev pub is_labelled : Option Allowance → Allowance → Bool
is_labelled cached chain =
    is_some (label_of cached) && is_subscription chain.kind && is_active chain.status

abbrev pub labelled : Option Allowance → Allowance → Allowance
labelled cached chain =
    if is_labelled cached chain
    then record chain { status = paused; paused_at = label_of cached }
    else chain

abbrev pub differs_from : Option Allowance → Allowance → Bool
differs_from none chain = false
differs_from (some cached) chain = diverges cached chain

-- `reconcile`, up to the schema of the answer.
unfoldable pub reconcile :
    Option Allowance → Option ReadAllowance → ℕ → String → Option AllowanceCard
reconcile none none slot settlement_mint = none
reconcile (some cached) none slot settlement_mint = some (record {
  allowance = record cached { status = revoked; paused_at = none; last_slot = slot };
  chain_state = none;
  diverged = not (is_revoked cached.status);
  asset_supported = str_eq cached.mint settlement_mint;
})
reconcile cached (some chain) slot settlement_mint = some (record {
  allowance = labelled cached chain.allowance;
  chain_state = some (chain_state_of chain.allowance slot);
  diverged = differs_from cached chain.allowance;
  asset_supported = str_eq chain.allowance.mint settlement_mint;
})

-- What one attempt to read gives: a value, the node's "not there yet", or another failure.
pub data Attempt (E A : Type 0) : Type 0 where
  done : A → Attempt E A
  behind : Attempt E A
  failed : E → Attempt E A

module _ {E A : Type 0} (read : ℕ → Attempt E A) where
  abbrev pub settle : Attempt E A → Attempt E A → Attempt E A
  settle (done a) next = done a
  settle (failed e) next = failed e
  settle behind next = next

  -- The attempts from a number on, with so many left after it.
  unfoldable pub read_from : ℕ → ℕ → Attempt E A
  read_from zero attempt = read attempt
  read_from (suc left) attempt = settle (read attempt) (read_from left (suc attempt))

  -- `readAtLeast` with a slot that is asked for: `behind` stands for its `BEHIND`.
  unfoldable pub read_at_least : ℕ → Attempt E A
  read_at_least attempts = read_from (attempts - 1) 1
