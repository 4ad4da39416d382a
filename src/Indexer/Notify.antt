-- ===== src/Indexer/Notify.antt =====
-- apps/indexer/src/notify.ts: what there is to tell a subscribed browser. Moments are milliseconds;
-- a query is a pass over the tables.
pub mod Refusals
pub mod Charges
pub mod Deliver
pub mod Once
pub mod Due
pub mod Runs
pub mod Claims
use cancel_chain.Common.{
  ℕ, ◌-◌, ◌*◌, String, Bool, true, false, ◌&&◌, Option, List, leb, ◌==◌, str_eq, if◌then◌else◌,
  filter, any,
}
use cancel_chain.Shared.Allowance.{Allowance, AllowanceKind}
use cancel_chain.Shared.Reasons.{RejectReason}
use cancel_chain.Indexer.Store.{EventRow}
use cancel_chain.Indexer.Retention.{
  PushKind, upcoming, rejected, Occasion, event_ref, period_ref, Claim, day_ms,
}

pub record PushTarget : Type 0 where
  pub endpoint : String
  pub p256dh : String
  pub auth : String

-- `push_subscriptions`
pub record PushSubscription : Type 0 where
  pub id : ℕ
  pub owner : String
  pub target : PushTarget
  pub created_at : ℕ

pub record NotifyTables : Type 0 where
  pub allowances : List (String × Allowance)
  pub events : List (ℕ × EventRow)
  pub subscriptions : List PushSubscription
  pub claims : List Claim

-- What `rejectedMessage` and `upcomingMessage` are called with.
pub record Party : Type 0 where
  pub pda : String
  pub kind : AllowanceKind
  pub delegate : String
  pub plan_pda : Option String
  pub mint : String
  pub usdc_mint : String

pub data Message : Type 0 where
  rejected_message : Party → Option ℕ → Option RejectReason → ℕ → Message
  upcoming_message : Party → ℕ → ℕ → Message

pub data Urgency : Type 0 where
  high normal : Urgency

pub record Delivery : Type 0 where
  pub claim : Claim
  pub target : PushTarget
  pub message : Message
  pub ttl_seconds : ℕ
  pub urgency : Urgency

abbrev pub rejected_window_ms : ℕ
rejected_window_ms = day_ms

abbrev pub scan_limit : ℕ
scan_limit = 200

abbrev pub min : ℕ → ℕ → ℕ
min a b = if leb a b then a else b

abbrev pub max : ℕ → ℕ → ℕ
max a b = if leb a b then b else a

unfoldable pub upcoming_lead_ms : ℕ → ℕ → ℕ
upcoming_lead_ms period_seconds lead_ms =
    if leb (period_seconds * 1000) (2 * lead_ms) then period_seconds * 250 else lead_ms

abbrev pub same_kind : PushKind → PushKind → Bool
same_kind upcoming upcoming = true
same_kind rejected rejected = true
same_kind _ _ = false

abbrev pub same_occasion : Occasion → Occasion → Bool
same_occasion (event_ref m) (event_ref n) = m == n
same_occasion (period_ref p s) (period_ref q t) = str_eq p q && s == t
same_occasion _ _ = false

-- The primary key of `push_deliveries`.
unfoldable pub same_claim : Claim → Claim → Bool
same_claim a b =
    a.subscription_id == b.subscription_id
    && same_kind a.kind b.kind
    && same_occasion a.occasion b.occasion

unfoldable pub claimed : List Claim → Claim → Bool
claimed claims c = any (same_claim c) claims

abbrev pub party_of : Allowance → String → Party
party_of a usdc_mint = record {
  pda = a.pda;
  kind = a.kind;
  delegate = a.delegate;
  plan_pda = a.plan_pda;
  mint = a.mint;
  usdc_mint = usdc_mint;
}

-- `innerJoin` with the subscriptions of an owner.
unfoldable pub subscribed : String → List PushSubscription → List PushSubscription
subscribed owner = filter (λ s. str_eq s.owner owner)
