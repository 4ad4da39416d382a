-- ===== src/Indexer/Notify/Refusals.antt =====
-- apps/indexer/src/notify.ts: refusals, the refused charges that are told.
use cancel_chain.Common.{
  ℕ, ◌+◌, ◌/◌, String, Bool, not, ◌&&◌, Option, none, some, List, [], ◌∷◌, ◌++◌, map, ltb, leb,
  if◌then◌else◌, take, filter,
}
use cancel_chain.Common.Dict.{get}
use cancel_chain.Shared.Allowance.{Allowance, is_rejected}
use cancel_chain.Indexer.Store.{EventRow}
use cancel_chain.Indexer.Retention.{rejected, event_ref, Claim}
use cancel_chain.Indexer.Notify.{
  Delivery, NotifyTables, PushSubscription, claimed, high, party_of, rejected_message,
  rejected_window_ms, scan_limit, subscribed,
}

-- A refusal that is told: the event with its permission and one subscription.
pub record Refusal : Type 0 where
  pub id : ℕ
  pub event : EventRow
  pub allowance : Allowance
  pub subscription : PushSubscription

abbrev pub refusal_claim : Refusal → Claim
refusal_claim r = record {
  subscription_id = r.subscription.id;
  kind = rejected;
  occasion = event_ref r.id;
}

-- `gt(blockTime, at - window)`, and no subscription hears of what was before it.
unfoldable pub is_fresh_refusal : List Claim → ℕ → Refusal → Bool
is_fresh_refusal claims at r =
    is_rejected r.event.kind
    && ltb at (r.event.block_time + rejected_window_ms)
    && leb r.subscription.created_at r.event.block_time
    && not (claimed claims (refusal_claim r))

unfoldable pub refusals_of_event :
    (id : ℕ) (event : EventRow) → Option Allowance → List PushSubscription → List Refusal
refusals_of_event id event none subscriptions = []
refusals_of_event id event (some a) subscriptions =
    map (λ s. record { id = id; event = event; allowance = a; subscription = s })
      (subscribed a.owner subscriptions)

unfoldable pub joined_refusals : NotifyTables → List (ℕ × EventRow) → List Refusal
joined_refusals db [] = []
joined_refusals db ((id, event) ∷ events) =
    refusals_of_event id event (get event.allowance_pda db.allowances) db.subscriptions
    ++ joined_refusals db events

-- `orderBy(events.blockTime)`
unfoldable pub insert_refusal : Refusal → List Refusal → List Refusal
insert_refusal r [] = r ∷ []
insert_refusal r (s ∷ rs) =
    let later = insert_refusal r rs in
    if leb r.event.block_time s.event.block_time then r ∷ s ∷ rs else s ∷ later

unfoldable pub sort_refusals : List Refusal → List Refusal
sort_refusals [] = []
sort_refusals (r ∷ rs) = insert_refusal r (sort_refusals rs)

abbrev pub refusal_delivery : String → Refusal → Delivery
refusal_delivery usdc_mint r = record {
  claim = refusal_claim r;
  target = r.subscription.target;
  message =
      rejected_message (party_of r.allowance usdc_mint) r.event.amount r.event.reason
        r.event.block_time;
  ttl_seconds = rejected_window_ms / 1000;
  urgency = high;
}

unfoldable pub refusals : String → NotifyTables → ℕ → List Delivery
refusals usdc_mint db at = map (refusal_delivery usdc_mint) (
    take scan_limit
      (sort_refusals (filter (is_fresh_refusal db.claims at) (joined_refusals db db.events))))
