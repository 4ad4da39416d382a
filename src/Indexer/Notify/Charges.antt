-- ===== src/Indexer/Notify/Charges.antt =====
-- apps/indexer/src/notify.ts: dueFromCache and upcoming, the charges that are announced.
use cancel_chain.Common.{
  ℕ, ◌+◌, ◌-◌, ◌*◌, ◌/◌, String, Bool, true, not, ◌&&◌, Option, none, some, List, [], ◌∷◌, ◌++◌,
  map, ltb, leb, if◌then◌else◌, is_none, take, filter, any, includes, add_to,
}
use cancel_chain.Shared.Allowance.{Allowance, is_active}
use cancel_chain.Indexer.Retention.{upcoming, period_ref, Claim}
use cancel_chain.Indexer.Notify.{
  Delivery, NotifyTables, PushSubscription, claimed, max, normal, party_of, same_claim, scan_limit,
  subscribed, upcoming_lead_ms, upcoming_message,
}

-- A permission whose next charge is due, with one subscription.
pub record DueRow : Type 0 where
  pub allowance : Allowance
  pub period_seconds : ℕ
  pub period_started_at : ℕ
  pub subscription : PushSubscription

abbrev pub due_at : DueRow → ℕ
due_at r = r.period_started_at + r.period_seconds * 1000

abbrev pub due_claim : DueRow → Claim
due_claim r = record {
  subscription_id = r.subscription.id;
  kind = upcoming;
  occasion = period_ref r.allowance.pda r.period_started_at;
}

-- The columns of `where` that are the permission's own, with its period and its start.
unfoldable pub due_period : Allowance → Option ℕ → Option ℕ → Option (ℕ × ℕ)
due_period a none start = none
due_period a (some period) none = none
due_period a (some period) (some start) =
    if is_active a.status && is_none a.ends_at && is_none a.paused_at
    then some (period, start)
    else none

abbrev pub is_asked : Option (List String) → String → Bool
is_asked none pda = true
is_asked (some pdas) pda = includes pdas pda

unfoldable pub rows_of : Allowance → Option (ℕ × ℕ) → List PushSubscription → List DueRow
rows_of a none subscriptions = []
rows_of a (some (period, start)) subscriptions =
    map
      (λ s. record {
        allowance = a;
        period_seconds = period;
        period_started_at = start;
        subscription = s;
      })
      (subscribed a.owner subscriptions)

unfoldable pub joined_due : List (String × Allowance) → List PushSubscription → List DueRow
joined_due [] subscriptions = []
joined_due ((pda, a) ∷ rows) subscriptions =
    rows_of a (due_period a a.period_seconds a.period_started_at) subscriptions
    ++ joined_due rows subscriptions

unfoldable pub is_due : ℕ → ℕ → Option (List String) → DueRow → Bool
is_due lead_ms at pdas r =
    ltb at (due_at r) && leb (due_at r) (at + lead_ms) && is_asked pdas r.allowance.pda

-- What the code keeps of the rows that the query gave: a short period is told a quarter ahead.
unfoldable pub is_near : ℕ → ℕ → DueRow → Bool
is_near lead_ms at r = leb (due_at r - at) (upcoming_lead_ms r.period_seconds lead_ms)

unfoldable pub due_from_cache : ℕ → NotifyTables → ℕ → Option (List String) → List DueRow
due_from_cache lead_ms db at pdas =
    filter (is_near lead_ms at) (
      take scan_limit (filter (is_due lead_ms at pdas) (joined_due db.allowances db.subscriptions)))

-- `confirmed.has(…)`: the same subscription and the same period.
unfoldable pub is_confirmed : List String → List DueRow → DueRow → Bool
is_confirmed on_chain again r =
    any (λ s. includes on_chain s.allowance.pda && same_claim (due_claim r) (due_claim s)) again

unfoldable pub open_rows : NotifyTables → List DueRow → List DueRow
open_rows db = filter (λ r. not (claimed db.claims (due_claim r)))

unfoldable pub pdas_of : List String → List DueRow → List String
pdas_of known [] = known
pdas_of known (r ∷ rs) = pdas_of (add_to known r.allowance.pda) rs

abbrev pub upcoming_delivery : String → ℕ → DueRow → Delivery
upcoming_delivery usdc_mint at r = record {
  claim = due_claim r;
  target = r.subscription.target;
  message = upcoming_message (party_of r.allowance usdc_mint) r.allowance.cap_amount (due_at r);
  ttl_seconds = max 60 ((due_at r - at) / 1000);
  urgency = normal;
}

-- `refresh` reads the permissions again: their table after it, and which of them are there. A
-- reading that fails ends the pass before anything of this is sent.
module _
    (refresh : List (String × Allowance) → List String → List (String × Allowance) × List String)
    (usdc_mint : String) (lead_ms : ℕ) where
  abbrev confirm :
      NotifyTables
      → ℕ
      → List DueRow
      → List (String × Allowance) × List String
      → NotifyTables × List Delivery
  confirm before at rows (allowances, on_chain) = (
    record before { allowances = allowances },
    map (upcoming_delivery usdc_mint at) (
        filter
          (is_confirmed on_chain (
            due_from_cache lead_ms (record before { allowances = allowances }) at
              (some (pdas_of [] rows))))
          rows),
  )

  unfoldable pub confirm_open : NotifyTables → ℕ → List DueRow → NotifyTables × List Delivery
  confirm_open db at [] = (db, [])
  confirm_open db at (r ∷ rows) =
      confirm db at (r ∷ rows) (refresh db.allowances (pdas_of [] (r ∷ rows)))

  unfoldable pub upcoming_charges : NotifyTables → ℕ → NotifyTables × List Delivery
  upcoming_charges db at = confirm_open db at (open_rows db (due_from_cache lead_ms db at none))
