-- ===== src/Indexer/Tests/Telling.antt =====
-- One wallet with a refusal and a charge that is due, one subscription, and a push service that
-- answers every push.
use cancel_chain.Common.{
  Result, ℕ, ◌+◌, ◌-◌, ◌*◌, ◌≡◌, ◌≤◌, ◌<◌, refl, arith, String, true, false, not, none, some, List,
  [], ◌∷◌, length, filter, ok,
}
use cancel_chain.Common.Int.{pos, ltb_ℤ}
use cancel_chain.Shared.Allowance.{Allowance, active, subscription, EventKind}
use cancel_chain.Indexer.Store.{EventRow, no_detail}
use cancel_chain.Indexer.Retention.{
  Claim, rejected, event_ref, RetentionTables, RetentionResult, run_retention, day_ms,
}
use cancel_chain.Indexer.Retention.Kept.{run_retention_kept}
use cancel_chain.Indexer.Notify.{
  NotifyTables, rejected_message, party_of, high, PushSubscription, Delivery, claimed, same_claim,
}
use cancel_chain.Indexer.Notify.Deliver.{
  NotifyError, Outcome, delivered, Pass, deliver, deliver_all, pass, settle,
}
use cancel_chain.Indexer.Notify.Once.{told, deliver_all-once}
use cancel_chain.Indexer.Notify.Claims.{pass_total}
use cancel_chain.Indexer.Notify.Runs.{
  Running, call, pass_ends, called, ended, Reached, at_first, then_step, Reached-IsServed,
}

abbrev permission : Allowance
permission = record {
  pda = "permission";
  owner = "wallet";
  delegate = "merchant";
  mint = "mint";
  kind = subscription;
  cap_amount = 5_000_000;
  period_seconds = some 2_592_000;
  spent_in_period = 0;
  period_started_at = some 1_790_000_000_000;
  expires_at = none;
  paused_at = none;
  ends_at = none;
  status = active;
  plan_pda = some "plan";
  last_slot = 500;
  synced_at = 1_790_000_000_000;
}

abbrev refusal : EventRow
refusal = record {
  signature = "signature";
  slot = 500;
  block_time = 1_792_500_000_000;
  allowance_pda = "permission";
  position = 0;
  kind = EventKind.rejected;
  amount = some 7_000_000;
  reason = none;
  charges_stop_at = none;
  raw = record { logs = []; log_count = 0; block_time_estimated = false };
  detail = no_detail;
}

abbrev browser : PushSubscription
browser = record {
  id = 4;
  owner = "wallet";
  target = record { endpoint = "https://push.example"; p256dh = "key"; auth = "secret" };
  created_at = 1_790_000_000_000;
}

abbrev tables : NotifyTables
tables = record {
  allowances = ("permission", permission) ∷ [];
  events = (12, refusal) ∷ [];
  subscriptions = browser ∷ [];
  claims = [];
}

abbrev refresh : List (String × Allowance) → List String → List (String × Allowance) × List String
refresh rows pdas = (rows, pdas)

abbrev send : List (Claim × Outcome) → Delivery → Result NotifyError Outcome
send sends d = ok delivered

pass_total_example :
    (q : Pass) × (pass send refresh "mint" 86_400_000 tables 1_792_520_000_000 ≡ ok q)
pass_total_example =
    pass_total tables refresh "mint" 86_400_000 1_792_520_000_000 send
      (λ sends d. (delivered, refl))

abbrev refused_claim : Claim
refused_claim = record { subscription_id = 4; kind = rejected; occasion = event_ref 12 }

abbrev start : Pass
start = record {
  db = tables;
  result = record { sent = 0; gone = 0; failed = 0 };
  removed = [];
  sends = [];
}

abbrev done : Pass
done = record {
  db = record tables { claims = refused_claim ∷ [] };
  result = record { sent = 1; gone = 0; failed = 0 };
  removed = [];
  sends = (refused_claim, delivered) ∷ [];
}

abbrev push : Delivery
push = record {
  claim = refused_claim;
  target = browser.target;
  message = rejected_message (party_of permission "mint") (some 7_000_000) none 1_792_500_000_000;
  ttl_seconds = 86_400;
  urgency = high;
}

sent-twice : deliver_all send start (push ∷ push ∷ []) ≡ ok done
unfolding deliver_all deliver settle claimed same_claim
sent-twice = refl

deliver_all-once_example :
    (told refused_claim done.sends ≤ 1)
    × (claimed start.db.claims refused_claim ≡ true → told refused_claim done.sends ≡ 0)
deliver_all-once_example =
    deliver_all-once send refused_claim start done (push ∷ push ∷ []) refl sent-twice

abbrev row : ℕ → EventRow
row time = record refusal { block_time = time }

abbrev feed : RetentionTables
feed = record {
  events = row 1_000 ∷ row 1_790_000_000_000 ∷ row 2_000 ∷ [];
  deliveries = [];
  retention = none;
}

run_retention_kept_example :
    (after : RetentionTables) × (result : RetentionResult) × (run_retention feed
        (some 90)
        1_790_000_000_000
        1
      ≡ ok (after, result))
    × (result.kept_since ≡ some (pos (1_790_000_000_000 - 90 * day_ms)))
    × (after.events
        ≡ filter
            (λ r. not (ltb_ℤ (pos r.block_time) (pos (1_790_000_000_000 - 90 * day_ms))))
            feed.events)
    × (after.deliveries ≡ [])
    × (result.deleted_events + length after.events ≡ 3)
run_retention_kept_example =
    run_retention_kept feed 90 1_790_000_000_000 1 (omega arith) (omega arith) (omega arith)

-- A second call while a pass runs, and the pass that it is owed.
abbrev twice : Running
twice = record { running = false; again = false; started = 2; asked = some 1 }

twice-reached : Reached twice
unfolding call pass_ends
twice-reached =
    then_step _ _
      (then_step _ _ (then_step _ _ (then_step _ _ at_first (called _)) (called _)) (ended _ refl))
      (ended _ refl)

Reached-IsServed_example : 1 < 2
Reached-IsServed_example = Reached-IsServed twice 1 twice-reached refl refl
