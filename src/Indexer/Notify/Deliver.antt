-- ===== src/Indexer/Notify/Deliver.antt =====
-- apps/indexer/src/notify.ts and packages/push/src/send.ts: one delivery, and a pass over all of
-- them. The push service's answer is a parameter that may depend on what was sent before.
use cancel_chain.Common.{
  ℕ, suc, String, Bool, false, not, ◌&&◌, ◌||◌, Option, none, some, List, [], ◌∷◌, ◌++◌, ltb, leb,
  ◌==◌, if◌then◌else◌, filter, any, Result, ok, throw, ◌>>=◌,
}
use cancel_chain.Shared.Allowance.{Allowance}
use cancel_chain.Indexer.Retention.{Claim}
use cancel_chain.Indexer.Notify.{NotifyTables, PushSubscription, Delivery, same_claim, claimed}
use cancel_chain.Indexer.Notify.Refusals.{refusals}
use cancel_chain.Indexer.Notify.Charges.{upcoming_charges}

pub data Outcome : Type 0 where
  delivered gone refused unreachable : Outcome

-- The last lines of `send`: the outcome of an answer's status, `none` for no answer at all.
unfoldable pub outcome_of : Option ℕ → Outcome
outcome_of none = unreachable
outcome_of (some status) =
    if leb 200 status && ltb status 300
    then delivered
    else if status == 404 || status == 410
    then gone
    else if status == 429 || leb 500 status
    then unreachable
    else refused

pub record NotifyResult : Type 0 where
  pub sent : ℕ
  pub gone : ℕ
  pub failed : ℕ

pub data NotifyError : Type 0 where
  no_such_subscription bad_request : NotifyError

-- The tables, the running totals, the subscriptions that are gone, and what was sent so far.
pub record Pass : Type 0 where
  pub db : NotifyTables
  pub result : NotifyResult
  pub removed : List ℕ
  pub sends : List (Claim × Outcome)

abbrev pub has_id : ℕ → List ℕ → Bool
has_id id [] = false
has_id id (n ∷ ns) = n == id || has_id id ns

abbrev pub is_there : ℕ → List PushSubscription → Bool
is_there id = any (λ s. s.id == id)

abbrev pub without_claim : Claim → List Claim → List Claim
without_claim c = filter (λ x. not (same_claim c x))

-- The claim, then the send.
abbrev pub sent_once : Pass → Claim → Outcome → Pass
sent_once p c o = record p {
  db = record p.db { claims = p.db.claims ++ (c ∷ []) };
  sends = p.sends ++ ((c, o) ∷ []);
}

-- Deleting a subscription takes its claims with it.
unfoldable pub settle : Pass → Claim → Outcome → Pass
settle p c delivered = record p { result = record p.result { sent = suc p.result.sent } }
settle p c gone = record p {
  db = record p.db {
    subscriptions = filter (λ s. not (s.id == c.subscription_id)) p.db.subscriptions;
    claims = filter (λ x. not (x.subscription_id == c.subscription_id)) p.db.claims;
  };
  removed = c.subscription_id ∷ p.removed;
  result = record p.result { gone = suc p.result.gone };
}
settle p c refused = record p { result = record p.result { failed = suc p.result.failed } }
settle p c unreachable = record p {
  db = record p.db { claims = without_claim c p.db.claims };
  result = record p.result { failed = suc p.result.failed };
}

-- `send` is given what was sent before; it throws where the request cannot be made, which ends the
-- pass.
module _ (send : List (Claim × Outcome) → Delivery → Result NotifyError Outcome) where
  unfoldable pub deliver : Pass → Delivery → Result NotifyError Pass
  deliver p d =
      if has_id d.claim.subscription_id p.removed || claimed p.db.claims d.claim
      then ok p
      else if not (is_there d.claim.subscription_id p.db.subscriptions)
      then throw no_such_subscription
      else (send p.sends d >>= (λ o. ok (settle (sent_once p d.claim o) d.claim o)))

  unfoldable pub deliver_all : Pass → List Delivery → Result NotifyError Pass
  deliver_all p [] = ok p
  deliver_all p (d ∷ ds) = deliver p d >>= (λ q. deliver_all q ds)

  -- `pass`
  unfoldable pub pass :
      (refresh : List (String × Allowance) → List String → List (String × Allowance) × List String)
      → (usdc_mint : String) → (lead_ms : ℕ) → NotifyTables
      → ℕ
      → Result NotifyError Pass
  pass refresh usdc_mint lead_ms db at =
      let (read, due) = upcoming_charges refresh usdc_mint lead_ms db at in
      deliver_all
        (record {
          db = read;
          result = record { sent = 0; gone = 0; failed = 0 };
          removed = [];
          sends = [];
        })
        (refusals usdc_mint db at ++ due)
