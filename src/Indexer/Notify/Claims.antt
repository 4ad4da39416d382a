-- ===== src/Indexer/Notify/Claims.antt =====
-- apps/indexer/src/notify.ts: a claim refers to its subscription, which may be removed on the way.
use cancel_chain.Common.{
  ℕ, ◌≡◌, ◌⊎◌, refl, inl, inr, String, true, not, ◌&&◌, ◌||◌, List, [], ◌∷◌, ◌++◌, Option, none,
  some, arith, Bool-cases, str_eq, leb, take, ◌==◌, ==_iff, filter, All, All-append, All-take,
  All-filter, All-imp, All-of-map, Result, ok,
}
use cancel_chain.Common.Dict.{get}
use cancel_chain.Shared.Allowance.{Allowance}
use cancel_chain.Indexer.Store.{EventRow}
use cancel_chain.Indexer.Retention.{Claim}
use cancel_chain.Indexer.Notify.{
  NotifyTables, PushSubscription, Delivery, claimed, scan_limit, subscribed,
}
use cancel_chain.Indexer.Notify.Refusals.{
  Refusal, refusal_delivery, refusals, refusals_of_event, joined_refusals, insert_refusal,
  sort_refusals, is_fresh_refusal,
}
use cancel_chain.Indexer.Notify.Charges.{
  DueRow, due_claim, due_period, rows_of, joined_due, is_due, is_near, is_confirmed, due_from_cache,
  open_rows, upcoming_delivery, pdas_of, confirm_open, upcoming_charges,
}
use cancel_chain.Indexer.Notify.Deliver.{
  Outcome, delivered, gone, refused, unreachable, Pass, has_id, is_there, sent_once, settle,
  NotifyError, deliver, deliver_all, pass,
}

-- The subscription is there, or was removed in this pass.
abbrev pub IsAccounted : Pass → ℕ → Type 0
IsAccounted p id = (is_there id p.db.subscriptions ≡ true) ⊎ (has_id id p.removed ≡ true)

is_there-cascade :
    (id n : ℕ) (subs : List PushSubscription)
    → is_there id (filter (λ s. not (s.id == n)) subs) ≡ (is_there id subs && not (id == n))
is_there-cascade id n [] = refl
is_there-cascade id n (s ∷ subs) = ground (arith, is_there-cascade id n subs)

IsAccounted-settle :
    (p : Pass) (c : Claim) (o : Outcome) (id : ℕ)
    → IsAccounted p id
    → IsAccounted (settle (sent_once p c o) c o) id
unfolding settle
IsAccounted-settle p c delivered id h = h
IsAccounted-settle p c refused id h = h
IsAccounted-settle p c unreachable id h = h
IsAccounted-settle p c gone id h =
    ground (arith, h, is_there-cascade id c.subscription_id p.db.subscriptions)

-- No sending throws, whatever was sent before.
abbrev pub Sends : (List (Claim × Outcome) → Delivery → Result NotifyError Outcome) → Type 0
Sends send = (sends : List (Claim × Outcome)) (d : Delivery) → (o : Outcome) × (send sends d ≡ ok o)

module _ (send : List (Claim × Outcome) → Delivery → Result NotifyError Outcome)
    (sends : Sends send) where
  deliver_total :
      (p : Pass) (d : Delivery)
      → IsAccounted p d.claim.subscription_id
      → (q : Pass) × (deliver send p d ≡ ok q) × ((id : ℕ) → IsAccounted p id → IsAccounted q id)
  unfolding deliver
  deliver_total p d h =
      elim (Bool-cases (has_id d.claim.subscription_id p.removed || claimed p.db.claims d.claim)) [
        | inl skip ↦ (p, ground arith, λ id k. k)
        | inr take ↦
            let (o, sent) = sends p.sends d in
            (
              settle (sent_once p d.claim o) d.claim o,
              ground (arith, h, sent),
              λ id k. IsAccounted-settle p d.claim o id k,
            )
      ]

  -- A pass over deliveries to subscriptions that are there when it starts never claims for one that
  -- is not: it ends with its result, though subscriptions are removed on the way.
  pub deliver_all_total :
      (p : Pass) (ds : List Delivery)
      → All (λ d. IsAccounted p d.claim.subscription_id) ds
      → (q : Pass) × (deliver_all send p ds ≡ ok q)
  unfolding deliver_all
  deliver_all_total p [] h = (p, refl)
  deliver_all_total p (d ∷ ds) (here, later) =
      let (m, one, keeps) = deliver_total p d here in
      let (q, rest) = deliver_all_total m ds (
        All-imp (λ x. IsAccounted p x.claim.subscription_id)
          (λ x. IsAccounted m x.claim.subscription_id) (λ x k. keeps x.claim.subscription_id k) ds
          later) in
      (q, ground (arith, one, rest))

abbrev Reaches : List PushSubscription → PushSubscription → Type 0
Reaches subs s = is_there s.id subs ≡ true

all-reached :
    (all subs : List PushSubscription)
    → ((id : ℕ) → is_there id subs ≡ true → is_there id all ≡ true)
    → All (Reaches all) subs
all-reached all [] within = tt
all-reached all (s ∷ subs) within = (
  within s.id (ground (arith, ==_iff s.id s.id)),
  all-reached all subs (λ id there. within id (ground (arith, there))),
)

subscribed-reached :
    (subs : List PushSubscription) (owner : String) → All (Reaches subs) (subscribed owner subs)
unfolding subscribed
subscribed-reached subs owner =
    All-filter (Reaches subs) (λ s. str_eq s.owner owner) subs
      (all-reached subs subs (λ id there. there))

module _ (db : NotifyTables) where
  abbrev Heard : Refusal → Type 0
  Heard r = Reaches db.subscriptions r.subscription

  refusals_of_event-Heard :
      (id : ℕ) (event : EventRow) (a : Option Allowance)
      → All Heard (refusals_of_event id event a db.subscriptions)
  unfolding refusals_of_event
  refusals_of_event-Heard id event none = tt
  refusals_of_event-Heard id event (some a) =
      All-of-map Heard (λ s. record { id = id; event = event; allowance = a; subscription = s })
        (subscribed a.owner db.subscriptions) (subscribed-reached db.subscriptions a.owner)

  joined_refusals-Heard : (events : List (ℕ × EventRow)) → All Heard (joined_refusals db events)
  unfolding joined_refusals
  joined_refusals-Heard [] = tt
  joined_refusals-Heard ((id, event) ∷ events) =
      All-append Heard
        (refusals_of_event id event (get event.allowance_pda db.allowances) db.subscriptions)
        (joined_refusals db events) (refusals_of_event-Heard id event _)
        (joined_refusals-Heard events)

  insert-Heard :
      (r : Refusal) (rs : List Refusal) → Heard r → All Heard rs → All Heard (insert_refusal r rs)
  unfolding insert_refusal
  insert-Heard r [] h k = (h, tt)
  insert-Heard r (s ∷ rs) h (j, k) = elim (Bool-cases (leb r.event.block_time s.event.block_time)) [
    | inl before ↦ rw before (h, (j, k))
    | inr after ↦ rw after (j, insert-Heard r rs h k)
  ]

  sort-Heard : (rs : List Refusal) → All Heard rs → All Heard (sort_refusals rs)
  unfolding sort_refusals
  sort-Heard [] h = tt
  sort-Heard (r ∷ rs) (j, k) = insert-Heard r (sort_refusals rs) j (sort-Heard rs k)

  abbrev Claims : Delivery → Type 0
  Claims d = is_there d.claim.subscription_id db.subscriptions ≡ true

  refusals-Claims : (usdc_mint : String) (at : ℕ) → All Claims (refusals usdc_mint db at)
  unfolding refusals
  refusals-Claims usdc_mint at =
      let fresh = filter (is_fresh_refusal db.claims at) (joined_refusals db db.events) in
      All-of-map Claims (refusal_delivery usdc_mint) (take scan_limit (sort_refusals fresh)) (
        All-take Heard scan_limit (sort_refusals fresh) (
          sort-Heard fresh (
            All-filter Heard (is_fresh_refusal db.claims at) (joined_refusals db db.events)
              (joined_refusals-Heard db.events))))

  abbrev Told : DueRow → Type 0
  Told r = Reaches db.subscriptions r.subscription

  rows_of-Told : (a : Allowance) (p : Option (ℕ × ℕ)) → All Told (rows_of a p db.subscriptions)
  unfolding rows_of
  rows_of-Told a none = tt
  rows_of-Told a (some (period, start)) =
      All-of-map Told
        (λ s. record {
          allowance = a;
          period_seconds = period;
          period_started_at = start;
          subscription = s;
        })
        (subscribed a.owner db.subscriptions) (subscribed-reached db.subscriptions a.owner)

  joined_due-Told : (rows : List (String × Allowance)) → All Told (joined_due rows db.subscriptions)
  unfolding joined_due
  joined_due-Told [] = tt
  joined_due-Told ((pda, a) ∷ rows) =
      All-append Told
        (rows_of a (due_period a a.period_seconds a.period_started_at) db.subscriptions)
        (joined_due rows db.subscriptions) (rows_of-Told a _) (joined_due-Told rows)

  module _
      (refresh : List (String × Allowance) → List String → List (String × Allowance) × List String)
      (usdc_mint : String) (lead_ms at : ℕ)
      (send : List (Claim × Outcome) → Delivery → Result NotifyError Outcome)
      (sends : Sends send) where
    -- The tables after the reading keep the subscriptions, and the deliveries claim for them.
    abbrev Safe : NotifyTables × List Delivery → Type 0
    Safe (read, ds) = (read.subscriptions ≡ db.subscriptions) × All Claims ds

    confirm_open-Safe :
        (rows : List DueRow)
        → All Told rows
        → Safe (confirm_open refresh usdc_mint lead_ms db at rows)
    unfolding confirm_open
    confirm_open-Safe [] h = (refl, tt)
    confirm_open-Safe (r ∷ rows) h =
        let pdas = pdas_of [] (r ∷ rows) in
        let (allowances, on_chain) = refresh db.allowances pdas in
        let read : NotifyTables = record db { allowances = allowances } in
        let again = is_confirmed on_chain (due_from_cache lead_ms read at (some pdas)) in
        (
          refl,
          All-of-map Claims (upcoming_delivery usdc_mint at) (filter again (r ∷ rows))
              (All-filter Told again (r ∷ rows) h),
        )

    upcoming-Safe : Safe (upcoming_charges refresh usdc_mint lead_ms db at)
    unfolding upcoming_charges open_rows due_from_cache
    upcoming-Safe =
        let joined = joined_due db.allowances db.subscriptions in
        let due = filter (is_due lead_ms at none) joined in
        let near = filter (is_near lead_ms at) (take scan_limit due) in
        confirm_open-Safe (open_rows db near) (
          All-filter Told (λ r. not (claimed db.claims (due_claim r))) near
            (All-filter Told (is_near lead_ms at) (take scan_limit due) (
              All-take Told scan_limit due
                (All-filter Told (is_due lead_ms at none) joined (joined_due-Told db.allowances)))))

    -- Where the second reading of the permissions succeeds and no sending throws, a pass ends with its
    -- result, whatever the tables hold and the push service answers: it never claims for a
    -- subscription that is not there, though some are removed on the way.
    pub pass_total : (q : Pass) × (pass send refresh usdc_mint lead_ms db at ≡ ok q)
    unfolding pass
    pass_total =
        let (read, due) = upcoming_charges refresh usdc_mint lead_ms db at in
        let (same, claims) = upcoming-Safe in
        let start : Pass = record {
          db = read;
          result = record { sent = 0; gone = 0; failed = 0 };
          removed = [];
          sends = [];
        } in
        let all = refusals usdc_mint db at ++ due in
        deliver_all_total send sends start all (
          All-imp Claims (λ d. IsAccounted start d.claim.subscription_id)
            (λ d c. inl (ground (arith, c, same))) all
            (All-append Claims (refusals usdc_mint db at) due (refusals-Claims usdc_mint at)
              claims))
