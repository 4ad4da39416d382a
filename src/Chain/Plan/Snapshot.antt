-- ===== src/Chain/Plan/Snapshot.antt =====
-- packages/chain/src/plan.ts: what a snapshot says of its account.
use cancel_chain.Common.{
  ◌≡◌, ◌↔◌, subst, ◌<◌, ◌≤◌, refl, ap, ◌∙◌, String, true, Option, some, arith, eq_iff, length,
  succeeds, ok,
}
use cancel_chain.Shared.Primitives.{max_safe_integer}
use cancel_chain.Chain.Read.{Account}
use cancel_chain.Chain.Read.Plans.{starts_with}
use cancel_chain.Chain.Instructions.{IsoText}
use cancel_chain.Chain.Plan.{
  PlanReader, PlanSnapshot, DecodedPlan, moment, snapshot, read_plan, there, plan_status, present,
  sunset, period_hours_from_chain,
}

module _ (reader : PlanReader) (pda : String) where
  -- The snapshot says what the decoded account holds.
  pub record IsSnapshotOf (d : DecodedPlan) (s : PlanSnapshot) : Type 0 where
    pub at : s.pda ≡ pda
    pub owner : s.owner ≡ d.owner
    pub closing : (s.status ≡ sunset) ↔ (d.status ≡ reader.sunset_status)
    pub plan_id : s.plan_id ≡ d.plan_id
    pub mint : s.mint ≡ d.mint
    pub amount : s.amount ≡ d.amount
    pub period : s.period_hours ≡ d.period_hours
    pub period_positive : 0 < d.period_hours
    pub period_safe : d.period_hours ≤ max_safe_integer
    pub created : moment d.created_at ≡ ok s.created_at
    pub ends : moment d.end_ts ≡ ok s.ends_at
    pub to : s.destinations ≡ present reader d.destinations
    pub by : s.pullers ≡ present reader d.pullers

  abbrev snapshot_at : DecodedPlan → Option IsoText → Option IsoText → PlanSnapshot
  snapshot_at d created ends = record {
    pda = pda;
    owner = d.owner;
    status = plan_status reader d.status;
    plan_id = d.plan_id;
    mint = d.mint;
    amount = d.amount;
    period_hours = d.period_hours;
    created_at = created;
    ends_at = ends;
    destinations = present reader d.destinations;
    pullers = present reader d.pullers;
    metadata_uri = d.metadata_uri;
  }

  snapshot_sound :
      (d : DecodedPlan) (s : PlanSnapshot) → snapshot reader pda d ≡ ok s → IsSnapshotOf d s
  unfolding snapshot period_hours_from_chain plan_status
  snapshot_sound d s h =
      let (created, c) = succeeds (moment d.created_at) (λ e fails. ground arith) in
      let (ends, e) = succeeds (moment d.end_ts) (λ e fails. ground (arith, c)) in
      let same : snapshot_at d created ends ≡ s = ground (arith, c, e) in
      subst (IsSnapshotOf d) same (record {
        at = refl;
        owner = refl;
        closing = ground arith;
        plan_id = refl;
        mint = refl;
        amount = refl;
        period = refl;
        period_positive = ground (arith, c, e);
        period_safe = ground (arith, c, e);
        created = c;
        ends = e;
        to = refl;
        by = refl;
      })

  -- A plan is shown only where its account is there, is the program's, and has the size and the
  -- first byte of a plan; and then the snapshot says what the account holds, its parties without
  -- the program's empty places, with a period that is positive and exact.
  pub read_plan-IsSnapshotOf :
      (s : PlanSnapshot)
      → read_plan reader pda ≡ ok s
      → (a : Account) × (reader.get_account_info pda ≡ ok (some a))
        × (a.account_owner ≡ reader.program_address)
        × (length a.bytes ≡ reader.plan_size)
        × (starts_with a.bytes reader.plan_discriminator ≡ true)
        × IsSnapshotOf (reader.decode_plan a.bytes) s
  unfolding read_plan
  read_plan-IsSnapshotOf s h =
      let (value, answer) = succeeds (reader.get_account_info pda) (λ e fails. ground arith) in
      let (a, there_is) = succeeds (there pda value) (λ e fails. ground (arith, answer)) in
      let known : value ≡ some a = ground (arith, there_is) in
      (
        a,
        answer ∙ ap ok known,
        ground (arith, answer, known, eq_iff a.account_owner reader.program_address),
        ground (arith, answer, known),
        ground (arith, answer, known),
        snapshot_sound (reader.decode_plan a.bytes) s (ground (arith, answer, known)),
      )
